-- ===== src/Database/Tasks/Sorting.antt =====
-- ORDER BY and LIMIT in the statements of extensions/postgres: the rows they give are in order.
use xdb.Prelude.{
  ℕ, suc, zero, ◌≤◌, arith, Bool, true, false, List, [], ◌∷◌, take, ◌≡◌, Bool-cases, inl, inr, All,
  All-map,
}
use xdb.Database.Rows.{TimerTaskRow}
use xdb.Database.Tasks.{insert_by, sort_by, timer_le}

module _ {ℓ} {A : Type ℓ} (P : A → Type 0) where
  pub All-insert_by :
      (le : A → A → Bool) (x : A) (ys : List A) → P x → All P ys → All P (insert_by le x ys)
  unfolding insert_by
  All-insert_by le x [] p h = (p, tt)
  All-insert_by le x (y ∷ ys) p h = elim (Bool-cases (le x y)) [
    | inl small ↦ rw small (p, h)
    | inr large ↦ rw large (h.0, All-insert_by le x ys p h.1)
  ]

  pub All-sort_by : (le : A → A → Bool) (xs : List A) → All P xs → All P (sort_by le xs)
  unfolding sort_by
  All-sort_by le [] h = tt
  All-sort_by le (x ∷ xs) h = All-insert_by le x (sort_by le xs) h.0 (All-sort_by le xs h.1)

  pub All-take : (n : ℕ) (xs : List A) → All P xs → All P (take n xs)
  All-take zero xs h = tt
  All-take (suc n) [] h = tt
  All-take (suc n) (x ∷ xs) h = (h.0, All-take n xs h.1)

module _ {ℓ} {A : Type ℓ} (key : A → ℕ) where
  -- Every element is at most those after it.
  abbrev pub IsSorted : List A → Type 0
  IsSorted [] = Unit
  IsSorted (x ∷ xs) = All (λ y. key x ≤ key y) xs × IsSorted xs

  pub insert_by-IsSorted :
      (le : A → A → Bool)
      → ((x y : A) → le x y ≡ true → key x ≤ key y)
      → ((x y : A) → le x y ≡ false → key y ≤ key x)
      → (x : A) (ys : List A) → IsSorted ys
      → IsSorted (insert_by le x ys)
  unfolding insert_by
  insert_by-IsSorted le small large x [] h = (tt, tt)
  insert_by-IsSorted le small large x (y ∷ ys) h = elim (Bool-cases (le x y)) [
    | inl s ↦
        let below = small x y s in
        rw s ((below, All-map _ _ ys (λ z k. (let w = k in omega arith)) h.0), h)
    | inr l ↦ rw l (
      All-insert_by (λ z. key y ≤ key z) le x ys (large x y l) h.0,
      insert_by-IsSorted le small large x ys h.1,
    )
  ]

  pub sort_by-IsSorted :
      (le : A → A → Bool)
      → ((x y : A) → le x y ≡ true → key x ≤ key y)
      → ((x y : A) → le x y ≡ false → key y ≤ key x)
      → (xs : List A) → IsSorted (sort_by le xs)
  unfolding sort_by
  sort_by-IsSorted le small large [] = tt
  sort_by-IsSorted le small large (x ∷ xs) =
      insert_by-IsSorted le small large x (sort_by le xs) (sort_by-IsSorted le small large xs)

  pub take-IsSorted : (n : ℕ) (xs : List A) → IsSorted xs → IsSorted (take n xs)
  take-IsSorted zero xs h = tt
  take-IsSorted (suc n) [] h = tt
  take-IsSorted (suc n) (x ∷ xs) h =
      (All-take (λ y. key x ≤ key y) n xs h.0, take-IsSorted n xs h.1)

pub timer_le-true :
    (x y : TimerTaskRow) → timer_le x y ≡ true → x.fire_time_unix_seconds ≤ y.fire_time_unix_seconds
timer_le-true x y h = ground (arith, h)

pub timer_le-false :
    (x y : TimerTaskRow)
    → timer_le x y ≡ false
    → y.fire_time_unix_seconds ≤ x.fire_time_unix_seconds
timer_le-false x y h = ground (arith, h)
