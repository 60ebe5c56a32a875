-- ===== src/Examples/SortedHeap.antt =====
-- A sorted slice meets the laws of container/heap.
use xdb.Prelude.{
  arith, Bool, true, false, not, ◌&&◌, List, [], ◌∷◌, ◌≡◌, refl, All, Bool-cases, inl, inr,
}
use xdb.Database.Rows.{TimerTaskRow}
use xdb.Database.Tasks.{insert_by, sort_by}
use xdb.Engine.TimerHeap.{HeapPackage, SameItems, less}

abbrev pub not_before : TimerTaskRow → List TimerTaskRow → Bool
not_before t [] = true
not_before t (u ∷ us) = not (less u t) && not_before t us

abbrev pub in_order : List TimerTaskRow → Bool
in_order [] = true
in_order (t ∷ ts) = not_before t ts && in_order ts

abbrev pub earlier : TimerTaskRow → TimerTaskRow → Bool
earlier a b = not (less b a)

and-true : (b c : Bool) → b ≡ true → c ≡ true → (b && c) ≡ true
and-true b c p q = rw (p, q) refl

pub and-left : (b c : Bool) → (b && c) ≡ true → b ≡ true
and-left b c h = ground arith

pub and-right : (b c : Bool) → (b && c) ≡ true → c ≡ true
and-right b c h = ground arith

pub not_before-All :
    (t : TimerTaskRow) (us : List TimerTaskRow)
    → not_before t us ≡ true
    → All (λ u. less u t ≡ false) us
not_before-All t [] h = tt
not_before-All t (u ∷ us) h =
    let first = and-left (not (less u t)) (not_before t us) h in
    (ground (arith, first), not_before-All t us (and-right (not (less u t)) (not_before t us) h))

not_before-later :
    (t u : TimerTaskRow) (us : List TimerTaskRow)
    → not (less u t) ≡ true
    → not_before u us ≡ true
    → not_before t us ≡ true
not_before-later t u [] h k = refl
not_before-later t u (x ∷ us) h k =
    let first = and-left (not (less x u)) (not_before u us) k in
    and-true (not (less x t)) (not_before t us) (ground (arith, first, h))
      (not_before-later t u us h (and-right (not (less x u)) (not_before u us) k))

not_before-insert_by :
    (t u : TimerTaskRow) (us : List TimerTaskRow)
    → not (less u t) ≡ true
    → not_before t us ≡ true
    → not_before t (insert_by earlier u us) ≡ true
unfolding insert_by
not_before-insert_by t u [] h k = and-true (not (less u t)) true h refl
not_before-insert_by t u (x ∷ us) h k = elim (Bool-cases (earlier u x)) [
  | inl e ↦ rw e (and-true (not (less u t)) _ h k)
  | inr e ↦ rw e (
      and-true (not (less x t)) _ (and-left (not (less x t)) (not_before t us) k)
        (not_before-insert_by t u us h (and-right (not (less x t)) (not_before t us) k)))
]

pub in_order-insert_by :
    (u : TimerTaskRow) (us : List TimerTaskRow)
    → in_order us ≡ true
    → in_order (insert_by earlier u us) ≡ true
unfolding insert_by
in_order-insert_by u [] h = refl
in_order-insert_by u (x ∷ us) h =
    let first = and-left (not_before x us) (in_order us) h in
    let rest = and-right (not_before x us) (in_order us) h in
    elim (Bool-cases (earlier u x)) [
      | inl e ↦ rw e (
          and-true _ (in_order (x ∷ us))
            (and-true (not (less x u)) (not_before u us) e (not_before-later u x us e first)) h)
      | inr e ↦ rw e (
          and-true _ _ (not_before-insert_by x u us (ground (arith, e)) first)
            (in_order-insert_by u us rest))
    ]

pub in_order-sort_by : (ts : List TimerTaskRow) → in_order (sort_by earlier ts) ≡ true
unfolding sort_by
in_order-sort_by [] = refl
in_order-sort_by (t ∷ ts) = in_order-insert_by t (sort_by earlier ts) (in_order-sort_by ts)

pub insert_by_same :
    (t : TimerTaskRow) (ts : List TimerTaskRow) → SameItems (insert_by earlier t ts) (t ∷ ts)
unfolding insert_by
insert_by_same t [] p = refl
insert_by_same t (u ∷ us) p = elim (Bool-cases (earlier t u)) [
  | inl e ↦ rw e refl
  | inr e ↦ rw e (omega (arith, insert_by_same t us p))
]

pub sort_by_same : (ts : List TimerTaskRow) → SameItems (sort_by earlier ts) ts
unfolding sort_by
sort_by_same [] p = refl
sort_by_same (t ∷ ts) p = omega (arith, insert_by_same t (sort_by earlier ts) p, sort_by_same ts p)

abbrev pub sorted_heap : HeapPackage
sorted_heap = record {
  init = sort_by earlier;
  push = λ h t. insert_by earlier t h;
  pop = λ t h. h;
  is_heap = in_order;
  nil-is_heap = refl;
  init-is_heap = in_order-sort_by;
  push-is_heap = λ h t e. in_order-insert_by t h e;
  pop-is_heap = λ t h e. and-right (not_before t h) (in_order h) e;
  init_same = sort_by_same;
  push_same = λ h t. insert_by_same t h;
  pop_same = λ t h p. refl;
  first_least = λ t h e. not_before-All t h (and-left (not_before t h) (in_order h) e);
}
