-- ===== src/Engine/ImmediateTaskPages/Coverage.antt =====
-- mergeImmediateTaskPages of engine/immediate_task_queue.go: the merged pages cover the sequences that
-- the pages cover, and stand apart from each other.
use xdb.Prelude.{
  ℕ, ◌+◌, ◌≤◌, ◌<◌, arith, Bool, true, false, List, [], ◌∷◌, ◌≡◌, refl, sym, ap, ◌∙◌, ltb, leb,
  ◌&&◌, ◌||◌, Bool-cases, inl, inr, All, All-map,
}
use xdb.Database.Tasks.{sort_by, insert_by}
use xdb.Database.Tasks.Sorting.{IsSorted, sort_by-IsSorted, All-sort_by}
use xdb.Engine.ImmediateTaskPages.{
  ImmediateTaskPage, page_le, extended, merge_from, merge_sorted, merge_immediate_task_pages,
}

abbrev pub in_page : ℕ → ImmediateTaskPage → Bool
in_page n p = leb p.min_task_sequence n && leb n p.max_task_sequence

-- A page of the list holds the sequence.
abbrev pub is_covered : ℕ → List ImmediateTaskPage → Bool
is_covered n [] = false
is_covered n (p ∷ ps) = in_page n p || is_covered n ps

or_swap : (a b c : Bool) → (a || (b || c)) ≡ (b || (a || c))
or_swap true true c = refl
or_swap true false c = refl
or_swap false true c = refl
or_swap false false c = refl

is_covered-insert_by :
    (n : ℕ) (p : ImmediateTaskPage) (ps : List ImmediateTaskPage)
    → is_covered n (insert_by page_le p ps) ≡ (in_page n p || is_covered n ps)
unfolding insert_by
is_covered-insert_by n p [] = refl
is_covered-insert_by n p (q ∷ ps) = elim (Bool-cases (page_le p q)) [
  | inl below ↦ rw below refl
  | inr above ↦
      rw (above, is_covered-insert_by n p ps)
        (or_swap (in_page n q) (in_page n p) (is_covered n ps))
]

is_covered-sort_by :
    (n : ℕ) (ps : List ImmediateTaskPage) → is_covered n (sort_by page_le ps) ≡ is_covered n ps
unfolding sort_by
is_covered-sort_by n [] = refl
is_covered-sort_by n (p ∷ ps) =
    is_covered-insert_by n p (sort_by page_le ps)
    ∙ ap (λ b. in_page n p || b) (is_covered-sort_by n ps)

-- A page has a first and a last sequence.
abbrev pub IsPage : ImmediateTaskPage → Type 0
IsPage p = p.min_task_sequence ≤ p.max_task_sequence

in_page-extended :
    (n : ℕ) (last p : ImmediateTaskPage)
    → IsPage last
    → last.min_task_sequence ≤ p.min_task_sequence
    → ltb (last.max_task_sequence + 1) p.min_task_sequence ≡ false
    → ltb last.max_task_sequence p.max_task_sequence ≡ true
    → in_page n (extended last p) ≡ (in_page n last || in_page n p)
in_page-extended n last p i below near longer = ground arith

in_page-within :
    (n : ℕ) (last p : ImmediateTaskPage)
    → last.min_task_sequence ≤ p.min_task_sequence
    → ltb last.max_task_sequence p.max_task_sequence ≡ false
    → (in_page n last || in_page n p) ≡ in_page n last
in_page-within n last p below within = ground arith

or_assoc : (a b c : Bool) → ((a || b) || c) ≡ (a || (b || c))
or_assoc true b c = refl
or_assoc false b c = refl

merge_from-is_covered :
    (n : ℕ) (last : ImmediateTaskPage) (ps : List ImmediateTaskPage)
    → IsPage last
    → All IsPage ps
    → IsSorted (λ p. p.min_task_sequence) (last ∷ ps)
    → is_covered n (merge_from last ps) ≡ (in_page n last || is_covered n ps)
unfolding merge_from
merge_from-is_covered n last [] i h s = refl
merge_from-is_covered n last (p ∷ ps) i h s =
    elim (Bool-cases (ltb (last.max_task_sequence + 1) p.min_task_sequence)) [
      | inl apart ↦
          rw apart (ap (λ b. in_page n last || b) (merge_from-is_covered n p ps h.0 h.1 s.1))
      | inr near ↦ elim (Bool-cases (ltb last.max_task_sequence p.max_task_sequence)) [
        | inl longer ↦
            rw (near, longer)
              (merge_from-is_covered n (extended last p) ps (ground arith) h.1 (s.0.1, s.1.1)
                ∙ ap (λ b. b || is_covered n ps) (in_page-extended n last p i s.0.0 near longer)
                ∙ or_assoc (in_page n last) (in_page n p) (is_covered n ps))
        | inr within ↦
            rw (near, within)
              (merge_from-is_covered n last ps i h.1 (s.0.1, s.1.1)
                ∙ ap (λ b. b || is_covered n ps) (sym (in_page-within n last p s.0.0 within))
                ∙ or_assoc (in_page n last) (in_page n p) (is_covered n ps))
      ]
    ]

page_le-true :
    (a b : ImmediateTaskPage) → page_le a b ≡ true → a.min_task_sequence ≤ b.min_task_sequence
page_le-true a b h = ground (arith, h)

page_le-false :
    (a b : ImmediateTaskPage) → page_le a b ≡ false → b.min_task_sequence ≤ a.min_task_sequence
page_le-false a b h = ground (arith, h)

pages_in_order :
    (ps : List ImmediateTaskPage) → IsSorted (λ p. p.min_task_sequence) (sort_by page_le ps)
pages_in_order ps =
    sort_by-IsSorted (λ p. p.min_task_sequence) page_le page_le-true page_le-false ps

merge_sorted-is_covered :
    (n : ℕ) (ps : List ImmediateTaskPage)
    → All IsPage ps
    → IsSorted (λ p. p.min_task_sequence) ps
    → is_covered n (merge_sorted ps) ≡ is_covered n ps
unfolding merge_sorted
merge_sorted-is_covered n [] h s = refl
merge_sorted-is_covered n (p ∷ ps) h s = merge_from-is_covered n p ps h.0 h.1 s

-- The merged pages hold just the sequences that the pages hold, in whatever order they come.
pub merge_immediate_task_pages-is_covered :
    (n : ℕ) (ps : List ImmediateTaskPage)
    → All IsPage ps
    → is_covered n (merge_immediate_task_pages ps) ≡ is_covered n ps
unfolding merge_immediate_task_pages
merge_immediate_task_pages-is_covered n ps h =
    merge_sorted-is_covered n (sort_by page_le ps) (All-sort_by IsPage page_le ps h)
      (pages_in_order ps)
    ∙ is_covered-sort_by n ps

-- Between a page and those after it lies a sequence that no page holds.
abbrev pub IsApart : List ImmediateTaskPage → Type 0
IsApart [] = Unit
IsApart (p ∷ ps) = All (λ q. p.max_task_sequence + 1 < q.min_task_sequence) ps × IsApart ps

merge_from-All :
    (last : ImmediateTaskPage) (ps : List ImmediateTaskPage)
    → IsSorted (λ p. p.min_task_sequence) (last ∷ ps)
    → All (λ q. last.min_task_sequence ≤ q.min_task_sequence) (merge_from last ps)
unfolding merge_from
merge_from-All last [] s = (omega arith, tt)
merge_from-All last (p ∷ ps) s =
    elim (Bool-cases (ltb (last.max_task_sequence + 1) p.min_task_sequence)) [
      | inl apart ↦ rw apart (
        omega arith,
        All-map _ _ (merge_from p ps) (λ q k. (let w = s.0.0 in omega arith))
            (merge_from-All p ps s.1),
      )
      | inr near ↦ elim (Bool-cases (ltb last.max_task_sequence p.max_task_sequence)) [
        | inl longer ↦ rw (near, longer) (merge_from-All (extended last p) ps (s.0.1, s.1.1))
        | inr within ↦ rw (near, within) (merge_from-All last ps (s.0.1, s.1.1))
      ]
    ]

merge_from-IsApart :
    (last : ImmediateTaskPage) (ps : List ImmediateTaskPage)
    → IsSorted (λ p. p.min_task_sequence) (last ∷ ps)
    → IsApart (merge_from last ps)
unfolding merge_from
merge_from-IsApart last [] s = (tt, tt)
merge_from-IsApart last (p ∷ ps) s =
    elim (Bool-cases (ltb (last.max_task_sequence + 1) p.min_task_sequence)) [
      | inl apart ↦ rw apart (
        All-map _ _ (merge_from p ps) (λ q k. ground (arith, apart, k)) (merge_from-All p ps s.1),
        merge_from-IsApart p ps s.1,
      )
      | inr near ↦ elim (Bool-cases (ltb last.max_task_sequence p.max_task_sequence)) [
        | inl longer ↦ rw (near, longer) (merge_from-IsApart (extended last p) ps (s.0.1, s.1.1))
        | inr within ↦ rw (near, within) (merge_from-IsApart last ps (s.0.1, s.1.1))
      ]
    ]

merge_sorted-IsApart :
    (ps : List ImmediateTaskPage)
    → IsSorted (λ p. p.min_task_sequence) ps
    → IsApart (merge_sorted ps)
unfolding merge_sorted
merge_sorted-IsApart [] s = tt
merge_sorted-IsApart (p ∷ ps) s = merge_from-IsApart p ps s

-- No two merged pages overlap or touch.
pub merge_immediate_task_pages-IsApart :
    (ps : List ImmediateTaskPage) → IsApart (merge_immediate_task_pages ps)
unfolding merge_immediate_task_pages
merge_immediate_task_pages-IsApart ps =
    merge_sorted-IsApart (sort_by page_le ps) (pages_in_order ps)
