-- ===== src/Engine/ImmediateTaskPages.antt =====
-- engine/immediate_task_queue.go: mergeImmediateTaskPages. A pending count is not negative, and a
-- merged page has the count 0.
pub mod Coverage
use xdb.Prelude.{ℕ, ◌+◌, Bool, List, [], ◌∷◌, ◌++◌, if◌then◌else◌, ltb, leb}
use xdb.Database.Tasks.{sort_by}

-- immediateTaskPage
pub record ImmediateTaskPage : Type 0 where
  pub min_task_sequence : ℕ
  pub max_task_sequence : ℕ
  pub pending_count : ℕ

-- The order of sort.Slice.
abbrev pub page_le : ImmediateTaskPage → ImmediateTaskPage → Bool
page_le a b = leb a.min_task_sequence b.min_task_sequence

abbrev pub extended : ImmediateTaskPage → ImmediateTaskPage → ImmediateTaskPage
extended last page = record {
  min_task_sequence = last.min_task_sequence;
  max_task_sequence = page.max_task_sequence;
  pending_count = 0;
}

-- One turn of the loop, with the last of `pages`: the pages that stay before the new last one.
abbrev pub merge_step :
    ImmediateTaskPage → ImmediateTaskPage → List ImmediateTaskPage × ImmediateTaskPage
merge_step last page =
    if ltb (last.max_task_sequence + 1) page.min_task_sequence
    then (last ∷ [], page)
    else if ltb last.max_task_sequence page.max_task_sequence
    then ([], extended last page)
    else ([], last)

unfoldable pub merge_from : ImmediateTaskPage → List ImmediateTaskPage → List ImmediateTaskPage
merge_from last [] = last ∷ []
merge_from last (page ∷ pages) =
    let step = merge_step last page in step.0 ++ merge_from step.1 pages

unfoldable pub merge_sorted : List ImmediateTaskPage → List ImmediateTaskPage
unfolding merge_from
merge_sorted [] = []
merge_sorted (page ∷ pages) = merge_from page pages

-- mergeImmediateTaskPages
unfoldable pub merge_immediate_task_pages : List ImmediateTaskPage → List ImmediateTaskPage
unfolding merge_sorted sort_by
merge_immediate_task_pages pages = merge_sorted (sort_by page_le pages)
