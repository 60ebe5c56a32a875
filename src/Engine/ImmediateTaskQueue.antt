-- ===== src/Engine/ImmediateTaskQueue.antt =====
-- engine/immediate_task_queue.go: the state of immediateTaskQueueImpl and the two handlers of its
-- loop. A page is shared by the sequences of its tasks: `pages` is the store, and the map holds
-- addresses in it. The answer of the process store is an argument, a task is its row, and a
-- count of pending tasks is the 64-bit pattern of a Go int.
pub mod Counts
pub mod Accounting
use xdb.Prelude.{
  ℕ, suc, ◌+◌, ◌-◌, ◌%◌, ◌^◌, List, [], ◌∷◌, ◌++◌, Option, none, some, if◌then◌else◌, ◌==◌, length,
  GoMap, nat_key, Result, ok, err, panic,
}
use xdb.Prelude.Maps.{get, set, delete}
use xdb.Database.Rows.{ImmediateTaskRow}
use xdb.Process.Pages.{GetImmediateTasksResponse}
use xdb.Engine.ImmediateTaskPages.{ImmediateTaskPage}

-- immediateTaskQueueImpl
pub record ImmediateTaskQueue : Type 0 where
  pub current_read_cursor : ℕ
  pub pending_task_sequence_to_page : GoMap ℕ ℕ
  pub completed_pages : List ℕ
  pub pages : GoMap ℕ ImmediateTaskPage
  pub next_page : ℕ

abbrev pub new_immediate_task_queue : ImmediateTaskQueue
new_immediate_task_queue = record {
  current_read_cursor = 0;
  pending_task_sequence_to_page = [];
  completed_pages = [];
  pages = [];
  next_page = 0;
}

-- The loop over the tasks of a page.
unfoldable pub point_to : ℕ → List ImmediateTaskRow → GoMap ℕ ℕ → GoMap ℕ ℕ
unfolding set
point_to page [] m = m
point_to page (t ∷ ts) m = point_to page ts (set m t.task_sequence page)

abbrev pub new_page : GetImmediateTasksResponse → ImmediateTaskPage
new_page resp = record {
  min_task_sequence = resp.min_sequence_inclusive;
  max_task_sequence = resp.max_sequence_inclusive;
  pending_count = length resp.tasks;
}

unfoldable pub dispatch :
    ImmediateTaskQueue → GetImmediateTasksResponse → List ImmediateTaskRow → ImmediateTaskQueue
unfolding point_to set
dispatch q resp [] = q
dispatch q resp (t ∷ ts) = record {
  current_read_cursor = resp.max_sequence_inclusive + 1;
  pending_task_sequence_to_page = point_to q.next_page (t ∷ ts) q.pending_task_sequence_to_page;
  completed_pages = q.completed_pages;
  pages = set q.pages q.next_page (new_page resp);
  next_page = suc q.next_page;
}

-- pollAndDispatchAndPrepareNext: the queue, and the tasks that go to the processor
unfoldable pub poll_and_dispatch_and_prepare_next :
    Result GetImmediateTasksResponse
    → ImmediateTaskQueue
    → ImmediateTaskQueue × List ImmediateTaskRow
unfolding dispatch
poll_and_dispatch_and_prepare_next (err e) q = (q, [])
poll_and_dispatch_and_prepare_next (ok resp) q = (dispatch q resp resp.tasks, resp.tasks)

abbrev pub decrement : ℕ → ℕ
decrement count = (count + (2 ^ 64 - 1)) % 2 ^ 64

abbrev pub count_down : ImmediateTaskPage → ImmediateTaskPage
count_down page = record page { pending_count = decrement page.pending_count }

-- What is done with the page of the task; a nil page is a panic.
unfoldable pub complete_on_page :
    ImmediateTaskQueue → ℕ → Option ImmediateTaskPage → Result ImmediateTaskQueue
unfolding set
complete_on_page q address none = err panic
complete_on_page q address (some page) = ok (record q {
  pages = set q.pages address (count_down page);
  completed_pages =
      if decrement page.pending_count == 0
      then q.completed_pages ++ address ∷ []
      else q.completed_pages;
})

unfoldable pub complete_at : ImmediateTaskQueue → ℕ → Option ℕ → Result ImmediateTaskQueue
unfolding complete_on_page delete get
complete_at q sequence none = err panic
complete_at q sequence (some address) =
    complete_on_page
      (record q { pending_task_sequence_to_page = delete q.pending_task_sequence_to_page sequence })
      address (get q.pages address)

-- receiveCompletedTask
unfoldable pub receive_completed_task : ImmediateTaskQueue → ℕ → Result ImmediateTaskQueue
unfolding complete_at get
receive_completed_task q sequence =
    complete_at q sequence (get q.pending_task_sequence_to_page sequence)
