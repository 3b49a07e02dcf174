-- ===== src/Sequencer/Search.antt =====
-- The queue searches of src/sequencer.c, over the task objects that entries point to.
pub mod Found
use jam_tboard.Common.{ℤ, eq_ℤ, Option, none, some, [], ◌∷◌, if◌then◌else◌}
use jam_tboard.Task.{Ptr, Task}
use jam_tboard.Queue.{Queue, queue_insert_head}

module _ (task_at : Ptr → Task) where
  -- The entry found and the queue without it. The head is popped, the rest is searched, and a head
  -- that does not match is put back.
  unfoldable pub remove_queue_entry_by_id : Queue Ptr → ℤ → Option Ptr × Queue Ptr
  remove_queue_entry_by_id [] id = (none, [])
  remove_queue_entry_by_id (head ∷ q) id =
      let rest = remove_queue_entry_by_id q id in
      if eq_ℤ (task_at head).id id then (some head, q) else (rest.0, queue_insert_head head rest.1)

  unfoldable pub remove_queue_entry_by_type : Queue Ptr → ℤ → Option Ptr × Queue Ptr
  remove_queue_entry_by_type [] type = (none, [])
  remove_queue_entry_by_type (head ∷ q) type =
      let rest = remove_queue_entry_by_type q type in
      if eq_ℤ (task_at head).type type
      then (some head, q)
      else (rest.0, queue_insert_head head rest.1)
