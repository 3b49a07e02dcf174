-- ===== src/Examples/Boards.antt =====
-- A board with two secondary queues, and what the program does to it.
use jam_tboard.Common.{◌≡◌, refl, true, false, Option, none, some, [], pos, arith}
use jam_tboard.Task.{Task, RemoteTask, Function, primary_exec, task_initialized}
use jam_tboard.Queue.{
  queue_init, queue_insert_tail, queue_peek_front, queue_pop_head, stailq_remove_head,
}
use jam_tboard.Board.{
  Board, load_task, store_task, alloc_task, load_hist, store_hist, alloc_hist, signal, alloc_remote,
}
use jam_tboard.Counter.{tboard_add_concurrent}
use jam_tboard.Common.{inc}
use jam_tboard.History.{add_entry, history_record_exec, count_execution}
use jam_tboard.Place.{place_primary, place, task_place, remote_task_place}
use jam_tboard.Create.{enter_task, task_add, create_context, start_task, task_create}
use jam_tboard.Executor.Fetch.{Exec, pop_primary, fetch}
use jam_tboard.Lifecycle.{new_board}
use jam_tboard.Ownership.Defs.{nothing, with_task, with_remote, Sound, Returns-Holds}
use jam_tboard.Ownership.Beginning.{new_board-Sound}
use jam_tboard.Ownership.Creation.{task_create-Returns}
use jam_tboard.Ownership.Fetching.{fetch-Fetched}
use jam_tboard.Ownership.Remotes.{alloc_remote-Returns, remote_task_place-Returns}
use jam_tboard.Examples.Machine.{machine, no_coroutines, machine-HashLaws}

abbrev pub blink : Function
blink = record { fn = 7; fn_name = "blink" }

abbrev pub after : {A : Type 0} → Option (A × Board machine) → Board machine → Board machine
after none t = t
after (some (a, u)) t = u

unfoldable pub empty_board : Board machine
unfolding new_board queue_init
empty_board = new_board machine 2 1 no_coroutines

pub empty_board-Sound : Sound nothing empty_board
unfolding empty_board new_board queue_init
empty_board-Sound = new_board-Sound machine-HashLaws 2 1 no_coroutines

-- A task for the primary executor at address 1, with its history entry at 2.
unfoldable pub one_task : Board machine
unfolding task_create alloc_task create_context start_task load_task store_task task_add
    tboard_add_concurrent inc enter_task history_record_exec add_entry alloc_hist count_execution
    load_hist store_hist task_place place place_primary queue_insert_tail signal queue_init
one_task = after (task_create blink primary_exec none 0 empty_board) empty_board

pub one_task-Sound : Sound nothing one_task
unfolding one_task empty_board new_board task_create alloc_task create_context start_task load_task
    store_task task_add tboard_add_concurrent inc enter_task history_record_exec add_entry
    alloc_hist count_execution load_hist store_hist task_place place place_primary queue_insert_tail
    signal queue_init
one_task-Sound =
    Returns-Holds
      (task_create-Returns machine-HashLaws blink primary_exec none 0 refl refl empty_board-Sound)

abbrev pub first : Exec
first = record { type = primary_exec; num = 0 }

-- The primary executor has taken it.
unfoldable pub in_hand : Board machine
in_hand = record one_task { pqueue = [] }

pub in_hand-Sound : Sound (with_task 1 nothing) in_hand
unfolding in_hand one_task empty_board new_board queue_init task_create alloc_task create_context
    start_task load_task store_task task_add tboard_add_concurrent inc enter_task
    history_record_exec add_entry alloc_hist count_execution load_hist store_hist task_place place
    place_primary queue_insert_tail signal fetch pop_primary queue_peek_front queue_pop_head
    stailq_remove_head
in_hand-Sound = (fetch-Fetched one_task-Sound (λ a. refl) first (λ e. absurd (ground arith))).0

abbrev pub blinking : Task
blinking = record {
  id = pos 0;
  status = task_initialized;
  type = primary_exec;
  cpu_time = 0;
  yields = 0;
  fn = blink;
  ctx = 1;
  desc = record { func = 7; user_data = none };
  data_size = 0;
  hist = some 2;
  parent = none;
}

pub in_hand-blinking : in_hand.tasks 1 ≡ some blinking
unfolding in_hand one_task empty_board new_board queue_init task_create alloc_task create_context
    start_task load_task store_task task_add tboard_add_concurrent inc enter_task
    history_record_exec add_entry alloc_hist count_execution load_hist store_hist task_place place
    place_primary queue_insert_tail signal
in_hand-blinking = refl

-- The task has asked a controller for `led`, at address 3, and waits for the answer.
abbrev pub led : RemoteTask
led = record {
  status = task_initialized;
  message = "led";
  payload = none;
  data_size = 0;
  calling_task = some 1;
  blocking = true;
}

unfoldable pub asked : Board machine
unfolding alloc_remote in_hand one_task empty_board new_board queue_init task_create alloc_task
    create_context start_task load_task store_task task_add tboard_add_concurrent inc enter_task
    history_record_exec add_entry alloc_hist count_execution load_hist store_hist task_place place
    place_primary queue_insert_tail signal
asked = after (alloc_remote led in_hand) in_hand

pub asked-Sound : Sound (with_remote 3 nothing) asked
unfolding asked alloc_remote in_hand one_task empty_board new_board queue_init task_create
    alloc_task create_context start_task load_task store_task task_add tboard_add_concurrent inc
    enter_task history_record_exec add_entry alloc_hist count_execution load_hist store_hist
    task_place place place_primary queue_insert_tail signal
asked-Sound =
    (Returns-Holds (
      alloc_remote-Returns in_hand-Sound {h' = with_remote 3 nothing} led refl (λ a. ground arith)
        (λ a. omega arith) refl refl)).0

-- The answer has come.
unfoldable pub answered : Board machine
unfolding asked remote_task_place alloc_remote in_hand one_task empty_board new_board queue_init
    task_create alloc_task create_context start_task load_task store_task task_add
    tboard_add_concurrent inc enter_task history_record_exec add_entry alloc_hist count_execution
    load_hist store_hist task_place place place_primary queue_insert_tail signal
answered = after (remote_task_place (some 3) false asked) asked

pub answered-Sound : Sound nothing answered
unfolding answered asked remote_task_place alloc_remote in_hand one_task empty_board new_board
    queue_init task_create alloc_task create_context start_task load_task store_task task_add
    tboard_add_concurrent inc enter_task history_record_exec add_entry alloc_hist count_execution
    load_hist store_hist task_place place place_primary queue_insert_tail signal
answered-Sound =
    (Returns-Holds (
      remote_task_place-Returns {h' = nothing} asked-Sound 3 false (λ a. omega arith) refl refl refl
        refl)).0
