-- ===== src/Examples/Witnesses.antt =====
-- The theorems applied to concrete boards.
use jam_tboard.Common.{
  ℕ, suc, ◌≡◌, refl, inl, true, false, none, some, List, [], ◌∷◌, pos, update, arith, inc, length,
  inr, Bool-cases, ◌==◌,
}
use jam_tboard.Task.{Ptr, Task, priority_exec}
use jam_tboard.Queue.{queue_init, queue_insert_tail}
use jam_tboard.Board.{
  Board, load_task, store_task, alloc_task, load_hist, store_hist, alloc_hist, signal, alloc_remote,
}
use jam_tboard.Counter.{tboard_add_concurrent}
use jam_tboard.History.{add_entry, history_record_exec, count_execution}
use jam_tboard.Place.{place_primary, place, task_place, remote_task_place}
use jam_tboard.Place.Order.{priority_first}
use jam_tboard.Create.{enter_task, task_add, create_context, start_task, task_create}
use jam_tboard.Destroy.{task_destroy, remote_task_destroy}
use jam_tboard.Executor.{finish, on_dead, on_yield}
use jam_tboard.Executor.Fetch.{primary, fetch}
use jam_tboard.Sequencer.Search.{remove_queue_entry_by_id}
use jam_tboard.Sequencer.Search.Found.{TakesFirst, remove_by_id-TakesFirst}
use jam_tboard.Processor.{Msg, task_exec}
use jam_tboard.Lifecycle.{new_board, tboard_create, tboard_start, tboard_kill}
use jam_tboard.Lifecycle.Waking.{Woken, start-kill}
use jam_tboard.Ownership.Defs.{nothing, Sound, Returns}
use jam_tboard.Ownership.Frame.{Sound-closed}
use jam_tboard.Ownership.Beginning.{tboard_create-Sound}
use jam_tboard.Ownership.Fetching.{Fetched, fetch-Fetched}
use jam_tboard.Ownership.Responding.{CallersWait}
use jam_tboard.Ownership.Requeue.{IsBack, AsksNothing, on_yield-Requeues}
use jam_tboard.Ownership.Yielding.{on_yield-Returns}
use jam_tboard.Ownership.Ending.{on_dead-Returns}
use jam_tboard.Ownership.Rounds.{HasRun, finish-Returns}
use jam_tboard.Ownership.Destruction.{
  SameEntries, task_destroy-Returns, remote_task_destroy-Returns,
}
use jam_tboard.Ownership.Draining.{closing}
use jam_tboard.Examples.Machine.{machine, no_coroutines, machine-HashLaws, machine-CoroLaws}
use jam_tboard.Examples.Boards.{
  empty_board, one_task, one_task-Sound, first, in_hand, in_hand-Sound, blinking, in_hand-blinking,
  asked, asked-Sound, answered,
}

abbrev order : Msg
order = record {
  type = task_exec;
  subtype = pos 0;
  has_side_effects = true;
  task = blinking;
  user_data = none;
  ud_allocd = 0;
}

in_hand-HasRun : HasRun in_hand blinking
unfolding in_hand one_task empty_board new_board queue_init task_create alloc_task create_context
    start_task load_task store_task task_add tboard_add_concurrent inc enter_task
    history_record_exec add_entry alloc_hist count_execution load_hist store_hist task_place place
    place_primary queue_insert_tail signal
in_hand-HasRun = record {
  stopped = inl refl;
  issued = λ size y k e. absurd (cc);
  waiting = λ q y up there. absurd (cc);
}

one_task-waits : CallersWait one_task
unfolding in_hand one_task empty_board new_board queue_init task_create alloc_task create_context
    start_task load_task store_task task_add tboard_add_concurrent inc enter_task
    history_record_exec add_entry alloc_hist count_execution load_hist store_hist task_place place
    place_primary queue_insert_tail signal
one_task-waits r p x y at b call there = absurd (cc)

answered-waits : CallersWait answered
unfolding answered asked remote_task_place alloc_remote in_hand one_task empty_board new_board
    queue_init task_create alloc_task create_context start_task load_task store_task task_add
    tboard_add_concurrent inc enter_task history_record_exec add_entry alloc_hist count_execution
    load_hist store_hist task_place place place_primary queue_insert_tail signal
answered-waits r p x y at b call there = elim (Bool-cases (1 == y.ctx)) [
  | inl e ↦ rw e (refl, λ item. (_, refl))
  | inr e ↦ rw e (refl, λ item. (_, refl))
]

one_task-status : one_task.status ≡ 0
unfolding in_hand one_task empty_board new_board queue_init task_create alloc_task create_context
    start_task load_task store_task task_add tboard_add_concurrent inc enter_task
    history_record_exec add_entry alloc_hist count_execution load_hist store_hist task_place place
    place_primary queue_insert_tail signal
one_task-status = refl

one_task-count : one_task.task_count ≡ pos 1
unfolding in_hand one_task empty_board new_board queue_init task_create alloc_task create_context
    start_task load_task store_task task_add tboard_add_concurrent inc enter_task
    history_record_exec add_entry alloc_hist count_execution load_hist store_hist task_place place
    place_primary queue_insert_tail signal
one_task-count = refl

-- The same board with the task turned into a priority task, behind another entry.
abbrev urgent : Board machine
urgent = record in_hand {
  tasks = update in_hand.tasks 1 (some (record blinking { type = priority_exec }));
  pqueue = 9 ∷ [];
}

urgent-is : urgent.tasks 1 ≡ some (record blinking { type = priority_exec })
urgent-is = refl

finish-Returns_example : Returns (λ _ u. Sound nothing u) (finish first primary 1 3 5 in_hand)
finish-Returns_example =
    finish-Returns machine-HashLaws machine-CoroLaws first primary 1 blinking 3 5 (λ a. refl) refl
      refl tt in_hand-Sound in_hand-blinking in_hand-HasRun

on_dead-Returns_example : Returns (λ _ u. Sound nothing u) (on_dead 1 in_hand)
on_dead-Returns_example =
    on_dead-Returns machine-HashLaws machine-CoroLaws 1 blinking (λ a. refl) refl in_hand-Sound
      in_hand-blinking (λ q y up there. absurd (cc))

in_hand-plain : AsksNothing in_hand blinking.ctx
unfolding in_hand one_task empty_board new_board queue_init task_create alloc_task create_context
    start_task load_task store_task task_add tboard_add_concurrent inc enter_task
    history_record_exec add_entry alloc_hist count_execution load_hist store_hist task_place place
    place_primary queue_insert_tail signal
in_hand-plain = (λ e. absurd (ground arith), λ e. absurd (ground arith))

on_yield-Returns_example : Returns (λ _ u. Sound nothing u) (on_yield first primary 1 in_hand)
on_yield-Returns_example =
    on_yield-Returns machine-CoroLaws 1 blinking in_hand-Sound in_hand-blinking refl first primary
      tt in_hand-HasRun.issued

fetch-Fetched_example : Fetched nothing one_task (fetch first one_task)
fetch-Fetched_example = fetch-Fetched one_task-Sound (λ a. refl) first (λ e. absurd (ground arith))

task_destroy-Returns_example :
    Returns (λ _ u. Sound closing u × SameEntries in_hand u) (task_destroy (some 1) in_hand)
task_destroy-Returns_example =
    task_destroy-Returns closing (λ a. refl) refl 1 (Sound-closed in_hand-Sound)

remote_task_destroy-Returns_example :
    Returns (λ _ u. Sound closing u × SameEntries asked u) (remote_task_destroy (some 3) asked)
remote_task_destroy-Returns_example =
    remote_task_destroy-Returns closing (λ a. refl) refl 3 (Sound-closed asked-Sound)

tboard_create-Sound_example :
    (t : Board machine) × (tboard_create machine 2 1 no_coroutines ≡ some t)
    × Sound nothing t
    × (t.sqs ≡ 2)
tboard_create-Sound_example =
    tboard_create-Sound machine-HashLaws 2 1 no_coroutines (omega arith) (λ e. absurd (omega arith))

start-kill_example :
    let (started, u) = tboard_start one_task in
    let (killed, v) = tboard_kill u in
    (length started ≡ suc one_task.sqs)
    × (tboard_start u ≡ ([], u))
    × (tboard_kill one_task ≡ (false, one_task))
    × (killed ≡ true)
    × (v.shutdown ≡ 1)
    × Woken started v.signals
start-kill_example = start-kill one_task one_task-status

priority_first_example :
    Returns
      (λ _ u. fetch first u ≡ (some (1, primary), record u { pqueue = urgent.pqueue }))
      (task_place 1 urgent)
priority_first_example =
    priority_first urgent 1 (record blinking { type = priority_exec }) first urgent-is refl refl

abbrev by_number : Ptr → Task
by_number p = record blinking { id = pos p; type = pos p }

remove_by_id-TakesFirst_example :
    TakesFirst
      (λ p. pos p)
      (pos 4)
      (3 ∷ 4 ∷ 5 ∷ [])
      (remove_queue_entry_by_id by_number (3 ∷ 4 ∷ 5 ∷ []) (pos 4))
remove_by_id-TakesFirst_example = remove_by_id-TakesFirst by_number (3 ∷ 4 ∷ 5 ∷ []) (pos 4)

abbrev three : List ℕ
three = 3 ∷ 4 ∷ 5 ∷ []

on_yield-Requeues_example :
    Returns
      (λ _ u. Sound nothing u × IsBack primary blinking.type 1 in_hand u)
      (on_yield first primary 1 in_hand)
on_yield-Requeues_example =
    on_yield-Requeues machine-CoroLaws 1 blinking in_hand-Sound in_hand-blinking refl first primary
      tt in_hand-HasRun.issued in_hand-plain
