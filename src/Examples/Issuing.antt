-- ===== src/Examples/Issuing.antt =====
-- The theorems on what tasks issue, applied to concrete boards.
use mathlib.Core.Path.{subst}
use jam_tboard.Common.{codes, arith, Bool-cases, inl, inr, ◌==◌}
use jam_tboard.Task.{Ptr, RemoteTask}
use jam_tboard.Place.{remote_task_place}
use jam_tboard.Tokens.{strtok, skip_spaces, until_space}
use jam_tboard.Controller.{mqtt_othread}
use jam_tboard.Ownership.Defs.{Returns-Holds, Sound, HasRoom}
use jam_tboard.Ownership.Remotes.{remote_task_place-Returns}
use jam_tboard.Ownership.Answering.{Answerable, mqtt_othread-Returns}
use jam_tboard.Examples.Boards.{after, asked-Sound}
use jam_tboard.Task.{task_completed}
use jam_tboard.Executor.{wake_parent}
use jam_tboard.Sequencer.{return_remote}
use jam_tboard.Issue.{blocking_issue, blocking_result, remote_result}
use jam_tboard.Ownership.Issuing.{
  AfterIssue, blocking_issue-Returns, wake_parent-result, return_remote-result,
}
use jam_tboard.Ownership.Defs.{with_task}
use jam_tboard.Examples.Boards.{led}
use jam_tboard.Common.{◌≡◌, refl, true, none, some, update, inc}
use jam_tboard.Task.{secondary_exec}
use jam_tboard.Queue.{queue_init, queue_insert_tail}
use jam_tboard.Board.{
  Board, load_task, store_task, alloc_task, load_hist, store_hist, alloc_hist, signal, alloc_remote,
}
use jam_tboard.Counter.{tboard_add_concurrent}
use jam_tboard.History.{add_entry, history_record_exec, count_execution}
use jam_tboard.Place.{place_primary, place, task_place}
use jam_tboard.Create.{enter_task, task_add, create_context, start_task, task_create}
use jam_tboard.Lifecycle.{new_board}
use jam_tboard.Ownership.Defs.{nothing, Returns}
use jam_tboard.Examples.Machine.{machine, machine-HashLaws, machine-CoroLaws}
use jam_tboard.Examples.Boards.{
  blink, empty_board, one_task, in_hand, in_hand-Sound, blinking, in_hand-blinking, asked,
}

in_hand-empty : machine.mco_get_bytes_stored 1 in_hand.coros ≡ 0
unfolding in_hand one_task empty_board new_board queue_init task_create alloc_task create_context
    start_task load_task store_task task_add tboard_add_concurrent inc enter_task
    history_record_exec add_entry alloc_hist count_execution load_hist store_hist task_place place
    place_primary queue_insert_tail signal
in_hand-empty = refl

in_hand-HasRoom : HasRoom in_hand blinking
unfolding in_hand one_task empty_board new_board queue_init task_create alloc_task create_context
    start_task load_task store_task task_add tboard_add_concurrent inc enter_task
    history_record_exec add_entry alloc_hist count_execution load_hist store_hist task_place place
    place_primary queue_insert_tail signal
in_hand-HasRoom = (refl, λ item. (_, refl))

asked-blinking : asked.tasks 1 ≡ some blinking
unfolding asked alloc_remote in_hand one_task empty_board new_board queue_init task_create
    alloc_task create_context start_task load_task store_task task_add tboard_add_concurrent inc
    enter_task history_record_exec add_entry alloc_hist count_execution load_hist store_hist
    task_place place place_primary queue_insert_tail signal
asked-blinking = refl

asked-HasRoom : HasRoom asked blinking
unfolding asked alloc_remote in_hand one_task empty_board new_board queue_init task_create
    alloc_task create_context start_task load_task store_task task_add tboard_add_concurrent inc
    enter_task history_record_exec add_entry alloc_hist count_execution load_hist store_hist
    task_place place place_primary queue_insert_tail signal
asked-HasRoom = (refl, λ item. (_, refl))

blocking_issue-Returns_example :
    Returns
      (AfterIssue (with_task 1 nothing) 1 in_hand)
      (blocking_issue (some 1) blink secondary_exec none 0 in_hand)
blocking_issue-Returns_example =
    blocking_issue-Returns machine-HashLaws machine-CoroLaws 1 blink secondary_exec none 0
      in_hand-empty in_hand-Sound

wake_parent-result_example :
    Returns
      (λ _ u. Returns (λ done _. done ≡ true) (blocking_result 1 u))
      (wake_parent 1 (record blinking { status = task_completed }) in_hand)
wake_parent-result_example =
    wake_parent-result machine-CoroLaws in_hand 1 blinking
      (record blinking { status = task_completed }) in_hand-blinking in_hand-HasRoom refl

-- The controller has done what it was asked for.
abbrev done : Board machine
done = record asked {
  remotes = update asked.remotes 3 (some (record led { status = task_completed }));
}

return_remote-result_example :
    Returns
      (λ _ u. Returns (λ finished _. finished ≡ true) (remote_result 1 true u))
      (return_remote 1 3 done)
return_remote-result_example =
    return_remote-result machine-CoroLaws done 1 3 blinking (record led { status = task_completed })
      asked-blinking refl asked-HasRoom refl

-- The request of `asked` lies in the queue to the controller.
unfoldable pub sent : Board machine
unfolding remote_task_place asked alloc_remote in_hand one_task empty_board new_board queue_init
    task_create alloc_task create_context start_task load_task store_task task_add
    tboard_add_concurrent inc enter_task history_record_exec add_entry alloc_hist count_execution
    load_hist store_hist task_place place place_primary queue_insert_tail signal
sent = after (remote_task_place (some 3) true asked) asked

pub sent-Sound : Sound nothing sent
unfolding sent remote_task_place asked alloc_remote in_hand one_task empty_board new_board
    queue_init task_create alloc_task create_context start_task load_task store_task task_add
    tboard_add_concurrent inc enter_task history_record_exec add_entry alloc_hist count_execution
    load_hist store_hist task_place place place_primary queue_insert_tail signal
sent-Sound =
    (Returns-Holds (
      remote_task_place-Returns {h' = nothing} asked-Sound 3 true (λ a. omega arith) refl refl refl
        refl)).0

led-Answerable : Answerable led
unfolding strtok skip_spaces until_space
led-Answerable = (codes "led", refl, (λ e. absurd (ground arith)), λ e. absurd (ground arith))

pub sent-Answerable : (r : Ptr) (x : RemoteTask) → sent.remotes r ≡ some x → Answerable x
unfolding sent remote_task_place asked alloc_remote in_hand one_task empty_board new_board
    queue_init task_create alloc_task create_context start_task load_task store_task task_add
    tboard_add_concurrent inc enter_task history_record_exec add_entry alloc_hist count_execution
    load_hist store_hist task_place place place_primary queue_insert_tail signal
sent-Answerable r x e = elim (Bool-cases (3 == r)) [
  | inl is ↦ let same : led ≡ x = ground arith in subst Answerable same led-Answerable
  | inr other ↦ absurd (ground arith)
]

mqtt_othread-Returns_example : Returns (λ _ u. Sound nothing u) (mqtt_othread sent)
mqtt_othread-Returns_example = mqtt_othread-Returns sent-Sound (λ a. refl) sent-Answerable
