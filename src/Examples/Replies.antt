-- ===== src/Examples/Replies.antt =====
-- A task has asked the controller to add two numbers, and waits for the answer.
use mathlib.Core.Path.{subst}
use jam_tboard.Common.{
  true, ◌≡◌, refl, inl, inr, none, some, [], update, inc, arith, codes, Bool-cases, ◌==◌,
}
use jam_tboard.Task.{Ptr, RemoteTask}
use jam_tboard.Tokens.{skip_spaces, until_space, strtok}
use jam_tboard.Queue.{queue_init, queue_insert_tail}
use jam_tboard.Board.{
  Board, load_task, store_task, alloc_task, load_hist, store_hist, alloc_hist, signal, alloc_remote,
}
use jam_tboard.Counter.{tboard_add_concurrent}
use jam_tboard.History.{add_entry, history_record_exec, count_execution}
use jam_tboard.Place.{place_primary, place, task_place, remote_task_place}
use jam_tboard.Create.{enter_task, task_add, create_context, start_task, task_create}
use jam_tboard.Lifecycle.{new_board}
use jam_tboard.Mqtt.{Mqtt, mqtt_out}
use jam_tboard.Mqtt.Blocks.{rarithmetic}
use jam_tboard.Mqtt.Rounds.{Gives}
use jam_tboard.Mqtt.Replies.{Served, Answers, mqtt_out-Gives}
use jam_tboard.Ownership.Defs.{nothing, with_remote, Sound, Returns-Holds}
use jam_tboard.Ownership.Remotes.{alloc_remote-Returns, remote_task_place-Returns}
use jam_tboard.Examples.Machine.{machine}
use jam_tboard.Examples.Boards.{after, empty_board, one_task, in_hand, in_hand-Sound, led}
use jam_tboard.Examples.Messages.{controller}

-- The struct is at the address 7.
abbrev addition : RemoteTask
addition = record led { message = "math"; payload = some 7 }

unfoldable wanted : Board machine
unfolding alloc_remote in_hand one_task empty_board new_board queue_init task_create alloc_task
    create_context start_task load_task store_task task_add tboard_add_concurrent inc enter_task
    history_record_exec add_entry alloc_hist count_execution load_hist store_hist task_place place
    place_primary queue_insert_tail signal
wanted = after (alloc_remote addition in_hand) in_hand

wanted-Sound : Sound (with_remote 3 nothing) wanted
unfolding wanted alloc_remote in_hand one_task empty_board new_board queue_init task_create
    alloc_task create_context start_task load_task store_task task_add tboard_add_concurrent inc
    enter_task history_record_exec add_entry alloc_hist count_execution load_hist store_hist
    task_place place place_primary queue_insert_tail signal
wanted-Sound =
    (Returns-Holds (
      alloc_remote-Returns in_hand-Sound {h' = with_remote 3 nothing} addition refl
        (λ a. ground arith) (λ a. omega arith) refl refl)).0

unfoldable posted : Board machine
unfolding wanted remote_task_place alloc_remote in_hand one_task empty_board new_board queue_init
    task_create alloc_task create_context start_task load_task store_task task_add
    tboard_add_concurrent inc enter_task history_record_exec add_entry alloc_hist count_execution
    load_hist store_hist task_place place place_primary queue_insert_tail signal
posted = after (remote_task_place (some 3) true wanted) wanted

posted-Sound : Sound nothing posted
unfolding posted wanted remote_task_place alloc_remote in_hand one_task empty_board new_board
    queue_init task_create alloc_task create_context start_task load_task store_task task_add
    tboard_add_concurrent inc enter_task history_record_exec add_entry alloc_hist count_execution
    load_hist store_hist task_place place place_primary queue_insert_tail signal
posted-Sound =
    (Returns-Holds (
      remote_task_place-Returns {h' = nothing} wanted-Sound 3 true (λ a. omega arith) refl refl refl
        refl)).0

abbrev adding : Mqtt machine
adding = record (controller posted) {
  blocks = update (λ _. none) 7 (some (rarithmetic 20 3 b'+' 0));
}

addition-Served : Served adding.blocks addition
unfolding strtok skip_spaces until_space
addition-Served =
    (codes "math", refl, (λ e. (7, 20, 3, b'+', 0, refl, refl)), λ e. absurd (ground arith))

posted-Served : (r : Ptr) (x : RemoteTask) → posted.remotes r ≡ some x → Served adding.blocks x
unfolding posted wanted remote_task_place alloc_remote in_hand one_task empty_board new_board
    queue_init task_create alloc_task create_context start_task load_task store_task task_add
    tboard_add_concurrent inc enter_task history_record_exec add_entry alloc_hist count_execution
    load_hist store_hist task_place place place_primary queue_insert_tail signal
posted-Served r x e = elim (Bool-cases (3 == r)) [
  | inl is ↦
      let same : addition ≡ x = ground arith in subst (Served adding.blocks) same addition-Served
  | inr other ↦ absurd (ground arith)
]

mqtt_out-Gives_example :
    Gives
      (λ u. Sound nothing u.board × (u.pool ≡ []) × (u.inbox ≡ []) × Answers adding u)
      (mqtt_out adding)
mqtt_out-Gives_example = mqtt_out-Gives adding posted-Sound (λ a. refl) posted-Served
