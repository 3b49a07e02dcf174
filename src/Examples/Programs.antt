-- ===== src/Examples/Programs.antt =====
-- The theorems on the programs that use the task board, and on printing, at concrete states.
use mathlib.Core.List.{Memᴰ}
use jam_tboard.Common.{false, ◌≡◌, refl, ◌↔◌, some, pos, arith}
use jam_tboard.Task.{Ptr, Task, max_tasks}
use jam_tboard.Board.{History}
use jam_tboard.History.{history_print_records}
use jam_tboard.Ownership.Defs.{nothing, Returns}
use jam_tboard.Ownership.Printing.{history_print_records-Returns}
use jam_tboard.Programs.Collatz.{
  Collatz, initial, increment_completion_count, secondary_task, attempt,
}
use jam_tboard.Programs.Collatz.Steps.{Reaches, Ends, yielded, secondary_task-Ends}
use jam_tboard.Programs.Collatz.Attempts.{GivesUp, attempt-GivesUp}
use jam_tboard.Mqtt.{insert_request, mqtt_recv}
use jam_tboard.Mqtt.Wire.{Wire, meaning}
use jam_tboard.Programs.Remote.{Remote, generate_mqtt_message}
use jam_tboard.Programs.Remote.Commands.{IsAsked, generate-recv}
use jam_tboard.Examples.Messages.{controller}
use jam_tboard.Examples.Machine.{machine, machine-HashLaws}
use jam_tboard.Examples.Boards.{empty_board, one_task, one_task-Sound}
use jam_tboard.Examples.Crowd.{crowd, crowd-Sound}

abbrev begun : Collatz machine
begun = initial empty_board

secondary_task-Ends_example :
    Ends (increment_completion_count (yielded 8 begun)) 8 (secondary_task (pos 6) begun) ↔ (
      Reaches 6 8
      × (increment_completion_count (yielded 8 begun)
          ≡ increment_completion_count (yielded 8 begun)))
secondary_task-Ends_example =
    secondary_task-Ends 6 8 begun (increment_completion_count (yielded 8 begun)) (omega arith)

abbrev full : Collatz machine
full = initial (crowd max_tasks)

attempt-GivesUp_example : GivesUp nothing 5 31 (attempt 3 5 0 full)
attempt-GivesUp_example =
    attempt-GivesUp machine-HashLaws refl refl 3 5 full (crowd-Sound max_tasks (omega arith))
      (max_tasks, refl, omega arith)

history_print_records-Returns_example :
    Returns
      (λ es u.
        (u ≡ one_task)
        × ((a : Ptr) (x : Task)
            → one_task.tasks a ≡ some x
            → (h : Ptr) × (e : History machine) × (x.hist ≡ some h)
              × (one_task.hists h ≡ some e)
              × Memᴰ e es))
      (history_print_records one_task)
history_print_records-Returns_example = history_print_records-Returns one_task one_task-Sound

abbrev asking : Remote machine
asking = record {
  imessages_sent = 0;
  omessages_sent = 0;
  omessages_recv = 0;
  completion_count = 0;
  task_count = 0;
  task_gen_complete = false;
  max_task_reached = 0;
  mqtt = controller one_task;
}

generate-recv_example :
    (w : Wire) × IsAsked 7 2 620 41 w
    × (mqtt_recv (generate_mqtt_message 7 2 620 41 asking).mqtt
        ≡ some (insert_request (meaning machine w) asking.mqtt))
generate-recv_example = generate-recv 7 2 620 41 asking
