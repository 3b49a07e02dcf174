-- ===== src/Examples/Messages.antt =====
-- The theorems on the controller's side, applied to concrete messages and boards.
use jam_tboard.Common.{
  List, ◌+◌, ◌≡◌, refl, false, none, some, [], ◌∷◌, pos, count, arith, codes, inc,
}
use jam_tboard.Task.{Ptr}
use jam_tboard.Queue.{queue_init, queue_insert_tail}
use jam_tboard.Board.{
  Board, load_task, store_task, alloc_task, load_hist, store_hist, alloc_hist, signal,
}
use jam_tboard.Counter.{tboard_add_concurrent}
use jam_tboard.History.{add_entry, history_record_exec, count_execution}
use jam_tboard.Place.{place_primary, place, task_place}
use jam_tboard.Create.{enter_task, task_add, create_context, start_task, task_create}
use jam_tboard.Lifecycle.{new_board, tboard_destroy}
use jam_tboard.Processor.{Msg, task_exec}
use jam_tboard.Mqtt.{
  Mqtt, mqtt_do_math_fn, mqtt_print_message_fn, new_msg, mqtt_increment, insert_request, mqtt_send,
  mqtt_recv, mqtt_ithread, mqtt_destroy,
}
use jam_tboard.Mqtt.Parse.{parse}
use jam_tboard.Mqtt.Arithmetic.{sum}
use jam_tboard.Mqtt.Tasks.{mqtt_print_message, mqtt_do_math}
use jam_tboard.Mqtt.Wire.{
  Wire, print, math, wire, IsWire, meaning, parse-wire, recv-send, print-arrives, math-arrives,
}
use jam_tboard.Mqtt.Rounds.{Gives, Moved, mqtt_ithread-Gives}
use jam_tboard.Mqtt.Mailbox.{
  Op, post, collect, Mailbox, Represents, serve_all, carry_out_all, carry_out_all-Represents,
}
use jam_tboard.Mqtt.Shutdown.{owned, mqtt_destroy-frees}
use jam_tboard.Ownership.Defs.{nothing, Sound, Returns}
use jam_tboard.Ownership.Shutdown.{tboard_destroy-Returns}
use jam_tboard.Examples.Machine.{machine, machine-HashLaws}
use jam_tboard.Examples.Boards.{empty_board, one_task, one_task-Sound, answered, answered-Sound}

abbrev sum_wire : Wire
sum_wire = math (codes "20") b'+' (codes "3")

sum_wire-IsWire : IsWire sum_wire
sum_wire-IsWire = (omega arith, (refl, (refl, tt)), refl, (refl, tt))

abbrev hello : Wire
hello = print (codes "hi there")

-- A controller at the address 9 that works on a board.
abbrev pub controller : Board machine → Mqtt machine
controller t = record {
  pool = [];
  inbox = [];
  imsg_sent = 0;
  imsg_recv = 0;
  omsg_sent = 0;
  omsg_recv = 0;
  spawned = 0;
  blocks = λ _. none;
  self = 9;
  board = t;
}

abbrev asked_to_add : Msg
asked_to_add = new_msg mqtt_do_math_fn false (some 5) 24

abbrev busy : Mqtt machine
busy = record (controller one_task) { inbox = asked_to_add ∷ [] }

one_task-count : one_task.task_count ≡ pos 1
unfolding one_task empty_board new_board task_create alloc_task create_context start_task load_task
    store_task task_add tboard_add_concurrent inc enter_task history_record_exec add_entry
    alloc_hist count_execution load_hist store_hist task_place place place_primary queue_insert_tail
    signal queue_init
one_task-count = refl

parse-wire_example : parse (wire sum_wire) ≡ some (some (meaning machine sum_wire))
parse-wire_example = parse-wire sum_wire sum_wire-IsWire

recv-send_example :
    mqtt_recv (mqtt_send (wire sum_wire) busy)
    ≡ some (insert_request (meaning machine sum_wire) busy)
recv-send_example = recv-send sum_wire busy sum_wire-IsWire

print-arrives_example :
    (u : Mqtt machine) × (msg : Msg) × (mqtt_recv (mqtt_send (wire hello) busy) ≡ some u)
    × (u.inbox ≡ queue_insert_tail msg busy.inbox)
    × (msg.type ≡ task_exec)
    × (msg.task.fn ≡ mqtt_print_message_fn)
    × (mqtt_print_message msg.user_data u
        ≡ some (codes "hi there", record u { imsg_sent = mqtt_increment u.imsg_sent }))
print-arrives_example = print-arrives (codes "hi there") busy (omega arith)

math-arrives_example :
    (u : Mqtt machine) × (msg : Msg) × (mqtt_recv (mqtt_send (wire sum_wire) busy) ≡ some u)
    × (u.inbox ≡ queue_insert_tail msg busy.inbox)
    × (msg.type ≡ task_exec)
    × (msg.task.fn ≡ mqtt_do_math_fn)
    × (mqtt_do_math msg.user_data u
        ≡ some (some 23, record u { imsg_sent = mqtt_increment u.imsg_sent }))
math-arrives_example = math-arrives (codes "20") (codes "3") b'+' 23 busy sum_wire-IsWire sum

mqtt_ithread-Gives_example :
    Gives (λ u. Sound nothing u.board × Moved busy busy.inbox busy.pool u) (mqtt_ithread busy)
mqtt_ithread-Gives_example = mqtt_ithread-Gives machine-HashLaws busy refl refl one_task-Sound tt

mqtt_destroy-frees_example :
    let u = mqtt_destroy busy in
    Sound nothing u.board
    × (u.pool ≡ [])
    × (u.inbox ≡ [])
    × ((a : Ptr) → count a u.board.freed ≡ owned busy.inbox a + count a busy.board.freed)
mqtt_destroy-frees_example = mqtt_destroy-frees busy one_task-Sound

tboard_destroy-Returns_example :
    Returns
      (λ _ u.
        ((p : Ptr) → u.tasks p ≡ none)
        × ((r : Ptr) → u.remotes r ≡ none)
        × ((h : Ptr) → u.hists h ≡ none))
      (tboard_destroy answered)
tboard_destroy-Returns_example = tboard_destroy-Returns answered answered-Sound

abbrev calls : List Op
calls = post hello ∷ post sum_wire ∷ collect ∷ post hello ∷ collect ∷ []

abbrev nobody : Mqtt machine
nobody = controller one_task

abbrev no_requests : Mailbox machine
no_requests = record { pending = []; delivered = [] }

carry_out_all-Represents_example :
    (u : Mqtt machine) × (carry_out_all calls nobody ≡ some u)
    × Represents u (serve_all calls no_requests)
carry_out_all-Represents_example =
    carry_out_all-Represents calls nobody no_requests
      (omega arith, (sum_wire-IsWire, (tt, (omega arith, (tt, tt)))))
      (record { waiting = tt; carried = tt })
