-- ===== src/Mqtt/Wire.antt =====
-- The messages that `MQTT_recv` of src/dummy_MQTT.c is made for, as a controller writes them.
use jam_tboard.Common.{
  ℕ, ◌+◌, ◌≤◌, ◌≡◌, refl, false, some, [], ◌∷◌, ◌++◌, ◌==◌, ltb, length, Bytes, codes, arith,
}
use jam_tboard.Task.{max_msg_length}
use jam_tboard.Env.{Env}
use jam_tboard.Tokens.{space}
use jam_tboard.Tokens.Words.{IsWord, strtok-append, strtok_last}
use jam_tboard.Queue.{
  queue_insert_head, queue_peek_front, stailq_remove_head, queue_pop_head, queue_insert_tail,
}
use jam_tboard.Mqtt.{
  Mqtt, mqtt_send, mqtt_recv, insert_request, mqtt_increment, mqtt_print_message_fn,
  mqtt_do_math_fn,
}
use jam_tboard.Processor.{Msg, task_exec}
use jam_tboard.Mqtt.Parse.{Request, print_text, spawn_task, do_math, parse, parse_print, parse_math}
use jam_tboard.Mqtt.Tasks.{mqtt_print_message, mqtt_do_math}
use jam_tboard.Mqtt.Arithmetic.{IsAnswer, compute-IsAnswer}

pub data Wire : Type 0 where
  print : Bytes → Wire
  spawn : Wire
  math : Bytes → ℕ → Bytes → Wire

abbrev pub wire : Wire → Bytes
wire (print s) = codes "print" ++ space ∷ s
wire spawn = codes "spawn"
wire (math a operator b) = codes "math" ++ space ∷ (a ++ space ∷ operator ∷ space ∷ b)

-- The message fits the buffer, and the parts of an arithmetic one are words.
abbrev pub IsWire : Wire → Type 0
IsWire (print s) = length (codes "print" ++ space ∷ s) ≤ max_msg_length
IsWire spawn = Unit {0}
IsWire (math a operator b) =
    (length (wire (math a operator b)) ≤ max_msg_length)
    × IsWord a
    × ((operator == space) ≡ false)
    × IsWord b

abbrev pub meaning : (env : Env) → Wire → Request env
meaning env (print s) = print_text s (length s + 1)
meaning env spawn = spawn_task
meaning env (math a operator b) = do_math (env.atof a) operator (env.atof b)

print-IsWord : IsWord (codes "print")
print-IsWord = (refl, (refl, (refl, (refl, (refl, tt)))))

math-IsWord : IsWord (codes "math")
math-IsWord = (refl, (refl, (refl, (refl, tt))))

spawn-IsWord : IsWord (codes "spawn")
spawn-IsWord = (refl, (refl, (refl, (refl, (refl, tt)))))

fits : (s : Bytes) → length s ≤ max_msg_length → ltb max_msg_length (length s) ≡ false
fits s le = ground arith

module _ {env : Env} where
  parse_math-words :
      (a b : Bytes) (operator : ℕ)
      → IsWord a
      → (operator == space) ≡ false
      → IsWord b
      → parse_math {env = env} (a ++ space ∷ operator ∷ space ∷ b)
        ≡ some (some (do_math (env.atof a) operator (env.atof b)))
  unfolding parse_math
  parse_math-words a b operator wa wo wb =
      rw
        (
          strtok-append a (operator ∷ space ∷ b) wa,
          strtok-append (operator ∷ []) b (wo, tt),
          strtok_last b wb,
        )
        refl

  -- A request that is written as a message, with single spaces between its words, is read
  -- back as this request. Conditions: the message fits its buffer, and the parts of an
  -- arithmetic request are words and an operator that is not a space.
  pub parse-wire : (w : Wire) → IsWire w → parse (wire w) ≡ some (some (meaning env w))
  unfolding parse parse_print
  parse-wire (print s) fit =
      rw (fits _ fit, strtok-append (codes "print") s print-IsWord) (ground arith)
  parse-wire spawn fit = rw (strtok_last (codes "spawn") spawn-IsWord) refl
  parse-wire (math a operator b) (fit, wa, wo, wb) =
      rw (fits _ fit, strtok-append (codes "math") (a ++ space ∷ operator ∷ space ∷ b) math-IsWord)
        (parse_math-words a b operator wa wo wb)

  -- Whatever the pool holds, the next reading of it takes the message that was sent last, and
  -- leaves what inserting the message's request leaves on the state before it was sent.
  -- Conditions: as for a message that is read back.
  pub recv-send :
      (w : Wire) (m : Mqtt env)
      → IsWire w
      → mqtt_recv (mqtt_send (wire w) m) ≡ some (insert_request (meaning env w) m)
  unfolding mqtt_recv mqtt_send queue_pop_head queue_insert_head queue_peek_front stailq_remove_head
  recv-send w m is = rw (parse-wire w is) refl

  -- After a controller has sent a text to print, the next reading of the pool appends a
  -- message to execute a task to the queue for the task board; the task's function is
  -- MQTT_Print_Message, and on the message's data it prints exactly this text and counts it.
  -- Condition: the message fits its buffer.
  pub print-arrives :
      (s : Bytes) (m : Mqtt env)
      → IsWire (print s)
      → (u : Mqtt env) × (msg : Msg) × (mqtt_recv (mqtt_send (wire (print s)) m) ≡ some u)
        × (u.inbox ≡ queue_insert_tail msg m.inbox)
        × (msg.type ≡ task_exec)
        × (msg.task.fn ≡ mqtt_print_message_fn)
        × (mqtt_print_message msg.user_data u
            ≡ some (s, record u { imsg_sent = mqtt_increment u.imsg_sent }))
  unfolding mqtt_print_message insert_request
  print-arrives s m is = (_, _, recv-send (print s) m is, refl, refl, refl, ground arith)

  -- After a controller has sent an arithmetic request, the next reading of the pool appends a
  -- message to execute a task to the queue for the task board; the task's function is
  -- MQTT_Do_Math, and on the message's data it computes the answer that the operator stands
  -- for, and counts it. Conditions: the message fits its buffer, its numbers are words and
  -- its operator is not a space, and the operator is one of the four, with the given answer.
  pub math-arrives :
      (a b : Bytes) (operator : ℕ) (ans : env.Real) (m : Mqtt env)
      → IsWire (math a operator b)
      → IsAnswer env (env.atof a) (env.atof b) operator ans
      → (u : Mqtt env) × (msg : Msg) × (mqtt_recv (mqtt_send (wire (math a operator b)) m) ≡ some u)
        × (u.inbox ≡ queue_insert_tail msg m.inbox)
        × (msg.type ≡ task_exec)
        × (msg.task.fn ≡ mqtt_do_math_fn)
        × (mqtt_do_math msg.user_data u
            ≡ some (some ans, record u { imsg_sent = mqtt_increment u.imsg_sent }))
  unfolding mqtt_do_math insert_request
  math-arrives a b operator ans m is e =
      let computes = compute-IsAnswer env (env.atof a) (env.atof b) e in
      (_, _, recv-send (math a operator b) m is, refl, refl, refl, ground (arith, computes))
