-- ===== src/Mqtt/Parse.antt =====
-- How `MQTT_recv` of src/dummy_MQTT.c reads a message.
use jam_tboard.Common.{
  ℕ, ◌-◌, Option, none, some, [], ◌∷◌, ltb, if◌then◌else◌, Bytes, codes, bytes_eq, drop, length,
  pos,
}
use jam_tboard.Task.{max_msg_length}
use jam_tboard.Env.{Env}
use jam_tboard.Tokens.{strtok}

-- What the task board is asked for: to print a text, in a block of that size, to create a task, or
-- to do arithmetic.
pub data Request (env : Env) : Type 0 where
  print_text : Bytes → ℕ → Request env
  spawn_task : Request env
  do_math : env.Real → ℕ → env.Real → Request env

abbrev pub number : (env : Env) → Option Bytes → env.Real
number env none = env.real (pos 0)
number env (some s) = env.atof s

module _ {env : Env} where
  -- With 5 bytes, `memcpy` is asked for more than there is; the text starts at the byte 6, wherever
  -- the word stands.
  unfoldable pub parse_print : Bytes → Option (Option (Request env))
  parse_print message =
      if ltb (length message) 6
      then none
      else some (some (print_text (drop 6 message) (length message - 5)))

  abbrev pub operation : Option Bytes → Option Bytes → Option Bytes → Option (Option (Request env))
  operation a_str (some (c ∷ [])) b_str =
      some (some (do_math (number env a_str) c (number env b_str)))
  operation a_str none b_str = none
  operation a_str (some []) b_str = some none
  operation a_str (some (c ∷ d ∷ s)) b_str = some none

  -- A call of `strtok` after one that returned NULL returns NULL.
  unfoldable pub parse_math : Bytes → Option (Option (Request env))
  parse_math s =
      let (a_str, s1) = strtok s in
      let (op_str, s2) = strtok s1 in let (b_str, s3) = strtok s2 in operation a_str op_str b_str

  abbrev pub by_word : Bytes → Option Bytes × Bytes → Option (Option (Request env))
  by_word message (none, rest) = none
  by_word message (some tok, rest) =
      if bytes_eq tok (codes "print")
      then parse_print message
      else if bytes_eq tok (codes "spawn")
      then some (some spawn_task)
      else if bytes_eq tok (codes "math")
      then parse_math rest
      else none

  -- `none` where C gives no meaning: a message too long for its copy, one with no word in it,
  -- arithmetic without an operator, where NULL is printed as a string, or one whose word is not known,
  -- for which an entry is inserted that was never set. `some none` is
  -- a message that is dropped.
  unfoldable pub parse : Bytes → Option (Option (Request env))
  parse message =
      if ltb max_msg_length (length message) then none else by_word message (strtok message)
