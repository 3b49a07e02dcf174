-- ===== src/Mqtt/Blocks.antt =====
-- The data that messages and remote tasks point to, and what MQTT_issue_remote_task of
-- src/dummy_MQTT.c computes on it.
use jam_tboard.Common.{ℕ, Option, none, some, ◌==◌, update, Bytes, codes, bytes_eq, if◌then◌else◌}
use jam_tboard.Task.{Ptr, RemoteTask}
use jam_tboard.Env.{Env}
use jam_tboard.Tokens.{strtok}

-- What `calloc` gives to a task: a text, or a `struct arithmetic_s`; and a `struct rarithmetic_s`
-- that a task keeps for a remote task.
pub data Block (env : Env) : Type 0 where
  text : Bytes → Block env
  arithmetic : (a b : env.Real) → (operator : ℕ) → Block env
  rarithmetic : (a b : env.Real) → (operator : ℕ) → (ans : env.Real) → Block env

-- `data->ans` after the `switch`, which leaves it alone for any other operator.
unfoldable pub remote_ans : (env : Env) → env.Real → env.Real → ℕ → env.Real → env.Real
remote_ans env a b operator ans =
    if operator == b'+'
    then env.real_add a b
    else if operator == b'-'
    then env.real_sub a b
    else if operator == b'*'
    then env.real_mul a b
    else if operator == b'/'
    then env.real_div a b
    else ans

module _ {env : Env} where
  -- A block of another kind is not what the code takes it for.
  abbrev pub reply_in : Option (Block env) → Option (Block env)
  reply_in none = none
  reply_in (some (text s)) = none
  reply_in (some (arithmetic a b operator)) = none
  reply_in (some (rarithmetic a b operator ans)) =
      some (rarithmetic a b operator (remote_ans env a b operator ans))

  abbrev pub write_reply :
      Ptr → (Ptr → Option (Block env)) → Option (Block env) → Option (Ptr → Option (Block env))
  write_reply p blocks none = none
  write_reply p blocks (some b) = some (update blocks p (some b))

  abbrev pub reply_at : Option Ptr → (Ptr → Option (Block env)) → Option (Ptr → Option (Block env))
  reply_at none blocks = none
  reply_at (some p) blocks = write_reply p blocks (reply_in (blocks p))

  -- The blocks after the part of `MQTT_issue_remote_task` that computes; the message has a word.
  abbrev pub reply_to :
      Option Bytes → Option Ptr → (Ptr → Option (Block env)) → Option (Ptr → Option (Block env))
  reply_to none payload blocks = none
  reply_to (some tok) payload blocks =
      if bytes_eq tok (codes "math") then reply_at payload blocks else some blocks

  unfoldable pub reply : RemoteTask → (Ptr → Option (Block env)) → Option (Ptr → Option (Block env))
  reply rtask blocks = reply_to (strtok (codes rtask.message)).0 rtask.payload blocks
