-- ===== src/Mqtt/Tasks.antt =====
-- The bodies of the tasks that src/dummy_MQTT.c defines. `args` is what `task_get_args` returns;
-- what a body prints is its result.
use jam_tboard.Common.{ℕ, ◌==◌, Option, none, some, if◌then◌else◌, Bytes, Bool}
use jam_tboard.Task.{Ptr, Function, secondary_exec}
use jam_tboard.Env.{Env}
use jam_tboard.Board.{Board}
use jam_tboard.Create.{task_create}
use jam_tboard.Mqtt.{Mqtt, mqtt_increment}
use jam_tboard.Mqtt.Blocks.{Block, text, arithmetic, rarithmetic}

abbrev pub mqtt_spawned_task_fn : Function
mqtt_spawned_task_fn = record { fn = 4; fn_name = "MQTT_Spawned_Task" }

-- The result of the operator, if it is one of the four.
unfoldable pub compute : (env : Env) → env.Real → ℕ → env.Real → Option env.Real
compute env a operator b =
    if operator == b'+'
    then some (env.real_add a b)
    else if operator == b'-'
    then some (env.real_sub a b)
    else if operator == b'*'
    then some (env.real_mul a b)
    else if operator == b'/'
    then some (env.real_div a b)
    else none

module _ {env : Env} where
  abbrev pub load_block : Mqtt env → Option Ptr → Option (Block env)
  load_block m none = none
  load_block m (some p) = m.blocks p

  abbrev printed : Mqtt env → Option (Block env) → Option (Bytes × Mqtt env)
  printed m none = none
  printed m (some (arithmetic a b operator)) = none
  printed m (some (rarithmetic a b operator ans)) = none
  printed m (some (text s)) = some (s, record m { imsg_sent = mqtt_increment m.imsg_sent })

  unfoldable pub mqtt_print_message : Option Ptr → Mqtt env → Option (Bytes × Mqtt env)
  mqtt_print_message args m = printed m (load_block m args)

  abbrev computed : Mqtt env → Option env.Real → Option (Option env.Real × Mqtt env)
  computed m none = some (none, m)
  computed m (some ans) = some (some ans, record m { imsg_sent = mqtt_increment m.imsg_sent })

  abbrev worked : Mqtt env → Option (Block env) → Option (Option env.Real × Mqtt env)
  worked m none = none
  worked m (some (text s)) = none
  worked m (some (rarithmetic a b operator ans)) = none
  worked m (some (arithmetic a b operator)) = computed m (compute env a operator b)

  unfoldable pub mqtt_do_math : Option Ptr → Mqtt env → Option (Option env.Real × Mqtt env)
  mqtt_do_math args m = worked m (load_block m args)

  abbrev spawned : Mqtt env → Option (Bool × Board env) → Option (Mqtt env)
  spawned m none = none
  spawned m (some (made, t)) = some (record m { imsg_sent = mqtt_increment m.imsg_sent; board = t })

  -- The task is counted whether or not it could be created.
  unfoldable pub mqtt_spawn_task : Mqtt env → Option (Mqtt env)
  mqtt_spawn_task m = spawned m (task_create mqtt_spawned_task_fn secondary_exec none 0 m.board)

  -- Up to the yield; the number that it reports then, and again after the yield.
  unfoldable pub mqtt_spawned_task : Mqtt env → ℕ × Mqtt env
  mqtt_spawned_task m = (mqtt_increment m.spawned, record m { spawned = mqtt_increment m.spawned })
