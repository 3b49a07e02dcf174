-- ===== src/Controller.antt =====
-- The worker-to-controller side of src/dummy_MQTT.c, which stands in for a controller:
-- `MQTT_othread` and `MQTT_issue_remote_task`, less the counts of messages and the arithmetic on
-- the remote task's data, which the module Mqtt adds.
use jam_tboard.Common.{Bool, true, false, Bytes, codes, bytes_eq, Option, none, some, if◌then◌else◌}
use jam_tboard.Task.{Ptr, RemoteTask, pcond, task_completed}
use jam_tboard.Tokens.{strtok}
use jam_tboard.Env.{Env}
use jam_tboard.Queue.{queue_peek_front, queue_pop_head}
use jam_tboard.Board.{M, pure, ◌>>=◌, ◌>>◌, modify, expect, load_remote, store_remote, signal}
use jam_tboard.Place.{remote_task_place}

module _ {env : Env} where
  -- The controller does what the message asks for, or only reports it; the result is whether it
  -- counts the message as sent.
  unfoldable pub answer : Ptr → RemoteTask → Bytes → M env Bool
  answer r rtask tok =
      if bytes_eq tok (codes "print")
      then (do
        printed ← expect rtask.payload
        store_remote r (record rtask { status = task_completed })
        pure true)
      else if bytes_eq tok (codes "math")
      then (do
        answered ← expect rtask.payload
        store_remote r (record rtask { status = task_completed })
        pure true)
      else pure false

  unfoldable pub mqtt_issue_remote_task : Option Ptr → M env Bool
  mqtt_issue_remote_task none = pure false
  mqtt_issue_remote_task (some r) = do
    rtask ← load_remote r
    tok ← expect (strtok (codes rtask.message)).0
    counts ← answer r rtask tok
    remote_task_place (some r) false
    modify (signal pcond)
    pure counts

  -- The part after the first look, with its own look under `msg_mutex`. The result is what the
  -- controller was given, if anything, and whether it counts it.
  unfoldable pub othread_section : M env (Option Bool)
  othread_section t =
      let (ohead, rest) = queue_pop_head t.msg_sent in
      elim ohead [
        | none ↦ some (none, record t { msg_sent = rest })
        | some r ↦
            (mqtt_issue_remote_task (some r) >>= λ counts. pure (some counts))
              (record t { msg_sent = rest })
      ]

  -- One round of the loop of `MQTT_othread`, less the wait for a message.
  unfoldable pub mqtt_othread : M env (Option Bool)
  mqtt_othread t = elim (queue_peek_front t.msg_sent) [
    | none ↦ some (none, t)
    | some _ ↦ othread_section t
  ]
