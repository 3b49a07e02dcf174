-- ===== src/Mqtt/Shutdown.antt =====
-- What `MQTT_destroy` of src/dummy_MQTT.c frees.
use jam_tboard.Common.{
  ℕ, ◌+◌, ◌≡◌, refl, none, some, [], ◌∷◌, count, hit, arith, ltb, if◌then◌else◌,
}
use jam_tboard.Task.{Ptr}
use jam_tboard.Env.{Env}
use jam_tboard.Queue.{Queue}
use jam_tboard.Board.{Board, free_data}
use jam_tboard.Destroy.{free_sized}
use jam_tboard.Processor.{Msg}
use jam_tboard.Mqtt.{Mqtt, free_messages, mqtt_destroy}
use jam_tboard.Ownership.Defs.{Held, Sound}
use jam_tboard.Ownership.Frame.{free_sized-Sound}

-- How often a message owns the block at `a`: it has a size above 0.
abbrev pub owns : Msg → Ptr → ℕ
owns msg a = if ltb 0 msg.ud_allocd then (elim msg.user_data [ none ↦ 0 | some d ↦ hit d a ]) else 0

abbrev pub owned : Queue Msg → Ptr → ℕ
owned [] a = 0
owned (msg ∷ q) a = owns msg a + owned q a

module _ {env : Env} where
  free_sized-count :
      (msg : Msg) (t : Board env) (a : Ptr)
      → count a (free_sized msg.ud_allocd msg.user_data t).freed ≡ owns msg a + count a t.freed
  unfolding free_sized free_data count
  free_sized-count msg t a = ground arith

  free_messages-count :
      (q : Queue Msg) (t : Board env) (a : Ptr)
      → count a (free_messages q t).freed ≡ owned q a + count a t.freed
  unfolding free_messages
  free_messages-count [] t a = omega arith
  free_messages-count (msg ∷ q) t a =
      omega (arith, free_messages-count q _ a, free_sized-count msg t a)

  free_messages-Sound :
      {h : Held} (q : Queue Msg) {t : Board env} → Sound h t → Sound h (free_messages q t)
  unfolding free_messages
  free_messages-Sound [] s = s
  free_messages-Sound (msg ∷ q) s =
      free_messages-Sound q (free_sized-Sound msg.ud_allocd msg.user_data s)

  -- Destroying the controller empties its pool and its queue and keeps the memory sound, and
  -- it frees each block exactly as often as a message in the queue owns it.
  pub mqtt_destroy-frees :
      {h : Held} (m : Mqtt env)
      → Sound h m.board
      → let u = mqtt_destroy m in
        Sound h u.board
        × (u.pool ≡ [])
        × (u.inbox ≡ [])
        × ((a : Ptr) → count a u.board.freed ≡ owned m.inbox a + count a m.board.freed)
  unfolding mqtt_destroy
  mqtt_destroy-frees m s =
      (free_messages-Sound m.inbox s, refl, refl, λ a. free_messages-count m.inbox m.board a)
