-- ===== src/Mqtt/Rounds.antt =====
-- Rounds of the threads of src/dummy_MQTT.c, on a sound memory.
use jam_tboard.Common.{
  ◌≡◌, refl, ap, ◌∙◌, ◌⊎◌, inl, inr, Bool, true, false, Option, none, some, [], ◌∷◌, Bytes,
  if◌then◌else◌,
}
use jam_tboard.Env.{Env}
use jam_tboard.Env.Laws.{HashLaws}
use jam_tboard.Queue.{
  Queue, queue_insert_tail, queue_peek_front, queue_pop_head, stailq_remove_head,
}
use jam_tboard.Board.{Board}
use jam_tboard.Processor.{Msg, task_exec, msg_processor}
use jam_tboard.Mqtt.{Mqtt, processed, received, insert_request, mqtt_recv, mqtt_ithread}
use jam_tboard.Mqtt.Parse.{Request, print_text, spawn_task, do_math, parse}
use jam_tboard.Ownership.Defs.{short, Held, Sound, Returns, returns}
use jam_tboard.Ownership.Memory.{Sound-bump}
use jam_tboard.Ownership.Messages.{msg_processor-Returns}

-- The message at the front of the pool has a meaning.
abbrev pub Readable : Env → Queue Bytes → Type 0
Readable env [] = Unit {0}
Readable env (s ∷ pool) = (r : Option (Request env)) × (parse s ≡ some r)

module _ {env : Env} where
  -- A round that has a result, with a property.
  pub data Gives (P : Mqtt env → Type 0) : Option (Mqtt env) → Type 0 where
    gives : {u : Mqtt env} → P u → Gives P (some u)

  -- The message in front has been processed, and is at the tail again if the result was false; with no
  -- message there, one was read from the pool, if it had any.
  abbrev pub Moved : Mqtt env → Queue Msg → Queue Bytes → Mqtt env → Type 0
  Moved m (msg ∷ rest) pool u =
      (u.pool ≡ pool)
      × ((added : Bool) × (msg_processor msg m.board ≡ some (added, u.board))
          × (u.inbox ≡ (if added then rest else queue_insert_tail msg rest)))
  Moved m [] [] u = u ≡ m
  Moved m [] (s ∷ pool) u =
      (u.pool ≡ pool)
      × ((u.inbox ≡ []) ⊎ ((msg : Msg) × (u.inbox ≡ msg ∷ []) × (msg.type ≡ task_exec)))

  pub Gives-mono :
      {P Q : Mqtt env → Type 0} {o : Option (Mqtt env)}
      → Gives P o
      → ((u : Mqtt env) → P u → Q u)
      → Gives Q o
  Gives-mono (gives p) weaken = gives (weaken _ p)

  insert-Sound :
      {h : Held} (r : Request env) (m : Mqtt env)
      → Sound h m.board
      → Sound h (insert_request r m).board
  unfolding insert_request
  insert-Sound (print_text s size) m sound = Sound-bump sound
  insert-Sound spawn_task m sound = sound
  insert-Sound (do_math a operator b) m sound = Sound-bump sound

  insert-inbox :
      (r : Request env) (m : Mqtt env)
      → (msg : Msg) × ((insert_request r m).inbox ≡ queue_insert_tail msg m.inbox)
        × (msg.type ≡ task_exec)
        × ((insert_request r m).pool ≡ m.pool)
  unfolding insert_request
  insert-inbox (print_text s size) m = (_, refl, refl, refl)
  insert-inbox spawn_task m = (_, refl, refl, refl)
  insert-inbox (do_math a operator b) m = (_, refl, refl, refl)

  received-Gives :
      {h : Held} (m : Mqtt env) (r : Option (Request env))
      → Sound h m.board
      → m.inbox ≡ []
      → Gives
          (λ u.
            Sound h u.board
            × (u.pool ≡ m.pool)
            × ((u.inbox ≡ []) ⊎ ((msg : Msg) × (u.inbox ≡ msg ∷ []) × (msg.type ≡ task_exec))))
          (received m (some r))
  unfolding queue_insert_tail
  received-Gives m none s e = gives (s, refl, inl e)
  received-Gives m (some r) s e =
      let (msg, at, type, pool) = insert-inbox r m in
      gives (insert-Sound r m s, pool, inr (msg, at ∙ ap (queue_insert_tail msg) e, type))

  processed-Gives :
      {h : Held} (m : Mqtt env) (msg : Msg) {r : Option (Bool × Board env)}
      → Returns (λ _ t. Sound h t) r
      → Gives
          (λ u.
            Sound h u.board
            × (u.pool ≡ m.pool)
            × ((added : Bool) × (r ≡ some (added, u.board))
                × (u.inbox ≡ (if added then m.inbox else queue_insert_tail msg m.inbox))))
          (processed m msg r)
  processed-Gives m msg (returns {a = true} s) = gives (s, refl, (true, refl, refl))
  processed-Gives m msg (returns {a = false} s) = gives (s, refl, (false, refl, refl))

  -- A round of the thread that reads the controller's messages has a result and keeps the
  -- memory sound: the message in front of the queue is processed on the board, and is at the
  -- tail of the queue again if and only if the result of its processing is false; with an
  -- empty queue the first message of the pool is taken out, and a message to the task board
  -- is made of it or it is dropped; with both empty nothing changes. Conditions: the law of
  -- the hash table, no count pending and no entry missing before, and the message in front of
  -- the pool is one that C gives a meaning to.
  pub mqtt_ithread-Gives :
      HashLaws env
      → {h : Held} (m : Mqtt env) → h.pending ≡ short 0
      → h.new ≡ none
      → Sound h m.board
      → Readable env m.pool
      → Gives (λ u. Sound h u.board × Moved m m.inbox m.pool u) (mqtt_ithread m)
  unfolding mqtt_ithread mqtt_recv queue_pop_head queue_peek_front stailq_remove_head
  mqtt_ithread-Gives hash {h} m ep en s fit = go m.inbox m.pool refl refl fit
    where
      go :
          (q : Queue Msg) (ps : Queue Bytes)
          → m.inbox ≡ q
          → m.pool ≡ ps
          → Readable env ps
          → Gives (λ u. Sound h u.board × Moved m q ps u) (mqtt_ithread m)
      go [] [] eq ep' fit = rw (eq, ep') (gives (s, refl))
      go [] (x ∷ ps) eq ep' fit =
          let (r, e) = fit in
          rw (eq, ep', e)
            (Gives-mono (received-Gives (record m { pool = ps; inbox = [] }) r s refl)
              λ u k. (k.0, (k.1, k.2)))
      go (msg ∷ q) ps eq ep' fit =
          rw (eq, ← ep')
            (Gives-mono
              (processed-Gives (record m { inbox = q }) msg
                (msg_processor-Returns hash msg ep en s))
              λ u k. (k.0, (k.1, k.2)))
