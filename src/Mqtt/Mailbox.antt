-- ===== src/Mqtt/Mailbox.antt =====
-- The pool, the queue and the data blocks of src/dummy_MQTT.c implement a mailbox of requests.
use jam_tboard.Common.{
  suc, ◌<◌, ◌≡◌, refl, Option, none, some, List, [], ◌∷◌, ◌++◌, arith, update, Bytes,
}
use jam_tboard.Task.{Ptr}
use jam_tboard.Env.{Env}
use jam_tboard.Queue.{
  Queue, queue_insert_head, queue_insert_tail, queue_peek_front, queue_pop_head, stailq_remove_head,
}
use jam_tboard.Processor.{Msg}
use jam_tboard.Mqtt.{
  Mqtt, insert_request, mqtt_send, mqtt_recv, mqtt_print_message_fn, mqtt_spawn_task_fn,
  mqtt_do_math_fn,
}
use jam_tboard.Mqtt.Blocks.{Block, text, arithmetic}
use jam_tboard.Mqtt.Parse.{Request, print_text, spawn_task, do_math}
use jam_tboard.Mqtt.Wire.{Wire, wire, IsWire, meaning, recv-send}

-- What a controller does, and what the thread that reads its messages does.
pub data Op : Type 0 where
  post : Wire → Op
  collect : Op

abbrev pub IsOp : Op → Type 0
IsOp (post w) = IsWire w
IsOp collect = Unit {0}

abbrev pub AreOps : List Op → Type 0
AreOps [] = Unit {0}
AreOps (op ∷ ops) = IsOp op × AreOps ops

-- Requests that were sent, newest first, and requests for the task board, oldest first.
pub record Mailbox (env : Env) : Type 0 where
  pub pending : List Wire
  pub delivered : List (Request env)

-- The texts of these requests.
abbrev pub ArePending : Queue Bytes → List Wire → Type 0
ArePending [] [] = Unit {0}
ArePending (s ∷ pool) (w ∷ ws) = (s ≡ wire w) × IsWire w × ArePending pool ws
ArePending _ _ = ⊥

-- The memory that messages refer to: the blocks, those that are allocated being below the next
-- address, and the address of the task board.
abbrev pub Memory : Env → Type 0
Memory env = (Ptr → Option (Block env)) × Ptr × Ptr

module _ {env : Env} where
  abbrev collected : List Wire → Mailbox env → Mailbox env
  collected [] b = b
  collected (w ∷ ws) b = record { pending = ws; delivered = b.delivered ++ meaning env w ∷ [] }

  abbrev pub serve : Op → Mailbox env → Mailbox env
  serve (post w) b = record b { pending = w ∷ b.pending }
  serve collect b = collected b.pending b

  abbrev pub serve_all : List Op → Mailbox env → Mailbox env
  serve_all [] b = b
  serve_all (op ∷ ops) b = serve_all ops (serve op b)

  abbrev pub carry_out : Op → Mqtt env → Option (Mqtt env)
  carry_out (post w) m = some (mqtt_send (wire w) m)
  carry_out collect m = mqtt_recv m

  abbrev pub carry_out_all : List Op → Mqtt env → Option (Mqtt env)
  carry_out_all [] m = some m
  carry_out_all (op ∷ ops) m = elim (carry_out op m) [ none ↦ none | some u ↦ carry_out_all ops u ]

  abbrev pub memory : Mqtt env → Memory env
  memory m = (m.blocks, m.board.next, m.self)

  abbrev grown : Block env → Memory env → Memory env
  grown b (blocks, next, self) = (update blocks next (some b), suc next, self)

  -- The block that a message points to.
  abbrev Points : Memory env → Msg → Block env → Type 0
  Points (blocks, next, self) msg b =
      (p : Ptr) × (msg.user_data ≡ some p) × (p < next) × (blocks p ≡ some b)

  -- A message that asks the task board for this: the task's function, and its arguments.
  abbrev pub Carries : Memory env → Msg → Request env → Type 0
  Carries mem msg (print_text s size) =
      (msg.task.fn ≡ mqtt_print_message_fn) × (msg.ud_allocd ≡ size) × Points mem msg (text s)
  Carries mem msg spawn_task = (msg.task.fn ≡ mqtt_spawn_task_fn) × (msg.user_data ≡ some mem.2)
  Carries mem msg (do_math a operator b) =
      (msg.task.fn ≡ mqtt_do_math_fn)
      × (msg.ud_allocd ≡ 24)
      × Points mem msg (arithmetic a b operator)

  abbrev pub CarryAll : Memory env → Queue Msg → List (Request env) → Type 0
  CarryAll mem [] [] = Unit {0}
  CarryAll mem (msg ∷ q) (r ∷ rs) = Carries mem msg r × CarryAll mem q rs
  CarryAll mem _ _ = ⊥

  pub record Represents (m : Mqtt env) (b : Mailbox env) : Type 0 where
    pub waiting : ArePending m.pool b.pending
    pub carried : CarryAll (memory m) m.inbox b.delivered

  Points-grow :
      (c : Block env) (mem : Memory env) (msg : Msg) (b : Block env)
      → Points mem msg b
      → Points (grown c mem) msg b
  Points-grow c mem msg b (p, at, lt, is) = (p, at, omega arith, ground arith)

  Carries-grow :
      (c : Block env) (mem : Memory env) (msg : Msg) (r : Request env)
      → Carries mem msg r
      → Carries (grown c mem) msg r
  Carries-grow c mem msg (print_text s size) (f, n, at) = (f, n, Points-grow c mem msg (text s) at)
  Carries-grow c mem msg spawn_task k = k
  Carries-grow c mem msg (do_math x operator y) (f, n, at) =
      (f, n, Points-grow c mem msg (arithmetic x y operator) at)

  CarryAll-grow :
      (c : Block env) (mem : Memory env) (q : Queue Msg) (rs : List (Request env))
      → CarryAll mem q rs
      → CarryAll (grown c mem) q rs
  CarryAll-grow c mem [] [] k = tt
  CarryAll-grow c mem [] (r ∷ rs) k = k
  CarryAll-grow c mem (msg ∷ q) [] k = k
  CarryAll-grow c mem (msg ∷ q) (r ∷ rs) (k, ks) =
      (Carries-grow c mem msg r k, CarryAll-grow c mem q rs ks)

  CarryAll-insert :
      (mem : Memory env) (msg : Msg) (r : Request env) (q : Queue Msg) (rs : List (Request env))
      → Carries mem msg r
      → CarryAll mem q rs
      → CarryAll mem (queue_insert_tail msg q) (rs ++ r ∷ [])
  unfolding queue_insert_tail
  CarryAll-insert mem msg r [] [] k ks = (k, tt)
  CarryAll-insert mem msg r [] (x ∷ rs) k ks = absurd ks
  CarryAll-insert mem msg r (x ∷ q) [] k ks = absurd ks
  CarryAll-insert mem msg r (x ∷ q) (y ∷ rs) k (j, ks) = (j, CarryAll-insert mem msg r q rs k ks)

  insert-CarryAll :
      (r : Request env) (m : Mqtt env) (rs : List (Request env))
      → CarryAll (memory m) m.inbox rs
      → CarryAll (memory (insert_request r m)) (insert_request r m).inbox (rs ++ r ∷ [])
  unfolding insert_request
  insert-CarryAll (print_text s size) m rs k =
      CarryAll-insert _ _ (print_text s size) m.inbox rs
        (refl, refl, (m.board.next, refl, omega arith, ground arith))
        (CarryAll-grow (text s) (memory m) m.inbox rs k)
  insert-CarryAll spawn_task m rs k =
      CarryAll-insert (memory m) _ spawn_task m.inbox rs (refl, refl) k
  insert-CarryAll (do_math a operator b) m rs k =
      CarryAll-insert _ _ (do_math a operator b) m.inbox rs
        (refl, refl, (m.board.next, refl, omega arith, ground arith))
        (CarryAll-grow (arithmetic a b operator) (memory m) m.inbox rs k)

  insert-pool : (r : Request env) (m : Mqtt env) → (insert_request r m).pool ≡ m.pool
  unfolding insert_request
  insert-pool (print_text s size) m = refl
  insert-pool spawn_task m = refl
  insert-pool (do_math a operator b) m = refl

  collect-Represents :
      (m : Mqtt env) (b : Mailbox env) (pool : Queue Bytes) (ws : List Wire)
      → m.pool ≡ pool
      → b.pending ≡ ws
      → ArePending pool ws
      → Represents m b
      → (u : Mqtt env) × (mqtt_recv m ≡ some u) × Represents u (serve collect b)
  unfolding mqtt_recv queue_pop_head queue_peek_front mqtt_send queue_insert_head stailq_remove_head
  collect-Represents m b [] [] ep ew k r =
      (m, rw ep refl, rw ew (record { waiting = rw ep tt; carried = r.carried }))
  collect-Represents m b [] (w ∷ ws) ep ew k r = absurd k
  collect-Represents m b (s ∷ pool) [] ep ew k r = absurd k
  collect-Represents m b (s ∷ pool) (w ∷ ws) ep ew (same, is, rest) r =
      let m1 : Mqtt env = record m { pool = pool } in
      (
        insert_request (meaning env w) m1,
        rw (ep, same) (recv-send w m1 is),
        rw ew (record {
          waiting = rw (insert-pool (meaning env w) m1) rest;
          carried = insert-CarryAll (meaning env w) m1 b.delivered r.carried;
        }),
      )

  -- One operation on both sides.
  serve-Represents :
      (op : Op) (m : Mqtt env) (b : Mailbox env)
      → IsOp op
      → Represents m b
      → (u : Mqtt env) × (carry_out op m ≡ some u) × Represents u (serve op b)
  unfolding mqtt_send queue_insert_head
  serve-Represents (post w) m b is r =
      (_, refl, record { waiting = (refl, is, r.waiting); carried = r.carried })
  serve-Represents collect m b is r = collect-Represents m b m.pool b.pending refl refl r.waiting r

  -- Sending messages and reading them, in any order, implements a mailbox: requests that are
  -- posted wait with the newest first, and each collection moves the newest one to the end of
  -- a list of requests for the task board. If the pool, the queue and the blocks represent a
  -- mailbox, the code has a result, which represents the mailbox after the same operations:
  -- the pool holds the texts of the waiting requests, and each message of the queue names the
  -- task of its request and points to an allocated block with its arguments. Condition: each
  -- message that is sent is the text of a request that fits its buffer, with words and an
  -- operator where it has them.
  pub carry_out_all-Represents :
      (ops : List Op) (m : Mqtt env) (b : Mailbox env)
      → AreOps ops
      → Represents m b
      → (u : Mqtt env) × (carry_out_all ops m ≡ some u) × Represents u (serve_all ops b)
  carry_out_all-Represents [] m b are r = (m, refl, r)
  carry_out_all-Represents (op ∷ ops) m b (is, are) r =
      let (u, e, r1) = serve-Represents op m b is r in
      let (v, e1, r2) = carry_out_all-Represents ops u (serve op b) are r1 in
      (v, rw (e, carry_out_all) e1, r2)
