-- ===== src/Mqtt/Replies.antt =====
-- `MQTT_othread` of src/dummy_MQTT.c answers the remote task in front of the queue.
use mathlib.Core.Path.{subst}
use jam_tboard.Common.{
  ℕ, ◌≤◌, ◌≡◌, ◌⊎◌, refl, sym, ap, ◌∙◌, inl, inr, Bool, true, false, Option, none, some, [], ◌∷◌,
  count, update, arith, Bytes, codes, bytes_eq, Bool-cases, Option-cases, if◌then◌else◌,
}
use jam_tboard.Task.{Ptr, RemoteTask}
use jam_tboard.Env.{Env}
use jam_tboard.Tokens.{strtok}
use jam_tboard.Queue.{Queue, queue_peek_front}
use jam_tboard.Board.{Board}
use jam_tboard.Controller.{mqtt_othread}
use jam_tboard.Mqtt.{Mqtt, handed_over, mqtt_out}
use jam_tboard.Mqtt.Blocks.{
  Block, rarithmetic, remote_ans, reply_in, write_reply, reply_at, reply_to, reply,
}
use jam_tboard.Mqtt.Arithmetic.{IsAnswer, IsOther, remote_ans-IsAnswer}
use jam_tboard.Mqtt.Rounds.{Gives, gives, Gives-mono}
use jam_tboard.Ownership.Defs.{Held, Sound, Returns, returns, mailed}
use jam_tboard.Ownership.Tasks.{some-of-live}
use jam_tboard.Ownership.Answering.{Answerable, mqtt_othread-Returns}

-- The message asks for arithmetic.
abbrev pub asks_math : RemoteTask → Bool
asks_math x = elim (strtok (codes x.message)).0 [
  | none ↦ false
  | some tok ↦ bytes_eq tok (codes "math")
]

asks_word :
    (x : RemoteTask) (tok : Bytes)
    → (strtok (codes x.message)).0 ≡ some tok
    → asks_math x ≡ bytes_eq tok (codes "math")
asks_word x tok word = rw (word, asks_math) refl

front-count : (q : Queue Ptr) (r : Ptr) → queue_peek_front q ≡ some r → 1 ≤ count r q
unfolding queue_peek_front count
front-count [] r e = absurd (cc)
front-count (p ∷ q) r e = ground arith

module _ {env : Env} where
  -- The data of an arithmetic remote task, before and after it has been answered.
  abbrev pub Arithmetic : (Ptr → Option (Block env)) → RemoteTask → Type 0
  Arithmetic blocks x =
      (p : Ptr) × (a b : env.Real) × (operator : ℕ) × (ans : env.Real) × (x.payload ≡ some p)
      × (blocks p ≡ some (rarithmetic a b operator ans))

  abbrev pub Computed : (before after : Ptr → Option (Block env)) → RemoteTask → Type 0
  Computed before after x =
      (p : Ptr) × (a b : env.Real) × (operator : ℕ) × (ans new : env.Real) × (x.payload ≡ some p)
      × (before p ≡ some (rarithmetic a b operator ans))
      × (after ≡ update before p (some (rarithmetic a b operator new)))
      × (IsAnswer env a b operator new ⊎ (IsOther operator × (new ≡ ans)))

  -- The message has a word, and one that asks for arithmetic has the data for it.
  abbrev pub Served : (Ptr → Option (Block env)) → RemoteTask → Type 0
  Served blocks x =
      (tok : Bytes) × ((strtok (codes x.message)).0 ≡ some tok)
      × (bytes_eq tok (codes "math") ≡ true → Arithmetic blocks x)
      × (bytes_eq tok (codes "print") ≡ true → (d : Ptr) × (x.payload ≡ some d))

  -- The data before and after the controller has done what it is asked for.
  abbrev pub Outcome : (before after : Ptr → Option (Block env)) → RemoteTask → Type 0
  Outcome before after x =
      ((asks_math x ≡ false) × (after ≡ before)) ⊎ ((asks_math x ≡ true) × Computed before after x)

  -- What happens to the data: nothing, or the front remote task's answer is computed.
  abbrev pub Answers : (before after : Mqtt env) → Type 0
  Answers m u =
      ((queue_peek_front m.board.msg_sent ≡ none) × (u.blocks ≡ m.blocks))
      ⊎ ((r : Ptr) × (x : RemoteTask) × (queue_peek_front m.board.msg_sent ≡ some r)
          × (m.board.remotes r ≡ some x)
          × Outcome m.blocks u.blocks x)

  Served-Answerable :
      (blocks : Ptr → Option (Block env)) (x : RemoteTask) → Served blocks x → Answerable x
  Served-Answerable blocks x (tok, word, data_of, printed) =
      (tok, word, (λ e. let (p, a, b, operator, ans, at, is) = data_of e in (p, at)), printed)

  handed_over-Gives :
      {h : Held} (m : Mqtt env) {r : Option (Option Bool × Board env)}
      → Returns (λ _ t. Sound h t) r
      → Gives
          (λ u. Sound h u.board × (u.pool ≡ m.pool) × (u.inbox ≡ m.inbox) × (u.blocks ≡ m.blocks))
          (handed_over m r)
  handed_over-Gives m (returns {a = none} s) = gives (s, refl, refl, refl)
  handed_over-Gives m (returns {a = some false} s) = gives (s, refl, refl, refl)
  handed_over-Gives m (returns {a = some true} s) = gives (s, refl, refl, refl)

  reply_of :
      (blocks : Ptr → Option (Block env)) (x : RemoteTask) (tok : Bytes)
      → (strtok (codes x.message)).0 ≡ some tok
      → reply x blocks
        ≡ (if bytes_eq tok (codes "math") then reply_at x.payload blocks else some blocks)
  unfolding reply
  reply_of blocks x tok word = ap (λ w. reply_to w x.payload blocks) word

  -- The computation succeeds.
  reply-Served :
      (blocks : Ptr → Option (Block env)) (x : RemoteTask)
      → Served blocks x
      → (after : Ptr → Option (Block env)) × (reply x blocks ≡ some after) × Outcome blocks after x
  reply-Served blocks x (tok, word, given, printed) =
      elim (Bool-cases (bytes_eq tok (codes "math"))) [
        | inl e ↦
            let (p, a, b, operator, ans, at, is) = given e in
            (
              update blocks p (some (rarithmetic a b operator (remote_ans env a b operator ans))),
              reply_of blocks x tok word
                  ∙ ap (λ c. if c then reply_at x.payload blocks else some blocks) e
                  ∙ ap (λ o. reply_at o blocks) at
                  ∙ ap (λ c. write_reply p blocks (reply_in c)) is,
              inr (
                asks_word x tok word ∙ e,
                (
                  p,
                  a,
                  b,
                  operator,
                  ans,
                  remote_ans env a b operator ans,
                  at,
                  is,
                  refl,
                  remote_ans-IsAnswer env a b operator ans,
                ),
              ),
            )
        | inr e ↦ (
          blocks,
          reply_of blocks x tok word
              ∙ ap (λ c. if c then reply_at x.payload blocks else some blocks) e,
          inl (asks_word x tok word ∙ e, refl),
        )
      ]

  front-live :
      {h : Held} {t : Board env} (s : Sound h t) (r : Ptr)
      → queue_peek_front t.msg_sent ≡ some r
      → (x : RemoteTask) × (t.remotes r ≡ some x)
  unfolding mailed
  front-live {t} s r front =
      some-of-live (t.remotes r) (omega (arith, s.mailed_once r, front-count t.msg_sent r front))

  -- A round of the thread that hands remote tasks to the controller, with its counts, has a
  -- result, keeps the memory sound, and leaves the controller's pool and queue as they were.
  -- With no remote task in the queue, or one in front whose message does not ask for
  -- arithmetic, no data changes; if it does ask for arithmetic, its struct gets the answer
  -- that its operator stands for, or keeps its old one if it is no operator, and nothing else
  -- changes in the data. Conditions: no task in debt, and every live remote task has a
  -- message with a word, a struct for arithmetic as its data if it asks for arithmetic, and
  -- data if it asks to print.
  pub mqtt_out-Gives :
      {h : Held} (m : Mqtt env)
      → Sound h m.board
      → ((a : Ptr) → h.debt a ≡ 0)
      → ((r : Ptr) (x : RemoteTask) → m.board.remotes r ≡ some x → Served m.blocks x)
      → Gives
          (λ u. Sound h u.board × (u.pool ≡ m.pool) × (u.inbox ≡ m.inbox) × Answers m u)
          (mqtt_out m)
  unfolding mqtt_out
  mqtt_out-Gives m s debts fit =
      let run =
        mqtt_othread-Returns s debts (λ r x at. Served-Answerable m.blocks x (fit r x at)) in
      elim (Option-cases (queue_peek_front m.board.msg_sent)) [
        | inl e ↦
            let out : mqtt_out m ≡ handed_over m (mqtt_othread m.board) = rw (e, mqtt_out) refl in
            subst (Gives _) (sym out)
              (Gives-mono (handed_over-Gives m run) λ u (s1, p, i, b). (s1, p, i, inl (e, b)))
        | inr (r, e) ↦
            let (x, at) = front-live s r e in
            let (after, eq, how) = reply-Served m.blocks x (fit r x at) in
            let out : mqtt_out m
                ≡ handed_over (record m { blocks = after }) (mqtt_othread m.board) =
              rw (e, at, eq, mqtt_out) refl in
            subst (Gives _) (sym out) (
              Gives-mono (handed_over-Gives (record m { blocks = after }) run) λ u (s1, p, i, b).
                (s1, p, i, inr (r, x, e, at, subst (λ f. Outcome m.blocks f x) (sym b) how)))
      ]
