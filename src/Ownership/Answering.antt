-- ===== src/Ownership/Answering.antt =====
-- The controller's side of src/dummy_MQTT.c keeps the memory sound.
use mathlib.Core.Path.{subst}
use jam_tboard.Tokens.{strtok}
use jam_tboard.Common.{
  Bytes, codes, bytes_eq, ◌≡◌, refl, sym, ap, ◌∙◌, some, [], ◌∷◌, true, false, Bool-cases,
  Option-cases, arith, count, inl, inr,
}
use jam_tboard.Task.{Ptr, RemoteTask, task_completed}
use jam_tboard.Env.{Env}
use jam_tboard.Queue.{Queue, queue_peek_front, queue_pop_head}
use jam_tboard.Board.{Board, pure, and_then, ◌>>◌, expect, load_remote, store_remote, signal}
use jam_tboard.Controller.{answer, mqtt_issue_remote_task, othread_section, mqtt_othread}
use jam_tboard.Ownership.Defs.{
  Held, with_remote, Sound, Returns, returns, Returns-bind, queued, mailed,
}
use jam_tboard.Ownership.Frame.{Sound-queues}
use jam_tboard.Ownership.Memory.{remote-lt-next, Sound-write_remote}
use jam_tboard.Ownership.Remotes.{mail-Sound, remote_task_place-Returns}
use jam_tboard.Ownership.Responding.{mailed-live}

-- The message has a first word, and data if it asks for arithmetic or for a text to be printed.
abbrev pub Answerable : RemoteTask → Type 0
Answerable x =
    (tok : Bytes) × ((strtok (codes x.message)).0 ≡ some tok)
    × (bytes_eq tok (codes "math") ≡ true → (d : Ptr) × (x.payload ≡ some d))
    × (bytes_eq tok (codes "print") ≡ true → (d : Ptr) × (x.payload ≡ some d))

module _ {env : Env} where
  complete-Returns :
      {h : Held} {t : Board env} (r : Ptr) (x : RemoteTask)
      → Sound h t
      → t.remotes r ≡ some x
      → Returns (λ _ u. Sound h u) (store_remote r (record x { status = task_completed }) t)
  unfolding store_remote
  complete-Returns r x s at =
      rw (at, store_remote)
        (returns (
          Sound-write_remote s r (some (record x { status = task_completed }))
            (remote-lt-next s r x at) (λ a. rw at (omega arith)) (λ a. rw at (omega arith)) refl
            refl (λ y e. ground (arith, s.called r x at))))

  -- The data is read, and the remote task is completed.
  read_then_complete :
      {h : Held} {t : Board env} (r : Ptr) (x : RemoteTask) (d : Ptr)
      → x.payload ≡ some d
      → Sound h t
      → t.remotes r ≡ some x
      → Returns
          (λ _ u. Sound h u)
          (and_then
            (expect x.payload t)
            (λ _. store_remote r (record x { status = task_completed }) >> pure true))
  read_then_complete {h} {t} r x d there s at =
      Returns-bind
        (subst (λ o. Returns (λ _ u. Sound h u × (u.remotes ≡ t.remotes)) (expect o t)) (sym there)
          (returns (s, refl)))
        λ _ u k.
          Returns-bind (complete-Returns r x k.0 (ap (λ f. f r) k.1 ∙ at)) λ _ v s1. returns s1

  answer-Returns :
      {h : Held} {t : Board env} (r : Ptr) (x : RemoteTask) (tok : Bytes)
      → (bytes_eq tok (codes "math") ≡ true → (d : Ptr) × (x.payload ≡ some d))
      → (bytes_eq tok (codes "print") ≡ true → (d : Ptr) × (x.payload ≡ some d))
      → Sound h t
      → t.remotes r ≡ some x
      → Returns (λ _ u. Sound h u) (answer r x tok t)
  unfolding answer
  answer-Returns {h} {t} r x tok given text s at =
      elim (Bool-cases (bytes_eq tok (codes "print"))) [
        | inl print ↦ let (d, there) = text print in rw print (read_then_complete r x d there s at)
        | inr other ↦ elim (Bool-cases (bytes_eq tok (codes "math"))) [
          | inl math ↦
              let (d, there) = given math in rw (other, math) (read_then_complete r x d there s at)
          | inr unknown ↦ rw (other, unknown) (returns s)
        ]
      ]

  issue-Returns :
      {h : Held} {t : Board env} (r : Ptr) (x : RemoteTask)
      → Answerable x
      → Sound (with_remote r h) t
      → t.remotes r ≡ some x
      → Returns (λ _ u. Sound h u) (mqtt_issue_remote_task (some r) t)
  unfolding mqtt_issue_remote_task load_remote signal queued
  issue-Returns {h} r x (tok, word, given, text) s at =
      rw (at, word)
        (Returns-bind (answer-Returns r x tok given text s at) λ _ u s1.
          Returns-bind
            (remote_task_place-Returns {h' = h} s1 r false (λ a. refl) refl refl refl refl)
            λ _ v k. returns (Sound-queues k.0 (ground arith) (λ a. refl) refl refl refl))

  othread_section-Returns :
      {h : Held} {t : Board env}
      → Sound h t
      → ((a : Ptr) → h.debt a ≡ 0)
      → ((r : Ptr) (x : RemoteTask) → t.remotes r ≡ some x → Answerable x)
      → (q : Queue Ptr) → t.msg_sent ≡ q
      → Returns (λ _ u. Sound h u) (othread_section t)
  unfolding othread_section queue_pop_head mqtt_issue_remote_task mailed count
  othread_section-Returns s debts fit [] e =
      rw e (returns (mail-Sound s [] _ _ (λ a. omega (arith, ap (count a) e)) refl refl refl refl))
  othread_section-Returns {h} {t} s debts fit (r ∷ rest) e =
      let (x, at) = mailed-live s debts r (ground (arith, ap (count r) e)) in
      rw e (
        Returns-bind
          (issue-Returns r x (fit r x at)
            (mail-Sound s {h' = with_remote r h} rest t.msg_recv t.signals
              (λ a. omega (arith, ap (count a) e)) refl refl refl refl)
            at)
          λ _ u s1. returns s1)

  -- A round of the thread that hands remote tasks to the controller returns without a fault
  -- and keeps the memory sound, whatever the message asks for. Conditions: no task in debt,
  -- and every live remote task's message has a first word, and its data is there if that word
  -- is math or print.
  pub mqtt_othread-Returns :
      {h : Held} {t : Board env}
      → Sound h t
      → ((a : Ptr) → h.debt a ≡ 0)
      → ((r : Ptr) (x : RemoteTask) → t.remotes r ≡ some x → Answerable x)
      → Returns (λ _ u. Sound h u) (mqtt_othread t)
  unfolding mqtt_othread
  mqtt_othread-Returns {t} s debts fit = elim (Option-cases (queue_peek_front t.msg_sent)) [
    | inl e ↦ rw (e, mqtt_othread) (returns s)
    | inr (r, e) ↦ rw (e, mqtt_othread) (othread_section-Returns s debts fit t.msg_sent refl)
  ]
