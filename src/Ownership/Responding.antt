-- ===== src/Ownership/Responding.antt =====
-- The sequencer of src/sequencer.c keeps the memory sound, and loses no response.
use jam_tboard.Common.{
  ◌+◌, ◌<◌, ◌≡◌, refl, ap, ◌∙◌, true, some, [], ◌∷◌, hit, count, arith, inl, inr, Bool-cases,
  Option-cases,
}
use jam_tboard.Task.{Ptr, Task, RemoteTask, remote_bytes}
use jam_tboard.Env.{Env}
use jam_tboard.Env.Laws.{CoroLaws}
use jam_tboard.Queue.{Queue, queue_pop_head, queue_peek_front}
use jam_tboard.Board.{Board, load_task, load_remote}
use jam_tboard.Sequencer.{
  push_remote, return_remote, handle_msg_recv, respond, sequencer_section, task_sequencer,
}
use jam_tboard.Ownership.Defs.{
  Held, with_remote, with_debt, Sound, HasRoom, Returns, returns, Returns-bind, Returns-mono,
  caller_refs, awaited, mailed,
}
use jam_tboard.Ownership.Frame.{SameMemory-free_sized, coros-Sound, free_sized-Sound}
use jam_tboard.Ownership.Memory.{remote-lt-next}
use jam_tboard.Ownership.Tasks.{total-ge, some-of-live, task_place-Returns}
use jam_tboard.Ownership.Remotes.{mail-Sound, free_remote-Returns}

-- The callers of blocking remote tasks have empty storage with room for a struct.
abbrev pub CallersWait : {env : Env} → Board env → Type 0
CallersWait {env} t =
    (r p : Ptr) (x : RemoteTask) (y : Task)
    → t.remotes r ≡ some x
    → x.blocking ≡ true
    → x.calling_task ≡ some p
    → t.tasks p ≡ some y
    → HasRoom t y

module _ {env : Env} where
  module _ {h : Held} {t : Board env} (s : Sound h t) (debts : (a : Ptr) → h.debt a ≡ 0) where
    -- The caller of a live blocking remote task is live.
    caller-live :
        (r p : Ptr) (x : RemoteTask)
        → t.remotes r ≡ some x
        → x.blocking ≡ true
        → x.calling_task ≡ some p
        → (y : Task) × (t.tasks p ≡ some y)
    unfolding awaited
    caller-live r p x at b up = some-of-live (t.tasks p) (
        ground (
          arith,
          s.once p,
          debts p,
          total-ge (caller_refs p) t.next t.remotes r (remote-lt-next s r x at),
        ))

    pub mailed-live : (r : Ptr) → 0 < mailed t r → (x : RemoteTask) × (t.remotes r ≡ some x)
    mailed-live r le = some-of-live (t.remotes r) (omega (arith, s.mailed_once r))

    respond-Returns :
        {h' : Held} (laws : CoroLaws env) (r : Ptr) (x : RemoteTask)
        → CallersWait t
        → t.remotes r ≡ some x
        → ((a : Ptr) → h'.rhand a + hit r a ≡ h.rhand a)
        → h'.hand ≡ h.hand
        → h'.debt ≡ h.debt
        → h'.pending ≡ h.pending
        → h'.new ≡ h.new
        → Returns (λ _ u. Sound h' u × (u.sqs ≡ t.sqs)) (respond (some r) t)
    unfolding respond handle_msg_recv load_remote return_remote load_task push_remote
    respond-Returns laws r x wait at rhands eh ed ep en = rw at (elim (Bool-cases x.blocking) [
      | inl b ↦
          let (p, up) = some-of-live x.calling_task (omega (arith, s.called r x at)) in
          let (y, there) = caller-live r p x at b up in
          let (vacant, room) = wait r p x y at b up there in
          let (k, done) = room (remote_bytes x) in
          rw (b, up, there, at, done)
            (Returns-bind
              (task_place-Returns (coros-Sound k s) {h' = with_debt (some p) h} there
                (λ a. omega arith) refl refl refl)
              λ _ u (s1, same).
                Returns-mono
                  (free_remote-Returns s1 (ap (λ f. f r) same.remotes ∙ at) rhands
                    (λ a. rw (eh, ed) (ground arith)) ep en)
                  (λ _ v r. (r.0, ap (λ (w : Board env). w.sqs) r.1 ∙ same.sqs)))
      | inr b ↦ rw b (
          Returns-mono
            (free_remote-Returns (free_sized-Sound x.data_size x.payload s)
              (ap (λ f. f r) (SameMemory-free_sized x.data_size x.payload t).remotes ∙ at) rhands
              (λ a. rw (eh, ed) (ground arith)) ep en)
            (λ _ v r. (
              r.0,
              ap (λ (w : Board env). w.sqs) r.1
                  ∙ (SameMemory-free_sized x.data_size x.payload t).sqs,
            )))
    ])

  -- Whatever the queue of responses holds, and also if it is empty by now.
  section-Returns :
      {h : Held} {t : Board env}
      → CoroLaws env
      → Sound h t
      → ((a : Ptr) → h.debt a ≡ 0)
      → CallersWait t
      → (q : Queue Ptr) → t.msg_recv ≡ q
      → Returns (λ _ u. Sound h u × (u.sqs ≡ t.sqs)) (sequencer_section t)
  unfolding sequencer_section queue_pop_head respond mailed count
  section-Returns laws s debts wait [] e =
      rw e (
        returns
          (mail-Sound s _ [] _ (λ a. omega (arith, ap (count a) e)) refl refl refl refl, refl))
  section-Returns {h} {t} laws s debts wait (r ∷ rest) e =
      let (x, at) = mailed-live s debts r (ground (arith, ap (count r) e)) in
      rw e (
        respond-Returns
          (mail-Sound s {h' = with_remote r h} t.msg_sent rest t.signals
            (λ a. omega (arith, ap (count a) e)) refl refl refl refl)
          debts {h' = h} laws r x wait at (λ a. refl) refl refl refl refl)

  -- The task sequencer returns without a fault, keeps the memory sound and keeps the number
  -- of secondary queues: a blocking response wakes its caller, another one is freed with its
  -- data. Conditions: the laws of the coroutine library, no task in debt, and the callers of
  -- blocking remote tasks have empty storage with room for a struct.
  pub task_sequencer-Returns :
      {h : Held} {t : Board env}
      → CoroLaws env
      → Sound h t
      → ((a : Ptr) → h.debt a ≡ 0)
      → CallersWait t
      → Returns (λ _ u. Sound h u × (u.sqs ≡ t.sqs)) (task_sequencer t)
  unfolding task_sequencer
  task_sequencer-Returns {t} laws s debts wait = elim (Option-cases (queue_peek_front t.msg_recv)) [
    | inl e ↦ rw (e, task_sequencer) (returns (s, refl))
    | inr (r, e) ↦ rw (e, task_sequencer) (section-Returns laws s debts wait t.msg_recv refl)
  ]
