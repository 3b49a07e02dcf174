-- ===== src/Ownership/Remotes.antt =====
-- What allocating, sending, receiving and freeing a remote task does to a sound memory.
use jam_tboard.Common.{List, count, ◌+◌, ◌≡◌, refl, Bool, true, false, none, some, hit, arith}
use jam_tboard.Task.{Ptr, RemoteTask, Cond}
use jam_tboard.Env.{Env}
use jam_tboard.Board.{Board, alloc_remote, free_remote, signal}
use jam_tboard.Place.{remote_task_place}
use jam_tboard.Queue.{Queue, queue_insert_tail}
use jam_tboard.Ownership.Defs.{
  Held, Sound, Returns, returns, live, caller_refs, queued, awaited, mailed, roots,
}
use jam_tboard.Ownership.Frame.{count-insert_tail}
use jam_tboard.Ownership.Memory.{write_remote, bump, remote-lt-next, Sound-write_remote, Sound-bump}

module _ {env : Env} where
  module _ {h : Held} {t : Board env} (s : Sound h t) where
    -- The message queues change, and the hands with them.
    pub mail-Sound :
        {h' : Held} (sent recv : Queue Ptr) (signals : List Cond)
        → ((a : Ptr) → count a sent + count a recv + h'.rhand a ≡ mailed t a + h.rhand a)
        → h'.hand ≡ h.hand
        → h'.debt ≡ h.debt
        → h'.pending ≡ h.pending
        → h'.new ≡ h.new
        → Sound h' (record t { msg_sent = sent; msg_recv = recv; signals = signals })
    unfolding queued awaited mailed roots
    mail-Sound sent recv signals rhands eh ed ep en = record {
      once = λ a. rw (eh, ed) (s.once a);
      mailed_once = λ a. omega (arith, rhands a, s.mailed_once a);
      fresh_task = s.fresh_task;
      fresh_remote = s.fresh_remote;
      older = s.older;
      called = s.called;
      counted = rw ep s.counted;
      recorded = rw en s.recorded;
      tabled = s.tabled;
      listed = s.listed;
      fresh_hist = s.fresh_hist;
    }

    pub free_remote-Returns :
        {h' : Held} {r : Ptr} {x : RemoteTask}
        → t.remotes r ≡ some x
        → ((a : Ptr) → h'.rhand a + hit r a ≡ h.rhand a)
        → ((a : Ptr) → h'.hand a + h.debt a ≡ h.hand a + caller_refs a (some x) + h'.debt a)
        → h'.pending ≡ h.pending
        → h'.new ≡ h.new
        → Returns (λ _ u. Sound h' u × (u ≡ write_remote t r none)) (free_remote r t)
    unfolding free_remote
    free_remote-Returns {r} {x} at rhands hands ep en =
        rw (at, free_remote)
          (returns (
            Sound-write_remote s r none (remote-lt-next s r x at)
                (λ a. rw at (omega (arith, hands a))) (λ a. rw at (ground (arith, rhands a))) ep en
                (λ y e. cc),
            refl,
          ))

    -- The remote task is in the hand of the thread; its caller waits if it is a blocking one.
    pub alloc_remote-Returns :
        {h' : Held} (x : RemoteTask)
        → live x.calling_task ≡ 1
        → ((a : Ptr) → h'.hand a + caller_refs a (some x) + h.debt a ≡ h.hand a + h'.debt a)
        → ((a : Ptr) → h'.rhand a ≡ h.rhand a + hit t.next a)
        → h'.pending ≡ h.pending
        → h'.new ≡ h.new
        → Returns
            (λ r u. Sound h' u × (r ≡ t.next) × (u ≡ write_remote (bump t) t.next (some x)))
            (alloc_remote x t)
    unfolding alloc_remote
    alloc_remote-Returns x call hands rhands ep en =
        let free = s.fresh_remote t.next (omega arith) in
        returns (
          Sound-write_remote (Sound-bump s) t.next (some x) (omega arith)
              (λ a. rw free (omega (arith, hands a))) (λ a. rw free (ground (arith, rhands a))) ep
              en (λ y e. ground arith),
          refl,
          refl,
        )

  pub remote_task_place-Returns :
      {h h' : Held} {t : Board env}
      → Sound h t
      → (r : Ptr) (send : Bool) → ((a : Ptr) → h'.rhand a + hit r a ≡ h.rhand a)
      → h'.hand ≡ h.hand
      → h'.debt ≡ h.debt
      → h'.pending ≡ h.pending
      → h'.new ≡ h.new
      → Returns
          (λ _ u. Sound h' u × (u.tasks ≡ t.tasks) × (u.sqs ≡ t.sqs))
          (remote_task_place (some r) send t)
  unfolding remote_task_place signal mailed
  remote_task_place-Returns {t} s r true rhands eh ed ep en = returns (
    mail-Sound s (queue_insert_tail r t.msg_sent) t.msg_recv _
        (λ a. omega (arith, rhands a, count-insert_tail a r t.msg_sent)) eh ed ep en,
    refl,
    refl,
  )
  remote_task_place-Returns {t} s r false rhands eh ed ep en = returns (
    mail-Sound s t.msg_sent (queue_insert_tail r t.msg_recv) _
        (λ a. omega (arith, rhands a, count-insert_tail a r t.msg_recv)) eh ed ep en,
    refl,
    refl,
  )
