-- ===== src/Ownership/Frame.antt =====
-- How placing a task changes the references: one more in a ready queue, nothing else.
use native.Mathlib.Nat.{mod-lt}
use jam_tboard.Common.{
  ℕ, Option, ◌∙◌, ◌+◌, ◌<◌, ◌≡◌, ap, refl, inl, inr, ℤ, hit, count, count-snoc, total-update, arith,
  ◌==◌, Bool-cases, ◌||◌, leb_ℤ,
}
use jam_tboard.Task.{Ptr, primary_exec}
use jam_tboard.Env.{Env}
use jam_tboard.Queue.{queue_insert_head, queue_insert_tail}
use jam_tboard.Board.{Board, signal, free_data}
use jam_tboard.Destroy.{free_sized}
use jam_tboard.Place.{place_primary, place_secondary, place}
use jam_tboard.Ownership.Defs.{closed, Held, Sound, live, queued, awaited, mailed, roots}

pub count-insert_tail : (a p : ℕ) (q : _) → count a (queue_insert_tail p q) ≡ count a q + hit p a
unfolding queue_insert_tail
count-insert_tail a p q = count-snoc a p q

pub count-insert_head : (a p : ℕ) (q : _) → count a (queue_insert_head p q) ≡ count a q + hit p a
unfolding queue_insert_head count
count-insert_head a p q = omega arith

module _ {env : Env} where
  -- Boards that differ in ready queues, coroutines and signals at most.
  pub record SameMemory (t u : Board env) : Type 0 where
    pub tasks : u.tasks ≡ t.tasks
    pub remotes : u.remotes ≡ t.remotes
    pub hists : u.hists ≡ t.hists
    pub exec_hist : u.exec_hist ≡ t.exec_hist
    pub next : u.next ≡ t.next
    pub msg_sent : u.msg_sent ≡ t.msg_sent
    pub msg_recv : u.msg_recv ≡ t.msg_recv
    pub task_count : u.task_count ≡ t.task_count
    pub sqs : u.sqs ≡ t.sqs

  pub place-SameMemory : (type : ℤ) (p : Ptr) (t : Board env) → SameMemory t (place type p t)
  unfolding place place_primary place_secondary signal
  place-SameMemory type p t = ground arith

  queued-place_primary :
      (type : ℤ) (p : Ptr) (t : Board env) (a : Ptr)
      → queued (place_primary type p t) a ≡ queued t a + hit p a
  unfolding queued place_primary signal
  queued-place_primary type p t a =
      ground (arith, count-insert_tail a p t.pqueue, count-insert_head a p t.pqueue)

  queued-place_secondary :
      (j : ℕ) (p : Ptr) (t : Board env) (a : Ptr)
      → j < t.sqs
      → queued (place_secondary j p t) a ≡ queued t a + hit p a
  unfolding queued place_secondary signal
  queued-place_secondary j p t a h = omega (
    arith,
    count-insert_tail a p (t.squeue j),
    total-update (count a) t.sqs t.squeue j (queue_insert_tail p (t.squeue j)) h,
  )

  pub queued-place :
      (type : ℤ) (p : Ptr) (t : Board env) (a : Ptr)
      → queued (place type p t) a ≡ queued t a + hit p a
  unfolding place
  queued-place type p t a = elim (Bool-cases (leb_ℤ type primary_exec || (t.sqs == 0))) [
    | inl e ↦ rw e (queued-place_primary type p t a)
    | inr e ↦ rw e (queued-place_secondary _ p t a (mod-lt _ (ground arith)))
  ]

  awaited-same : {t u : Board env} → SameMemory t u → (a : Ptr) → awaited u a ≡ awaited t a
  unfolding awaited
  awaited-same m a = rw (m.next, m.tasks, m.remotes)

  -- A change of ready queues and hands that keeps each task's references.
  pub Sound-queues :
      {h h' : Held} {t u : Board env}
      → Sound h t
      → SameMemory t u
      → ((a : Ptr) → queued u a + h'.hand a + h.debt a ≡ queued t a + h.hand a + h'.debt a)
      → h'.rhand ≡ h.rhand
      → h'.pending ≡ h.pending
      → h'.new ≡ h.new
      → Sound h' u
  unfolding mailed roots
  Sound-queues s m q er ep en = record {
    once = λ a. omega (arith, q a, s.once a, awaited-same m a, ap (λ f. live (f a)) m.tasks);
    mailed_once = λ r. rw (m.msg_sent, m.msg_recv, m.remotes, er) (s.mailed_once r);
    fresh_task = λ a. rw (m.next, m.tasks) (s.fresh_task a);
    fresh_remote = λ a. rw (m.next, m.remotes) (s.fresh_remote a);
    older = λ a p x. rw m.tasks (s.older a p x);
    called = λ r x. rw m.remotes (s.called r x);
    counted = rw (m.task_count, m.next, m.tasks, ep) s.counted;
    recorded = λ a x. rw (m.tasks, m.hists, en) (s.recorded a x);
    tabled = λ n h. rw (m.exec_hist, m.hists) (s.tabled n h);
    listed = λ a. rw (m.exec_hist, m.hists) (s.listed a);
    fresh_hist = λ a. rw (m.next, m.hists) (s.fresh_hist a);
  }

  pub SameMemory-trans : {t u v : Board env} → SameMemory t u → SameMemory u v → SameMemory t v
  SameMemory-trans m n = record {
    tasks = n.tasks ∙ m.tasks;
    remotes = n.remotes ∙ m.remotes;
    hists = n.hists ∙ m.hists;
    exec_hist = n.exec_hist ∙ m.exec_hist;
    next = n.next ∙ m.next;
    msg_sent = n.msg_sent ∙ m.msg_sent;
    msg_recv = n.msg_recv ∙ m.msg_recv;
    task_count = n.task_count ∙ m.task_count;
    sqs = n.sqs ∙ m.sqs;
  }

  -- Freed arguments and the coroutine library's memory.
  pub SameMemory-free_sized :
      (size : ℕ) (d : Option Ptr) (t : Board env) → SameMemory t (free_sized size d t)
  unfolding free_sized free_data
  SameMemory-free_sized size d t = ground arith

  pub queued-free_sized :
      (size : ℕ) (d : Option Ptr) (t : Board env) (a : Ptr)
      → queued (free_sized size d t) a ≡ queued t a
  unfolding queued free_sized free_data
  queued-free_sized size d t a = ground arith

  -- So a sound memory stays sound.
  pub free_sized-Sound :
      {h : Held} {t : Board env} (size : ℕ) (d : Option Ptr)
      → Sound h t
      → Sound h (free_sized size d t)
  free_sized-Sound size d s =
      Sound-queues s (SameMemory-free_sized size d _)
        (λ a. omega (arith, queued-free_sized size d _ a)) refl refl refl

  pub coros-Sound :
      {h : Held} {t : Board env} (k : env.Coros) → Sound h t → Sound h (record t { coros = k })
  unfolding queued
  coros-Sound k s = Sound-queues s (ground arith) (λ a. refl) refl refl refl

  -- Hands and debts may change together.
  pub Sound-hands :
      {h h' : Held} {t : Board env}
      → Sound h t
      → ((a : Ptr) → h'.hand a + h.debt a ≡ h.hand a + h'.debt a)
      → h'.rhand ≡ h.rhand
      → h'.pending ≡ h.pending
      → h'.new ≡ h.new
      → Sound h' t
  Sound-hands s hands er ep en =
      Sound-queues s (ground arith) (λ a. omega (arith, hands a)) er ep en

  -- The count may be given up at any time.
  pub Sound-closed :
      {h : Held} {t : Board env} → Sound h t → Sound (record h { pending = closed }) t
  Sound-closed s = record {
    once = s.once;
    mailed_once = s.mailed_once;
    fresh_task = s.fresh_task;
    fresh_remote = s.fresh_remote;
    older = s.older;
    called = s.called;
    counted = tt;
    recorded = s.recorded;
    tabled = s.tabled;
    listed = s.listed;
    fresh_hist = s.fresh_hist;
  }
