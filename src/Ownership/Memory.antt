-- ===== src/Ownership/Memory.antt =====
-- How writing, allocating and freeing an object changes the references.
use native.Mathlib.Decide.{dec_lt}
use jam_tboard.Common.{
  sum, ℤ, ℕ, suc, ◌+◌, ◌<◌, ◌≡◌, ◌≢◌, refl, ap, Option, some, total-update, update, arith, ◌==◌,
  if◌then◌else◌,
}
use jam_tboard.Task.{Ptr, Task, RemoteTask}
use jam_tboard.Env.{Env}
use jam_tboard.Board.{Board}
use jam_tboard.Ownership.Defs.{
  Tally, short, closed, Shifts, IsTallied, Held, Sound, IsRecorded, opt_hit, live, parent_refs,
  caller_refs, root, queued, awaited, mailed, roots,
}

abbrev pub live_at {ℓ} : {A : Type ℓ} → Ptr → Option A → Ptr → ℕ
live_at p o a = if p == a then live o else 0

pub live-update {ℓ} :
    {A : Type ℓ} (f : Ptr → Option A) (p a : Ptr) (y : Option A)
    → live (update f p y a) + live_at p (f p) a ≡ live (f a) + live_at p y a
live-update f p a y = ground arith

pub IsTallied-shift :
    (gone grown : ℕ) (k k' : Tally) (c : ℤ) (r r' : ℕ)
    → Shifts gone grown k k'
    → r' + gone ≡ r + grown
    → IsTallied k c r
    → IsTallied k' c r'
IsTallied-shift gone grown (short k) (short k') c r r' e f (n, at, is, m) = (n, at, omega arith, m)
IsTallied-shift gone grown closed closed c r r' e f t = tt
IsTallied-shift gone grown (short k) closed c r r' e f t = absurd e
IsTallied-shift gone grown closed (short k') c r r' e f t = absurd e

pub Shifts-refl : (k : Tally) (n : ℕ) → Shifts n n k k
Shifts-refl (short k) n = refl
Shifts-refl closed n = tt

module _ {env : Env} where
  abbrev pub write_task : Board env → Ptr → Option Task → Board env
  write_task t p y = record t { tasks = update t.tasks p y }

  abbrev pub write_remote : Board env → Ptr → Option RemoteTask → Board env
  write_remote t p y = record t { remotes = update t.remotes p y }

  abbrev pub bump : Board env → Board env
  bump t = record t { next = suc t.next }

  awaited-write_task :
      (t : Board env) (p a : Ptr) (y : Option Task)
      → p < t.next
      → awaited (write_task t p y) a + parent_refs a (t.tasks p) ≡ awaited t a + parent_refs a y
  unfolding awaited
  awaited-write_task t p a y h = omega (arith, total-update (parent_refs a) t.next t.tasks p y h)

  awaited-write_remote :
      (t : Board env) (p a : Ptr) (y : Option RemoteTask)
      → p < t.next
      → awaited (write_remote t p y) a + caller_refs a (t.remotes p) ≡ awaited t a + caller_refs a y
  unfolding awaited
  awaited-write_remote t p a y h =
      omega (arith, total-update (caller_refs a) t.next t.remotes p y h)

  roots-write_task :
      (t : Board env) (p : Ptr) (y : Option Task)
      → p < t.next
      → roots (write_task t p y) + root (t.tasks p) ≡ roots t + root y
  unfolding roots
  roots-write_task t p y h = omega (arith, total-update root t.next t.tasks p y h)

  queued-write_task :
      (t : Board env) (p a : Ptr) (y : Option Task) → queued (write_task t p y) a ≡ queued t a
  unfolding queued
  queued-write_task t p a y = refl

  queued-write_remote :
      (t : Board env) (p a : Ptr) (y : Option RemoteTask)
      → queued (write_remote t p y) a ≡ queued t a
  unfolding queued
  queued-write_remote t p a y = refl

  module _ {h : Held} {t : Board env} (s : Sound h t) where
    pub live-lt-next : (p : Ptr) (x : Task) → t.tasks p ≡ some x → p < t.next
    live-lt-next p x e = elim (dec_lt p t.next) [
      | yes lt ↦ lt
      | no ge ↦ ground (arith, s.fresh_task p)
    ]

    pub remote-lt-next : (p : Ptr) (x : RemoteTask) → t.remotes p ≡ some x → p < t.next
    remote-lt-next p x e = elim (dec_lt p t.next) [
      | yes lt ↦ lt
      | no ge ↦ ground (arith, s.fresh_remote p)
    ]

    -- A task object is written, allocated in place or freed, and hands change with it.
    pub Sound-write_task :
        {h' : Held} (p : Ptr) (y : Option Task)
        → p < t.next
        → ((a : Ptr)
            → h'.hand a + parent_refs a y + live_at p (t.tasks p) a + h.debt a
              ≡ h.hand a + parent_refs a (t.tasks p) + live_at p y a + h'.debt a)
        → h'.rhand ≡ h.rhand
        → Shifts (root (t.tasks p)) (root y) h.pending h'.pending
        → ((q : Ptr) (x : Task) → y ≡ some x → x.parent ≡ some q → q < p)
        → ((x : Task) → y ≡ some x → opt_hit h'.new p ≡ 0 → IsRecorded t x)
        → ((a : Ptr) → p ≢ a → opt_hit h'.new a ≡ 0 → opt_hit h.new a ≡ 0)
        → Sound h' (write_task t p y)
    unfolding mailed
    Sound-write_task {h'} p y lt hands er ep old rec new = record {
      once = λ a. omega (
        arith,
        hands a,
        s.once a,
        queued-write_task t p a y,
        awaited-write_task t p a y lt,
        live-update t.tasks p a y,
      );
      mailed_once = λ r. rw er (s.mailed_once r);
      fresh_task = λ a le. ground (arith, s.fresh_task a);
      fresh_remote = s.fresh_remote;
      older = λ a q x e f. ground (arith, old q x, s.older a q x);
      called = s.called;
      counted =
          IsTallied-shift (root (t.tasks p)) (root y) h.pending h'.pending t.task_count (roots t) _
            ep (roots-write_task t p y lt) s.counted;
      recorded = λ a x e f. ground (arith, rec x, new a, s.recorded a x);
      tabled = s.tabled;
      listed = s.listed;
      fresh_hist = s.fresh_hist;
    }

    pub Sound-write_remote :
        {h' : Held} (p : Ptr) (y : Option RemoteTask)
        → p < t.next
        → ((a : Ptr)
            → h'.hand a + caller_refs a y + h.debt a
              ≡ h.hand a + caller_refs a (t.remotes p) + h'.debt a)
        → ((a : Ptr) → h'.rhand a + live_at p (t.remotes p) a ≡ h.rhand a + live_at p y a)
        → h'.pending ≡ h.pending
        → h'.new ≡ h.new
        → ((x : RemoteTask) → y ≡ some x → live x.calling_task ≡ 1)
        → Sound h' (write_remote t p y)
    unfolding mailed roots
    Sound-write_remote p y lt hands rhands ep en call = record {
      once = λ a.
          omega (
            arith,
            hands a,
            s.once a,
            queued-write_remote t p a y,
            awaited-write_remote t p a y lt,
          );
      mailed_once = λ r. omega (arith, s.mailed_once r, rhands r, live-update t.remotes p r y);
      fresh_task = s.fresh_task;
      fresh_remote = λ a le. ground (arith, s.fresh_remote a);
      older = s.older;
      called = λ a x e. ground (arith, call x, s.called a x);
      counted = rw ep s.counted;
      recorded = rw en s.recorded;
      tabled = s.tabled;
      listed = s.listed;
      fresh_hist = s.fresh_hist;
    }

    -- `calloc` has moved on; the new object is not written yet.
    pub Sound-bump : Sound h (bump t)
    unfolding queued awaited mailed roots sum
    Sound-bump = record {
      once = λ a. omega (
        arith,
        s.once a,
        ap (parent_refs a) (s.fresh_task t.next (omega arith)),
        ap (caller_refs a) (s.fresh_remote t.next (omega arith)),
      );
      mailed_once = s.mailed_once;
      fresh_task = λ a le. s.fresh_task a (omega arith);
      fresh_remote = λ a le. s.fresh_remote a (omega arith);
      older = s.older;
      called = s.called;
      counted =
          IsTallied-shift 0 0 h.pending h.pending t.task_count (roots t) _ (Shifts-refl h.pending 0)
            (omega (arith, ap root (s.fresh_task t.next (omega arith)))) s.counted;
      recorded = s.recorded;
      tabled = s.tabled;
      listed = s.listed;
      fresh_hist = λ a le. s.fresh_hist a (omega arith);
    }
