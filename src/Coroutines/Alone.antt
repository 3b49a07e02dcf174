-- ===== src/Coroutines/Alone.antt =====
-- In a sound memory at most one task or remote task waits to answer a task, and none if a thread has
-- it in hand.
use jam_tboard.Common.{◌≤◌, ◌≡◌, true, none, some, total-update, update, arith, Option}
use jam_tboard.Task.{Ptr, Task, RemoteTask}
use jam_tboard.Env.{Env}
use jam_tboard.Board.{Board}
use jam_tboard.Ownership.Defs.{Held, Sound, parent_refs, caller_refs, awaited, live}
use jam_tboard.Ownership.Memory.{live-lt-next, remote-lt-next}
use jam_tboard.Ownership.Tasks.{total-ge}
use jam_tboard.Coroutines.Defs.{Wait, Asks, by_task, by_remote}

live-le : {A : Type 0} (o : Option A) → live o ≤ 1
live-le none = omega arith
live-le (some x) = omega arith

module _ {env : Env} {h : Held} {t : Board env} (s : Sound h t)
    (debts : (a : Ptr) → h.debt a ≡ 0) where
  -- Each of them is a reference.
  Asks-awaited : (a : Ptr) (w : Wait) → Asks t.tasks t.remotes a w → 1 ≤ awaited t a
  unfolding awaited
  Asks-awaited a w (by_task b y at up) =
      ground (arith, total-ge (parent_refs a) t.next t.tasks b (live-lt-next s b y at))
  Asks-awaited a w (by_remote r y at blocks up) =
      ground (arith, total-ge (caller_refs a) t.next t.remotes r (remote-lt-next s r y at))

  pub hand-Asks : (a : Ptr) (w : Wait) → 1 ≤ h.hand a → Asks t.tasks t.remotes a w → ⊥
  hand-Asks a w held asks =
      let at_least = Asks-awaited a w asks in
      let at_most = live-le (t.tasks a) in absurd (omega (arith, s.once a, debts a))

  pub alone_remote :
      (r a : Ptr) (x : RemoteTask) (w : Wait)
      → t.remotes r ≡ some x
      → x.blocking ≡ true
      → x.calling_task ≡ some a
      → Asks t.tasks (update t.remotes r none) a w
      → ⊥
  unfolding awaited
  alone_remote r a x w at b up (by_task c y there child) = absurd (
      ground (
        arith,
        s.once a,
        debts a,
        live-le (t.tasks a),
        total-ge (parent_refs a) t.next t.tasks c (live-lt-next s c y there),
        total-ge (caller_refs a) t.next t.remotes r (remote-lt-next s r x at),
      ))
  alone_remote r a x w at b up (by_remote q y there blocks called) =
      let lt = remote-lt-next s r x at in
      let had : t.remotes q ≡ some y = ground arith in
      let refs =
        total-ge (caller_refs a) t.next (update t.remotes r none) q (remote-lt-next s q y had) in
      absurd (
        ground (
          arith,
          s.once a,
          debts a,
          live-le (t.tasks a),
          total-update (caller_refs a) t.next t.remotes r none lt,
        ))

  pub alone_task :
      (p a : Ptr) (x : Task) (w : Wait)
      → t.tasks p ≡ some x
      → x.parent ≡ some a
      → Asks (update t.tasks p none) t.remotes a w
      → ⊥
  unfolding awaited
  alone_task p a x w at up (by_remote r y there blocks called) = absurd (
      ground (
        arith,
        s.once a,
        debts a,
        live-le (t.tasks a),
        total-ge (parent_refs a) t.next t.tasks p (live-lt-next s p x at),
        total-ge (caller_refs a) t.next t.remotes r (remote-lt-next s r y there),
      ))
  alone_task p a x w at up (by_task b y there child) =
      let lt = live-lt-next s p x at in
      let had : t.tasks b ≡ some y = ground arith in
      let refs =
        total-ge (parent_refs a) t.next (update t.tasks p none) b (live-lt-next s b y had) in
      absurd (
        ground (
          arith,
          s.once a,
          debts a,
          live-le (t.tasks a),
          total-update (parent_refs a) t.next t.tasks p none lt,
        ))
