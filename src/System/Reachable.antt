-- ===== src/System/Reachable.antt =====
-- No step of the threads faults, and each keeps the memory sound, whatever their order is.
use mathlib.Core.Path.{subst}
use jam_tboard.Common.{
  ℕ, ◌+◌, ◌<◌, ◌≡◌, refl, ap, Option, none, some, hit, total, total-update, update, arith, ◌==◌,
  Bool-cases, inl, inr, zero, suc, eq_ℤ, Option-cases,
}
use jam_tboard.Queue.{queue_peek_front}
use jam_tboard.Task.{primary_exec, Ptr, RemoteTask}
use jam_tboard.Env.{Env}
use jam_tboard.Env.Laws.{HashLaws, CoroLaws}
use jam_tboard.Board.{Board, M}
use jam_tboard.Executor.Fetch.{Exec, Slot, pop_primary, pop_secondary, steal, fetch}
use jam_tboard.Ownership.Defs.{Held, nothing, with_task, Sound, Returns, returns, Returns-mono}
use jam_tboard.Ownership.Frame.{Sound-hands}
use jam_tboard.Ownership.Tasks.{some-of-live}
use jam_tboard.Ownership.Yielding.{IsSlot}
use jam_tboard.Ownership.Fetching.{IsExec, Fetched, fetch-Fetched}
use jam_tboard.Ownership.Responding.{CallersWait, task_sequencer-Returns}
use jam_tboard.Ownership.Creation.{task_create-Returns}
use jam_tboard.Ownership.Messages.{msg_processor-Returns}
use jam_tboard.Ownership.Answering.{Answerable, mqtt_othread-Returns}
use jam_tboard.Ownership.Whole.{Resumes, run-Returns}
use jam_tboard.Ownership.Only.{Returns-Only}
use jam_tboard.Ownership.Size.Operations.{
  task_create-Keeps, msg_processor-Keeps, mqtt_othread-Keeps,
}
use jam_tboard.System.{
  Thread, idle, holding, State, Action, create, process, exchange, handle, take, work, on_board,
  set_thread, taken, take_by, work_by, perform,
}

abbrev pub holds : Ptr → Thread → ℕ
holds a (idle e) = 0
holds a (holding e p slot) = hit p a

abbrev exec_of : Thread → Exec
exec_of (idle e) = e
exec_of (holding e p slot) = e

abbrev pub IsThread : ℕ → Thread → Type 0
IsThread sqs (idle e) = IsExec sqs e
IsThread sqs (holding e p slot) = IsExec sqs e × IsSlot sqs slot

module _ {env : Env} where
  -- What the threads hold.
  abbrev pub held : State env → Held
  held s = record nothing { hand = λ a. total (holds a) s.count s.threads }

  -- The memory is sound for what the threads hold, and each thread's queues exist.
  pub record IsSafe (s : State env) : Type 0 where
    pub sound : Sound (held s) s.board
    pub placed : (i : ℕ) → i < s.count → IsThread s.board.sqs (s.threads i)

  -- Without the task that the thread `i` holds.
  abbrev pub others : ℕ → State env → Held
  others i s = held (set_thread i (idle (exec_of (s.threads i))) s)

  -- The run of the task that a thread holds, if it holds one, gives the task back.
  abbrev pub Works : Held → (Ptr → M env (Unit {0})) → Thread → Board env → Type 0
  Works h resume (idle e) t = Unit {0}
  Works h resume (holding e p slot) t = Resumes h resume p t

  -- What an action needs: a controller that can answer, callers that wait, a thread that exists, and
  -- a task that gives the processor back as it should.
  abbrev pub Fits : Action env → State env → Type 0
  Fits (create fn type args size) s = Unit {0}
  Fits (process msg) s = Unit {0}
  Fits exchange s = (r : Ptr) (x : RemoteTask) → s.board.remotes r ≡ some x → Answerable x
  Fits handle s = CallersWait s.board
  Fits (take i) s = i < s.count
  Fits (work i resume start end) s = (i < s.count) × Works (others i s) resume (s.threads i) s.board

  pub data Goes (P : State env → Type 0) : Option (State env) → Type 0 where
    goes : {u : State env} → P u → Goes P (some u)

  on_board-IsSafe :
      {A : Type 0} (s : State env) {r : Option (A × Board env)}
      → ((i : ℕ) → i < s.count → IsThread s.board.sqs (s.threads i))
      → Returns (λ _ u. Sound (held s) u × (u.sqs ≡ s.board.sqs)) r
      → Goes IsSafe (on_board s r)
  on_board-IsSafe s placed (returns (sound, same)) =
      goes (record { sound = sound; placed = λ i lt. rw same (placed i lt) })

  placed_at :
      {s : State env} (safe : IsSafe s) (i : ℕ) (th : Thread)
      → i < s.count
      → s.threads i ≡ th
      → IsThread s.board.sqs th
  placed_at {s} safe i th lt at = subst (IsThread s.board.sqs) at (safe.placed i lt)

  steal-same : (rounds i : ℕ) (t : Board env) → (steal rounds i t).1.sqs ≡ t.sqs
  unfolding steal pop_secondary
  steal-same zero i t = refl
  steal-same (suc rounds) i t = elim (Option-cases (queue_peek_front (t.squeue i))) [
    | inl e ↦ rw (e, steal) (steal-same rounds (suc i) t)
    | inr (p, e) ↦ rw (e, steal) refl
  ]

  fetch-same : (args : Exec) (t : Board env) → (fetch args t).1.sqs ≡ t.sqs
  unfolding fetch pop_primary pop_secondary
  fetch-same args t = elim (Bool-cases (eq_ℤ args.type primary_exec)) [
    | inl e ↦ elim (Option-cases (queue_peek_front t.pqueue)) [
      | inl empty ↦ rw (e, empty, fetch) (steal-same t.sqs 0 t)
      | inr (p, front) ↦ rw (e, front, fetch) refl
    ]
    | inr e ↦ rw e refl
  ]

  -- One thread has another state; the others' tasks and queues are as before.
  placed-update :
      (s : State env) (i sqs : ℕ) (th : Thread)
      → sqs ≡ s.board.sqs
      → IsSafe s
      → IsThread sqs th
      → (j : ℕ) → j < s.count
      → IsThread sqs (update s.threads i th j)
  placed-update s i sqs th same safe is j lt = elim (Bool-cases (i == j)) [
    | inl e ↦ rw e is
    | inr e ↦ rw (e, same) (safe.placed j lt)
  ]

  held-update :
      (s : State env) (i : ℕ) (th old : Thread) (a : Ptr)
      → i < s.count
      → s.threads i ≡ old
      → holds a old + (held (set_thread i th s)).hand a ≡ holds a th + (held s).hand a
  held-update s i th old a lt at =
      omega (arith, total-update (holds a) s.count s.threads i th lt, ap (holds a) at)

  taken-IsSafe :
      (i : ℕ) (e : Exec) (s : State env) (f : Option (Ptr × Slot) × Board env)
      → i < s.count
      → s.threads i ≡ idle e
      → IsSafe s
      → f.1.sqs ≡ s.board.sqs
      → Fetched (held s) s.board f
      → IsSafe (taken i e s f)
  taken-IsSafe i e s (none, u) lt at safe same sound = record {
    sound = sound;
    placed = λ j lt. rw same (safe.placed j lt);
  }
  taken-IsSafe i e s (some (p, slot), u) lt at safe same (sound, ok, live) = record {
    sound =
        Sound-hands sound (λ a. omega (arith, held-update s i (holding e p slot) (idle e) a lt at))
          refl refl refl;
    placed =
        placed-update s i u.sqs (holding e p slot) same safe
          (rw same (placed_at safe i (idle e) lt at), ok);
  }

  -- What one thread holds is in its hand, beside what the others hold.
  pub in_hand-Sound :
      (i : ℕ) (e : Exec) (p : Ptr) (slot : Slot) (s : State env)
      → i < s.count
      → s.threads i ≡ holding e p slot
      → IsSafe s
      → Sound (with_task p (others i s)) s.board
  in_hand-Sound i e p slot s lt at safe =
      Sound-hands safe.sound
        (λ a.
          omega (arith, held-update s i (idle (exec_of (s.threads i))) (holding e p slot) a lt at))
        refl refl refl

  module _ (hash : HashLaws env) (coro : CoroLaws env) where
    take-IsSafe :
        (i : ℕ) (th : Thread) (s : State env)
        → i < s.count
        → s.threads i ≡ th
        → IsSafe s
        → Goes IsSafe (take_by i th s)
    take-IsSafe i (idle e) s lt at safe = goes (
        taken-IsSafe i e s (fetch e s.board) lt at safe (fetch-same e s.board)
          (fetch-Fetched safe.sound (λ a. refl) e (placed_at safe i (idle e) lt at)))
    take-IsSafe i (holding e p slot) s lt at safe = goes safe

    work-IsSafe :
        (i : ℕ) (resume : Ptr → M env (Unit {0})) (start end : ℕ) (th : Thread) (s : State env)
        → i < s.count
        → s.threads i ≡ th
        → Works (others i s) resume th s.board
        → IsSafe s
        → Goes IsSafe (work_by i resume start end th s)
    work-IsSafe i resume start end (idle e) s lt at runs safe = goes safe
    work-IsSafe i resume start end (holding e p slot) s lt at runs safe =
        let (own, from) = placed_at safe i (holding e p slot) lt at in
        let s1 = in_hand-Sound i e p slot s lt at safe in
        let (x, live) = some-of-live (s.board.tasks p) (ground (arith, s1.once p)) in
        on_board-IsSafe (set_thread i (idle e) s)
          (placed-update s i s.board.sqs (idle e) refl safe own)
          (Returns-mono
            (run-Returns hash coro (λ a. refl) refl refl resume e start end p x slot s1 from live
              runs)
            λ _ u (s2, same). (
              Sound-hands s2
                  (λ a. omega (
                    arith,
                    held-update s i (idle (exec_of (s.threads i))) (holding e p slot) a lt at,
                    held-update s i (idle e) (holding e p slot) a lt at,
                  ))
                  refl refl refl,
              same,
            ))

    -- From a state whose memory is sound for what the executors hold, every action that has
    -- what it needs gives a state, without a fault, and this state is of the same kind: a
    -- task created, a message processed, a remote task given to the controller, a response
    -- handled, a task taken by an executor, or run by it to its next stop. Conditions: the
    -- laws of the coroutine library and the hash table.
    pub perform-IsSafe :
        (a : Action env) (s : State env) → IsSafe s → Fits a s → Goes IsSafe (perform a s)
    unfolding perform
    perform-IsSafe (create fn type args size) s safe fit = on_board-IsSafe s safe.placed (
        Returns-Only (task_create-Returns hash fn type args size refl refl safe.sound)
          (task_create-Keeps fn type args size s.board.sqs s.board refl))
    perform-IsSafe (process msg) s safe fit = on_board-IsSafe s safe.placed (
        Returns-Only (msg_processor-Returns hash msg refl refl safe.sound)
          (msg_processor-Keeps msg s.board.sqs s.board refl))
    perform-IsSafe exchange s safe fit = on_board-IsSafe s safe.placed (
        Returns-Only (mqtt_othread-Returns safe.sound (λ a. refl) fit)
          (mqtt_othread-Keeps s.board.sqs s.board refl))
    perform-IsSafe handle s safe fit =
        on_board-IsSafe s safe.placed (task_sequencer-Returns coro safe.sound (λ a. refl) fit)
    perform-IsSafe (take i) s safe fit = take-IsSafe i (s.threads i) s fit refl safe
    perform-IsSafe (work i resume start end) s safe (lt, runs) =
        work-IsSafe i resume start end (s.threads i) s lt refl runs safe
