-- ===== src/Lifecycle/Waking.antt =====
-- The threads that `tboard_kill` of src/tboard.c wakes are those that `tboard_start` created.
use mathlib.Core.List.{Memᴰ}
use jam_tboard.Common.{
  ℕ, zero, suc, ◌≡◌, refl, ap, List, [], ◌∷◌, true, false, eq_ℤ, if◌then◌else◌, length,
}
use jam_tboard.Task.{Cond, pcond, scond, primary_exec}
use jam_tboard.Env.{Env}
use jam_tboard.Board.{Board, signal}
use jam_tboard.Executor.Fetch.{Exec}
use jam_tboard.Lifecycle.{secondary_executors, signal_secondaries, tboard_start, tboard_kill}

-- The condition variable that an executor without a task waits on.
abbrev pub waits_on : Exec → Cond
waits_on e = if eq_ℤ e.type primary_exec then pcond else scond e.num

-- Each of these executors has been signalled.
abbrev pub Woken : List Exec → List Cond → Type 0
Woken [] signals = Unit {0}
Woken (e ∷ es) signals = Memᴰ (waits_on e) signals × Woken es signals

pub length-secondary_executors : (rounds i : ℕ) → length (secondary_executors rounds i) ≡ rounds
unfolding secondary_executors
length-secondary_executors zero i = refl
length-secondary_executors (suc rounds) i = ap suc (length-secondary_executors rounds (suc i))

module _ {env : Env} where
  signalled_before :
      (rounds i : ℕ) (c : Cond) (t : Board env)
      → Memᴰ c t.signals
      → Memᴰ c (signal_secondaries rounds i t).signals
  unfolding signal_secondaries signal
  signalled_before zero i c t m = m
  signalled_before (suc rounds) i c t m = signalled_before rounds (suc i) c _ (Memᴰ.tail m)

  secondaries-Woken :
      (rounds i : ℕ) (t : Board env)
      → Woken (secondary_executors rounds i) (signal_secondaries rounds i t).signals
  unfolding signal_secondaries secondary_executors signal
  secondaries-Woken zero i t = tt
  secondaries-Woken (suc rounds) i t = (
    signalled_before rounds (suc i) (scond i) _ (Memᴰ.head refl),
    secondaries-Woken rounds (suc i) _,
  )

  signal_secondaries-shutdown :
      (rounds i : ℕ) (t : Board env) → (signal_secondaries rounds i t).shutdown ≡ t.shutdown
  unfolding signal_secondaries signal
  signal_secondaries-shutdown zero i t = refl
  signal_secondaries-shutdown (suc rounds) i t = signal_secondaries-shutdown rounds (suc i) _

  -- On a board with status 0, a start creates one executor more than there are secondary
  -- queues, a second start changes nothing and creates none, and a kill without a start is
  -- refused and changes nothing; a kill after the start succeeds, sets the shutdown mark and
  -- signals the condition variable of every executor that was started.
  pub start-kill :
      (t : Board env)
      → t.status ≡ 0
      → let (started, u) = tboard_start t in
        let (killed, v) = tboard_kill u in
        (length started ≡ suc t.sqs)
        × (tboard_start u ≡ ([], u))
        × (tboard_kill t ≡ (false, t))
        × (killed ≡ true)
        × (v.shutdown ≡ 1)
        × Woken started v.signals
  unfolding tboard_start tboard_kill signal
  start-kill t e = rw e (
    ap suc (length-secondary_executors t.sqs 0),
    refl,
    refl,
    refl,
    signal_secondaries-shutdown t.sqs 0 _,
    (signalled_before t.sqs 0 pcond _ (Memᴰ.head refl), secondaries-Woken t.sqs 0 _),
  )
