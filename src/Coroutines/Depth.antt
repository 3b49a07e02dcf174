-- ===== src/Coroutines/Depth.antt =====
-- Each step of a turn leaves a shorter one.
use jam_tboard.Common.{
  ◌≡◌, refl, Bool, if◌then◌else◌, ◌<◌, true, false, some, arith, Bool-cases, inl, inr,
}
use jam_tboard.Task.{Ptr}
use jam_tboard.Env.{Env}
use jam_tboard.Board.{Board}
use jam_tboard.Create.{task_create}
use jam_tboard.Issue.{blocking_issue, remote_issue}
use jam_tboard.Turns.{
  Turn, ends, no_call, in_blocking, in_remote, yields, creates, blocks, asks, Next, goes_on, stops,
  tick, depth,
}
use jam_tboard.Ownership.Only.{Only, only, Only-bind, anything}

-- What a turn goes on with after its first step: the rest for the result of its call, or the rest after a
-- call that has failed. A turn that ends or yields does not go on.
abbrev pub Leads : Turn → Next → Type 0
Leads (creates fn type args size rest) (goes_on after) = (made : Bool) × (after ≡ rest made)
Leads (blocks fn type args size rest) (goes_on after) = after ≡ rest
Leads (blocks fn type args size rest) (stops call) = call ≡ in_blocking
Leads (asks message args size blocking rest) (goes_on after) = after ≡ rest
Leads (asks message args size blocking rest) (stops call) =
    call ≡ (if blocking then in_remote else no_call)
Leads ends (stops call) = call ≡ no_call
Leads yields (stops call) = call ≡ no_call
Leads _ _ = ⊥

-- Fewer calls are left.
pub Leads-shorter : (turn rest : Turn) → Leads turn (goes_on rest) → depth rest < depth turn
unfolding depth
Leads-shorter (creates fn type args size rest) after (true, is) = rw is (omega arith)
Leads-shorter (creates fn type args size rest) after (false, is) = rw is (omega arith)
Leads-shorter (blocks fn type args size rest) after is = rw is (omega arith)
Leads-shorter (asks message args size blocking rest) after is = rw is (omega arith)
Leads-shorter ends after bad = absurd bad
Leads-shorter yields after bad = absurd bad

module _ {env : Env} where
  pub tick-Leads :
      (c : Ptr) (turn : Turn) (t : Board env) → Only (λ next _. Leads turn next) (tick c turn t)
  unfolding tick
  tick-Leads c ends t = only refl
  tick-Leads c yields t = only refl
  tick-Leads c (creates fn type args size rest) t =
      Only-bind (anything (task_create fn type args size t)) λ made u _. only (made, refl)
  tick-Leads c (blocks fn type args size rest) t =
      Only-bind (anything (blocking_issue (some c) fn type args size t)) λ issued u _.
        elim (Bool-cases issued) [ inl e ↦ rw e (only refl) | inr e ↦ rw e (only refl) ]
  tick-Leads c (asks message args size blocking rest) t =
      Only-bind (anything (remote_issue (some c) message args size blocking t)) λ issued u _.
        elim (Bool-cases issued) [ inl e ↦ rw e (only refl) | inr e ↦ rw e (only refl) ]
