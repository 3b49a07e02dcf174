-- ===== src/Coroutines/Frame.antt =====
-- Which changes of the memory and of the coroutines keep the roles of the coroutines, and how a
-- coroutine gets another role.
use jam_tboard.Common.{◌≡◌, ◌≤◌, refl, sym, ap, ◌∙◌, Option, none, some, arith}
use jam_tboard.Task.{Ptr, Task, RemoteTask}
use jam_tboard.Env.{Env}
use jam_tboard.Env.Views.{Cell, CoroViews}
use jam_tboard.Board.{History, Board}
use jam_tboard.Ownership.Answering.{Answerable}
use jam_tboard.Coroutines.Defs.{
  Wait, on_task, on_remote, clear, active, asking, passing, issuing, asleep, woken, Role, unused,
  serves, spare, Fills, Asks, by_task, by_remote, Tenants,
}

-- What the roles depend on of a task, and of a remote task.
abbrev pub context : Option Task → Option (Ptr × Option Ptr)
context none = none
context (some x) = some (x.ctx, x.parent)

abbrev pub request : Option RemoteTask → Option RemoteTask
request none = none
request (some y) = some (record y { status = 0; data_size = 0 })

pub context-some :
    (o : Option Task) (x : Task)
    → context (some x) ≡ context o
    → (y : Task) × (o ≡ some y) × (y.ctx ≡ x.ctx) × (y.parent ≡ x.parent)
context-some none x e = absurd (cc)
context-some (some y) x e = (y, refl, cc, cc)

pub request-some :
    (o : Option RemoteTask) (x : RemoteTask)
    → request (some x) ≡ request o
    → (y : RemoteTask) × (o ≡ some y)
      × (y.blocking ≡ x.blocking)
      × (y.calling_task ≡ x.calling_task)
      × (Answerable y → Answerable x)
request-some none x e = absurd (cc)
request-some (some y) x e =
    let message : y.message ≡ x.message = cc in
    let payload : y.payload ≡ x.payload = cc in
    (
      y,
      refl,
      cc,
      cc,
      λ (tok, word, given, text). (
        tok,
        rw (← message) word,
        (λ m. let (d, is) = given m in (d, sym payload ∙ is)),
        λ m. let (d, is) = text m in (d, sym payload ∙ is),
      ),
    )

none-context : (o : Option Task) → context o ≡ none → o ≡ none
none-context none e = refl
none-context (some x) e = absurd (cc)

none-request : (o : Option RemoteTask) → request o ≡ none → o ≡ none
none-request none e = refl
none-request (some x) e = absurd (cc)

module _ {env : Env} where
  -- The same contexts, requests and coroutines; the history may have grown.
  pub record Alike (t u : Board env) : Type 0 where
    pub tasks : (a : Ptr) → context (u.tasks a) ≡ context (t.tasks a)
    pub remotes : (r : Ptr) → request (u.remotes r) ≡ request (t.remotes r)
    pub hists :
        (a : Ptr) (d : History env)
        → t.hists a ≡ some d
        → (d' : History env) × (u.hists a ≡ some d')
    pub next : t.next ≤ u.next
    pub coros : u.coros ≡ t.coros

  pub Alike-trans : {t u v : Board env} → Alike t u → Alike u v → Alike t v
  Alike-trans m n = record {
    tasks = λ a. n.tasks a ∙ m.tasks a;
    remotes = λ r. n.remotes r ∙ m.remotes r;
    hists = λ a d e. let (d', e') = m.hists a d e in n.hists a d' e';
    next = omega (arith, m.next, n.next);
    coros = n.coros ∙ m.coros;
  }

  -- All that is asked of the history is that entries stay.
  abbrev pub Grows : (H H' : Ptr → Option (History env)) → Type 0
  Grows H H' = (a : Ptr) (d : History env) → H a ≡ some d → (d' : History env) × (H' a ≡ some d')

  pub Grows-Fills :
      {H H' : Ptr → Option (History env)} (role : Role) (cell : Cell)
      → Grows H H'
      → Fills H role cell
      → Fills H' role cell
  Grows-Fills unused cell m f = tt
  Grows-Fills (spare c) cell m f = f
  Grows-Fills (serves a (issuing d)) cell m (made, state, (y, is, at, up, (h, e, known, there))) =
      let (e', there') = m h e there in (made, state, (y, is, at, up, (h, e', known, there')))
  Grows-Fills (serves a clear) cell m f = f
  Grows-Fills (serves a active) cell m f = f
  Grows-Fills (serves a asking) cell m f = f
  Grows-Fills (serves a passing) cell m f = f
  Grows-Fills (serves a (asleep w)) cell m f = f
  Grows-Fills (serves a (woken on_task)) cell m f = f
  Grows-Fills (serves a (woken on_remote)) cell m f = f

  pub Alike-Asks :
      {t u : Board env} {a : Ptr} {w : Wait}
      → Alike t u
      → Asks u.tasks u.remotes a w
      → Asks t.tasks t.remotes a w
  Alike-Asks {t} m (by_task b y at up) =
      let (x, is, same, up') = context-some (t.tasks b) y (ap context (sym at) ∙ m.tasks b) in
      by_task b x is (up' ∙ up)
  Alike-Asks {t} m (by_remote r y at blocks up) =
      let (x, is, same, up', fit) =
        request-some (t.remotes r) y (ap request (sym at) ∙ m.remotes r) in
      by_remote r x is (same ∙ blocks) (up' ∙ up)

  module _ {coro : CoroViews env} where
    pub Alike-Tenants :
        {roles : Ptr → Role} {t u : Board env}
        → Alike t u
        → Tenants coro roles t
        → Tenants coro roles u
    Alike-Tenants {roles} {t} {u} m T = record {
      filled = λ c. Grows-Fills (roles c) _ m.hists (rw m.coros (T.filled c));
      kept = T.kept;
      served = λ a x at.
          let (y, is, ctx, up) = context-some (t.tasks a) x (ap context (sym at) ∙ m.tasks a) in
          rw (← ctx) (T.served a y is);
      asked = λ a w asks.
          let (x, at, role) = T.asked a w (Alike-Asks m asks) in
          let (y, is, ctx, up) =
            context-some (u.tasks a) x (ap context (sym at) ∙ sym (m.tasks a)) in
          (y, is, rw ctx role);
      answers = λ r x at.
          let (y, is, same, up, fit) =
            request-some (t.remotes r) x (ap request (sym at) ∙ m.remotes r) in
          fit (T.answers r y is);
      fresh_task = λ a le.
          none-context (u.tasks a)
            (m.tasks a ∙ ap context (T.fresh_task a (omega (arith, m.next))));
      fresh_remote = λ r le.
          none-request (u.remotes r)
            (m.remotes r ∙ ap request (T.fresh_remote r (omega (arith, m.next))));
    }
