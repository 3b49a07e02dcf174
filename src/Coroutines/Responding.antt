-- ===== src/Coroutines/Responding.antt =====
-- The sequencer of src/sequencer.c puts an answer into the storage of the task that waits for it.
use jam_tboard.Common.{
  ◌≡◌, refl, ap, true, none, some, [], ◌∷◌, count, update, arith, ◌==◌, Bool-cases, Option-cases,
  inl, inr,
}
use jam_tboard.Task.{Ptr, Task, RemoteTask, remote_bytes}
use jam_tboard.Env.{Env}
use jam_tboard.Env.Views.{CoroViews}
use jam_tboard.Queue.{Queue, queue_peek_front, queue_pop_head}
use jam_tboard.Board.{Board, load_task, load_remote}
use jam_tboard.Destroy.{free_sized}
use jam_tboard.Sequencer.{
  push_remote, return_remote, handle_msg_recv, respond, sequencer_section, task_sequencer,
}
use jam_tboard.Ownership.Defs.{Held, with_remote, Sound, mailed}
use jam_tboard.Ownership.Memory.{write_remote}
use jam_tboard.Ownership.Remotes.{mail-Sound}
use jam_tboard.Ownership.Responding.{mailed-live}
use jam_tboard.Ownership.Tasks.{some-of-live}
use jam_tboard.Ownership.Only.{Only, only, Only-bind}
use jam_tboard.Coroutines.Defs.{on_remote, asleep, woken, Role, serves, by_remote, Tenants}
use jam_tboard.Coroutines.Frame.{Alike, Alike-Tenants}
use jam_tboard.Coroutines.Moves.{serves-nonnull, respot}
use jam_tboard.Coroutines.Objects.{hide_remote}
use jam_tboard.Coroutines.Likes.{Only-mono, Alike-refl, free_remote-Only}
use jam_tboard.Coroutines.Placing.{SameObjects-Alike, task_place-Likes, free_sized-same}
use jam_tboard.Coroutines.Steps.{Everyone, Step, Step-Alike, Step-then, Step-after, respot-Leaves}
use jam_tboard.Coroutines.Alone.{alone_remote}

module _ {env : Env} (coro : CoroViews env) {h : Held} {t : Board env} (s : Sound h t)
    (debts : (a : Ptr) → h.debt a ≡ 0) {roles : Ptr → Role} (T : Tenants coro roles t) where
  open coro use {view}

  -- The answer is in the caller's storage, and the remote task is gone.
  answered :
      (r p : Ptr) (x : RemoteTask)
      → t.remotes r ≡ some x
      → x.blocking ≡ true
      → x.calling_task ≡ some p
      → (y : Task) × (t.tasks p ≡ some y)
        × ((k : env.Coros) × (env.mco_push y.ctx (remote_bytes x) t.coros ≡ some k)
            × Step coro Everyone roles t (record (write_remote t r none) { coros = k }))
  answered r p x at b up =
      let (y, there, role) = T.asked p on_remote (by_remote r x at b up) in
      let (made, state, empty) = rw role at (T.filled y.ctx) in
      let nonnull = serves-nonnull coro T y.ctx p (asleep on_remote) role in
      let (k, pushed, v) = coro.push y.ctx (remote_bytes x) t.coros made empty in
      let leaves =
        respot-Leaves coro {others = Everyone} {t = write_remote t r none} k y.ctx p
          (asleep on_remote) (woken on_remote) role (λ other up. up on_remote refl)
          (λ other busy. busy) refl in
      (
        y,
        there,
        (
          k,
          pushed,
          (
            update roles y.ctx (serves p (woken on_remote)),
            respot coro (hide_remote coro T r) k y.ctx p (asleep on_remote) (woken on_remote) _ role
                (λ w e asks. alone_remote s debts r p x w at b up asks) v (made, state, (x, refl))
                (λ d e. absurd (cc)),
            record {
              tasks = leaves.tasks;
              spots = leaves.spots;
              runners = leaves.runners;
              calls = leaves.calls;
            },
          ),
        ),
      )

  -- The freed object was not looked at.
  hidden :
      (r : Ptr) (k : env.Coros) {u v : Board env}
      → Alike (record t { coros = k }) u
      → v ≡ write_remote u r none
      → Alike (record (write_remote t r none) { coros = k }) v
  hidden r k m is = rw is (record {
    tasks = m.tasks;
    remotes = λ q. elim (Bool-cases (r == q)) [
      | inl here ↦ rw here refl
      | inr other ↦ rw other (m.remotes q)
    ];
    hists = m.hists;
    next = m.next;
    coros = m.coros;
  })

  respond-Step :
      (r : Ptr) (x : RemoteTask)
      → t.remotes r ≡ some x
      → Only (λ _ u. Step coro Everyone roles t u) (respond (some r) t)
  unfolding respond handle_msg_recv load_remote return_remote load_task push_remote
  respond-Step r x at = rw at (elim (Bool-cases x.blocking) [
    | inl b ↦
        let (p, up) = some-of-live x.calling_task (omega (arith, s.called r x at)) in
        let (y, there, (k, pushed, step)) = answered r p x at b up in
        rw (b, up, there, at, pushed)
          (Only-bind (task_place-Likes p (record t { coros = k })) λ _ u m.
            Only-mono (free_remote-Only r u) λ _ v (_, is). Step-then coro step (hidden r k m is))
    | inr b ↦ rw b (
        Only-mono (free_remote-Only r (free_sized x.data_size x.payload t)) λ _ v (_, is).
          Step-then coro
            (
              roles,
              hide_remote coro T r,
              record {
                tasks = λ a z at other. (z, at, refl);
                spots = λ c a z at other up. at;
                runners = λ c a s busy at other. at;
                calls = λ c. refl;
              },
            )
            (hidden r t.coros (SameObjects-Alike (free_sized-same x.data_size x.payload t)) is))
  ])

module _ {env : Env} (coro : CoroViews env) where
  section-Step :
      {h : Held} {t : Board env} {roles : Ptr → Role}
      → Sound h t
      → ((a : Ptr) → h.debt a ≡ 0)
      → Tenants coro roles t
      → (q : Queue Ptr) → t.msg_recv ≡ q
      → Only
          (λ _ u. Step coro Everyone roles t u)
          (respond (queue_pop_head q).0 (record t { msg_recv = (queue_pop_head q).1 }))
  unfolding queue_pop_head respond mailed count
  section-Step s debts T [] e = only (Step-Alike coro T (SameObjects-Alike (ground arith)))
  section-Step {h} {t} {roles} s debts T (r ∷ rest) e =
      let (x, at) = mailed-live s debts r (ground (arith, ap (count r) e)) in
      let m : Alike t (record t { msg_recv = rest }) = SameObjects-Alike (ground arith) in
      Only-mono
        (respond-Step coro
          (mail-Sound s {h' = with_remote r h} t.msg_sent rest t.signals
            (λ a. omega (arith, ap (count a) e)) refl refl refl refl)
          debts (Alike-Tenants m T) r x at)
        λ _ u step. Step-after coro m step

  pub task_sequencer-Step :
      {h : Held} {t : Board env} {roles : Ptr → Role}
      → Sound h t
      → ((a : Ptr) → h.debt a ≡ 0)
      → Tenants coro roles t
      → Only (λ _ u. Step coro Everyone roles t u) (task_sequencer t)
  unfolding task_sequencer sequencer_section
  task_sequencer-Step {t = t} s debts T = elim (Option-cases (queue_peek_front t.msg_recv)) [
    | inl e ↦ rw (e, task_sequencer) (only (Step-Alike coro T (Alike-refl t)))
    | inr (r, e) ↦ rw (e, task_sequencer) (section-Step s debts T t.msg_recv refl)
  ]
