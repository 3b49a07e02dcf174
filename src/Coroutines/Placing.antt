-- ===== src/Coroutines/Placing.antt =====
-- Placing, counting and recording tasks leaves the coroutines alone.
use jam_tboard.Common.{
  ℕ, zero, suc, ◌≡◌, refl, sym, ap, ◌∙◌, Bool, Option, none, some, ℤ, pos, eq_ℤ, arith, Bool-cases,
  Option-cases, inl, inr,
}
use jam_tboard.Task.{Ptr, Task, primary_exec}
use jam_tboard.Env.{Env}
use jam_tboard.Board.{Board, M, and_then, expect, load_task, free_data, signal}
use jam_tboard.Counter.{tboard_add_concurrent, tboard_deinc_concurrent}
use jam_tboard.Destroy.{free_sized}
use jam_tboard.Place.{place_primary, place_secondary, place, task_place, remote_task_place}
use jam_tboard.Create.{enter_task, task_add}
use jam_tboard.Executor.Fetch.{
  Exec, Slot, primary, secondary, pop_primary, pop_secondary, steal, fetch,
}
use jam_tboard.Executor.{count_yield, reinsert_at, reinsert, begin}
use jam_tboard.Queue.{queue_peek_front}
use jam_tboard.Ownership.Only.{Only, faults, only, Only-bind}
use jam_tboard.Coroutines.Frame.{context, Alike, Alike-trans}
use jam_tboard.Coroutines.Likes.{
  Only-mono, Alike-refl, Likes, Likes-bind, Likes-after, load_task-Only, rewrite_task,
  load_hist-Likes, store_hist-Likes, history_record_exec-Likes, count_execution-Likes,
}

module _ {env : Env} where
  -- Boards with the same objects and coroutines.
  pub record SameObjects (t u : Board env) : Type 0 where
    pub tasks : u.tasks ≡ t.tasks
    pub remotes : u.remotes ≡ t.remotes
    pub hists : u.hists ≡ t.hists
    pub next : u.next ≡ t.next
    pub coros : u.coros ≡ t.coros

  pub SameObjects-Alike : {t u : Board env} → SameObjects t u → Alike t u
  SameObjects-Alike m = record {
    tasks = λ a. rw m.tasks refl;
    remotes = λ r. rw m.remotes refl;
    hists = λ a d e. (d, rw m.hists e);
    next = rw m.next (omega arith);
    coros = m.coros;
  }

  pub place-same : (type : ℤ) (p : Ptr) (t : Board env) → SameObjects t (place type p t)
  unfolding place place_primary place_secondary signal
  place-same type p t = ground arith

  pub free_sized-same :
      (size : ℕ) (d : Option Ptr) (t : Board env) → SameObjects t (free_sized size d t)
  unfolding free_sized free_data
  free_sized-same size d t = ground arith

  pub add_concurrent-same : (t : Board env) → SameObjects t (tboard_add_concurrent t).1
  unfolding tboard_add_concurrent
  add_concurrent-same t = ground arith

  pub deinc_concurrent-same : (t : Board env) → SameObjects t (tboard_deinc_concurrent t)
  unfolding tboard_deinc_concurrent
  deinc_concurrent-same t = ground arith

  reinsert_at-same :
      (args : Exec) (slot : Slot) (type : ℤ) (p : Ptr) (t : Board env)
      → SameObjects t (reinsert_at args slot type p t)
  unfolding reinsert_at signal
  reinsert_at-same args primary type p t = ground arith
  reinsert_at-same args (secondary i) type p t = ground arith

  steal-same : (rounds i : ℕ) (t : Board env) → SameObjects t (steal rounds i t).1
  unfolding steal pop_secondary
  steal-same zero i t = ground arith
  steal-same (suc rounds) i t = elim (Option-cases (queue_peek_front (t.squeue i))) [
    | inl e ↦ rw (e, steal) (steal-same rounds (suc i) t)
    | inr (p, e) ↦ rw (e, steal) (ground arith)
  ]

  pub fetch-same : (args : Exec) (t : Board env) → SameObjects t (fetch args t).1
  unfolding fetch pop_primary pop_secondary
  fetch-same args t = elim (Bool-cases (eq_ℤ args.type primary_exec)) [
    | inl e ↦ elim (Option-cases (queue_peek_front t.pqueue)) [
      | inl empty ↦ rw (e, empty, fetch) (steal-same t.sqs 0 t)
      | inr (p, front) ↦ rw (e, front, fetch) (ground arith)
    ]
    | inr e ↦ rw e (ground arith)
  ]

  -- A load, and then a run that may use the object.
  pub load-Likes :
      {B : Type 0} (p : Ptr) (t : Board env) (k : Task → M env B)
      → ((x : Task) → t.tasks p ≡ some x → Likes t (k x t))
      → Likes t (and_then (load_task p t) k)
  load-Likes p t k next = Only-bind (load_task-Only p t) λ x u (at, is). rw is (next x at)

  pub task_place-Likes : (p : Ptr) (t : Board env) → Likes t (task_place p t)
  unfolding task_place
  task_place-Likes p t = load-Likes p t _ λ x at. only (SameObjects-Alike (place-same x.type p t))

  pub remote_task_place-Likes :
      (r : Option Ptr) (send : Bool) (t : Board env) → Likes t (remote_task_place r send t)
  unfolding remote_task_place signal
  remote_task_place-Likes none send t = only (Alike-refl t)
  remote_task_place-Likes (some r) send t = only (SameObjects-Alike (ground arith))

  pub begin-Likes : (p : Ptr) (t : Board env) → Likes t (begin p t)
  unfolding begin
  begin-Likes p t = load-Likes p t _ λ x at. rewrite_task p _ t (ap context (sym at))

  pub reinsert-Likes :
      (args : Exec) (slot : Slot) (p : Ptr) (t : Board env) → Likes t (reinsert args slot p t)
  unfolding reinsert
  reinsert-Likes args slot p t =
      load-Likes p t _ λ x at. only (SameObjects-Alike (reinsert_at-same args slot x.type p t))

  pub count_yield-Likes : (task : Task) (t : Board env) → Likes t (count_yield task t)
  unfolding count_yield
  count_yield-Likes task t = Only-bind (expect_same task.hist) λ h u is.
      Only-mono (Likes-bind (load_hist-Likes h u) λ e v. store_hist-Likes h _ v)
        λ _ v m. Alike-trans (rw is (Alike-refl t)) m
    where
      expect_same : (o : Option Ptr) → Only (λ _ u. u ≡ t) (expect o t)
      expect_same none = faults
      expect_same (some h) = only refl

  pub enter_task-Likes : (p : Ptr) (t : Board env) → Likes t (enter_task p t)
  unfolding enter_task
  enter_task-Likes p t = load-Likes p t _ λ x at.
      Likes-bind (rewrite_task p _ t (ap context (sym at))) λ _ u. load-Likes p u _ λ y there.
        Likes-after (history_record_exec-Likes y u) λ h v m.
          Likes-bind (rewrite_task p _ v (ap context (sym there) ∙ sym (m.tasks p))) λ _ w.
            Likes-bind (count_execution-Likes h w)
              λ _ w1. Likes-bind (task_place-Likes p w1) λ _ w2. only (Alike-refl w2)

  pub task_add-Likes : (p : Ptr) (t : Board env) → Likes t (task_add (some p) t)
  unfolding task_add
  task_add-Likes p t = elim (Bool-cases (eq_ℤ (tboard_add_concurrent t).0 (pos 0))) [
    | inl e ↦ rw e (only (SameObjects-Alike (add_concurrent-same t)))
    | inr e ↦ rw e (
        Only-mono (enter_task-Likes p _)
          λ _ u m. Alike-trans (SameObjects-Alike (add_concurrent-same t)) m)
  ]
