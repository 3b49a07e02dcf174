-- ===== src/Ownership/Ending.antt =====
-- A task that has ended: the last part of a round of `executor` in src/executor.c.
use jam_tboard.Common.{◌<◌, ◌≡◌, refl, sym, ap, ◌∙◌, Option, none, some, arith}
use jam_tboard.Task.{Ptr, Task, task_completed, task_bytes}
use jam_tboard.Env.{Env}
use jam_tboard.Env.Laws.{HashLaws, CoroLaws}
use jam_tboard.Board.{Board, load_task}
use jam_tboard.Counter.{tboard_deinc_concurrent}
use jam_tboard.Executor.{wake_parent, leave, on_dead}
use jam_tboard.Ownership.Defs.{
  short, Held, with_task, with_debt, Sound, HasRoom, Returns, returns, Returns-bind, Returns-mono,
  root,
}
use jam_tboard.Ownership.Frame.{Sound-hands, coros-Sound}
use jam_tboard.Ownership.Memory.{write_task}
use jam_tboard.Ownership.Record.{history_record_exec-Returns}
use jam_tboard.Ownership.Tasks.{
  root-le-roots, parent-live, store_task-Returns, task_place-Returns, deinc-Sound,
  release_task-Returns,
}

-- What is held when a task has left, and its object is still there.
abbrev left : Task → Ptr → Held → Held
left x p h = record (with_debt x.parent (with_task p h)) { pending = short (root (some x)) }

module _ {env : Env} where
  module _ (coro : CoroLaws env) (h : Held) (debts : (a : Ptr) → h.debt a ≡ 0)
      (settled : h.pending ≡ short 0) {t : Board env} (p : Ptr) (x : Task)
      (s : Sound (with_task p h) t) (at : t.tasks p ≡ some x) where
    leave-Returns :
        (o : Option Ptr)
        → x.parent ≡ o
        → ((q : Ptr) (y : Task) → o ≡ some q → t.tasks q ≡ some y → HasRoom t y)
        → Returns (λ _ u. Sound (left x p h) u × (u.tasks ≡ t.tasks)) (leave o x t)
    unfolding leave tboard_deinc_concurrent wake_parent load_task
    leave-Returns none e empty = returns (
      Sound-hands (deinc-Sound s (ground (arith, root-le-roots s at)) settled) (λ a. ground arith)
          refl (ground arith) refl,
      refl,
    )
    leave-Returns (some q) e empty =
        let (y, there) = parent-live s at e (debts q) in
        let (vacant, room) = empty q y refl there in
        let (k, pushed) = room (task_bytes x) in
        rw (there, pushed)
          (Returns-mono
            (task_place-Returns (coros-Sound k s) there (λ a. ground arith) refl (ground arith)
              refl)
            (λ _ u r. (r.0, r.1.tasks)))

  pub task_elsewhere :
      (t : Board env) (o : Option Task) {u : Board env} {p q : Ptr}
      → u ≡ write_task t p o
      → q < p
      → u.tasks q ≡ t.tasks q
  task_elsewhere t o {q} is lt = ap (λ (v : Board env). v.tasks q) is ∙ ground arith

  -- When a task has ended, recording it, waking its parent or lowering the count of
  -- concurrent tasks, and freeing it return without a fault and leave the memory sound
  -- without the task. Conditions: the laws of the coroutine library and the hash table; no
  -- task in debt and no count pending; the memory is sound with the task in hand; and the
  -- storage of the parent's coroutine is empty with room for a struct.
  pub on_dead-Returns :
      HashLaws env
      → CoroLaws env
      → {h : Held} {t : Board env} (p : Ptr) (x : Task) → ((a : Ptr) → h.debt a ≡ 0)
      → h.pending ≡ short 0
      → Sound (with_task p h) t
      → t.tasks p ≡ some x
      → ((q : Ptr) (y : Task) → x.parent ≡ some q → t.tasks q ≡ some y → HasRoom t y)
      → Returns (λ _ u. Sound h u) (on_dead p t)
  unfolding on_dead load_task
  on_dead-Returns hash coro {h} {t} p x debts settled s at empty = rw at (
      Returns-bind (history_record_exec-Returns hash s (record x { status = task_completed }))
        λ e u1 (s1, same, entry).
          let ended : Task = record x { status = task_completed; hist = some e } in
          let at1 : u1.tasks p ≡ some x = ap (λ f. f p) same.tasks ∙ at in
          Returns-bind (store_task-Returns s1 ended at1 refl (λ _. (e, entry.0, refl, entry.1)))
            λ _ u2 (s2, is).
              let at2 : u2.tasks p ≡ some ended = rw is (ground arith) in
              Returns-bind
                (leave-Returns coro h debts settled p ended s2 at2 ended.parent refl
                  (λ q y up there.
                    rw (ap (λ u. u.coros) is, same.coros)
                      (empty q y up (
                        sym (
                          task_elsewhere u1 (some ended) is (s.older p q x at up)
                          ∙ ap (λ f. f q) same.tasks)
                        ∙ there))))
                λ _ u3 (s3, kept).
                  Returns-mono
                    (release_task-Returns s3 {p = p} {x = ended} (ap (λ f. f p) kept ∙ at2)
                      (λ a. omega arith) refl (rw settled (omega arith)) refl)
                    (λ _ u r. r.0))
