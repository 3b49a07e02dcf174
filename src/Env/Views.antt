-- ===== src/Env/Views.antt =====
-- What is relied on of minicoro (include/minicoro.h), in more detail: what an operation does to the
-- coroutine that it is called on, and that it does nothing to the others.
use jam_tboard.Common.{
  ℕ, ◌<◌, ◌≡◌, ◌≢◌, ◌⊎◌, refl, sym, ap, ◌∙◌, Bool, true, false, Option, none, some, update, arith,
  ◌==◌, Bool-cases, inl, inr,
}
use jam_tboard.Task.{
  Ptr, null, Desc, Task, RemoteTask, Stored, task_bytes, remote_bytes, CoroState, dead, running,
  suspended,
}
use jam_tboard.Env.{Env}
use jam_tboard.Env.Laws.{CoroLaws}

-- A coroutine as its users see it: whether it exists, its state and its storage.
pub record Cell : Type 0 where
  pub made : Bool
  pub state : CoroState
  pub stored : Option Stored

abbrev pub no_cell : Cell
no_cell = record { made = false; state = dead; stored = none }

abbrev pub new_cell : Cell
new_cell = record { made = true; state = suspended; stored = none }

abbrev pub bytes_of : Env → Option Stored → ℕ
bytes_of env none = 0
bytes_of env (some (task_bytes x)) = env.sizeof_task
bytes_of env (some (remote_bytes x)) = env.sizeof_remote_task

pub record CoroViews (env : Env) : Type 0 where
  pub view : env.Coros → Ptr → Cell
  pub null_view : (k : env.Coros) → view k null ≡ no_cell
  -- Where there is no coroutine, there is none of its data.
  pub unmade : (c : Ptr) (k : env.Coros) → (view k c).made ≡ false → view k c ≡ no_cell
  pub status : (c : Ptr) (k : env.Coros) → env.mco_status c k ≡ (view k c).state
  pub bytes :
      (c : Ptr) (k : env.Coros) → env.mco_get_bytes_stored c k ≡ bytes_of env (view k c).stored
  pub task_size : 0 < env.sizeof_task
  pub remote_size : 0 < env.sizeof_remote_task
  pub sizes_differ : env.sizeof_remote_task ≢ env.sizeof_task
  -- A context is made at an address that no other coroutine has.
  pub create :
      (d : Desc) (p : Ptr) (k k' : env.Coros)
      → env.mco_create d k ≡ some (p, k')
      → (p ≢ null) × ((view k p).made ≡ false) × (view k' ≡ update (view k) p new_cell)
  -- Only a coroutine that is suspended or has ended can be destroyed.
  pub destroy :
      (c : Ptr) (k : env.Coros)
      → (view k c).made ≡ true
      → ((view k c).state ≡ suspended) ⊎ ((view k c).state ≡ dead)
      → view (env.mco_destroy c k) ≡ update (view k) c no_cell
  pub destroy_null : (k : env.Coros) → view (env.mco_destroy null k) ≡ view k
  -- Empty storage has room for one of the program's structs.
  pub push :
      (c : Ptr) (item : Stored) (k : env.Coros)
      → (view k c).made ≡ true
      → (view k c).stored ≡ none
      → (k' : env.Coros) × (env.mco_push c item k ≡ some k')
        × (view k' ≡ update (view k) c (record (view k c) { stored = some item }))
  -- A push that succeeds has stored the struct.
  pub pushed :
      (c : Ptr) (item : Stored) (k k' : env.Coros)
      → (view k c).stored ≡ none
      → env.mco_push c item k ≡ some k'
      → (view k' c).stored ≡ some item
  pub pop_task :
      (c : Ptr) (x : Task) (k : env.Coros)
      → (view k c).stored ≡ some (task_bytes x)
      → (k' : env.Coros) × (env.mco_pop_task c k ≡ some (x, k'))
        × (view k' ≡ update (view k) c (record (view k c) { stored = none }))
  pub pop_remote :
      (c : Ptr) (x : RemoteTask) (k : env.Coros)
      → (view k c).stored ≡ some (remote_bytes x)
      → (k' : env.Coros) × (env.mco_pop_remote c k ≡ some (x, k'))
        × (view k' ≡ update (view k) c (record (view k c) { stored = none }))
  pub resume :
      (c : Ptr) (k : env.Coros)
      → (view k c).state ≡ suspended
      → (k' : env.Coros) × (env.mco_resume c k ≡ some k')
        × (view k' ≡ update (view k) c (record (view k c) { state = running }))
  pub resume_dead : (c : Ptr) (k : env.Coros) → (view k c).state ≡ dead → env.mco_resume c k ≡ none
  pub yield :
      (c : Ptr) (k : env.Coros)
      → (view k c).made ≡ true
      → (view k c).state ≡ running
      → view (env.mco_yield c k) ≡ update (view k) c (record (view k c) { state = suspended })
  pub end :
      (c : Ptr) (k : env.Coros)
      → (view k c).made ≡ true
      → (view k c).state ≡ running
      → view (env.mco_return c k) ≡ update (view k) c (record (view k c) { state = dead })

not_some {ℓ} : {A : Type ℓ} {a : A} → none ≡ some a → ⊥
not_some e = cc

module _ {env : Env} (coro : CoroViews env) where
  open coro use {view}

  pub task_stored :
      (o : Option Stored)
      → bytes_of env o ≡ env.sizeof_task
      → (x : Task) × (o ≡ some (task_bytes x))
  task_stored none e = absurd (omega (arith, coro.task_size))
  task_stored (some (task_bytes x)) e = (x, refl)
  task_stored (some (remote_bytes x)) e = absurd (coro.sizes_differ e)

  remote_stored :
      (o : Option Stored)
      → bytes_of env o ≡ env.sizeof_remote_task
      → (x : RemoteTask) × (o ≡ some (remote_bytes x))
  remote_stored none e = absurd (omega (arith, coro.remote_size))
  remote_stored (some (task_bytes x)) e = absurd (coro.sizes_differ (sym e))
  remote_stored (some (remote_bytes x)) e = (x, refl)

  none_stored : (o : Option Stored) → bytes_of env o ≡ 0 → o ≡ none
  none_stored none e = refl
  none_stored (some (task_bytes x)) e = absurd (omega (arith, coro.task_size))
  none_stored (some (remote_bytes x)) e = absurd (omega (arith, coro.remote_size))

  pub empty_stored :
      (c : Ptr) (k : env.Coros) → env.mco_get_bytes_stored c k ≡ 0 → (view k c).stored ≡ none
  empty_stored c k e = none_stored (view k c).stored (sym (coro.bytes c k) ∙ e)

  -- The coarser laws follow.
  pushed_at :
      (c : Ptr) (item : Stored) (k k' : env.Coros)
      → env.mco_get_bytes_stored c k ≡ 0
      → env.mco_push c item k ≡ some k'
      → (view k' c).stored ≡ some item
  pushed_at c item k k' empty e = coro.pushed c item k k' (empty_stored c k empty) e

  created_at :
      (c p : Ptr) (d : Desc) (k k' : env.Coros)
      → env.mco_create d k ≡ some (p, k')
      → env.mco_get_bytes_stored c k ≡ 0
      → env.mco_get_bytes_stored c k' ≡ 0
  created_at c p d k k' e empty =
      let (nonnull, new, v) = coro.create d p k k' e in
      let was = empty_stored c k empty in
      coro.bytes c k'
      ∙ rw v (elim (Bool-cases (p == c)) [ inl is ↦ rw is refl | inr ne ↦ rw (ne, was) refl ])

  pub views-CoroLaws : CoroLaws env
  views-CoroLaws = record {
    pop_task_some = λ c k e.
        let (x, is) = task_stored (view k c).stored (sym (coro.bytes c k) ∙ e) in
        let (k', popped, v) = coro.pop_task c x k is in (x, k', popped);
    pop_remote_some = λ c k e.
        let (x, is) = remote_stored (view k c).stored (sym (coro.bytes c k) ∙ e) in
        let (k', popped, v) = coro.pop_remote c x k is in (x, k', popped);
    create_empty = created_at;
    pushed_task = λ c x k k' empty e.
        let at = pushed_at c (task_bytes x) k k' empty e in
        let (k'', popped, v) = coro.pop_task c x k' at in
        (coro.bytes c k' ∙ ap (bytes_of env) at, (k'', popped));
    pushed_remote = λ c x k k' empty e.
        let at = pushed_at c (remote_bytes x) k k' empty e in
        let (k'', popped, v) = coro.pop_remote c x k' at in
        (coro.bytes c k' ∙ ap (bytes_of env) at, (k'', popped));
  }
