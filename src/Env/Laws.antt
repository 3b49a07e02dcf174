-- ===== src/Env/Laws.antt =====
-- What is relied on of minicoro (include/minicoro.h) and uthash (include/uthash.h), as their
-- documentation has it.
use Prim.Native.String.{String}
use jam_tboard.Common.{[], count, hit, ◌+◌, ◌≡◌, ◌⊎◌, none, some}
use jam_tboard.Task.{Ptr, Desc, Task, RemoteTask, task_bytes, remote_bytes}
use jam_tboard.Env.{Env}

pub record HashLaws (env : Env) : Type 0 where
  pub find-empty : (name : String) → env.hash_find_str env.hash_empty name ≡ none
  -- After an insertion a search finds the new entry, or what it found before.
  pub find-add :
      (T : env.Table) (name other : String) (p h : Ptr)
      → env.hash_find_str (env.hash_add_keyptr T name p) other ≡ some h
      → (h ≡ p) ⊎ (env.hash_find_str T other ≡ some h)
  -- An iteration goes through the entries that were inserted, a new one for a new name.
  pub iter-empty : env.hash_iter env.hash_empty ≡ []
  pub iter-add :
      (T : env.Table) (name : String) (p a : Ptr)
      → env.hash_find_str T name ≡ none
      → count a (env.hash_iter (env.hash_add_keyptr T name p)) ≡ count a (env.hash_iter T) + hit p a

pub record CoroLaws (env : Env) : Type 0 where
  -- A pop of as many bytes as are stored succeeds.
  pub pop_task_some :
      (c : Ptr) (k : env.Coros)
      → env.mco_get_bytes_stored c k ≡ env.sizeof_task
      → (x : Task) × (k' : env.Coros) × (env.mco_pop_task c k ≡ some (x, k'))
  pub pop_remote_some :
      (c : Ptr) (k : env.Coros)
      → env.mco_get_bytes_stored c k ≡ env.sizeof_remote_task
      → (x : RemoteTask) × (k' : env.Coros) × (env.mco_pop_remote c k ≡ some (x, k'))
  -- A new coroutine's storage is empty, and no other storage changes.
  pub create_empty :
      (c p : Ptr) (d : Desc) (k k' : env.Coros)
      → env.mco_create d k ≡ some (p, k')
      → env.mco_get_bytes_stored c k ≡ 0
      → env.mco_get_bytes_stored c k' ≡ 0
  -- What was pushed to empty storage is popped from it.
  pub pushed_task :
      (c : Ptr) (x : Task) (k k' : env.Coros)
      → env.mco_get_bytes_stored c k ≡ 0
      → env.mco_push c (task_bytes x) k ≡ some k'
      → (env.mco_get_bytes_stored c k' ≡ env.sizeof_task)
        × ((k'' : env.Coros) × (env.mco_pop_task c k' ≡ some (x, k'')))
  pub pushed_remote :
      (c : Ptr) (x : RemoteTask) (k k' : env.Coros)
      → env.mco_get_bytes_stored c k ≡ 0
      → env.mco_push c (remote_bytes x) k ≡ some k'
      → (env.mco_get_bytes_stored c k' ≡ env.sizeof_remote_task)
        × ((k'' : env.Coros) × (env.mco_pop_remote c k' ≡ some (x, k'')))
