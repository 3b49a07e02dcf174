-- ===== src/Ownership/Record.antt =====
-- The history operations of src/history.c find their entries, and keep the memory sound.
use Prim.Native.String.{String}
use jam_tboard.Common.{
  ◌<◌, count, ◌≡◌, refl, ◌⊎◌, inl, inr, some, update, arith, ◌==◌, Bool-cases, Option-cases,
  if◌then◌else◌,
}
use jam_tboard.Task.{Ptr, Task, task_completed}
use jam_tboard.Env.{Env}
use jam_tboard.Env.Laws.{HashLaws}
use jam_tboard.Board.{History, Board, pure, ◌>>=◌, ◌>>◌, load_hist, store_hist, alloc_hist}
use jam_tboard.History.{completed_entry, add_entry, history_record_exec, count_execution, new_entry}
use jam_tboard.Ownership.Defs.{
  live, Held, Sound, Returns, returns, Returns-bind, Returns-mono, queued, awaited, mailed, roots,
}
use jam_tboard.Ownership.Memory.{bump, Sound-bump}

module _ {env : Env} where
  abbrev pub write_hist : Board env → Ptr → History env → Board env
  write_hist t p e = record t { hists = update t.hists p (some e) }

  pub there_after :
      (t : Board env) (p : Ptr) (e : History env) (a : Ptr) (d : History env)
      → t.hists a ≡ some d
      → (d' : History env) × (update t.hists p (some e) a ≡ some d')
  there_after t p e a d at = elim (Bool-cases (p == a)) [
    | inl is ↦ (e, rw is)
    | inr ne ↦ (d, rw ne at)
  ]

  -- Entries are written and never freed, and the table may have changed.
  pub Sound-hist :
      {h : Held} {t : Board env} (p : Ptr) (e : History env) (T : env.Table)
      → Sound h t
      → ((name : String) (a : Ptr)
          → env.hash_find_str T name ≡ some a
          → (a ≡ p) ⊎ (env.hash_find_str t.exec_hist name ≡ some a))
      → p < t.next
      → ((a : Ptr) → count a (env.hash_iter T) ≡ live (update t.hists p (some e) a))
      → Sound h (record (write_hist t p e) { exec_hist = T })
  unfolding queued awaited mailed roots
  Sound-hist {t} p e T s new lt lists = record {
    once = s.once;
    mailed_once = s.mailed_once;
    fresh_task = s.fresh_task;
    fresh_remote = s.fresh_remote;
    older = s.older;
    called = s.called;
    counted = s.counted;
    recorded = λ a x f n.
        let (q, d, is, at) = s.recorded a x f n in
        let (d', at') = there_after t p e q d at in (q, d', is, at');
    tabled = λ name a f. elim (new name a f) [
      | inl is ↦ (e, ground arith)
      | inr old ↦ let (d, at) = s.tabled name a old in there_after t p e a d at
    ];
    listed = lists;
    fresh_hist = λ a le. ground (arith, s.fresh_hist a);
  }

  -- What an operation on the history leaves alone.
  pub record SameTasks (t u : Board env) : Type 0 where
    pub tasks : u.tasks ≡ t.tasks
    pub remotes : u.remotes ≡ t.remotes
    pub coros : u.coros ≡ t.coros
    pub sqs : u.sqs ≡ t.sqs
    pub task_count : u.task_count ≡ t.task_count
    pub kept :
        (a : Ptr) (d : History env)
        → t.hists a ≡ some d
        → (d' : History env) × (u.hists a ≡ some d')

  -- A new entry takes no other one's place.
  SameTasks-grow :
      (e : History env) (T : env.Table) (t : Board env) {u : Board env}
      → SameTasks (record (write_hist (bump t) t.next e) { exec_hist = T }) u
      → SameTasks t u
  SameTasks-grow e T t m = record {
    tasks = m.tasks;
    remotes = m.remotes;
    coros = m.coros;
    sqs = m.sqs;
    task_count = m.task_count;
    kept = λ a d at. let (d', at') = there_after t t.next e a d at in m.kept a d' at';
  }

  module _ {h : Held} {t : Board env} (s : Sound h t) where
    pub store_hist-Returns :
        {p : Ptr} {d : History env} (e : History env)
        → t.hists p ≡ some d
        → Returns (λ _ u. Sound h u × SameTasks t u × (u.hists p ≡ some e)) (store_hist p e t)
    unfolding store_hist
    store_hist-Returns {p} e at =
        rw (at, store_hist)
          (returns (
            Sound-hist p e t.exec_hist s (λ name a f. inr f) (ground (arith, s.fresh_hist p))
                (λ a. ground (arith, s.listed a)),
            record {
              tasks = refl;
              remotes = refl;
              coros = refl;
              sqs = refl;
              task_count = refl;
              kept = there_after t p e;
            },
            ground arith,
          ))

    pub count_execution-Returns :
        {p : Ptr} {d : History env}
        → t.hists p ≡ some d
        → Returns (λ _ u. Sound h u × SameTasks t u) (count_execution p t)
    unfolding count_execution load_hist
    count_execution-Returns {p} at =
        rw at (Returns-mono (store_hist-Returns _ at) (λ _ u r. (r.0, r.1)))

  -- The part of `history_record_exec` after the search.
  complete-Returns :
      {h : Held} {t : Board env} (s : Sound h t) (task : Task) (p : Ptr) (d : History env)
      → t.hists p ≡ some d
      → Returns
          (λ q u. Sound h u × SameTasks t u × ((e : History env) × (u.hists q ≡ some e)))
          ((if task.status == task_completed
              then (do e ← load_hist p; store_hist p (completed_entry e task); pure p)
              else pure p)
            t)
  unfolding load_hist
  complete-Returns s task p d at = elim (Bool-cases (task.status == task_completed)) [
    | inl e ↦
        rw (e, at)
          (Returns-bind (store_hist-Returns s _ at) (λ _ u r. returns (r.0, r.1, (_, r.2))))
    | inr e ↦ rw e (
        returns (
          s,
          record {
            tasks = refl;
            remotes = refl;
            coros = refl;
            sqs = refl;
            task_count = refl;
            kept = λ a d at. (d, at);
          },
          (d, at),
        ))
  ]

  -- Whether or not the name was known, the entry that is returned is there.
  pub history_record_exec-Returns :
      {h : Held} {t : Board env}
      → HashLaws env
      → Sound h t
      → (task : Task)
      → Returns
          (λ p u. Sound h u × SameTasks t u × ((e : History env) × (u.hists p ≡ some e)))
          (history_record_exec task t)
  unfolding history_record_exec add_entry alloc_hist
  history_record_exec-Returns {h} {t} laws s task =
      elim (Option-cases (env.hash_find_str t.exec_hist task.fn.fn_name)) [
        | inl e ↦ rw e (
            Returns-mono
              (complete-Returns
                (Sound-hist t.next (new_entry task.fn.fn_name)
                  (env.hash_add_keyptr t.exec_hist task.fn.fn_name t.next) (Sound-bump s)
                  (λ name a f. laws.find-add _ _ name _ a f) (omega arith)
                  (λ a. ground (
                    arith,
                    laws.iter-add t.exec_hist task.fn.fn_name t.next a,
                    s.listed a,
                    s.fresh_hist t.next,
                  )))
                task t.next (new_entry task.fn.fn_name) (ground arith))
              (λ p u r. (r.0, SameTasks-grow _ _ t r.1, r.2)))
        | inr (p, e) ↦ let (d, at) = s.tabled _ p e in rw e (complete-Returns s task p d at)
      ]
