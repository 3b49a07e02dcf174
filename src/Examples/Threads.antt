-- ===== src/Examples/Threads.antt =====
-- The theorems on the program's threads, for three executors and one task.
use mathlib.Core.Path.{subst}
use jam_tboard.Common.{
  ℕ, zero, suc, ◌<◌, ◌≡◌, refl, sym, ap, ◌∙◌, inr, update, Option, none, some, List, [], ◌∷◌, inc,
  arith,
}
use jam_tboard.Task.{Ptr, primary_exec}
use jam_tboard.Queue.{
  queue_init, queue_insert_tail, queue_peek_front, queue_pop_head, stailq_remove_head,
}
use jam_tboard.Board.{
  M, Board, load_task, store_task, alloc_task, load_hist, store_hist, alloc_hist, signal,
}
use jam_tboard.Counter.{tboard_add_concurrent}
use jam_tboard.History.{add_entry, history_record_exec, count_execution}
use jam_tboard.Place.{place_primary, place, task_place}
use jam_tboard.Create.{enter_task, task_add, create_context, start_task, task_create}
use jam_tboard.Executor.Fetch.{Exec, Slot, primary, pop_primary, fetch}
use jam_tboard.Turns.{no_call, take_turn}
use jam_tboard.Lifecycle.{
  new_board, tboard_create, tboard_start, tboard_destroy, secondary_executors,
}
use jam_tboard.Env.Views.{views-CoroLaws}
use jam_tboard.Ownership.Defs.{Returns}
use jam_tboard.Coroutines.Defs.{clear, Tenants}
use jam_tboard.Coroutines.Frame.{Alike-Tenants}
use jam_tboard.Coroutines.Rounds.{take_turn-Resumes}
use jam_tboard.System.{
  Thread, idle, holding, State, Action, create, take, work, set_thread, on_board, work_by, perform,
}
use jam_tboard.System.Reachable.{IsSafe, Goes, goes, Works, others, in_hand-Sound, perform-IsSafe}
use jam_tboard.System.Runs.{launched, Runs, done, step, AllIdle, thread_at, run-IsSafe, run-destroy}
use jam_tboard.Examples.Machine.{careful, no_coroutines, careful-HashLaws, careful-CoroViews}
use jam_tboard.Examples.Boards.{blink, blinking, first}
use jam_tboard.Examples.Coroutines.{
  blank, single, taken, taken-Tenants, at_yield, at_yield_clear, issuing_turn,
}

unfoldable born : Board careful
born = new_board careful 2 1 no_coroutines

abbrev plan : List (Action careful)
plan = create blink primary_exec none 0 ∷ take 0 ∷ []

abbrev after_step : Action careful → State careful → State careful
after_step a s = elim (perform a s) [ none ↦ s | some u ↦ u ]

unfoldable at_work : State careful
at_work = after_step (take 0) (after_step (create blink primary_exec none 0) (launched born))

born-is : tboard_create careful 2 1 no_coroutines ≡ some born
unfolding born tboard_create new_board
born-is = refl

plan-Runs : Runs (launched born) plan at_work
unfolding at_work born tboard_start secondary_executors perform fetch pop_primary queue_peek_front
    queue_pop_head stailq_remove_head new_board task_create alloc_task create_context start_task
    load_task store_task task_add tboard_add_concurrent inc enter_task history_record_exec add_entry
    alloc_hist count_execution load_hist store_hist task_place place place_primary queue_insert_tail
    signal queue_init
plan-Runs = step tt refl (step (omega arith) refl done)

at_work-IsSafe : IsSafe at_work
at_work-IsSafe =
    run-IsSafe careful-HashLaws (views-CoroLaws careful-CoroViews) 2 1 no_coroutines born born-is
      plan at_work plan-Runs

at_work-blinking : at_work.board.tasks 1 ≡ some blinking
unfolding at_work born tboard_start secondary_executors perform fetch pop_primary queue_peek_front
    queue_pop_head stailq_remove_head new_board task_create alloc_task create_context start_task
    load_task store_task task_add tboard_add_concurrent inc enter_task history_record_exec add_entry
    alloc_hist count_execution load_hist store_hist task_place place place_primary queue_insert_tail
    signal queue_init
at_work-blinking = refl

at_work-holding : at_work.threads 0 ≡ holding first 1 primary
unfolding at_work born tboard_start secondary_executors perform fetch pop_primary queue_peek_front
    queue_pop_head stailq_remove_head new_board task_create alloc_task create_context start_task
    load_task store_task task_add tboard_add_concurrent inc enter_task history_record_exec add_entry
    alloc_hist count_execution load_hist store_hist task_place place place_primary queue_insert_tail
    signal queue_init
at_work-holding = refl

-- The board is the one without threads, but for its state.
at_work-Tenants : Tenants careful-CoroViews at_yield at_work.board
unfolding at_work born taken single blank tboard_start secondary_executors perform fetch pop_primary
    queue_peek_front queue_pop_head stailq_remove_head new_board task_create alloc_task
    create_context start_task load_task store_task task_add tboard_add_concurrent inc enter_task
    history_record_exec add_entry alloc_hist count_execution load_hist store_hist task_place place
    place_primary queue_insert_tail signal queue_init
at_work-Tenants =
    Alike-Tenants
      (record {
        tasks = λ a. refl;
        remotes = λ r. refl;
        hists = λ a d e. (d, e);
        next = omega arith;
        coros = refl;
      })
      taken-Tenants

at_work-three : 0 < at_work.count
unfolding at_work born tboard_start secondary_executors perform fetch pop_primary queue_peek_front
    queue_pop_head stailq_remove_head new_board task_create alloc_task create_context start_task
    load_task store_task task_add tboard_add_concurrent inc enter_task history_record_exec add_entry
    alloc_hist count_execution load_hist store_hist task_place place place_primary queue_insert_tail
    signal queue_init
at_work-three = omega arith

-- The task that the primary executor has taken issues a blocking task in its turn.
abbrev turn : Action careful
turn = work 0 (take_turn no_call issuing_turn) 3 5

turn-Works :
    Works (others 0 at_work) (take_turn no_call issuing_turn) (at_work.threads 0) at_work.board
turn-Works =
    subst (λ th. Works (others 0 at_work) (take_turn no_call issuing_turn) th at_work.board)
      (sym at_work-holding)
      (take_turn-Resumes careful-HashLaws careful-CoroViews (others 0 at_work) (λ a. refl) refl refl
        at_work-Tenants 1 blinking no_call issuing_turn
        (in_hand-Sound 0 first 1 primary at_work at_work-three at_work-holding at_work-IsSafe)
        at_work-blinking (inr (clear, at_yield_clear, tt, refl)) (λ done. tt))

perform-IsSafe_example : Goes IsSafe (perform turn at_work)
perform-IsSafe_example =
    perform-IsSafe careful-HashLaws (views-CoroLaws careful-CoroViews) turn at_work at_work-IsSafe
      (at_work-three, turn-Works)

turn-Goes : Goes IsSafe (perform turn at_work)
turn-Goes =
    perform-IsSafe careful-HashLaws (views-CoroLaws careful-CoroViews) turn at_work at_work-IsSafe
      (at_work-three, turn-Works)

Goes-result :
    {P : State careful → Type 0} {o : Option (State careful)} (s : State careful)
    → Goes P o
    → o ≡ some (elim o [ none ↦ s | some u ↦ u ])
Goes-result s (goes p) = refl

-- The executor has worked on the task, and is without one.
unfoldable worked : State careful
worked = after_step turn at_work

worked-is : perform turn at_work ≡ some worked
unfolding worked
worked-is = Goes-result at_work turn-Goes

abbrev whole : List (Action careful)
whole = create blink primary_exec none 0 ∷ take 0 ∷ turn ∷ []

whole-Runs : Runs (launched born) whole worked
unfolding at_work born tboard_start secondary_executors perform fetch pop_primary queue_peek_front
    queue_pop_head stailq_remove_head new_board task_create alloc_task create_context start_task
    load_task store_task task_add tboard_add_concurrent inc enter_task history_record_exec add_entry
    alloc_hist count_execution load_hist store_hist task_place place place_primary queue_insert_tail
    signal queue_init
whole-Runs =
    step tt refl (step (omega arith) refl (step (at_work-three, turn-Works) worked-is done))

run-IsSafe_example : IsSafe worked
run-IsSafe_example =
    run-IsSafe careful-HashLaws (views-CoroLaws careful-CoroViews) 2 1 no_coroutines born born-is
      whole worked whole-Runs

idle_thread : (es : List Exec) (i : ℕ) → (e : Exec) × (thread_at es i ≡ idle e)
idle_thread [] i = (_, refl)
idle_thread (e ∷ es) zero = (e, refl)
idle_thread (e ∷ es) (suc i) = idle_thread es i

-- The threads after a thread has worked.
on_board-threads :
    {A : Type 0} (s u : State careful) (r : Option (A × Board careful))
    → on_board s r ≡ some u
    → u.threads ≡ s.threads
on_board-threads s u none e = absurd (cc)
on_board-threads s u (some (a, t)) e =
    let same : record s { board = t } ≡ u = cc in rw (← same) refl

work_by-threads :
    (i : ℕ) (resume : Ptr → M careful (Unit {0})) (start end : ℕ) (e : Exec) (p : Ptr) (slot : Slot)
    (th : Thread) (s u : State careful)
    → th ≡ holding e p slot
    → work_by i resume start end th s ≡ some u
    → u.threads ≡ update s.threads i (idle e)
work_by-threads i resume start end e p slot th s u is at =
    on_board-threads (set_thread i (idle e) s) u _
      (ap (λ z. work_by i resume start end z s) (sym is) ∙ at)

worked-threads : worked.threads ≡ update at_work.threads 0 (idle first)
unfolding perform
worked-threads =
    work_by-threads 0 (take_turn no_call issuing_turn) 3 5 first 1 primary (at_work.threads 0)
      at_work worked at_work-holding worked-is

at_work-idle : (i : ℕ) → (e : Exec) × (update at_work.threads 0 (idle first) i ≡ idle e)
unfolding at_work born tboard_start secondary_executors perform fetch pop_primary queue_peek_front
    queue_pop_head stailq_remove_head new_board task_create alloc_task create_context start_task
    load_task store_task task_add tboard_add_concurrent inc enter_task history_record_exec add_entry
    alloc_hist count_execution load_hist store_hist task_place place place_primary queue_insert_tail
    signal queue_init
at_work-idle zero = (first, refl)
at_work-idle (suc i) =
    let (e, is) = idle_thread (tboard_start born).0 (suc i) in (e, ground (arith, is))

worked-AllIdle : AllIdle worked
worked-AllIdle i lt = let (e, is) = at_work-idle i in (e, ap (λ f. f i) worked-threads ∙ is)

run-destroy_example :
    Returns
      (λ _ u.
        ((p : Ptr) → u.tasks p ≡ none)
        × ((r : Ptr) → u.remotes r ≡ none)
        × ((h : Ptr) → u.hists h ≡ none))
      (tboard_destroy worked.board)
run-destroy_example =
    run-destroy careful-HashLaws (views-CoroLaws careful-CoroViews) 2 1 no_coroutines born born-is
      whole worked whole-Runs worked-AllIdle
