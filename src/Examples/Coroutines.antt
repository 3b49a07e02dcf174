-- ===== src/Examples/Coroutines.antt =====
-- The theorems on coroutines, for a task that has yielded and for one that waits for an answer.
use mathlib.Core.Path.{subst}
use jam_tboard.Common.{
  ◌≡◌, sym, ap, ◌∙◌, refl, Bool, true, false, Option, none, some, [], pos, arith, inc, update, ◌==◌,
  Bool-cases, inl, inr, codes,
}
use jam_tboard.Task.{Ptr, Task, primary_exec}
use jam_tboard.Tokens.{strtok, skip_spaces, until_space}
use jam_tboard.Queue.{
  queue_init, queue_insert_tail, queue_peek_front, queue_pop_head, stailq_remove_head,
}
use jam_tboard.Board.{
  ◌>>◌, Board, load_task, store_task, alloc_task, load_hist, store_hist, alloc_hist, signal,
  alloc_remote,
}
use jam_tboard.Counter.{tboard_add_concurrent}
use jam_tboard.History.{add_entry, history_record_exec, count_execution}
use jam_tboard.Place.{place_primary, place, task_place, remote_task_place}
use jam_tboard.Create.{enter_task, task_add, create_context, start_task, task_create}
use jam_tboard.Processor.{Msg, task_exec}
use jam_tboard.Sequencer.{task_sequencer}
use jam_tboard.Executor.{begin, finish, executor_round}
use jam_tboard.Executor.Fetch.{Slot, primary, pop_primary, fetch}
use jam_tboard.Lifecycle.{new_board}
use jam_tboard.Turns.{Turn, no_call, ends, blocks, take_turn}
use jam_tboard.Ownership.Defs.{nothing, with_task, with_remote, Sound, Returns, Returns-Holds}
use jam_tboard.Ownership.Answering.{Answerable}
use jam_tboard.Ownership.Beginning.{new_board-Sound}
use jam_tboard.Ownership.Creation.{task_create-Returns}
use jam_tboard.Ownership.Responding.{CallersWait}
use jam_tboard.Ownership.Whole.{Resumes, executor_round-Returns}
use jam_tboard.Env.Views.{views-CoroLaws}
use jam_tboard.Ownership.Fetching.{fetch-Fetched}
use jam_tboard.Ownership.Remotes.{alloc_remote-Returns, remote_task_place-Returns}
use jam_tboard.Coroutines.Defs.{
  Wait, on_remote, clear, active, asleep, Role, unused, serves, Asks, by_task, by_remote, Tenants,
}
use jam_tboard.Coroutines.Steps.{Everyone}
use jam_tboard.Coroutines.Whole.{
  InOrder, new_board-Tenants, task_create-InOrder, task_sequencer-InOrder,
}
use jam_tboard.Coroutines.Replying.{FrontAnswered}
use jam_tboard.Coroutines.Tidying.{Tidy}
use jam_tboard.Coroutines.Rounds.{run_task-InOrder, take_turn-Resumes}
use jam_tboard.Examples.Machine.{careful, no_coroutines, careful-HashLaws, careful-CoroViews}
use jam_tboard.Examples.Boards.{blink, blinking, first, led}

abbrev resumed : careful.Coros → Option careful.Coros → careful.Coros
resumed k none = k
resumed k (some l) = l

abbrev after : {A : Type 0} → Option (A × Board careful) → Board careful → Board careful
after none t = t
after (some (a, u)) t = u

unfoldable pub blank : Board careful
unfolding new_board queue_init
blank = new_board careful 2 1 no_coroutines

blank-Sound : Sound nothing blank
unfolding blank new_board queue_init
blank-Sound = new_board-Sound careful-HashLaws 2 1 no_coroutines

unfoldable pub single : Board careful
unfolding blank new_board task_create alloc_task create_context start_task load_task store_task
    task_add tboard_add_concurrent inc enter_task history_record_exec add_entry alloc_hist
    count_execution load_hist store_hist task_place place place_primary queue_insert_tail signal
    queue_init
single = after (task_create blink primary_exec none 0 blank) blank

pub single-Sound : Sound nothing single
unfolding single blank new_board task_create alloc_task create_context start_task load_task
    store_task task_add tboard_add_concurrent inc enter_task history_record_exec add_entry
    alloc_hist count_execution load_hist store_hist task_place place place_primary queue_insert_tail
    signal queue_init
single-Sound =
    Returns-Holds
      (task_create-Returns careful-HashLaws blink primary_exec none 0 refl refl blank-Sound)

unfoldable pub taken : Board careful
taken = record single { pqueue = [] }

pub taken-Sound : Sound (with_task 1 nothing) taken
unfolding taken single blank new_board task_create alloc_task create_context start_task load_task
    store_task task_add tboard_add_concurrent inc enter_task history_record_exec add_entry
    alloc_hist count_execution load_hist store_hist task_place place place_primary queue_insert_tail
    signal queue_init fetch pop_primary queue_peek_front queue_pop_head stailq_remove_head
taken-Sound = (fetch-Fetched single-Sound (λ a. refl) first (λ e. absurd (ground arith))).0

pub taken-blinking : taken.tasks 1 ≡ some blinking
unfolding taken single blank new_board task_create alloc_task create_context start_task load_task
    store_task task_add tboard_add_concurrent inc enter_task history_record_exec add_entry
    alloc_hist count_execution load_hist store_hist task_place place place_primary queue_insert_tail
    signal queue_init
taken-blinking = refl

taken-quiet : {a : Ptr} {w : Wait} → Asks taken.tasks taken.remotes a w → ⊥
unfolding taken single blank new_board task_create alloc_task create_context start_task load_task
    store_task task_add tboard_add_concurrent inc enter_task history_record_exec add_entry
    alloc_hist count_execution load_hist store_hist task_place place place_primary queue_insert_tail
    signal queue_init
taken-quiet (by_task b y at up) = elim (Bool-cases (1 == b)) [
  | inl here ↦ let same : blinking ≡ y = ground arith in absurd (cc)
  | inr other ↦ absurd (ground arith)
]
taken-quiet (by_remote r y at b up) = absurd (cc)

-- The coroutine at address 1 runs the task at address 1.
abbrev pub at_yield : Ptr → Role
at_yield = update (λ c. unused) 1 (serves 1 clear)

pub at_yield_clear : at_yield 1 ≡ serves 1 clear
at_yield_clear = refl

pub taken-Tenants : Tenants careful-CoroViews at_yield taken
unfolding careful-CoroViews taken single blank new_board task_create alloc_task create_context
    start_task load_task store_task task_add tboard_add_concurrent inc enter_task
    history_record_exec add_entry alloc_hist count_execution load_hist store_hist task_place place
    place_primary queue_insert_tail signal queue_init
taken-Tenants = record {
  filled = λ c. elim (Bool-cases (1 == c)) [
    | inl here ↦ let same : 1 ≡ c = ground arith in rw (← same) (refl, inl refl, refl)
    | inr other ↦ rw other tt
  ];
  kept = λ c a d e. absurd (ground arith);
  served = λ a x at. elim (Bool-cases (1 == a)) [
    | inl here ↦ let same : blinking ≡ x = ground arith in rw (← same) (inr (clear, ground arith))
    | inr other ↦ absurd (ground arith)
  ];
  asked = λ a w asks. absurd (taken-quiet asks);
  answers = λ r y at. absurd (cc);
  fresh_task = λ a le. ground arith;
  fresh_remote = λ r le. refl;
}

-- The task has asked a controller for `led`, and the answer has come.
unfoldable requested : Board careful
unfolding alloc_remote taken single blank new_board task_create alloc_task create_context start_task
    load_task store_task task_add tboard_add_concurrent inc enter_task history_record_exec add_entry
    alloc_hist count_execution load_hist store_hist task_place place place_primary queue_insert_tail
    signal queue_init
requested = after (alloc_remote led taken) taken

requested-Sound : Sound (with_remote 3 nothing) requested
unfolding requested alloc_remote taken single blank new_board task_create alloc_task create_context
    start_task load_task store_task task_add tboard_add_concurrent inc enter_task
    history_record_exec add_entry alloc_hist count_execution load_hist store_hist task_place place
    place_primary queue_insert_tail signal queue_init
requested-Sound =
    (Returns-Holds (
      alloc_remote-Returns taken-Sound {h' = with_remote 3 nothing} led refl (λ a. ground arith)
        (λ a. omega arith) refl refl)).0

unfoldable replied : Board careful
unfolding requested remote_task_place alloc_remote taken single blank new_board task_create
    alloc_task create_context start_task load_task store_task task_add tboard_add_concurrent inc
    enter_task history_record_exec add_entry alloc_hist count_execution load_hist store_hist
    task_place place place_primary queue_insert_tail signal queue_init
replied = after (remote_task_place (some 3) false requested) requested

replied-Sound : Sound nothing replied
unfolding replied requested remote_task_place alloc_remote taken single blank new_board task_create
    alloc_task create_context start_task load_task store_task task_add tboard_add_concurrent inc
    enter_task history_record_exec add_entry alloc_hist count_execution load_hist store_hist
    task_place place place_primary queue_insert_tail signal queue_init
replied-Sound =
    (Returns-Holds (
      remote_task_place-Returns {h' = nothing} requested-Sound 3 false (λ a. omega arith) refl refl
        refl refl)).0

led-Answerable : Answerable led
unfolding strtok skip_spaces until_space
led-Answerable = (codes "led", refl, (λ e. absurd (ground arith)), λ e. absurd (ground arith))

abbrev in_call : Ptr → Role
in_call = update (λ c. unused) 1 (serves 1 (asleep on_remote))

in_call_asleep : in_call 1 ≡ serves 1 (asleep on_remote)
in_call_asleep = refl

replied-Asks :
    {a : Ptr} {w : Wait}
    → Asks replied.tasks replied.remotes a w
    → (x : Task) × (replied.tasks a ≡ some x) × (in_call x.ctx ≡ serves a (asleep w))
unfolding replied requested remote_task_place alloc_remote taken single blank new_board task_create
    alloc_task create_context start_task load_task store_task task_add tboard_add_concurrent inc
    enter_task history_record_exec add_entry alloc_hist count_execution load_hist store_hist
    task_place place place_primary queue_insert_tail signal queue_init
replied-Asks (by_task b y at up) = elim (Bool-cases (1 == b)) [
  | inl here ↦ let same : blinking ≡ y = ground arith in absurd (cc)
  | inr other ↦ absurd (ground arith)
]
replied-Asks {a} (by_remote r y at b up) = elim (Bool-cases (3 == r)) [
  | inl here ↦
      let same : led ≡ y = ground arith in
      let caller : 1 ≡ a = cc in (blinking, rw (← caller) refl, rw (← caller) in_call_asleep)
  | inr other ↦ absurd (ground arith)
]

replied-Tenants : Tenants careful-CoroViews in_call replied
unfolding careful-CoroViews replied requested remote_task_place alloc_remote taken single blank
    new_board task_create alloc_task create_context start_task load_task store_task task_add
    tboard_add_concurrent inc enter_task history_record_exec add_entry alloc_hist count_execution
    load_hist store_hist task_place place place_primary queue_insert_tail signal queue_init
replied-Tenants = record {
  filled = λ c. elim (Bool-cases (1 == c)) [
    | inl here ↦ let same : 1 ≡ c = ground arith in rw (← same) (refl, refl, refl)
    | inr other ↦ rw other tt
  ];
  kept = λ c a d e. absurd (ground arith);
  served = λ a x at. elim (Bool-cases (1 == a)) [
    | inl here ↦
        let same : blinking ≡ x = ground arith in rw (← same) (inr (asleep on_remote, ground arith))
    | inr other ↦ absurd (ground arith)
  ];
  asked = λ a w asks. replied-Asks asks;
  answers = λ r y at. elim (Bool-cases (3 == r)) [
    | inl here ↦ let same : led ≡ y = ground arith in subst Answerable same led-Answerable
    | inr other ↦ absurd (ground arith)
  ];
  fresh_task = λ a le. ground arith;
  fresh_remote = λ r le. ground arith;
}

task_sequencer-InOrder_example :
    Returns
      (λ _ u.
        InOrder careful-HashLaws careful-CoroViews nothing Everyone in_call replied u
        × FrontAnswered careful-CoroViews replied (queue_peek_front replied.msg_recv) u)
      (task_sequencer replied)
task_sequencer-InOrder_example =
    task_sequencer-InOrder careful-HashLaws careful-CoroViews (λ a. refl) refl refl replied-Tenants
      replied-Sound

blank-Tenants : Tenants careful-CoroViews (λ c. unused) blank
unfolding blank new_board queue_init
blank-Tenants = new_board-Tenants careful-HashLaws careful-CoroViews 2 1 no_coroutines

abbrev order : Msg
order = record {
  type = task_exec;
  subtype = pos 0;
  has_side_effects = true;
  task = blinking;
  user_data = none;
  ud_allocd = 0;
}

task_create-InOrder_example :
    Returns
      (λ added u.
        InOrder careful-HashLaws careful-CoroViews nothing Everyone (λ c. unused) blank u
        × Tidy careful-CoroViews blank.coros added u)
      (task_create blink primary_exec none 0 blank)
task_create-InOrder_example =
    task_create-InOrder careful-HashLaws careful-CoroViews (λ a. refl) refl refl blank-Tenants blink
      primary_exec none 0 blank-Sound

-- The task has control, and issues a blocking task.
unfoldable at_work : Board careful
unfolding taken single blank new_board task_create alloc_task create_context start_task load_task
    store_task task_add tboard_add_concurrent inc enter_task history_record_exec add_entry
    alloc_hist count_execution load_hist store_hist task_place place place_primary queue_insert_tail
    signal queue_init
at_work = record taken { coros = resumed taken.coros (careful.mco_resume 1 taken.coros) }

abbrev has_control : Ptr → Role
has_control = update at_yield 1 (serves 1 active)

abbrev pub issuing_turn : Bool → Turn
issuing_turn done = blocks blink primary_exec none 0 ends

run_task-InOrder_example :
    Returns
      (λ _ u. Sound nothing u × ((roles' : Ptr → Role) × Tenants careful-CoroViews roles' u))
      ((begin 1 >> (take_turn no_call issuing_turn 1 >> finish first primary 1 3 5)) taken)
run_task-InOrder_example =
    run_task-InOrder careful-HashLaws careful-CoroViews (λ a. refl) refl refl taken-Tenants first
      primary 1 blinking 3 5 no_call issuing_turn tt taken-Sound taken-blinking
      (inr (clear, at_yield_clear, tt, refl)) (λ done. tt)

single-sequenced : task_sequencer single ≡ some (tt, single)
unfolding task_sequencer queue_peek_front single blank new_board task_create alloc_task
    create_context start_task load_task store_task task_add tboard_add_concurrent inc enter_task
    history_record_exec add_entry alloc_hist count_execution load_hist store_hist task_place place
    place_primary queue_insert_tail signal queue_init
single-sequenced = refl

single-fetched : fetch first single ≡ (some (1, primary), taken)
unfolding fetch pop_primary queue_peek_front queue_pop_head stailq_remove_head taken single blank
    new_board task_create alloc_task create_context start_task load_task store_task task_add
    tboard_add_concurrent inc enter_task history_record_exec add_entry alloc_hist count_execution
    load_hist store_hist task_place place place_primary queue_insert_tail signal queue_init
single-fetched = refl

single-waits : CallersWait single
unfolding single blank new_board task_create alloc_task create_context start_task load_task
    store_task task_add tboard_add_concurrent inc enter_task history_record_exec add_entry
    alloc_hist count_execution load_hist store_hist task_place place place_primary queue_insert_tail
    signal queue_init
single-waits = λ r x p at b up y there. absurd (cc)

taken-Resumes : Resumes nothing (take_turn no_call issuing_turn) 1 taken
taken-Resumes =
    take_turn-Resumes careful-HashLaws careful-CoroViews nothing (λ a. refl) refl refl taken-Tenants
      1 blinking no_call issuing_turn taken-Sound taken-blinking
      (inr (clear, at_yield_clear, tt, refl)) (λ done. tt)

board_of_result :
    (t u : Board careful)
    → ◌≡◌ {A = Option (Unit {0} × Board careful)} (some (tt, t)) (some (tt, u))
    → t ≡ u
board_of_result t u e = cc

taken_of_result :
    (p q : Ptr) (slot slot' : Slot) (t u : Board careful)
    → ◌≡◌ {A = Option (Ptr × Slot) × Board careful} (some (p, slot), t) (some (q, slot'), u)
    → (p ≡ q) × (t ≡ u)
taken_of_result p q slot slot' t u e =
    let fronts : ◌≡◌ {A = Option (Ptr × Slot)} (some (p, slot)) (some (q, slot')) =
      ap (λ z. z.0) e in
    (cc, ap (λ z. z.1) e)

single-Resumes :
    (u v : Board careful) (p : Ptr) (slot : Slot)
    → task_sequencer single ≡ some (tt, u)
    → fetch first u ≡ (some (p, slot), v)
    → Resumes nothing (take_turn no_call issuing_turn) p v
single-Resumes u v p slot e f =
    let same : single ≡ u = board_of_result single u (sym single-sequenced ∙ e) in
    let there : (some (1, primary), taken) ≡ (some (p, slot), v) =
      sym single-fetched ∙ ap (fetch first) same ∙ f in
    let (one, board) = taken_of_result 1 p primary slot taken v there in
    subst (λ w. Resumes nothing (take_turn no_call issuing_turn) p w) board
      (subst (λ a. Resumes nothing (take_turn no_call issuing_turn) a taken) one taken-Resumes)

executor_round-Returns_example :
    Returns
      (λ _ u. Sound nothing u)
      (executor_round (take_turn no_call issuing_turn) 3 5 first single)
executor_round-Returns_example =
    executor_round-Returns careful-HashLaws (views-CoroLaws careful-CoroViews) (λ a. refl) refl refl
      (take_turn no_call issuing_turn) first 3 5 single (λ e. absurd (ground arith)) single-waits
      single-Sound single-Resumes
