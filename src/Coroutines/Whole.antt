-- ===== src/Coroutines/Whole.antt =====
-- The operations that hand tasks over keep both the memory sound and the coroutines in order.
use jam_tboard.Common.{ℕ, ◌≡◌, refl, Option, none, some, ℤ}
use jam_tboard.Task.{Ptr, Function, Task}
use jam_tboard.Env.{Env}
use jam_tboard.Env.Laws.{HashLaws}
use jam_tboard.Env.Views.{CoroViews, views-CoroLaws}
use jam_tboard.Board.{Board}
use jam_tboard.Create.{task_create}
use jam_tboard.Controller.{mqtt_othread}
use jam_tboard.Sequencer.{task_sequencer}
use jam_tboard.Executor.Fetch.{Exec, Slot}
use jam_tboard.Executor.{finish}
use jam_tboard.Lifecycle.{new_board}
use jam_tboard.Ownership.Defs.{short, Held, with_task, Sound, Returns, Returns-mono}
use jam_tboard.Ownership.Only.{Returns-Only}
use jam_tboard.Ownership.Yielding.{IsSlot}
use jam_tboard.Ownership.Creation.{task_create-Returns}
use jam_tboard.Ownership.Answering.{mqtt_othread-Returns}
use jam_tboard.Ownership.Responding.{task_sequencer-Returns}
use jam_tboard.Ownership.Rounds.{finish-Returns}
use jam_tboard.Coroutines.Defs.{Role, unused, Asks, by_task, by_remote, Tenants}
use jam_tboard.Coroutines.Steps.{Everyone, ButFor, Step, Step-Alike}
use jam_tboard.Coroutines.Creating.{task_create-Step}
use jam_tboard.Coroutines.Handing.{Handed, finish-Hands}
use jam_tboard.Queue.{queue_peek_front}
use jam_tboard.Coroutines.Replying.{FrontAnswered, task_sequencer-Answered}
use jam_tboard.Coroutines.Tidying.{Tidy, task_create-Tidy}
use jam_tboard.Coroutines.Answering.{mqtt_othread-Likes}
use jam_tboard.Coroutines.Responding.{task_sequencer-Step}
use jam_tboard.Coroutines.Likes.{Only-mono}
use jam_tboard.Coroutines.Stopping.{StoppedAt, StoppedAt-HasRun, Tenants-CallersWait, finish-Step}

module _ {env : Env} (hash : HashLaws env) (coro : CoroViews env) where
  -- The memory and the coroutines after a step.
  abbrev pub InOrder : Held → (Ptr → Type 0) → (Ptr → Role) → Board env → Board env → Type 0
  InOrder h others roles t u = Sound h u × Step coro others roles t u

  pub new_board-Tenants :
      (n : ℕ) (next : Ptr) (k : env.Coros) → Tenants coro (λ c. unused) (new_board env n next k)
  unfolding new_board
  new_board-Tenants n next k = record {
    filled = λ c. tt;
    kept = λ c a d e. absurd (cc);
    served = λ a x at. absurd (cc);
    asked = λ a w asks. absurd (nobody asks);
    answers = λ r y at. absurd (cc);
    fresh_task = λ a le. refl;
    fresh_remote = λ r le. refl;
  }
    where
      nobody : {a : Ptr} {w : _} → Asks (λ _. none) (λ _. none) a w → ⊥
      nobody (by_task b y at up) = absurd (cc)
      nobody (by_remote r y at b up) = absurd (cc)

  module _ {h : Held} (debts : (a : Ptr) → h.debt a ≡ 0) (settled : h.pending ≡ short 0)
      (en : h.new ≡ none) {roles : Ptr → Role} {t : Board env} (T : Tenants coro roles t) where
    -- From a sound memory in which each coroutine has a role as `Tenants` says, creating a
    -- task returns without a fault, the memory is sound, and each coroutine has a role
    -- again; if the result is false, each coroutine is as it was before, so no context is
    -- left behind. All tasks stay, with their contexts, and those that are not asleep where
    -- they were. Conditions: the laws of the hash table and, in more detail, of the
    -- coroutine library; no task in debt, no count pending and no entry missing.
    pub task_create-InOrder :
        (fn : Function) (type : ℤ) (args : Option Ptr) (size : ℕ)
        → Sound h t
        → Returns
            (λ added u. InOrder h Everyone roles t u × Tidy coro t.coros added u)
            (task_create fn type args size t)
    task_create-InOrder fn type args size s =
        Returns-Only
          (Returns-Only (task_create-Returns hash fn type args size settled en s)
            (task_create-Step coro T fn type args size))
          (task_create-Tidy coro fn type args size t)

    pub mqtt_othread-InOrder :
        Sound h t → Returns (λ _ u. InOrder h Everyone roles t u) (mqtt_othread t)
    mqtt_othread-InOrder s =
        Returns-Only (mqtt_othread-Returns s debts T.answers)
          (Only-mono (mqtt_othread-Likes t) λ _ u m. Step-Alike coro T m)

    -- From a sound memory in which each coroutine has a role as `Tenants` says, the task
    -- sequencer returns without a fault, the memory is sound, and each coroutine has a role
    -- again; if the first message that it looks at is a blocking remote task with a caller,
    -- the caller is live with this remote task's object in its coroutine's storage. All
    -- tasks stay, with their contexts, and those that are not asleep where they were.
    -- Conditions: the laws of the hash table and, in more detail, of the coroutine library;
    -- no task in debt, no count pending and no entry missing.
    pub task_sequencer-InOrder :
        Sound h t
        → Returns
            (λ _ u.
              InOrder h Everyone roles t u × FrontAnswered coro t (queue_peek_front t.msg_recv) u)
            (task_sequencer t)
    task_sequencer-InOrder s =
        Returns-Only
          (Returns-Only
            (Returns-mono
              (task_sequencer-Returns (views-CoroLaws coro) s debts (Tenants-CallersWait coro T))
              λ _ u k. k.0)
            (task_sequencer-Step coro s debts T))
          (task_sequencer-Answered coro T)

    pub finish-InOrder :
        (args : Exec) (slot : Slot) (p : Ptr) (x : Task) (start end : ℕ)
        → IsSlot t.sqs slot
        → Sound (with_task p h) t
        → t.tasks p ≡ some x
        → StoppedAt roles p x
        → Returns
            (λ _ u.
              InOrder h (ButFor p) roles t u
              × Handed coro (env.mco_status x.ctx t.coros) x.parent u)
            (finish args slot p start end t)
    finish-InOrder args slot p x start end ok s at stop =
        Returns-Only
          (Returns-Only
            (finish-Returns hash (views-CoroLaws coro) args slot p x start end debts settled en ok s
              at (StoppedAt-HasRun coro T p x at stop))
            (Only-mono (finish-Step coro h T args slot p x start end s debts at stop)
              λ _ u (roles', T', l, calm). (roles', T', l)))
          (finish-Hands coro T args slot p x start end at)
