-- ===== src/Examples/Machine.antt =====
-- A coroutine library whose coroutines store at most one struct, and a hash table that is a list.
use Prim.Native.String.{String}
use text.Mathlib.Text.{◌==◌ as str_eq}
use jam_tboard.Common.{
  count, ℕ, suc, ◌+◌, ◌-◌, ◌*◌, ◌/◌, ◌≡◌, ◌⊎◌, refl, inl, inr, fun_ext, Bool, true, false, Option,
  none, ◌||◌, ◌&&◌, some, List, [], ◌∷◌, ◌==◌, ℤ, pos, negsuc, update, if◌then◌else◌, arith,
}
use jam_tboard.Task.{
  Ptr, Desc, Task, RemoteTask, CoroState, Stored, dead, suspended, running, task_bytes,
  remote_bytes,
}
use jam_tboard.Env.{Env}
use jam_tboard.Env.Laws.{HashLaws, CoroLaws}
use jam_tboard.Env.Views.{Cell, bytes_of, CoroViews}

pub record Machine : Type 0 where
  pub fresh : Ptr
  pub states : Ptr → CoroState
  pub stored : Ptr → Option Stored
  pub made : Ptr → Bool

abbrev pub no_coroutines : Machine
no_coroutines = record { fresh = 1; states = λ _. dead; stored = λ _. none; made = λ _. false }

abbrev pub create : Desc → Machine → Option (Ptr × Machine)
create desc k =
    if (k.fresh == 0) || k.made k.fresh
    then none
    else some (
      k.fresh,
      record {
        fresh = suc k.fresh;
        states = update k.states k.fresh suspended;
        stored = update k.stored k.fresh none;
        made = update k.made k.fresh true;
      },
    )

-- Whether there is no coroutine, where this is told apart.
abbrev is_null : Bool → Ptr → Machine → Bool
is_null strict c k = strict && ((c == 0) || (if k.made c then false else true))

abbrev put : Bool → Ptr → Stored → Machine → Option Stored → Option Machine
put strict c item k none =
    if is_null strict c k then none else some (record k { stored = update k.stored c (some item) })
put strict c item k (some _) = none

abbrev take : Ptr → Machine → Machine
take c k = record k { stored = update k.stored c none }

abbrev destroy : Ptr → Machine → Machine
destroy c k = if c == 0 then k else record k {
  states = update k.states c dead;
  stored = update k.stored c none;
  made = update k.made c false;
}

abbrev state : Bool → Machine → Ptr → CoroState
state strict k c = if is_null strict c k then dead else k.states c

abbrev wake : Ptr → Machine → CoroState → Option Machine
wake c k suspended = some (record k { states = update k.states c running })
wake c k _ = none

abbrev task_in : Ptr → Machine → Option Stored → Option (Task × Machine)
task_in c k (some (task_bytes x)) = some (x, take c k)
task_in c k _ = none

abbrev remote_in : Ptr → Machine → Option Stored → Option (RemoteTask × Machine)
remote_in c k (some (remote_bytes x)) = some (x, take c k)
remote_in c k _ = none

-- Without a coroutine there is no storage.
abbrev storage : Bool → Ptr → Machine → Option Stored
storage strict c k = if is_null strict c k then none else k.stored c

abbrev size : Option Stored → ℕ
size none = 0
size (some (task_bytes _)) = 128
size (some (remote_bytes _)) = 296

abbrev pub find : List (String × Ptr) → String → Option Ptr
find [] other = none
find ((name, p) ∷ table) other = if str_eq name other then some p else find table other

abbrev drop : List (String × Ptr) → Ptr → List (String × Ptr)
drop [] p = []
drop ((name, q) ∷ table) p = if q == p then table else (name, q) ∷ drop table p

abbrev entries : List (String × Ptr) → List Ptr
entries [] = []
entries ((name, p) ∷ table) = p ∷ entries table

-- The number that digits stand for.
abbrev decimal : ℕ → List ℕ → ℕ
decimal n [] = n
decimal n (c ∷ s) = decimal (n * 10 + (c - b'0')) s

abbrev natural : ℤ → ℕ
natural (pos n) = n
natural (negsuc n) = 0

abbrev pub machine_of : Bool → Env
machine_of strict = record {
  Coros = Machine;
  mco_desc_init = λ f size. record { func = f; user_data = none };
  mco_create = create;
  mco_destroy = destroy;
  mco_status = λ c k. state strict k c;
  mco_resume = λ c k. wake c k (state strict k c);
  mco_yield = λ c k. record k { states = update k.states c suspended };
  mco_return = λ c k. record k { states = update k.states c dead };
  mco_push = λ c item k. put strict c item k (storage strict c k);
  mco_pop_task = λ c k. task_in c k (storage strict c k);
  mco_pop_remote = λ c k. remote_in c k (storage strict c k);
  mco_get_bytes_stored = λ c k. size (storage strict c k);
  sizeof_task = 128;
  sizeof_remote_task = 296;
  Table = List (String × Ptr);
  hash_empty = [];
  hash_find_str = find;
  hash_add_keyptr = λ table name p. (name, p) ∷ table;
  hash_del = drop;
  hash_iter = entries;
  rand = λ n. n;
  Real = ℕ;
  real = natural;
  real_add = ◌+◌;
  real_mul = ◌*◌;
  real_div = ◌/◌;
  real_sub = ◌-◌;
  atof = decimal 0;
}

-- NULL is not told apart from an address, nor is an address without a coroutine.
abbrev pub machine : Env
machine = machine_of false

abbrev pub careful : Env
careful = machine_of true

find-cons :
    (table : List (String × Ptr)) (p h : Ptr) (b : Bool) (found : Option Ptr)
    → (if b then some p else found) ≡ some h
    → (h ≡ p) ⊎ (found ≡ some h)
find-cons table p h true found e = inl (cc)
find-cons table p h false found e = inr e

machine_of-HashLaws : (strict : Bool) → HashLaws (machine_of strict)
unfolding count
machine_of-HashLaws strict = record {
  find-empty = λ name. refl;
  iter-empty = refl;
  iter-add = λ table name p a new. omega arith;
  find-add = λ table name other p h e. find-cons table p h (str_eq name other) (find table other) e;
}

task_in-some :
    (c : Ptr) (k : Machine) (o : Option Stored)
    → size o ≡ 128
    → (x : Task) × (k' : Machine) × (task_in c k o ≡ some (x, k'))
task_in-some c k none e = absurd (omega arith)
task_in-some c k (some (task_bytes x)) e = (x, _, refl)
task_in-some c k (some (remote_bytes x)) e = absurd (omega arith)

remote_in-some :
    (c : Ptr) (k : Machine) (o : Option Stored)
    → size o ≡ 296
    → (x : RemoteTask) × (k' : Machine) × (remote_in c k o ≡ some (x, k'))
remote_in-some c k none e = absurd (omega arith)
remote_in-some c k (some (task_bytes x)) e = absurd (omega arith)
remote_in-some c k (some (remote_bytes x)) e = (x, _, refl)

put-task :
    (c : Ptr) (x : Task) (k k' : Machine) (o : Option Stored)
    → put false c (task_bytes x) k o ≡ some k'
    → (size (k'.stored c) ≡ 128) × ((k'' : Machine) × (task_in c k' (k'.stored c) ≡ some (x, k'')))
put-task c x k k' none e =
    let at : k'.stored c ≡ some (task_bytes x) = ground arith in rw at (refl, (_, refl))
put-task c x k k' (some o) e = absurd (cc)

put-remote :
    (c : Ptr) (x : RemoteTask) (k k' : Machine) (o : Option Stored)
    → put false c (remote_bytes x) k o ≡ some k'
    → (size (k'.stored c) ≡ 296)
      × ((k'' : Machine) × (remote_in c k' (k'.stored c) ≡ some (x, k'')))
put-remote c x k k' none e =
    let at : k'.stored c ≡ some (remote_bytes x) = ground arith in rw at (refl, (_, refl))
put-remote c x k k' (some o) e = absurd (cc)

create-stored :
    (c p : Ptr) (d : Desc) (k k' : Machine)
    → create d k ≡ some (p, k')
    → size (k.stored c) ≡ 0
    → size (k'.stored c) ≡ 0
create-stored c p d k k' e empty = ground arith

pub machine-CoroLaws : CoroLaws machine
machine-CoroLaws = record {
  pop_task_some = λ c k e. task_in-some c k (k.stored c) e;
  pop_remote_some = λ c k e. remote_in-some c k (k.stored c) e;
  create_empty = create-stored;
  pushed_task = λ c x k k' empty e. put-task c x k k' (k.stored c) e;
  pushed_remote = λ c x k k' empty e. put-remote c x k k' (k.stored c) e;
}

pub machine-HashLaws : HashLaws machine
machine-HashLaws = machine_of-HashLaws false

pub careful-HashLaws : HashLaws careful
careful-HashLaws = machine_of-HashLaws true

abbrev cell : Machine → Ptr → Cell
cell k c = record {
  made = if c == 0 then false else k.made c;
  state = state true k c;
  stored = storage true c k;
}

pub bytes-cell : (o : Option Stored) → size o ≡ bytes_of careful o
bytes-cell none = refl
bytes-cell (some (task_bytes x)) = refl
bytes-cell (some (remote_bytes x)) = refl

-- A push that succeeds is one to a coroutine.
abbrev stored_put :
    (c : Ptr) (item : Stored) (k k' : Machine)
    → put true c item k (storage true c k) ≡ some k'
    → storage true c k' ≡ some item
stored_put c item k k' e = ground arith

unfoldable pub careful-CoroViews : CoroViews careful
careful-CoroViews = record {
  view = cell;
  null_view = λ k. refl;
  unmade = λ c k e. ground arith;
  status = λ c k. ground arith;
  bytes = λ c k. bytes-cell (storage true c k);
  task_size = omega arith;
  remote_size = omega arith;
  sizes_differ = λ e. absurd (omega arith);
  create = λ d p k k' e. (ground arith, ground arith, fun_ext λ a. ground arith);
  destroy = λ c k n s. fun_ext λ a. ground arith;
  destroy_null = λ k. refl;
  push = λ c item k n e. (
    record k { stored = update k.stored c (some item) },
    ground arith,
    fun_ext λ a. ground arith,
  );
  pushed = λ c item k k' n e. stored_put c item k k' e;
  pop_task = λ c x k e. (take c k, ground arith, fun_ext λ a. ground arith);
  pop_remote = λ c x k e. (take c k, ground arith, fun_ext λ a. ground arith);
  resume = λ c k e.
      (record k { states = update k.states c running }, ground arith, fun_ext λ a. ground arith);
  resume_dead = λ c k e. ground arith;
  yield = λ c k n s. fun_ext λ a. ground arith;
  end = λ c k n s. fun_ext λ a. ground arith;
}
