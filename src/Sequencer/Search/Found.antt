-- ===== src/Sequencer/Search/Found.antt =====
-- What the queue searches of src/sequencer.c find.
use mathlib.Core.Path.{subst}
use jam_tboard.Common.{
  sym, ℤ, eq_ℤ, eq_ℤ-sound, ◌≡◌, refl, ap, Bool, Bool-cases, false, Option, none, some, [], ◌∷◌,
  ◌++◌, ◌⊎◌, inl, inr, if◌then◌else◌,
}
use jam_tboard.Task.{Ptr, Task}
use jam_tboard.Queue.{Queue, queue_insert_head}
use jam_tboard.Sequencer.Search.{remove_queue_entry_by_id, remove_queue_entry_by_type}

-- No entry has the key.
abbrev pub Absent : (Ptr → ℤ) → ℤ → Queue Ptr → Type 0
Absent key k [] = Unit {0}
Absent key k (p ∷ q) = (eq_ℤ (key p) k ≡ false) × Absent key k q

-- The first entry with the key is taken out, or there is none and the queue is as before.
abbrev pub TakesFirst : (Ptr → ℤ) → ℤ → Queue Ptr → Option Ptr × Queue Ptr → Type 0
TakesFirst key k q found =
    (Absent key k q × (found ≡ (none, q)))
    ⊎ ((before : Queue Ptr) × (p : Ptr) × (after : Queue Ptr) × (q ≡ before ++ p ∷ after)
        × Absent key k before
        × (key p ≡ k)
        × (found ≡ (some p, before ++ after)))

TakesFirst-cons :
    (key : Ptr → ℤ) (k : ℤ) (head : Ptr) (q : Queue Ptr) (found : Option Ptr × Queue Ptr)
    → eq_ℤ (key head) k ≡ false
    → TakesFirst key k q found
    → TakesFirst key k (head ∷ q) (found.0, head ∷ found.1)
TakesFirst-cons key k head q found ne (inl (absent, e)) =
    inl ((ne, absent), ap (λ f. (f.0, head ∷ f.1)) e)
TakesFirst-cons key k head q found ne (inr (before, p, after, split, absent, is, e)) =
    inr (
      head ∷ before,
      p,
      after,
      ap (◌∷◌ head) split,
      (ne, absent),
      is,
      ap (λ f. (f.0, head ∷ f.1)) e,
    )

TakesFirst-step :
    (key : Ptr → ℤ) (k : ℤ) (head : Ptr) (q : Queue Ptr) (found : Option Ptr × Queue Ptr)
    → TakesFirst key k q found
    → TakesFirst key k
        (head ∷ q)
        (if eq_ℤ (key head) k then (some head, q) else (found.0, head ∷ found.1))
TakesFirst-step key k head q found rest = elim (Bool-cases (eq_ℤ (key head) k)) [
  | inl e ↦ subst Outcome (sym e) (inr ([], head, q, refl, tt, eq_ℤ-sound (key head) k e, refl))
  | inr e ↦ subst Outcome (sym e) (TakesFirst-cons key k head q found e rest)
]
  where
    Outcome : Bool → Type 0
    Outcome b =
        TakesFirst key k (head ∷ q) (if b then (some head, q) else (found.0, head ∷ found.1))

module _ (task_at : Ptr → Task) where
  -- The search by id takes the first entry with the id out of the queue and keeps the others
  -- in their order; without such an entry it finds none and the queue is as before.
  pub remove_by_id-TakesFirst :
      (q : Queue Ptr) (id : ℤ)
      → TakesFirst (λ p. (task_at p).id) id q (remove_queue_entry_by_id task_at q id)
  unfolding remove_queue_entry_by_id queue_insert_head
  remove_by_id-TakesFirst [] id = inl (tt, refl)
  remove_by_id-TakesFirst (head ∷ q) id =
      TakesFirst-step (λ p. (task_at p).id) id head q (remove_queue_entry_by_id task_at q id)
        (remove_by_id-TakesFirst q id)

  -- The search by type takes the first entry with the type out of the queue and keeps the
  -- others in their order; without such an entry it finds none and the queue is as before.
  pub remove_by_type-TakesFirst :
      (q : Queue Ptr) (type : ℤ)
      → TakesFirst (λ p. (task_at p).type) type q (remove_queue_entry_by_type task_at q type)
  unfolding remove_queue_entry_by_type queue_insert_head
  remove_by_type-TakesFirst [] type = inl (tt, refl)
  remove_by_type-TakesFirst (head ∷ q) type =
      TakesFirst-step (λ p. (task_at p).type) type head q
        (remove_queue_entry_by_type task_at q type) (remove_by_type-TakesFirst q type)
