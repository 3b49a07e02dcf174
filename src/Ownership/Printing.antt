-- ===== src/Ownership/Printing.antt =====
-- What `history_print_records` of src/history.c prints.
use mathlib.Core.List.{Memᴰ}
use mathlib.Core.Path.{subst}
use jam_tboard.Common.{
  ◌<◌, ◌≡◌, refl, some, List, [], ◌∷◌, count, arith, ◌==◌, inl, inr, Bool-cases, Option-cases,
}
use jam_tboard.Task.{Ptr, Task}
use jam_tboard.Env.{Env}
use jam_tboard.Board.{History, Board, load_hist}
use jam_tboard.History.{print_entries, history_print_records}
use jam_tboard.Ownership.Defs.{nothing, live, Sound, Returns, returns, Returns-bind, Returns-mono}

module _ {env : Env} where
  -- Each of these addresses has an entry, which is in the list.
  abbrev pub Printed : Board env → List Ptr → List (History env) → Type 0
  Printed t [] [] = Unit {0}
  Printed t (h ∷ hs) (e ∷ es) = (t.hists h ≡ some e) × Printed t hs es
  Printed t _ _ = ⊥

  Printed-Mem :
      (t : Board env) (hs : List Ptr) (es : List (History env)) (h : Ptr) (e : History env)
      → Printed t hs es
      → t.hists h ≡ some e
      → 0 < count h hs
      → Memᴰ e es
  unfolding count
  Printed-Mem t [] es h e p at lt = absurd (omega arith)
  Printed-Mem t (k ∷ hs) [] h e p at lt = absurd p
  Printed-Mem t (k ∷ hs) (d ∷ es) h e (is, p) at lt = elim (Bool-cases (k == h)) [
    | inl same ↦ let eq : e ≡ d = ground arith in subst (λ z. Memᴰ e (z ∷ es)) eq (Memᴰ.head refl)
    | inr other ↦ Memᴰ.tail (Printed-Mem t hs es h e p at (ground arith))
  ]

  print_entries-Printed :
      (hs : List Ptr) (t : Board env)
      → ((a : Ptr) → 0 < count a hs → live (t.hists a) ≡ 1)
      → Returns (λ es u. (u ≡ t) × Printed t hs es) (print_entries hs t)
  unfolding print_entries load_hist count
  print_entries-Printed [] t there = returns (refl, tt)
  print_entries-Printed (h ∷ hs) t there = elim (Option-cases (t.hists h)) [
    | inl e ↦ absurd (ground (arith, there h))
    | inr (x, e) ↦ rw e (
        Returns-bind (print_entries-Printed hs t (λ a lt. there a (omega arith)))
          λ es u (same, p). returns {a = x ∷ es} (same, (e, p)))
  ]

  -- Printing the records of a sound memory, in which no thread holds anything, returns
  -- without a fault and changes nothing, and the record of every live task is among those
  -- that are printed.
  pub history_print_records-Returns :
      (t : Board env)
      → Sound nothing t
      → Returns
          (λ es u.
            (u ≡ t)
            × ((a : Ptr) (x : Task)
                → t.tasks a ≡ some x
                → (h : Ptr) × (e : History env) × (x.hist ≡ some h)
                  × (t.hists h ≡ some e)
                  × Memᴰ e es))
          (history_print_records t)
  unfolding history_print_records
  history_print_records-Returns t s =
      Returns-mono
        (print_entries-Printed (env.hash_iter t.exec_hist) t (λ a lt. ground (arith, s.listed a)))
        λ es u (same, p). (
          same,
          λ a x at.
              let (h, e, is, there) = s.recorded a x at refl in
              (
                h,
                e,
                is,
                there,
                Printed-Mem t (env.hash_iter t.exec_hist) es h e p there
                    (ground (arith, s.listed h)),
              ),
        )
