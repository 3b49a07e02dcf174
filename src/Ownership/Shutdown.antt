-- ===== src/Ownership/Shutdown.antt =====
-- What `tboard_destroy` of src/tboard.c frees.
use jam_tboard.Common.{
  ◌≡◌, refl, ap, ◌∙◌, none, List, [], ◌∷◌, count, arith, inl, inr, Option-cases,
}
use jam_tboard.Task.{Ptr}
use jam_tboard.Env.{Env}
use jam_tboard.Board.{Board, free_hist, signal}
use jam_tboard.History.{destroy_entries, history_destroy}
use jam_tboard.Lifecycle.{tboard_destroy}
use jam_tboard.Ownership.Defs.{
  nothing, Sound, Returns, returns, Returns-bind, Returns-mono, live, queued,
}
use jam_tboard.Ownership.Frame.{Sound-queues}
use jam_tboard.Ownership.Draining.{drain_queues-Sound, none-of-dead}

module _ {env : Env} where
  -- Every entry is freed once, as the table goes through each once.
  destroy_entries-Returns :
      (hs : List Ptr) (t : Board env)
      → ((a : Ptr) → count a hs ≡ live (t.hists a))
      → Returns
          (λ _ u. ((a : Ptr) → u.hists a ≡ none) × (u.tasks ≡ t.tasks) × (u.remotes ≡ t.remotes))
          (destroy_entries hs t)
  unfolding destroy_entries count free_hist
  destroy_entries-Returns [] t once =
      returns ((λ a. none-of-dead (t.hists a) (omega (arith, once a))), refl, refl)
  destroy_entries-Returns (h ∷ hs) t once = elim (Option-cases (t.hists h)) [
    | inl e ↦ absurd (ground (arith, once h))
    | inr (x, e) ↦ rw e (destroy_entries-Returns hs _ (λ a. ground (arith, once a, once h)))
  ]

  -- From a sound memory in which no thread holds anything, destroying the board, up to the
  -- free of the board itself, returns without a fault and without running out of fuel, and no
  -- task, no remote task and no history entry is allocated after it.
  pub tboard_destroy-Returns :
      (t : Board env)
      → Sound nothing t
      → Returns
          (λ _ u.
            ((p : Ptr) → u.tasks p ≡ none)
            × ((r : Ptr) → u.remotes r ≡ none)
            × ((h : Ptr) → u.hists h ≡ none))
          (tboard_destroy t)
  unfolding tboard_destroy history_destroy signal queued
  tboard_destroy-Returns t s =
      Returns-bind (drain_queues-Sound _ (Sound-queues s (ground arith) (λ a. refl) refl refl refl))
        λ _ u (sound, tasks, remotes).
          Returns-mono (destroy_entries-Returns _ _ sound.listed) λ _ v (hists, same, rsame).
            ((λ p. ap (λ f. f p) same ∙ tasks p), (λ r. ap (λ f. f r) rsame ∙ remotes r), hists)
