-- ===== src/Ownership/Messages.antt =====
-- `msg_processor` of src/processor.c keeps the memory sound.
use jam_tboard.Common.{
  ◌≡◌, refl, ap, ◌∙◌, none, some, Bool, true, false, arith, eq_ℤ, if◌then◌else◌, Bool-cases, inl,
  inr,
}
use jam_tboard.Task.{Ptr, Task, primary_exec}
use jam_tboard.Env.{Env}
use jam_tboard.Env.Laws.{HashLaws}
use jam_tboard.Board.{Board, pure, load_task}
use jam_tboard.Create.{discard_task, destroy_context}
use jam_tboard.Processor.{
  Msg, task_exec, task_schedule, message_task, context_or_null, bid_processing, exec_message,
  msg_processor,
}
use jam_tboard.Ownership.Defs.{short, Held, Sound, Returns, returns, Returns-bind}
use jam_tboard.Ownership.Frame.{coros-Sound}
use jam_tboard.Ownership.Tasks.{store_task-Returns}
use jam_tboard.Ownership.Creation.{
  Added, alloc_root-Returns, create_context-Returns, task_add-Returns, discard-Returns,
}

module _ {env : Env} where
  settle :
      (h : Held) (u : Board env) (p c : Ptr) (x : Task) (added : Bool)
      → h.pending ≡ short 0
      → h.new ≡ none
      → x.parent ≡ none
      → Added h p x added u
      → Returns (λ _ v. Sound h v) ((if added then pure true else discard_task c p) u)
  unfolding discard_task destroy_context
  settle h u p c x true ep en up r = returns r
  settle h u p c x false ep en up r =
      Returns-bind (discard-Returns p x ep en up (coros-Sound _ r.0) r.1) (λ _ v z. returns z)

  exec_message-Returns :
      HashLaws env
      → {h : Held} {t : Board env} (msg : Msg) → h.pending ≡ short 0
      → h.new ≡ none
      → Sound h t
      → Returns (λ _ u. Sound h u) (exec_message msg t)
  unfolding exec_message load_task
  exec_message-Returns hash msg ep en s =
      let x : Task = message_task env msg in
      Returns-bind (alloc_root-Returns x ep en refl s) λ p u (s1, at).
        Returns-bind (create_context-Returns x.desc s1) λ c v (s2, same).
          let y : Task = record x { ctx = context_or_null c } in
          let there : v.tasks p ≡ some x = ap (λ f. f p) same ∙ at in
          rw there (
            Returns-bind (store_task-Returns s2 y there refl (λ e. absurd (ground arith)))
              λ _ w (s3, made).
                Returns-bind
                  (task_add-Returns hash p y ep en s3 (ap (λ z. z.tasks p) made ∙ ground arith))
                  λ added z r. settle _ z p (context_or_null c) y added ep en refl r)

  -- Processing a message of any type returns without a fault and keeps the memory sound, also
  -- where the board is full or the context is not made. Conditions: the law of the hash
  -- table, no count pending and no entry missing before.
  pub msg_processor-Returns :
      HashLaws env
      → {h : Held} {t : Board env} (msg : Msg) → h.pending ≡ short 0
      → h.new ≡ none
      → Sound h t
      → Returns (λ _ u. Sound h u) (msg_processor msg t)
  unfolding msg_processor bid_processing
  msg_processor-Returns hash msg ep en s = elim (Bool-cases (eq_ℤ msg.type task_exec)) [
    | inl e ↦ rw e (exec_message-Returns hash msg ep en s)
    | inr e ↦ elim (Bool-cases (eq_ℤ msg.type task_schedule)) [
      | inl f ↦ elim (Bool-cases (eq_ℤ msg.subtype primary_exec)) [
        | inl g ↦ rw (e, f, g) (returns s)
        | inr g ↦ rw (e, f, g) (returns s)
      ]
      | inr f ↦ rw (e, f) (returns s)
    ]
  ]
