-- ===== src/Queue/Order.antt =====
-- The order in which src/queue/queue.c hands entries out.
use jam_tboard.Common.{none, some, List, [], ◌∷◌}
use jam_tboard.Queue.{Queue, queue_insert_tail, queue_pop_head}

module _ {ℓ} {A : Type ℓ} where
  abbrev pub insert_all : List A → Queue A → Queue A
  insert_all [] q = q
  insert_all (x ∷ xs) q = insert_all xs (queue_insert_tail x q)

  -- Pops until the queue is empty, as far as `fuel` goes, and lists what came out.
  abbrev pub pop_all : List A → Queue A → List A
  pop_all [] q = []
  pop_all (_ ∷ fuel) q =
      let rest = pop_all fuel (queue_pop_head q).1 in
      elim (queue_pop_head q).0 [ none ↦ [] | some x ↦ x ∷ rest ]
