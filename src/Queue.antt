-- ===== src/Queue.antt =====
-- src/queue/queue.c over the tail queues of <sys/queue.h>: a queue is the list of what its
-- entries point to, front first.
pub mod Order
use jam_tboard.Common.{Option, none, some, List, [], ◌∷◌, ◌++◌}

abbrev pub Queue {ℓ} : Type ℓ → Type ℓ
Queue A = List A

module _ {ℓ} {A : Type ℓ} where
  -- `queue_create` followed by `queue_init`.
  unfoldable pub queue_init : Queue A
  queue_init = []

  unfoldable pub queue_insert_head : A → Queue A → Queue A
  queue_insert_head e q = e ∷ q

  unfoldable pub queue_insert_tail : A → Queue A → Queue A
  queue_insert_tail e q = q ++ e ∷ []

  unfoldable pub queue_peek_front : Queue A → Option A
  queue_peek_front [] = none
  queue_peek_front (e ∷ q) = some e

  -- `STAILQ_REMOVE_HEAD`, which the program reaches only with an entry at the front.
  unfoldable pub stailq_remove_head : Queue A → Queue A
  stailq_remove_head [] = []
  stailq_remove_head (e ∷ q) = q

  unfoldable pub queue_pop_head : Queue A → Option A × Queue A
  unfolding queue_peek_front stailq_remove_head
  queue_pop_head q = elim (queue_peek_front q) [
    | none ↦ (none, q)
    | some elem ↦ (some elem, stailq_remove_head q)
  ]
