-- ===== src/Coroutines/Answering.antt =====
-- The controller's side of src/dummy_MQTT.c leaves the coroutines alone.
use jam_tboard.Common.{
  ◌≡◌, refl, sym, ap, true, false, Option, some, arith, Bool-cases, Option-cases, inl, inr, [], ◌∷◌,
  Bytes, bytes_eq, codes,
}
use jam_tboard.Task.{Ptr, RemoteTask, task_completed}
use jam_tboard.Env.{Env}
use jam_tboard.Tokens.{strtok}
use jam_tboard.Queue.{Queue, queue_peek_front, queue_pop_head}
use jam_tboard.Board.{Board, and_then, expect, store_remote, signal}
use jam_tboard.Controller.{answer, mqtt_issue_remote_task, othread_section, mqtt_othread}
use jam_tboard.Ownership.Only.{only, Only-bind}
use jam_tboard.Coroutines.Frame.{request, Alike-trans}
use jam_tboard.Coroutines.Likes.{
  Only-mono, Alike-refl, Likes, Likes-bind, load_remote-Only, expect-Only, rewrite_remote,
}
use jam_tboard.Coroutines.Placing.{SameObjects-Alike, remote_task_place-Likes}

module _ {env : Env} where
  answer-Likes :
      (r : Ptr) (x : RemoteTask) (tok : Bytes) (t : Board env)
      → t.remotes r ≡ some x
      → Likes t (answer r x tok t)
  unfolding answer
  answer-Likes r x tok t at = elim (Bool-cases (bytes_eq tok (codes "print"))) [
    | inl print ↦ rw print (given x.payload)
    | inr other ↦ elim (Bool-cases (bytes_eq tok (codes "math"))) [
      | inl math ↦ rw (other, math) (given x.payload)
      | inr unknown ↦ rw (other, unknown) (only (Alike-refl t))
    ]
  ]
    where
      given :
          (o : Option Ptr)
          → Likes t (
              and_then (expect o t) λ _ u.
                and_then
                  (store_remote r (record x { status = task_completed }) u)
                  λ _ v. some (true, v))
      given o = Only-bind (expect-Only o t) λ d u (_, is).
          rw is (Likes-bind (rewrite_remote r _ t (ap request (sym at))) λ _ u. only (Alike-refl u))

  issue-Likes : (r : Ptr) (t : Board env) → Likes t (mqtt_issue_remote_task (some r) t)
  unfolding mqtt_issue_remote_task signal
  issue-Likes r t = Only-bind (load_remote-Only r t) λ x u (at, is). rw is (
      Only-bind (expect-Only (strtok (codes x.message)).0 t) λ tok v (_, same). rw same (
        Likes-bind (answer-Likes r x tok t at) λ counts w.
          Likes-bind (remote_task_place-Likes (some r) false w)
            λ _ w1. only (SameObjects-Alike (ground arith))))

  section-Likes : (t : Board env) (q : Queue Ptr) → t.msg_sent ≡ q → Likes t (othread_section t)
  unfolding othread_section queue_pop_head
  section-Likes t [] e = rw e (only (SameObjects-Alike (ground arith)))
  section-Likes t (r ∷ rest) e = rw e (
      Only-mono
        (Likes-bind (issue-Likes r (record t { msg_sent = rest })) λ counts u. only (Alike-refl u))
        λ _ u m. Alike-trans (SameObjects-Alike (ground arith)) m)

  pub mqtt_othread-Likes : (t : Board env) → Likes t (mqtt_othread t)
  unfolding mqtt_othread
  mqtt_othread-Likes t = elim (Option-cases (queue_peek_front t.msg_sent)) [
    | inl e ↦ rw (e, mqtt_othread) (only (Alike-refl t))
    | inr (r, e) ↦ rw (e, mqtt_othread) (section-Likes t t.msg_sent refl)
  ]
