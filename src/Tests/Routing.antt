-- ===== src/Tests/Routing.antt =====
-- Routing to the queue of an account (messaging/message_router.py).
use teleautomation_messaging.Prelude.{
  ◌≡◌, ◌≢◌, refl, eq_iff, inr, String, false, none, some, [], ◌∷◌, get_elem?, lookup, arith,
}
use teleautomation_messaging.Messaging.Future.{waiting}
use teleautomation_messaging.Messaging.Queue.{Queue}
use teleautomation_messaging.Messaging.World.{World, ok, is_account}
use teleautomation_messaging.Messaging.Router.{send, route_and_wait, enqueue_dm_send}
use teleautomation_messaging.Messaging.Router.Isolation.{SameQueue, send-SameQueue}
use teleautomation_messaging.Messaging.Router.Stored.{route_and_wait-future}
use teleautomation_messaging.Messaging.Router.Operator.{NoReplyPending, enqueue_dm_send-no_reply}
use teleautomation_messaging.Tests.Data.{
  delaying, rejecting, reply, direct, full_queue, half_queue, idle_turn, world_of,
}

abbrev room_world : World
room_world = world_of delaying (half_queue delaying)

abbrev full_world : World
full_world = world_of rejecting (full_queue rejecting)

b≢a : ◌≢◌ {A = String} "b" "a"
b≢a e = ground (arith, eq_iff "b" "a")

send-SameQueue_example :
    SameQueue "b" room_world (send room_world (direct "t3") (idle_turn 101 ∷ [])).0
send-SameQueue_example = send-SameQueue room_world (direct "t3") (idle_turn 101 ∷ []) "b" b≢a

route_and_wait-future_example :
    let r = route_and_wait room_world (reply "t3") (idle_turn 101 ∷ []) in
    (r.1 ≡ ok 0)
    × ((q : Queue) × (lookup "a" r.0.queues ≡ some q) × (get_elem? q.futures 0 ≡ some waiting))
route_and_wait-future_example =
    route_and_wait-future room_world (half_queue delaying) (reply "t3") (idle_turn 101) []
      (unfold is_account in refl) (unfold lookup in refl) refl (omega arith)

enqueue_dm_send-no_reply_example :
    NoReplyPending "a" 7
      (enqueue_dm_send room_world "a" 7 "hello" false "" none none "t3" (idle_turn 101 ∷ [])).0
enqueue_dm_send-no_reply_example =
    enqueue_dm_send-no_reply room_world (half_queue delaying) "a" 7 "hello" false "" none none "t3"
      (idle_turn 101) [] (inr (inr refl)) (unfold is_account in refl) (unfold lookup in refl) refl
      (omega arith)
