-- ===== src/Node/Requests/Pending.antt =====
-- runar-node/src/services/remote_service.rs: what a request to a remote service leaves among the
-- requests that wait for a response.
use rust_mono.Prelude.{
  ℕ, ◌≡◌, ◌⊎◌, inl, inr, refl, ◌∙◌, true, false, String, eq_refl, Option, none, some, List,
}
use rust_mono.Prelude.Result.{Result, ok, err}
use rust_mono.Prelude.HashMap as Map
use rust_mono.Prelude.HashMap.{HashMap, get-insert, get-remove}
use rust_mono.Routing.TopicPath.{TopicPath, new_action_topic}
use rust_mono.Registry.{RemoteService}
use rust_mono.Node.{
  NodeError, serialize_failed, no_transport, Wait, received, closed, elapsed, Node, Environment,
}
use rust_mono.Node.Requests.{
  remove_pending, open_request, finish_request, or_null, wait_for, after_send, send_request,
  create_action_handler,
}

get-remove_self : (k : String) (m : HashMap ℕ) → Map.get k (Map.remove k m) ≡ none
get-remove_self k m = get-remove k k m ∙ rw (eq_refl k) refl

get-insert_self : (k : String) (v : ℕ) (m : HashMap ℕ) → Map.get k (Map.insert k v m) ≡ some v
get-insert_self k v m = get-insert k k v m ∙ rw (eq_refl k) refl

module _ {F C FS V X W : Type 0} (env : Environment F C FS V X W) (id : String) where
  -- A wait ends with a response only after the one who sent it took the identifier out.
  abbrev pub TakesOut : Type 0
  TakesOut =
      (channel timeout : ℕ) (n : Node F C FS V X W) (response : Result (NodeError X) V)
      → (env.await_response channel timeout n).1 ≡ received response
      → Map.get id (env.await_response channel timeout n).0.pending_requests ≡ none

  finish_request-pending :
      (n : Node F C FS V X W) (outcome : Wait X V)
      → ((response : Result (NodeError X) V)
          → outcome ≡ received response
          → Map.get id n.pending_requests ≡ none)
      → Map.get id (finish_request id outcome n).0.pending_requests ≡ none
  unfolding remove_pending
  finish_request-pending n (received (ok v)) taken = taken (ok v) refl
  finish_request-pending n (received (err e)) taken = taken (err e) refl
  finish_request-pending n closed taken = get-remove_self id n.pending_requests
  finish_request-pending n elapsed taken = get-remove_self id n.pending_requests

  after_send-pending :
      TakesOut
      → (service : RemoteService) (channel : ℕ) (n : Node F C FS V X W)
        (sending : Result X (Unit {0}))
      → Map.get id (after_send env service id channel n sending).0.pending_requests ≡ none
  unfolding wait_for remove_pending
  after_send-pending takes service channel n (err e) = get-remove_self id n.pending_requests
  after_send-pending takes service channel n (ok u) =
      finish_request-pending _ _ (takes channel service.request_timeout_ms n)

module _ {F C FS V X W : Type 0} (env : Environment F C FS V X W) where
  -- When a remote handler whose request could be encoded returns, with a transport present, its
  -- identifier waits no more, whether the message was not sent, the wait was closed or timed out,
  -- or a response came; a response comes only after the identifier was taken out.
  pub create_action_handler-pending :
      (service : RemoteService) (action : String) (params : Option V) (n : Node F C FS V X W)
      (topic : TopicPath) (payload : List ℕ)
      → TakesOut env (env.new_uuid n.world).1
      → new_action_topic env.hasher service.service_topic action ≡ ok topic
      → env.serialize_value (or_null env.null params) ≡ ok payload
      → n.network_transport ≡ true
      → Map.get
          (env.new_uuid n.world).1
          (create_action_handler env service action params n).0.pending_requests
        ≡ none
  unfolding create_action_handler send_request open_request
  create_action_handler-pending service action params n topic payload takes made encoded there =
      simp (made, encoded, there)
        (after_send-pending env (env.new_uuid n.world).1 takes service n.next_channel _ _)

  -- When a remote handler fails because its request cannot be encoded, or can be but no transport
  -- is there, its identifier is still among those that wait, under the channel that was made for
  -- it.
  pub create_action_handler-pending_failed :
      (service : RemoteService) (action : String) (params : Option V) (n : Node F C FS V X W)
      (topic : TopicPath)
      → new_action_topic env.hasher service.service_topic action ≡ ok topic
      → ((e : X) × (env.serialize_value (or_null env.null params) ≡ err e))
        ⊎ ((payload : List ℕ) × (env.serialize_value (or_null env.null params) ≡ ok payload)
            × (n.network_transport ≡ false))
      → (e : NodeError X) × ((create_action_handler env service action params n).1 ≡ err e)
        × (Map.get
              (env.new_uuid n.world).1
              (create_action_handler env service action params n).0.pending_requests
            ≡ some n.next_channel)
  unfolding create_action_handler send_request open_request
  create_action_handler-pending_failed service action params n topic made (inl (e, failed)) = (
    serialize_failed e,
    simp (made, failed) refl,
    simp (made, failed)
        (get-insert_self (env.new_uuid n.world).1 n.next_channel n.pending_requests),
  )
  create_action_handler-pending_failed service action params n topic made
        (inr (payload, encoded, missing)) =
      (
        no_transport,
        simp (made, encoded, missing) refl,
        simp (made, encoded, missing)
            (get-insert_self (env.new_uuid n.world).1 n.next_channel n.pending_requests),
      )
