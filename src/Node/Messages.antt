-- ===== src/Node/Messages.antt =====
-- runar-node/src/node.rs: messages from the network.
pub mod Replies
use rust_mono.Prelude.{
  ℕ, ◌+◌, Bool, true, false, not, String, ◌==◌, Option, none, some, List, [], ◌∷◌, ◌++◌, is_empty,
  if◌then◌else◌,
}
use rust_mono.Prelude.Result.{Result, ok, err, and_then}
use rust_mono.Prelude.HashMap as Map
use rust_mono.Prelude.Text.{empty}
use rust_mono.Routing.TopicPath.{TopicPath, Fallible}
use rust_mono.Routing.TopicPath as TopicPath
use rust_mono.Registry.Subscriptions.{get_local_event_subscribers}
use rust_mono.Network.{NetworkMessage, NetworkMessagePayloadItem}
use rust_mono.Peers.{PeerId}
use rust_mono.Node.{NodeError, no_payloads, deserialize_failed, serialize_failed, Node, Environment}
use rust_mono.Node.Requests.{local_request, remove_pending}
use rust_mono.Node.Events.{notify_all}

-- The payload of a request that is null is none.
abbrev pub unless {ℓ} : {V : Type ℓ} → Bool → V → Option V
unless null v = if null then none else some v

unfoldable pub reply :
    PeerId → NetworkMessage → String → List ℕ → NetworkMessagePayloadItem → NetworkMessage
reply self message message_type payload item = record {
  source = self;
  destination = message.source;
  message_type = message_type;
  payloads =
      (record { path = item.path; value_bytes = payload; correlation_id = item.correlation_id })
      ∷ [];
}

module _ {F C FS V X W : Type 0} (env : Environment F C FS V X W) where
  -- A failure to send, and a transport that is missing, are only logged.
  unfoldable pub send_reply : NetworkMessage → Node F C FS V X W → Node F C FS V X W
  send_reply message n =
      let (world, sending) = env.send_message message n.world in
      if n.network_transport then record n { world = world } else n

  abbrev pub send_answer :
      NetworkMessage
      → String
      → NetworkMessagePayloadItem
      → Node F C FS V X W
      → Result X (List ℕ)
      → Node F C FS V X W × Result (NodeError X) (Unit {0})
  send_answer message message_type item n (err e) = (n, err (serialize_failed e))
  send_answer message message_type item n (ok payload) =
      (send_reply (reply n.peer_id message message_type payload item) n, ok tt)

  -- The answer to one payload, from what the local request came to.
  abbrev pub answer :
      NetworkMessage
      → NetworkMessagePayloadItem
      → Node F C FS V X W × Result (NodeError X) V
      → Node F C FS V X W × Result (NodeError X) (Unit {0})
  answer message item (n, ok response) =
      send_answer message "Response" item n (env.serialize_value response)
  answer message item (n, err e) =
      send_answer message "Error" item n (env.serialize_value (env.error_value e))

  abbrev pub request_payload :
      NetworkMessage
      → NetworkMessagePayloadItem
      → Node F C FS V X W
      → Result X V
      → Node F C FS V X W × Result (NodeError X) (Unit {0})
  request_payload message item n (err e) = (n, err (deserialize_failed e))
  request_payload message item n (ok params) =
      answer message item (local_request env item.path (unless (env.is_null params) params) n)

  -- The loop over the payloads; the first error ends it.
  unfoldable pub request_payloads :
      NetworkMessage
      → List NetworkMessagePayloadItem
      → Node F C FS V X W
      → Node F C FS V X W × Result (NodeError X) (Unit {0})
  request_payloads message [] n = (n, ok tt)
  request_payloads message (item ∷ items) n =
      and_then (request_payload message item n (env.deserialize_value item.value_bytes))
        (λ _. request_payloads message items)

  unfoldable pub handle_network_request :
      NetworkMessage → Node F C FS V X W → Node F C FS V X W × Result (NodeError X) (Unit {0})
  unfolding request_payloads
  handle_network_request message n =
      if n.supports_networking
      then (if is_empty message.payloads
          then (n, err no_payloads)
          else request_payloads message message.payloads n)
      else (n, ok tt)

  -- `deserialize_value`, an error of which is sent to the one who waits.
  abbrev pub decoded : Result X V → Result (NodeError X) V
  decoded (err e) = err (deserialize_failed e)
  decoded (ok v) = ok v

  abbrev pub deliver : NetworkMessagePayloadItem → Node F C FS V X W → Option ℕ → Node F C FS V X W
  deliver item n none = n
  deliver item n (some channel) =
      let after = remove_pending item.correlation_id n in
      record after {
        sent = (channel, decoded (env.deserialize_value item.value_bytes)) ∷ after.sent;
      }

  unfoldable pub response_payloads :
      List NetworkMessagePayloadItem → Node F C FS V X W → Node F C FS V X W
  response_payloads [] n = n
  response_payloads (item ∷ items) n =
      response_payloads items (deliver item n (Map.get item.correlation_id n.pending_requests))

  unfoldable pub handle_network_response :
      NetworkMessage → Node F C FS V X W → Node F C FS V X W × Result (NodeError X) (Unit {0})
  unfolding response_payloads
  handle_network_response message n =
      if n.supports_networking then (response_payloads message.payloads n, ok tt) else (n, ok tt)

  abbrev pub event_at :
      NetworkMessagePayloadItem
      → Node F C FS V X W
      → Fallible TopicPath
      → Result X V
      → Node F C FS V X W
  event_at item n (err e) payload = n
  event_at item n (ok topic) (err e) = n
  event_at item n (ok topic) (ok payload) =
      notify_all env topic (unless (env.is_null payload) payload)
        (get_local_event_subscribers n.service_registry topic) n

  unfoldable pub event_payloads :
      List NetworkMessagePayloadItem → Node F C FS V X W → Node F C FS V X W
  event_payloads [] n = n
  event_payloads (item ∷ items) n = event_payloads items (
      if empty item.path
      then n
      else event_at item n (TopicPath.new env.hasher item.path n.network_id)
          (env.deserialize_value item.value_bytes))

  unfoldable pub handle_network_event :
      NetworkMessage → Node F C FS V X W → Node F C FS V X W × Result (NodeError X) (Unit {0})
  unfolding event_payloads
  handle_network_event message n =
      if n.supports_networking then (event_payloads message.payloads n, ok tt) else (n, ok tt)

  unfoldable pub handle_network_message :
      NetworkMessage → Node F C FS V X W → Node F C FS V X W × Result (NodeError X) (Unit {0})
  unfolding handle_network_request handle_network_response handle_network_event
  handle_network_message message n =
      if not n.supports_networking
      then (n, ok tt)
      else if message.message_type == "Request"
      then handle_network_request message n
      else if message.message_type == "Response"
      then handle_network_response message n
      else if message.message_type == "Event"
      then handle_network_event message n
      else (n, ok tt)
