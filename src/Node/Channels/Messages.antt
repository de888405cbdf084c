-- ===== src/Node/Channels/Messages.antt =====
-- runar-node/src/node.rs: messages from the network use every oneshot channel once.
use rust_mono.Prelude.{
  ℕ, ◌≡◌, refl, String, ◌==◌, Option, none, some, List, [], ◌∷◌, is_empty, if_both, not, arith,
}
use rust_mono.Prelude.Result.{Result, ok, err, and_then}
use rust_mono.Prelude.HashMap as Map
use rust_mono.Prelude.Text.{empty}
use rust_mono.Routing.TopicPath.{TopicPath, Fallible}
use rust_mono.Registry.Subscriptions.{get_local_event_subscribers}
use rust_mono.Network.{NetworkMessage, NetworkMessagePayloadItem}
use rust_mono.Node.{NodeError, Node, Environment}
use rust_mono.Node.Requests.{remove_pending}
use rust_mono.Node.Events.{notify_all}
use rust_mono.Node.Messages.{
  unless, send_reply, send_answer, answer, request_payload, request_payloads,
  handle_network_request, deliver, response_payloads, handle_network_response, event_at,
  event_payloads, handle_network_event, handle_network_message,
}
use rust_mono.Node.Channels.{IsOneshot, waiting-remove_found}
use rust_mono.Node.Channels.Kept.{KeepsChannels, local_request-IsOneshot}

module _ {F C FS V X W : Type 0} (env : Environment F C FS V X W) (keeps : KeepsChannels env) where
  open keeps use {notifies}

  notify_all-IsOneshot :
      (topic : TopicPath) (payload : Option V) (subscribers : List (String × C))
      (n : Node F C FS V X W)
      → IsOneshot n
      → IsOneshot (notify_all env topic payload subscribers n)
  unfolding notify_all
  notify_all-IsOneshot topic payload [] n h = h
  notify_all-IsOneshot topic payload ((id, callback) ∷ rest) n h =
      notify_all-IsOneshot topic payload rest _ (notifies callback topic payload n h)

  send_answer-IsOneshot :
      (message : NetworkMessage) (kind : String) (item : NetworkMessagePayloadItem)
      (n : Node F C FS V X W) (payload : Result X (List ℕ))
      → IsOneshot n
      → IsOneshot (send_answer env message kind item n payload).0
  unfolding send_reply
  send_answer-IsOneshot message kind item n (err e) h = h
  send_answer-IsOneshot message kind item n (ok payload) h =
      if_both (λ (m : Node F C FS V X W). IsOneshot m) n.network_transport _ n h h

  answer-IsOneshot :
      (message : NetworkMessage) (item : NetworkMessagePayloadItem)
      (r : Node F C FS V X W × Result (NodeError X) V)
      → IsOneshot r.0
      → IsOneshot (answer env message item r).0
  answer-IsOneshot message item (n, ok v) h =
      send_answer-IsOneshot message "Response" item n (env.serialize_value v) h
  answer-IsOneshot message item (n, err e) h =
      send_answer-IsOneshot message "Error" item n (env.serialize_value (env.error_value e)) h

  request_payload-IsOneshot :
      (message : NetworkMessage) (item : NetworkMessagePayloadItem) (n : Node F C FS V X W)
      (params : Result X V)
      → IsOneshot n
      → IsOneshot (request_payload env message item n params).0
  request_payload-IsOneshot message item n (err e) h = h
  request_payload-IsOneshot message item n (ok params) h =
      answer-IsOneshot message item _
        (local_request-IsOneshot env keeps item.path (unless (env.is_null params) params) n h)

  and_then-IsOneshot :
      (r : Node F C FS V X W × Result (NodeError X) (Unit {0}))
      (next : Node F C FS V X W → Node F C FS V X W × Result (NodeError X) (Unit {0}))
      → IsOneshot r.0
      → ((n : Node F C FS V X W) → IsOneshot n → IsOneshot (next n).0)
      → IsOneshot (and_then r (λ _. next)).0
  and_then-IsOneshot (n, err e) next h keep = h
  and_then-IsOneshot (n, ok u) next h keep = keep n h

  request_payloads-IsOneshot :
      (message : NetworkMessage) (items : List NetworkMessagePayloadItem) (n : Node F C FS V X W)
      → IsOneshot n
      → IsOneshot (request_payloads env message items n).0
  unfolding request_payloads
  request_payloads-IsOneshot message [] n h = h
  request_payloads-IsOneshot message (item ∷ items) n h =
      and_then-IsOneshot _ (request_payloads env message items)
        (request_payload-IsOneshot message item n (env.deserialize_value item.value_bytes) h)
        (request_payloads-IsOneshot message items)

  deliver-IsOneshot :
      (item : NetworkMessagePayloadItem) (n : Node F C FS V X W) (found : Option ℕ)
      → Map.get item.correlation_id n.pending_requests ≡ found
      → IsOneshot n
      → IsOneshot (deliver env item n found)
  unfolding remove_pending
  deliver-IsOneshot item n none e h = h
  deliver-IsOneshot item n (some channel) e h = λ c.
      omega (arith, h c, waiting-remove_found c channel item.correlation_id n.pending_requests e)

  response_payloads-IsOneshot :
      (items : List NetworkMessagePayloadItem) (n : Node F C FS V X W)
      → IsOneshot n
      → IsOneshot (response_payloads env items n)
  unfolding response_payloads
  response_payloads-IsOneshot [] n h = h
  response_payloads-IsOneshot (item ∷ items) n h =
      response_payloads-IsOneshot items _ (deliver-IsOneshot item n _ refl h)

  event_at-IsOneshot :
      (item : NetworkMessagePayloadItem) (n : Node F C FS V X W) (t : Fallible TopicPath)
      (payload : Result X V)
      → IsOneshot n
      → IsOneshot (event_at env item n t payload)
  event_at-IsOneshot item n (err e) payload h = h
  event_at-IsOneshot item n (ok topic) (err e) h = h
  event_at-IsOneshot item n (ok topic) (ok payload) h =
      notify_all-IsOneshot topic (unless (env.is_null payload) payload)
        (get_local_event_subscribers n.service_registry topic) n h

  event_payloads-IsOneshot :
      (items : List NetworkMessagePayloadItem) (n : Node F C FS V X W)
      → IsOneshot n
      → IsOneshot (event_payloads env items n)
  unfolding event_payloads
  event_payloads-IsOneshot [] n h = h
  event_payloads-IsOneshot (item ∷ items) n h = event_payloads-IsOneshot items _ (
      if_both (λ (m : Node F C FS V X W). IsOneshot m) (empty item.path) n _ h
        (event_at-IsOneshot item n _ (env.deserialize_value item.value_bytes) h))

  -- `handle_network_message` of any message keeps that a channel has at most one waiting request or
  -- one result, and none before it is made, if the code outside of the node does so: no channel is
  -- answered twice.
  pub handle_network_message-IsOneshot :
      (message : NetworkMessage) (n : Node F C FS V X W)
      → IsOneshot n
      → IsOneshot (handle_network_message env message n).0
  unfolding handle_network_message handle_network_request handle_network_response
      handle_network_event
  handle_network_message-IsOneshot message n h =
      let P = λ (r : Node F C FS V X W × Result (NodeError X) (Unit {0})). IsOneshot r.0 in
      if_both P (not n.supports_networking) _ _ h (
        if_both P (message.message_type == "Request") _ _
          (if_both P n.supports_networking _ _
            (if_both P (is_empty message.payloads) _ _ h
              (request_payloads-IsOneshot message message.payloads n h))
            h)
          (if_both P (message.message_type == "Response") _ _
            (if_both P n.supports_networking _ _ (response_payloads-IsOneshot message.payloads n h)
              h)
            (if_both P (message.message_type == "Event") _ _
              (if_both P n.supports_networking _ _ (event_payloads-IsOneshot message.payloads n h)
                h)
              h)))
