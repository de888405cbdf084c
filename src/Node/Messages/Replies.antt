-- ===== src/Node/Messages/Replies.antt =====
-- runar-node/src/node.rs: a request of one node is answered by another one.
use rust_mono.Prelude.{ℕ, ◌≡◌, refl, ap, ◌∙◌, if_both, true, not, some, List, [], ◌∷◌}
use rust_mono.Prelude.Result.{Result, ok, err, and_then}
use rust_mono.Prelude.HashMap as Map
use rust_mono.Network.{NetworkMessage, NetworkMessagePayloadItem}
use rust_mono.Node.{NodeError, Node, Environment}
use rust_mono.Node.Requests.{local_request, remove_pending}
use rust_mono.Node.Messages.{
  unless, reply, send_reply, answer, request_payloads, handle_network_request, decoded,
  response_payloads, handle_network_response, handle_network_message,
}

-- A request with one payload, which can be decoded.
abbrev pub OneRequest :
    {F C FS V X W : Type 0}
    → Environment F C FS V X W
    → NetworkMessage
    → NetworkMessagePayloadItem
    → V
    → Type 0
OneRequest env message item params =
    (message.payloads ≡ item ∷ []) × (env.deserialize_value item.value_bytes ≡ ok params)

module _ {F C FS V X W : Type 0} (env : Environment F C FS V X W) where
  -- The node after its transport was given one message.
  abbrev pub sent_by : NetworkMessage → Node F C FS V X W → Node F C FS V X W
  sent_by message n = record n { world = (env.send_message message n.world).0 }

  send_reply-sent_by :
      (message : NetworkMessage) (n : Node F C FS V X W)
      → n.network_transport ≡ true
      → send_reply env message n ≡ sent_by message n
  unfolding send_reply
  send_reply-sent_by message n transport = rw transport refl

  request-answer :
      (message : NetworkMessage) (item : NetworkMessagePayloadItem) (params : V)
      (n : Node F C FS V X W)
      → OneRequest env message item params
      → n.supports_networking ≡ true
      → handle_network_request env message n
        ≡ and_then
            (answer env message item
              (local_request env item.path (unless (env.is_null params) params) n))
            (λ _ after. (after, ok tt))
  unfolding handle_network_request request_payloads
  request-answer message item params n (one, decoded) enabled = rw (enabled, one, decoded) refl

-- What the node that asked makes of an answer: nodes need not share their outside.
module _ {F C FS V X W G D GS Y U : Type 0} (env : Environment F C FS V X W)
    (asker : Environment G D GS V Y U) where
  -- If a node with networking answers the one payload of a request, which can be decoded, locally
  -- with a value that can be encoded, and has a transport then, `handle_network_request` succeeds
  -- and changes nothing more than that it gives its transport one message for the asker, and
  -- `handle_network_message` of an asker where the identifier waits on a channel takes the
  -- identifier out, and sends into that channel the value that the encoded answer decodes to.
  pub handle_network_message-answer :
      (message : NetworkMessage) (item : NetworkMessagePayloadItem) (params response result : V)
      (bytes : List ℕ) (channel : ℕ) (n after : Node F C FS V X W) (m : Node G D GS V Y U)
      → OneRequest env message item params
      → n.supports_networking ≡ true
      → after.network_transport ≡ true
      → local_request env item.path (unless (env.is_null params) params) n ≡ (after, ok response)
      → env.serialize_value response ≡ ok bytes
      → asker.deserialize_value bytes ≡ ok result
      → m.supports_networking ≡ true
      → Map.get item.correlation_id m.pending_requests ≡ some channel
      → (answered : NetworkMessage) × (handle_network_request env message n
          ≡ (sent_by env answered after, ok tt))
        × (answered.destination ≡ message.source)
        × (handle_network_message asker answered m ≡ (
          record m {
            pending_requests = Map.remove item.correlation_id m.pending_requests;
            sent = (channel, ok result) ∷ m.sent;
          },
          ok tt,
        ))
  unfolding handle_network_message handle_network_response response_payloads reply remove_pending
  handle_network_message-answer message item params response result bytes channel n after m one
        enabled transport done encoded decodes m_enabled pending =
      (
        reply after.peer_id message "Response" bytes item,
        request-answer env message item params n one enabled
            ∙ rw (done, encoded) refl
            ∙ ap (λ s. (s, ok tt)) (send_reply-sent_by env _ after transport),
        refl,
        simp (m_enabled, pending, decodes) refl,
      )

  -- If a node with networking fails to answer the one payload of a request, which can be decoded,
  -- the error can be encoded, and the node has a transport then, `handle_network_request` succeeds
  -- and changes nothing more than that it gives its transport one message for the asker, but
  -- `handle_network_message` of the asker changes nothing on it.
  pub handle_network_message-error :
      (message : NetworkMessage) (item : NetworkMessagePayloadItem) (params : V) (e : NodeError X)
      (bytes : List ℕ) (n after : Node F C FS V X W) (m : Node G D GS V Y U)
      → OneRequest env message item params
      → n.supports_networking ≡ true
      → after.network_transport ≡ true
      → local_request env item.path (unless (env.is_null params) params) n ≡ (after, err e)
      → env.serialize_value (env.error_value e) ≡ ok bytes
      → (answered : NetworkMessage) × (handle_network_request env message n
          ≡ (sent_by env answered after, ok tt))
        × (answered.destination ≡ message.source)
        × (handle_network_message asker answered m ≡ (m, ok tt))
  unfolding handle_network_message reply
  handle_network_message-error message item params e bytes n after m one enabled transport failed
        encoded =
      (
        reply after.peer_id message "Error" bytes item,
        request-answer env message item params n one enabled
            ∙ rw (failed, encoded) refl
            ∙ ap (λ s. (s, ok tt)) (send_reply-sent_by env _ after transport),
        refl,
        if_both (λ (r : Node G D GS V Y U × Result (NodeError Y) (Unit {0})). r ≡ (m, ok tt))
            (not m.supports_networking) _ _ refl refl,
      )
