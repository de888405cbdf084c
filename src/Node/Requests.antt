-- ===== src/Node/Requests.antt =====
-- runar-node/src/node.rs and runar-node/src/services/remote_service.rs: requests. A handler is run
-- to its end; what other tasks do during a wait is the environment's.
pub mod Pending
pub mod Dispatch
use rust_mono.Prelude.{
  ℕ, ◌+◌, Bool, true, false, String, Option, none, some, List, [], ◌∷◌, ◌++◌, get_elem?,
  if◌then◌else◌,
}
use rust_mono.Prelude.Result.{Result, ok, err}
use rust_mono.Prelude.HashMap as Map
use rust_mono.Prelude.HashMap.{HashMap}
use rust_mono.Routing.TopicPath.{TopicPath, PathError, Hasher, Fallible, new_action_topic}
use rust_mono.Routing.TopicPath as TopicPath
use rust_mono.Routing.Template.{extract_params}
use rust_mono.LoadBalancing.{RoundRobinLoadBalancer, select_handler}
use rust_mono.Registry.{RemoteService, get_local_action_handler, get_remote_action_handlers}
use rust_mono.Network.{NetworkMessage, NetworkMessagePayloadItem}
use rust_mono.Node.{
  Handler, local_handler, remote_handler, NodeError, failed_to_parse, no_local_handler, no_handler,
  no_transport, channel_closed, timed_out, serialize_failed, send_failed, remote_error, path_error,
  index_out_of_bounds, other, RequestContext, Wait, received, closed, elapsed, Node, Environment,
}

unfoldable pub request_context : TopicPath → RequestContext
request_context topic = record { topic_path = topic; path_params = [] }

abbrev pub with_path_params : RequestContext → Fallible (HashMap String) → RequestContext
with_path_params context (err e) = context
with_path_params context (ok params) = record context { path_params = params }

-- The context of a local handler: parameters by the path that it was registered under.
unfoldable pub local_context : TopicPath → TopicPath → RequestContext
unfolding request_context
local_context topic registration_path =
    with_path_params (request_context topic)
      (extract_params topic registration_path.cached_action_path)

module _ {F C FS V X W : Type 0} where
  unfoldable pub remove_pending : String → Node F C FS V X W → Node F C FS V X W
  remove_pending id n = record n { pending_requests = Map.remove id n.pending_requests }

  -- A channel is made and stored under a new identifier.
  unfoldable pub open_request : String → Node F C FS V X W → Node F C FS V X W
  open_request id n = record n {
    pending_requests = Map.insert id n.next_channel n.pending_requests;
    next_channel = n.next_channel + 1;
  }

  abbrev pub finish_request :
      String → Wait X V → Node F C FS V X W → Node F C FS V X W × Result (NodeError X) V
  finish_request id (received (ok response)) n = (n, ok response)
  finish_request id (received (err e)) n = (n, err (remote_error e))
  finish_request id closed n = (remove_pending id n, err channel_closed)
  finish_request id elapsed n = (remove_pending id n, err timed_out)

unfoldable pub request_message : RemoteService → TopicPath → List ℕ → String → NetworkMessage
request_message service topic payload id = record {
  source = service.local_node_id;
  destination = service.peer_id;
  message_type = "Request";
  payloads = (record { path = topic.path; value_bytes = payload; correlation_id = id }) ∷ [];
}

abbrev pub or_null {ℓ} : {V : Type ℓ} → V → Option V → V
or_null null none = null
or_null null (some v) = v

module _ {F C FS V X W : Type 0} (env : Environment F C FS V X W) where
  unfoldable pub wait_for :
      RemoteService → String → ℕ → Node F C FS V X W → Node F C FS V X W × Result (NodeError X) V
  wait_for service id channel n =
      let (after, outcome) = env.await_response channel service.request_timeout_ms n in
      finish_request id outcome after

  abbrev pub after_send :
      RemoteService
      → String
      → ℕ
      → Node F C FS V X W
      → Result X (Unit {0})
      → Node F C FS V X W × Result (NodeError X) V
  after_send service id channel n (err e) = (remove_pending id n, err (send_failed e))
  after_send service id channel n (ok _) = wait_for service id channel n

  abbrev pub send_serialized :
      RemoteService
      → TopicPath
      → String
      → ℕ
      → Node F C FS V X W
      → Result X (List ℕ)
      → Node F C FS V X W × Result (NodeError X) V
  send_serialized service topic id channel n (err e) = (n, err (serialize_failed e))
  send_serialized service topic id channel n (ok payload) =
      let (world, sending) = env.send_message (request_message service topic payload id) n.world in
      if n.network_transport
      then after_send service id channel (record n { world = world }) sending
      else (n, err no_transport)

  unfoldable pub send_request :
      RemoteService
      → TopicPath
      → Option V
      → Node F C FS V X W
      → Node F C FS V X W × Result (NodeError X) V
  unfolding open_request
  send_request service topic params n =
      let (world, id) = env.new_uuid n.world in
      send_serialized service topic id n.next_channel (open_request id (record n { world = world }))
        (env.serialize_value (or_null env.null params))

  abbrev pub send_to :
      RemoteService
      → Option V
      → Node F C FS V X W
      → Fallible TopicPath
      → Node F C FS V X W × Result (NodeError X) V
  send_to service params n (err e) = (n, err (path_error e))
  send_to service params n (ok topic) = send_request service topic params n

  -- What the closure of `create_action_handler` does when it is called.
  unfoldable pub create_action_handler :
      RemoteService
      → String
      → Option V
      → Node F C FS V X W
      → Node F C FS V X W × Result (NodeError X) V
  create_action_handler service action params n =
      send_to service params n (new_action_topic env.hasher service.service_topic action)

  abbrev pub call_handler :
      Handler F
      → Option V
      → RequestContext
      → Node F C FS V X W
      → Node F C FS V X W × Result (NodeError X) V
  call_handler (local_handler f) payload context n = env.call_local f payload context n
  call_handler (remote_handler service action) payload context n =
      create_action_handler service action payload n

  abbrev pub call_local_handler :
      TopicPath
      → Option V
      → Node F C FS V X W
      → Option (Handler F × TopicPath)
      → Node F C FS V X W × Result (NodeError X) V
  call_local_handler topic payload n none = (n, err (no_local_handler topic))
  call_local_handler topic payload n (some (handler, registration_path)) =
      call_handler handler payload (local_context topic registration_path) n

  abbrev pub local_request_at :
      String
      → Option V
      → Node F C FS V X W
      → Fallible TopicPath
      → Node F C FS V X W × Result (NodeError X) V
  local_request_at path payload n (err e) = (n, err (failed_to_parse path e))
  local_request_at path payload n (ok topic) =
      call_local_handler topic payload n (get_local_action_handler n.service_registry topic)

  unfoldable pub local_request :
      String → Option V → Node F C FS V X W → Node F C FS V X W × Result (NodeError X) V
  local_request path payload n =
      local_request_at path payload n (TopicPath.new env.hasher path n.network_id)

  module _ {T : Type 0} (as_type : V → Result X T) where
    abbrev pub converted : Result X T → Result (NodeError X) T
    converted (ok t) = ok t
    converted (err e) = err (other e)

    -- `handler(...).await?` and `as_type::<T>()`
    abbrev pub typed :
        Node F C FS V X W × Result (NodeError X) V → Node F C FS V X W × Result (NodeError X) T
    typed (n, err e) = (n, err e)
    typed (n, ok v) = (n, converted (as_type v))

    abbrev pub call_selected :
        TopicPath
        → Option V
        → Node F C FS V X W
        → Option (Handler F)
        → Node F C FS V X W × Result (NodeError X) T
    call_selected topic payload n none = (n, err index_out_of_bounds)
    call_selected topic payload n (some handler) =
        typed (call_handler handler payload (request_context topic) n)

    abbrev pub call_remote :
        TopicPath
        → Option V
        → Node F C FS V X W
        → List (Handler F)
        → Node F C FS V X W × Result (NodeError X) T
    call_remote topic payload n [] = (n, err (no_handler topic))
    call_remote topic payload n (h ∷ hs) =
        let (index, balancer) = select_handler (h ∷ hs) n.load_balancer in
        call_selected topic payload (record n { load_balancer = balancer })
          (get_elem? (h ∷ hs) index)

    abbrev pub dispatch :
        TopicPath
        → Option V
        → Node F C FS V X W
        → Option (Handler F × TopicPath)
        → Node F C FS V X W × Result (NodeError X) T
    dispatch topic payload n (some (handler, registration_path)) =
        typed (call_handler handler payload (local_context topic registration_path) n)
    dispatch topic payload n none =
        call_remote topic payload n (get_remote_action_handlers n.service_registry topic)

    abbrev pub request_at :
        String
        → Option V
        → Node F C FS V X W
        → Fallible TopicPath
        → Node F C FS V X W × Result (NodeError X) T
    request_at path payload n (err e) = (n, err (failed_to_parse path e))
    request_at path payload n (ok topic) =
        dispatch topic payload n (get_local_action_handler n.service_registry topic)

    unfoldable pub request :
        String → Option V → Node F C FS V X W → Node F C FS V X W × Result (NodeError X) T
    request path payload n = request_at path payload n (TopicPath.new env.hasher path n.network_id)
