-- ===== src/Node.antt =====
-- runar-node/src/node.rs: the state of `Node`, and what stands outside of it.
pub mod Requests
pub mod Events
pub mod Messages
pub mod Capabilities
pub mod Lifecycle
pub mod Connections
pub mod Channels
pub mod Samples
mod Tests
use rust_mono.Prelude.{
  ℕ, ◌+◌, Bool, true, false, String, Option, none, some, List, [], ◌∷◌, ◌++◌, if◌then◌else◌,
}
use rust_mono.Prelude.Result.{Result, ok, err}
use rust_mono.Prelude.Int.{ℤ, next_i64}
use rust_mono.Prelude.HashMap.{HashMap}
use rust_mono.Routing.TopicPath.{TopicPath, PathError, Hasher}
use rust_mono.Peers.{PeerId, PeerInfo}
use rust_mono.LoadBalancing.{RoundRobinLoadBalancer}
use rust_mono.Registry.{
  register_local_action_handler, ServiceRegistry, RemoteService, RegistryError, Service,
}
use rust_mono.Network.{ActionMetadata, NetworkMessage, NodeInfo}

-- A local handler is a service's closure; a remote one is made by `create_action_handler` from a
-- remote service and the name of an action.
pub data Handler (F : Type 0) : Type 0 where
  local_handler : F → Handler F
  remote_handler : RemoteService → String → Handler F

-- The errors of the node by the messages they are made with; `other` holds one from outside.
pub data NodeError (X : Type 0) : Type 0 where
  failed_to_parse : String → PathError → NodeError X
  invalid_path : PathError → NodeError X
  no_local_handler no_handler : TopicPath → NodeError X
  no_payloads no_transport channel_closed timed_out no_subscription_id no_key_state : NodeError X
  deserialize_failed serialize_failed send_failed connection_failed init_failed : X → NodeError X
  remote_error no_service_path_in : NodeError X → NodeError X
  path_error invalid_action_path invalid_service_path : PathError → NodeError X
  no_service_path no_registry_delegate : NodeError X
  index_out_of_bounds : NodeError X
  of_registry : RegistryError → NodeError X
  other : X → NodeError X

-- Without the metadata, which no request here has, the logger and the node itself.
pub record RequestContext : Type 0 where
  pub topic_path : TopicPath
  pub path_params : HashMap String

-- What a wait for a response ends with.
pub data Wait (X V : Type 0) : Type 0 where
  received : Result (NodeError X) V → Wait X V
  closed elapsed : Wait X V

-- The types of local handlers, callbacks, schemas, values, outside errors and the outside world. A
-- oneshot channel is a number; what was sent into channels is kept in `sent`.
pub record Node (F C FS V X W : Type 0) : Type 0 where
  pub network_id : String
  pub network_ids : List String
  pub peer_id : PeerId
  pub request_timeout_ms : ℕ
  pub service_registry : ServiceRegistry (Handler F) C (ActionMetadata FS) FS
  pub known_peers : HashMap (NodeInfo FS)
  pub running : Bool
  pub supports_networking : Bool
  pub network_transport : Bool
  pub load_balancer : RoundRobinLoadBalancer
  pub pending_requests : HashMap ℕ
  pub next_channel : ℕ
  pub sent : List (ℕ × Result (NodeError X) V)
  pub registry_version : ℤ
  pub debounce_notify_task : Option ℕ
  pub spawned : ℕ
  pub world : W

-- What the node uses of other code. A call of a service's code, and a wait, may change the whole
-- node: other tasks run meanwhile.
pub record Environment (F C FS V X W : Type 0) : Type 0 where
  pub hasher : Hasher
  pub call_local :
      F → Option V → RequestContext → Node F C FS V X W → Node F C FS V X W × Result (NodeError X) V
  pub notify :
      C
      → TopicPath
      → Option V
      → Node F C FS V X W
      → Node F C FS V X W × Result (NodeError X) (Unit {0})
  pub init_service :
      Service → TopicPath → Node F C FS V X W → Node F C FS V X W × Result X (Unit {0})
  pub start_service :
      Service → TopicPath → Node F C FS V X W → Node F C FS V X W × Result X (Unit {0})
  pub stop_service :
      Service → TopicPath → Node F C FS V X W → Node F C FS V X W × Result X (Unit {0})
  pub await_response : ℕ → ℕ → Node F C FS V X W → Node F C FS V X W × Wait X V
  pub serialize_value : V → Result X (List ℕ)
  pub deserialize_value : List ℕ → Result X V
  pub null : V
  pub is_null : V → Bool
  pub error_value : NodeError X → V
  pub new_uuid : W → W × String
  pub now : W → ℕ
  pub send_message : NetworkMessage → W → W × Result X (Unit {0})
  pub is_connected : PeerId → W → Bool
  pub connect_peer : PeerInfo → W → W × Result X (Unit {0})

module _ {F C FS V X W : Type 0} where
  -- `registry_version.fetch_add(1)` and `notify_node_change`: the task that was waiting is aborted
  -- and another one takes its place.
  unfoldable pub notify_node_change : Node F C FS V X W → Node F C FS V X W
  notify_node_change n = record n { debounce_notify_task = some n.spawned; spawned = n.spawned + 1 }

  unfoldable pub node_changed : Node F C FS V X W → Node F C FS V X W
  unfolding notify_node_change
  node_changed n = notify_node_change (record n { registry_version = next_i64 n.registry_version })

  unfoldable pub if_running : Node F C FS V X W → Node F C FS V X W
  unfolding node_changed
  if_running n = if n.running then node_changed n else n

  unfoldable pub register_action_handler :
      TopicPath → Handler F → Option (ActionMetadata FS) → Node F C FS V X W → Node F C FS V X W
  register_action_handler topic handler metadata n = record n {
    service_registry = register_local_action_handler n.service_registry topic handler metadata;
  }
