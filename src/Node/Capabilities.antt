-- ===== src/Node/Capabilities.antt =====
-- runar-node/src/node.rs and runar-node/src/services/remote_service.rs: what a peer's information
-- does to the registry. A panic of `unwrap` is the error `path_error`.
pub mod Versions
pub mod Renamed
use rust_mono.Prelude.{
  ℕ, Bool, true, false, String, ◌==◌, Option, none, some, List, [], ◌∷◌, ◌++◌, is_empty,
  if◌then◌else◌,
}
use rust_mono.Prelude.Result.{Result, ok, err, and_then}
use rust_mono.Prelude.Int.{ltb_ℤ}
use rust_mono.Prelude.HashMap as Map
use rust_mono.Routing.TopicPath.{TopicPath, Fallible, new_action_topic}
use rust_mono.Routing.TopicPath as TopicPath
use rust_mono.Peers.{PeerId}
use rust_mono.Registry.{
  ServiceRegistry, RemoteService, RegistryError, remove_remote_service, register_remote_service,
  register_remote_action_handler,
}
use rust_mono.Registry.Metadata.{ServiceMetadata}
use rust_mono.Network.{ActionMetadata, NodeInfo}
use rust_mono.Node.{
  Handler, remote_handler, NodeError, path_error, no_transport, of_registry, Node, Environment,
}

-- `insert` of a key into the map of actions, of which the keys are kept.
unfoldable pub add_action : String → List String → List String
add_action name [] = name ∷ []
add_action name (j ∷ js) = if j == name then j ∷ js else j ∷ add_action name js

module _ {FS : Type 0} where
  unfoldable pub add_actions : List (ActionMetadata FS) → List String → List String
  unfolding add_action
  add_actions [] names = names
  add_actions (action ∷ actions) names = add_actions actions (add_action action.name names)

  unfoldable pub new :
      PeerId → PeerId → ℕ → ServiceMetadata (ActionMetadata FS) FS → TopicPath → RemoteService
  unfolding add_actions
  new local_node_id peer_id request_timeout_ms metadata topic = record {
    name = metadata.name;
    service_topic = topic;
    version = metadata.version;
    description = metadata.description;
    network_id = topic.network_id;
    peer_id = peer_id;
    action_names = add_actions metadata.actions [];
    local_node_id = local_node_id;
    request_timeout_ms = request_timeout_ms;
  }

module _ {F C FS V X W : Type 0} (env : Environment F C FS V X W) where
  -- A path that cannot be made is logged and passed over.
  abbrev pub created :
      Node F C FS V X W
      → PeerId
      → ServiceMetadata (ActionMetadata FS) FS
      → Fallible TopicPath
      → List RemoteService
  created n peer_id metadata (err e) = []
  created n peer_id metadata (ok topic) =
      new n.peer_id peer_id n.request_timeout_ms metadata topic ∷ []

  unfoldable pub create_all :
      Node F C FS V X W
      → PeerId
      → List (ServiceMetadata (ActionMetadata FS) FS)
      → List RemoteService
  create_all n peer_id [] = []
  create_all n peer_id (metadata ∷ rest) =
      created n peer_id metadata (TopicPath.new env.hasher metadata.name metadata.network_id)
      ++ create_all n peer_id rest

  unfoldable pub create_from_capabilities :
      Node F C FS V X W
      → PeerId
      → List (ServiceMetadata (ActionMetadata FS) FS)
      → Result (NodeError X) (List RemoteService)
  unfolding create_all
  create_from_capabilities n peer_id capabilities =
      if n.network_transport then ok (create_all n peer_id capabilities) else err no_transport

  abbrev pub register_action :
      RemoteService → String → Node F C FS V X W → Fallible TopicPath → Node F C FS V X W
  register_action service name n (err e) = n
  register_action service name n (ok topic) = record n {
    service_registry =
        register_remote_action_handler n.service_registry topic (remote_handler service name);
  }

  -- `RemoteService::init`
  unfoldable pub init_remote : RemoteService → List String → Node F C FS V X W → Node F C FS V X W
  init_remote service [] n = n
  init_remote service (name ∷ names) n =
      init_remote service names
        (register_action service name n (new_action_topic env.hasher service.service_topic name))

  abbrev pub init_at :
      RemoteService
      → Node F C FS V X W
      → Fallible TopicPath
      → Node F C FS V X W × Result (NodeError X) (Unit {0})
  init_at service n (err e) = (n, err (path_error e))
  init_at service n (ok topic) = (init_remote service service.action_names n, ok tt)

  -- A service that is refused is passed over.
  abbrev pub registered :
      RemoteService
      → Node F C FS V X W
      → ServiceRegistry (Handler F) C (ActionMetadata FS) FS × Result RegistryError (Unit {0})
      → Node F C FS V X W × Result (NodeError X) (Unit {0})
  registered service n (registry, err e) = (record n { service_registry = registry }, ok tt)
  registered service n (registry, ok _) =
      init_at service (record n { service_registry = registry })
        (TopicPath.new env.hasher service.service_topic.path n.network_id)

  unfoldable pub register_all :
      List RemoteService → Node F C FS V X W → Node F C FS V X W × Result (NodeError X) (Unit {0})
  register_all [] n = (n, ok tt)
  register_all (service ∷ services) n =
      and_then (registered service n (register_remote_service n.service_registry service))
        (λ _. register_all services)

  -- The services that `Ok` carries are dropped by the only caller.
  unfoldable pub add_new_peer :
      NodeInfo FS → Node F C FS V X W → Node F C FS V X W × Result (NodeError X) (Unit {0})
  unfolding register_all create_from_capabilities
  add_new_peer info n =
      if is_empty info.services
      then (n, ok tt)
      else and_then (n, create_from_capabilities n info.peer_id info.services) register_all

  abbrev pub removed :
      Node F C FS V X W
      → ServiceRegistry (Handler F) C (ActionMetadata FS) FS × Result RegistryError (Unit {0})
      → Node F C FS V X W × Result (NodeError X) (Unit {0})
  removed n (registry, err e) = (record n { service_registry = registry }, err (of_registry e))
  removed n (registry, ok _) = (record n { service_registry = registry }, ok tt)

  abbrev pub remove_at :
      Node F C FS V X W → Fallible TopicPath → Node F C FS V X W × Result (NodeError X) (Unit {0})
  remove_at n (err e) = (n, err (path_error e))
  remove_at n (ok topic) = removed n (remove_remote_service env.hasher n.service_registry topic)

  unfoldable pub remove_peer_services :
      List (ServiceMetadata (ActionMetadata FS) FS)
      → Node F C FS V X W
      → Node F C FS V X W × Result (NodeError X) (Unit {0})
  remove_peer_services [] n = (n, ok tt)
  remove_peer_services (service ∷ services) n =
      and_then (remove_at n (TopicPath.new env.hasher service.service_path service.network_id))
        (λ _. remove_peer_services services)

  abbrev pub know : NodeInfo FS → Node F C FS V X W → Node F C FS V X W
  know info n = record n { known_peers = Map.insert info.peer_id.public_key info n.known_peers }

  abbrev pub process_known :
      NodeInfo FS
      → Node F C FS V X W
      → Option (NodeInfo FS)
      → Node F C FS V X W × Result (NodeError X) (Unit {0})
  process_known info n none = add_new_peer info (know info n)
  process_known info n (some existing) =
      if ltb_ℤ existing.version info.version
      then and_then (remove_peer_services existing.services n)
          (λ _ after. add_new_peer info (know info after))
      else (n, ok tt)

  unfoldable pub process_remote_capabilities :
      NodeInfo FS → Node F C FS V X W → Node F C FS V X W × Result (NodeError X) (Unit {0})
  process_remote_capabilities info n =
      process_known info n (Map.get info.peer_id.public_key n.known_peers)
