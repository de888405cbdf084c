-- ===== src/Node/Connections.antt =====
-- runar-node/src/node.rs: which of two nodes connects to the other, and what a node says of itself.
pub mod Laws
use Prim.Native.Char.{code}
use Prim.Native.String.{String}
use rust_mono.Prelude.{
  ℕ, Bool, true, false, not, ◌==◌, ◌&&◌, ◌||◌, Option, none, some, List, [], ◌∷◌, ltb, eqb,
  if◌then◌else◌,
}
use rust_mono.Prelude.Text.Order.{lt_text}
use rust_mono.Prelude.Result.{Result, ok, err, ◌>>=◌}
use rust_mono.Routing.TopicPath.{TopicPath, Fallible}
use rust_mono.Peers.{PeerId, PeerInfo}
use rust_mono.Registry.{ServiceRegistry, ServiceEntry}
use rust_mono.Registry.Metadata.{ServiceMetadata, get_service_metadata}
use rust_mono.Network.{ActionMetadata, NodeInfo}
use rust_mono.Node.{Handler, NodeError, connection_failed, Node, Environment}

module _ {F C FS V X W : Type 0} (env : Environment F C FS V X W) where
  abbrev pub connection :
      Node F C FS V X W
      → W × Result X (Unit {0})
      → Node F C FS V X W × Result (NodeError X) (Unit {0})
  connection n (world, err e) = (record n { world = world }, err (connection_failed e))
  connection n (world, ok _) = (record n { world = world }, ok tt)

  unfoldable pub handle_discovered_node :
      PeerInfo → Node F C FS V X W → Node F C FS V X W × Result (NodeError X) (Unit {0})
  handle_discovered_node info n =
      if not n.supports_networking
      then (n, ok tt)
      else if not (lt_text n.peer_id.public_key info.public_key)
      then (n, ok tt)
      else if not n.network_transport
      then (n, ok tt)
      else if env.is_connected (record { public_key = info.public_key }) n.world
      then (n, ok tt)
      else connection n (env.connect_peer info n.world)

  abbrev pub with_metadata :
      Option (ServiceMetadata (ActionMetadata FS) FS)
      → List (ServiceMetadata (ActionMetadata FS) FS)
      → List (ServiceMetadata (ActionMetadata FS) FS)
  with_metadata none rest = rest
  with_metadata (some metadata) rest = metadata ∷ rest

  abbrev pub is_internal : ServiceEntry → Bool
  is_internal entry = entry.service.path == "$registry" || entry.service.path == "$keys"

  unfoldable pub collect_services :
      ServiceRegistry (Handler F) C (ActionMetadata FS) FS
      → List (TopicPath × ServiceEntry)
      → Fallible (List (ServiceMetadata (ActionMetadata FS) FS))
  collect_services r [] = ok []
  collect_services r ((topic, entry) ∷ services) =
      let rest = collect_services r services in
      if is_internal entry then rest else do
        metadata ← get_service_metadata env.hasher r topic
        collected ← rest
        ok (with_metadata metadata collected)

  -- An `err` stands for the panic of `unwrap` in the registry.
  unfoldable pub collect_local_service_capabilities :
      Node F C FS V X W → Fallible (List (ServiceMetadata (ActionMetadata FS) FS))
  unfolding collect_services
  collect_local_service_capabilities n =
      collect_services n.service_registry n.service_registry.local_services_list

  -- The address is what `get_node_address` and the interfaces of the machine say.
  unfoldable pub get_local_node_info : String → Node F C FS V X W → Fallible (NodeInfo FS)
  unfolding collect_local_service_capabilities
  get_local_node_info address n = do
    services ← collect_local_service_capabilities n
    ok (record {
      peer_id = n.peer_id;
      network_ids = n.network_ids;
      addresses = address ∷ [];
      services = services;
      version = n.registry_version;
    })
