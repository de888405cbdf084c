-- ===== src/Node/Lifecycle.antt =====
-- runar-node/src/node.rs: services are added, started and stopped; peers are connected. What the
-- start and the stop of the network do outside of the node are arguments.
pub mod States
use rust_mono.Prelude.{
  ℕ, Bool, true, false, not, String, Option, none, some, List, [], ◌∷◌, if◌then◌else◌,
}
use rust_mono.Prelude.Result.{Result, ok, err}
use rust_mono.Prelude.Int.{next_i64}
use rust_mono.Routing.TopicPath.{TopicPath, Fallible}
use rust_mono.Routing.TopicPath as TopicPath
use rust_mono.Peers.{PeerId, PeerInfo}
use rust_mono.Registry.{
  ServiceRegistry, Service, ServiceEntry, ServiceState, initialized, running, stopped, error,
  update_service_state, register_local_service,
}
use rust_mono.Node.{
  NodeError, path_error, init_failed, connection_failed, Node, Environment, if_running,
}

module _ {F C FS V X W : Type 0} where
  unfoldable pub set_state : TopicPath → ServiceState → Node F C FS V X W → Node F C FS V X W
  unfolding update_service_state
  set_state topic state n = record n {
    service_registry = update_service_state n.service_registry topic state;
  }

module _ {F C FS V X W : Type 0} (env : Environment F C FS V X W) where
  abbrev pub initialized_service :
      Service
      → TopicPath
      → Node F C FS V X W × Result X (Unit {0})
      → Node F C FS V X W × Result (NodeError X) (Unit {0})
  initialized_service service topic (n, err e) = (set_state topic error n, err (init_failed e))
  initialized_service service topic (n, ok _) =
      let ready = set_state topic initialized n in
      let entry : ServiceEntry = record {
        service = service;
        service_topic = topic;
        service_state = initialized;
        registration_time = env.now ready.world;
        last_start_time = none;
      } in
      (
        if_running (record ready {
          service_registry = register_local_service env.hasher ready.service_registry entry;
        }),
        ok tt,
      )

  abbrev pub add_service_at :
      Service
      → Node F C FS V X W
      → Fallible TopicPath
      → Node F C FS V X W × Result (NodeError X) (Unit {0})
  add_service_at service n (err e) = (n, err (path_error e))
  add_service_at service n (ok topic) =
      initialized_service service topic (env.init_service service topic n)

  -- The path is read in the node's network, whichever network the service names.
  unfoldable pub add_service :
      Service → Node F C FS V X W → Node F C FS V X W × Result (NodeError X) (Unit {0})
  add_service service n =
      add_service_at service n (TopicPath.new env.hasher service.path n.network_id)

  abbrev pub started : TopicPath → Node F C FS V X W × Result X (Unit {0}) → Node F C FS V X W
  started topic (n, err e) = set_state topic error n
  started topic (n, ok _) = set_state topic running n

  unfoldable pub start_services :
      List (TopicPath × ServiceEntry) → Node F C FS V X W → Node F C FS V X W
  start_services [] n = n
  start_services ((topic, entry) ∷ services) n =
      start_services services (started topic (env.start_service entry.service topic n))

  abbrev pub networking_started :
      Node F C FS V X W × Result (NodeError X) (Unit {0})
      → Node F C FS V X W × Result (NodeError X) (Unit {0})
  networking_started (n, err e) = (n, err e)
  networking_started (n, ok _) =
      (record n { running = true; registry_version = next_i64 n.registry_version }, ok tt)

  module _
      (start_networking shutdown_network : Node F C FS V X W
        → Node F C FS V X W × Result (NodeError X) (Unit {0})) where
    unfoldable pub start : Node F C FS V X W → Node F C FS V X W × Result (NodeError X) (Unit {0})
    unfolding start_services
    start n =
        if n.running
        then (n, ok tt)
        else (let after = start_services n.service_registry.local_services_list n in
            networking_started
              (if after.supports_networking then start_networking after else (after, ok tt)))

    abbrev pub stopped_service :
        TopicPath → Node F C FS V X W × Result X (Unit {0}) → Node F C FS V X W
    stopped_service topic (n, err e) = n
    stopped_service topic (n, ok _) = set_state topic stopped n

    unfoldable pub stop_services :
        List (TopicPath × ServiceEntry) → Node F C FS V X W → Node F C FS V X W
    stop_services [] n = n
    stop_services ((topic, entry) ∷ services) n =
        stop_services services (stopped_service topic (env.stop_service entry.service topic n))

    -- An error of the network's end is only logged.
    unfoldable pub stop : Node F C FS V X W → Node F C FS V X W × Result (NodeError X) (Unit {0})
    unfolding stop_services
    stop n =
        if not n.running
        then (n, ok tt)
        else (let after =
              stop_services n.service_registry.local_services_list (record n { running = false }) in
            (if after.supports_networking then (shutdown_network after).0 else after, ok tt))
