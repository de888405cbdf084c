-- ===== src/Contexts/Remote.antt =====
-- runar-node/src/services/mod.rs: `RemoteLifecycleContext`. Its registry delegate is the node, which
-- is passed on; the context knows whether it was given one.
use rust_mono.Prelude.{Bool, true, false, String, Option, none, some, if◌then◌else◌}
use rust_mono.Prelude.Result.{Result, ok, err}
use rust_mono.Routing.TopicPath.{TopicPath}
use rust_mono.Registry.{register_remote_action_handler, remove_remote_action_handler}
use rust_mono.Node.{Handler, NodeError, no_registry_delegate, Node}

pub record RemoteLifecycleContext (V : Type 0) : Type 0 where
  pub network_id : String
  pub service_path : String
  pub config : Option V
  pub registry_delegate : Bool

module _ {V : Type 0} where
  unfoldable pub remote_context : TopicPath → RemoteLifecycleContext V
  remote_context topic = record {
    network_id = topic.network_id;
    service_path = topic.service_path;
    config = none;
    registry_delegate = false;
  }

  abbrev pub with_remote_config : V → RemoteLifecycleContext V → RemoteLifecycleContext V
  with_remote_config config context = record context { config = some config }

  abbrev pub with_registry_delegate : RemoteLifecycleContext V → RemoteLifecycleContext V
  with_registry_delegate context = record context { registry_delegate = true }

module _ {F C FS V X W : Type 0} where
  unfoldable pub register_in_remote :
      RemoteLifecycleContext V
      → TopicPath
      → Handler F
      → Node F C FS V X W
      → Node F C FS V X W × Result (NodeError X) (Unit {0})
  register_in_remote context topic handler n =
      if context.registry_delegate
      then (
        record n {
          service_registry = register_remote_action_handler n.service_registry topic handler;
        },
        ok tt,
      )
      else (n, err no_registry_delegate)

  unfoldable pub remove_in_remote :
      RemoteLifecycleContext V
      → TopicPath
      → Node F C FS V X W
      → Node F C FS V X W × Result (NodeError X) (Unit {0})
  remove_in_remote context topic n =
      if context.registry_delegate
      then (
        record n { service_registry = remove_remote_action_handler n.service_registry topic },
        ok tt,
      )
      else (n, err no_registry_delegate)
