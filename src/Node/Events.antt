-- ===== src/Node/Events.antt =====
-- runar-node/src/node.rs: publication and subscription.
pub mod Published
use rust_mono.Prelude.{
  ℕ, Bool, true, false, ◌&&◌, String, Option, none, some, List, [], ◌∷◌, is_empty, if◌then◌else◌,
}
use rust_mono.Prelude.Result.{Result, ok, err}
use rust_mono.Prelude.HashMap as Map
use rust_mono.Routing.TopicPath.{TopicPath, PathError, Fallible}
use rust_mono.Routing.TopicPath as TopicPath
use rust_mono.Registry.{ServiceRegistry, EventMetadata, RegistryError, service_not_found}
use rust_mono.Registry.Subscriptions.{
  get_local_event_subscribers, register_local_event_subscription, unsubscribe_local,
}
use rust_mono.Network.{ActionMetadata, NetworkMessage, NetworkMessagePayloadItem}
use rust_mono.Node.{
  Handler, NodeError, invalid_path, path_error, of_registry, no_subscription_id, Node, Environment,
  if_running,
}

pub record EventRegistrationOptions (FieldSchema : Type 0) : Type 0 where
  pub description : Option String
  pub data_schema : Option FieldSchema

abbrev pub unwrap_or_default : Option String → String
unwrap_or_default none = ""
unwrap_or_default (some s) = s

module _ {F C FS V X W : Type 0} (env : Environment F C FS V X W) where
  -- The loop over the subscribers: an error is logged, and the next one is notified.
  unfoldable pub notify_all :
      TopicPath → Option V → List (String × C) → Node F C FS V X W → Node F C FS V X W
  notify_all topic payload [] n = n
  notify_all topic payload ((id, callback) ∷ subscribers) n =
      notify_all topic payload subscribers (env.notify callback topic payload n).0

  abbrev pub publish_at :
      Option V
      → Node F C FS V X W
      → Fallible TopicPath
      → Node F C FS V X W × Result (NodeError X) (Unit {0})
  publish_at payload n (err e) = (n, err (invalid_path e))
  publish_at payload n (ok topic) =
      (notify_all topic payload (get_local_event_subscribers n.service_registry topic) n, ok tt)

  -- A broadcast only writes a line to the log, so the options have no effect.
  unfoldable pub publish_with_options :
      String → Option V → Node F C FS V X W → Node F C FS V X W × Result (NodeError X) (Unit {0})
  publish_with_options topic payload n =
      publish_at payload n (TopicPath.new env.hasher topic n.network_id)

  unfoldable pub publish :
      String → Option V → Node F C FS V X W → Node F C FS V X W × Result (NodeError X) (Unit {0})
  unfolding publish_with_options
  publish topic payload n = publish_with_options topic payload n

  abbrev pub subscribed :
      String
      → Node F C FS V X W
      → Fallible (ServiceRegistry (Handler F) C (ActionMetadata FS) FS)
      → Node F C FS V X W × Result (NodeError X) String
  subscribed id n (err e) = (n, err (path_error e))
  subscribed id n (ok registry) = (if_running (record n { service_registry = registry }), ok id)

  abbrev pub subscribe_at :
      String
      → C
      → EventRegistrationOptions FS
      → Node F C FS V X W
      → Fallible TopicPath
      → Node F C FS V X W × Result (NodeError X) String
  subscribe_at topic callback options n (err e) = (n, err (invalid_path e))
  subscribe_at topic callback options n (ok topic_path) =
      let metadata : EventMetadata FS = record {
        path = topic;
        description = unwrap_or_default options.description;
        data_schema = options.data_schema;
      } in
      let (world, id) = env.new_uuid n.world in
      let after : Node F C FS V X W = record n { world = world } in
      subscribed id after (
        register_local_event_subscription env.hasher after.service_registry id topic_path callback
          (some metadata))

  -- An `err` of the registration stands for the panic of `unwrap` on the service's path.
  unfoldable pub subscribe_with_options :
      String
      → C
      → EventRegistrationOptions FS
      → Node F C FS V X W
      → Node F C FS V X W × Result (NodeError X) String
  subscribe_with_options topic callback options n =
      subscribe_at topic callback options n (TopicPath.new env.hasher topic n.network_id)

  unfoldable pub subscribe :
      String → C → Node F C FS V X W → Node F C FS V X W × Result (NodeError X) String
  unfolding subscribe_with_options
  subscribe topic callback n =
      subscribe_with_options topic callback (record { description = none; data_schema = none }) n

  abbrev pub unsubscribed :
      Node F C FS V X W
      → ServiceRegistry (Handler F) C (ActionMetadata FS) FS × Result RegistryError (Unit {0})
      → Node F C FS V X W × Result (NodeError X) (Unit {0})
  unsubscribed n (registry, err e) = (record n { service_registry = registry }, err (of_registry e))
  unsubscribed n (registry, ok _) = (if_running (record n { service_registry = registry }), ok tt)

  unfoldable pub unsubscribe :
      Option String → Node F C FS V X W → Node F C FS V X W × Result (NodeError X) (Unit {0})
  unsubscribe none n = (n, err no_subscription_id)
  unsubscribe (some id) n = unsubscribed n (unsubscribe_local n.service_registry id)
