-- ===== src/Contexts.antt =====
-- runar-node/src/services/mod.rs, request_context.rs and event_context.rs: the contexts that the
-- code of services is handed. Loggers are left out; the node that a context holds is passed on.
pub mod Heard
pub mod Own
pub mod Paths
pub mod Remote
pub mod Routes
pub mod States
mod Tests
pub mod ServiceRequest
pub mod RegistryService
use Prim.Native.String as Str
use rust_mono.Prelude.{ℕ, Bool, true, false, String, Option, none, some, if◌then◌else◌}
use rust_mono.Prelude.Result.{Result, ok, err, ◌>>=◌}
use rust_mono.Prelude.Text.{has_char, glue, split}
use rust_mono.Routing.TopicPath.{TopicPath, Hasher, Fallible}
use rust_mono.Routing.TopicPath as TopicPath
use rust_mono.Registry.{register_remote_action_handler, remove_remote_action_handler}
use rust_mono.Network.{ActionMetadata}
use rust_mono.Node.{
  Handler, NodeError, invalid_action_path, no_registry_delegate, RequestContext, Node, Environment,
  register_action_handler,
}
use rust_mono.Node.Requests.{or_null, request}
use rust_mono.Node.Events.{
  EventRegistrationOptions, unwrap_or_default, publish, subscribe, subscribe_with_options,
}

-- A path with a network is used as it is; one with a service gets the network of the context, and
-- a mere name its service too.
unfoldable pub full_path : String → String → String → String
full_path network_id service_path path =
    if has_char ":" path
    then path
    else if has_char "/" path
    then glue ":" network_id path
    else glue ":" network_id (glue "/" service_path path)

pub record PublishOptions : Type 0 where
  pub broadcast : Bool
  pub guaranteed_delivery : Bool
  pub retention_seconds : Option ℕ
  pub target : Option String

pub record EventContext : Type 0 where
  pub topic_path : TopicPath
  pub delivery_options : Option PublishOptions

abbrev pub event_context : TopicPath → EventContext
event_context topic = record { topic_path = topic; delivery_options = none }

abbrev pub with_delivery_options : PublishOptions → EventContext → EventContext
with_delivery_options options context = record context { delivery_options = some options }

pub record LifecycleContext (V : Type 0) : Type 0 where
  pub network_id : String
  pub service_path : String
  pub config : Option V

pub record ActionRegistrationOptions (FieldSchema : Type 0) : Type 0 where
  pub description : Option String
  pub input_schema : Option FieldSchema
  pub output_schema : Option FieldSchema

-- `format!("Action {} for service {}", name, service_path)`
unfoldable pub action_description : String → String → String
action_description name service_path =
    Str.◌++◌ "Action " (Str.◌++◌ name (Str.◌++◌ " for service " service_path))

module _ {V : Type 0} where
  unfoldable pub lifecycle_context : TopicPath → LifecycleContext V
  lifecycle_context topic = record {
    network_id = topic.network_id;
    service_path = topic.service_path;
    config = none;
  }

  abbrev pub with_config : V → LifecycleContext V → LifecycleContext V
  with_config config context = record context { config = some config }

module _ {F C FS V X W : Type 0} (env : Environment F C FS V X W) where
  module _ {T : Type 0} (as_type : V → Result X T) where
    -- `RequestContext::request`, `EventContext::request` and `LifecycleContext::request`
    unfoldable pub request_in_context :
        RequestContext
        → String
        → Option V
        → Node F C FS V X W
        → Node F C FS V X W × Result (NodeError X) T
    request_in_context context path payload n =
        request env as_type
          (full_path context.topic_path.network_id context.topic_path.service_path path) payload n

    unfoldable pub request_in_event :
        EventContext
        → String
        → Option V
        → Node F C FS V X W
        → Node F C FS V X W × Result (NodeError X) T
    request_in_event context path payload n =
        request env as_type
          (full_path context.topic_path.network_id context.topic_path.service_path path) payload n

    unfoldable pub request_in_lifecycle :
        LifecycleContext V
        → String
        → Option V
        → Node F C FS V X W
        → Node F C FS V X W × Result (NodeError X) T
    request_in_lifecycle context path payload n =
        request env as_type (full_path context.network_id context.service_path path) payload n

  -- `publish` of the same three
  unfoldable pub publish_in_context :
      RequestContext
      → String
      → Option V
      → Node F C FS V X W
      → Node F C FS V X W × Result (NodeError X) (Unit {0})
  publish_in_context context topic payload n =
      publish env (full_path context.topic_path.network_id context.topic_path.service_path topic)
        payload n

  unfoldable pub publish_in_event :
      EventContext
      → String
      → Option V
      → Node F C FS V X W
      → Node F C FS V X W × Result (NodeError X) (Unit {0})
  publish_in_event context topic payload n =
      publish env (full_path context.topic_path.network_id context.topic_path.service_path topic)
        payload n

  unfoldable pub publish_in_lifecycle :
      LifecycleContext V
      → String
      → Option V
      → Node F C FS V X W
      → Node F C FS V X W × Result (NodeError X) (Unit {0})
  publish_in_lifecycle context topic payload n =
      publish env (full_path context.network_id context.service_path topic) payload n

  abbrev pub register_at :
      Handler F
      → ActionMetadata FS
      → Node F C FS V X W
      → Fallible TopicPath
      → Node F C FS V X W × Result (NodeError X) (Unit {0})
  register_at handler metadata n (err e) = (n, err (invalid_action_path e))
  register_at handler metadata n (ok topic) =
      (register_action_handler topic handler (some metadata) n, ok tt)

  unfoldable pub register_own_action :
      LifecycleContext V
      → String
      → Handler F
      → Node F C FS V X W
      → Node F C FS V X W × Result (NodeError X) (Unit {0})
  register_own_action context name handler n =
      let metadata : ActionMetadata FS = record {
        name = name;
        description = action_description name context.service_path;
        input_schema = none;
        output_schema = none;
      } in
      register_at handler metadata n
        (TopicPath.new env.hasher (glue "/" context.service_path name) context.network_id)

  unfoldable pub register_action_with_options :
      LifecycleContext V
      → String
      → Handler F
      → ActionRegistrationOptions FS
      → Node F C FS V X W
      → Node F C FS V X W × Result (NodeError X) (Unit {0})
  register_action_with_options context name handler options n =
      let metadata : ActionMetadata FS = record {
        name = name;
        description = unwrap_or_default options.description;
        input_schema = options.input_schema;
        output_schema = options.output_schema;
      } in
      register_at handler metadata n
        (TopicPath.new env.hasher (glue "/" context.service_path name) context.network_id)

  -- Subscriptions take the topic as it is, in the network of the node.
  unfoldable pub subscribe_in_lifecycle :
      LifecycleContext V
      → String
      → C
      → Node F C FS V X W
      → Node F C FS V X W × Result (NodeError X) String
  subscribe_in_lifecycle context topic callback n = subscribe env topic callback n

  unfoldable pub subscribe_with_options_in_lifecycle :
      LifecycleContext V
      → String
      → C
      → EventRegistrationOptions FS
      → Node F C FS V X W
      → Node F C FS V X W × Result (NodeError X) String
  subscribe_with_options_in_lifecycle context topic callback options n =
      subscribe_with_options env topic callback options n
