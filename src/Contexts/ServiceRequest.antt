-- ===== src/Contexts/ServiceRequest.antt =====
-- runar-node/src/services/mod.rs: `ServiceRequest`. An `err` stands for the panic of `expect` on a
-- path that is not well written.
pub mod Names
use rust_mono.Prelude.{String, Option, get_last?}
use rust_mono.Prelude.Result.{ok, ◌>>=◌}
use rust_mono.Prelude.Text.{glue, split}
use rust_mono.Routing.TopicPath.{TopicPath, Hasher, Fallible}
use rust_mono.Routing.TopicPath as TopicPath
use rust_mono.Node.{RequestContext}
use rust_mono.Node.Requests.{or_null}
use rust_mono.Node.Events.{unwrap_or_default}

pub record ServiceRequest (V : Type 0) : Type 0 where
  pub topic_path : TopicPath
  pub payload : V
  pub context : RequestContext

module _ {V : Type 0} where
  unfoldable pub service_request :
      Hasher → String → String → V → RequestContext → Fallible (ServiceRequest V)
  service_request hasher service_path action_or_event payload context = do
    topic ←
        TopicPath.new hasher (glue "/" service_path action_or_event) context.topic_path.network_id
    ok (record { topic_path = topic; payload = payload; context = context })

  abbrev pub new_with_topic_path : TopicPath → V → RequestContext → ServiceRequest V
  new_with_topic_path topic payload context = record {
    topic_path = topic;
    payload = payload;
    context = context;
  }

  unfoldable pub new_with_optional :
      Hasher → V → String → String → Option V → RequestContext → Fallible (ServiceRequest V)
  new_with_optional hasher null service_path action_or_event payload context = do
    topic ←
        TopicPath.new hasher (glue "/" service_path action_or_event) context.topic_path.network_id
    ok (record { topic_path = topic; payload = or_null null payload; context = context })

  -- `path`
  unfoldable pub requested_service : ServiceRequest V → String
  requested_service r = r.topic_path.service_path

  -- What follows the last slash, or the whole text if it has none.
  unfoldable pub action_or_event : ServiceRequest V → String
  action_or_event r = unwrap_or_default (get_last? (split "/" r.topic_path.cached_action_path))
