-- ===== src/Contexts/States.antt =====
-- runar-node/src/services/registry_service.rs and runar-node/src/node.rs: the states that the registry
-- service tells.
use rust_mono.Prelude.{◌≡◌, refl, ap, ap₂, sym, ◌∙◌, if_both, String, eq_refl, some}
use rust_mono.Prelude.Result.{Result, ok, err}
use rust_mono.Prelude.HashMap as Map
use rust_mono.Prelude.HashMap.{HashMap, get-insert}
use rust_mono.Prelude.Text.{glue}
use rust_mono.Prelude.Text.Split.{Free}
use rust_mono.Routing.TopicPath.{TopicPath, Hasher, new_service}
use rust_mono.Routing.TopicPath as TopicPath
use rust_mono.Routing.Parsing.{get_segments-new, ok_parts}
use rust_mono.Routing.Template.Laws.{parse_network-bare}
use rust_mono.Registry.{
  ServiceState, Service, initialized, error, get_service_state, update_service_state,
  register_local_service,
}
use rust_mono.Node.{RequestContext, Node, Environment, if_running, node_changed, notify_node_change}
use rust_mono.Node.Lifecycle.{set_state, initialized_service, add_service_at, add_service}
use rust_mono.Node.Lifecycle.States.{states}
use rust_mono.Contexts.RegistryService.{
  Values, state_found, handle_service_state, extract_service_path,
}

-- The state after the initialization of a service.
abbrev pub state_after {ℓ} : {X : Type ℓ} → Result X (Unit {0}) → ServiceState
state_after (ok u) = initialized
state_after (err e) = error

-- The path of a service that was parsed is that of the service's plain topic.
pub new-path_of_service :
    (hasher : Hasher) (path network : String) (topic : TopicPath)
    → Free ":" path
    → TopicPath.new hasher path network ≡ ok topic
    → topic.path ≡ glue ":" network path
new-path_of_service hasher path network topic bare h =
    let (parts, parsed, _, text, _) = get_segments-new hasher path network topic h in
    let (same_n, same_r) =
      ok_parts network path parts.0 parts.1 (sym (parse_network-bare path network bare) ∙ parsed) in
    text ∙ sym (ap₂ (glue ":") same_n same_r)

module _ {F C FS V X W : Type 0} where
  -- What is known of the state at a path does not depend on the rest of a change.
  states-if_running : (n : Node F C FS V X W) → states (if_running n) ≡ states n
  unfolding if_running node_changed notify_node_change
  states-if_running n =
      if_both (λ (m : Node F C FS V X W). states m ≡ states n) n.running _ n refl refl

module _ {F C FS V X W : Type 0} (env : Environment F C FS V X W) (to : Values FS V) where
  -- The state that the handler looks up.
  pub handle_service_state_lem :
      (context : RequestContext) (path : String) (n : Node F C FS V X W)
      → Map.get "service_path" context.path_params ≡ some path
      → handle_service_state env to context n
        ≡ state_found env to (Map.get (glue ":" context.topic_path.network_id path) (states n))
  unfolding handle_service_state extract_service_path get_service_state new_service
  handle_service_state_lem context path n given = rw given refl

  get-initialized_service :
      (service : Service) (topic : TopicPath) (r : Node F C FS V X W × Result X (Unit {0}))
      → Map.get topic.path (states (initialized_service env service topic r).0)
        ≡ some (state_after r.1)
  unfolding set_state update_service_state register_local_service
  get-initialized_service service topic (n, err e) =
      get-insert topic.path topic.path error (states n) ∙ rw (eq_refl topic.path) refl
  get-initialized_service service topic (n, ok u) =
      ap (Map.get topic.path) (states-if_running _)
      ∙ get-insert topic.path topic.path initialized (Map.insert topic.path initialized (states n))
      ∙ rw (eq_refl topic.path) refl

  -- After `add_service` of a service whose path has no colon and is well written, the registry
  -- service answers a question for that path in the node's network with the state `Initialized`, or
  -- `Error` if the service's initialization failed.
  pub handle_service_state-add_service :
      (context : RequestContext) (service : Service) (topic : TopicPath) (n : Node F C FS V X W)
      → Free ":" service.path
      → TopicPath.new env.hasher service.path n.network_id ≡ ok topic
      → context.topic_path.network_id ≡ n.network_id
      → Map.get "service_path" context.path_params ≡ some service.path
      → handle_service_state env to context (add_service env service n).0
        ≡ ok (to.of_state (state_after (env.init_service service topic n).1))
  unfolding add_service
  handle_service_state-add_service context service topic n bare parsed network given =
      handle_service_state_lem context service.path (add_service env service n).0 given
      ∙ ap (state_found env to) (
          ap₂ (λ (k : String) (m : Node F C FS V X W). Map.get k (states m))
            (ap (λ k. glue ":" k service.path) network
              ∙ sym (new-path_of_service env.hasher service.path n.network_id topic bare parsed))
            (ap (λ o. (add_service_at env service n o).0) parsed)
          ∙ get-initialized_service service topic (env.init_service service topic n))
