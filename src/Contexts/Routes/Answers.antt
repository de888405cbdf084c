-- ===== src/Contexts/Routes/Answers.antt =====
-- runar-node/src/services/registry_service.rs and runar-node/src/node.rs: how a request for the
-- state of a service is answered.
use rust_mono.Prelude.{◌≡◌, refl, ap, sym, ◌∙◌, Bool, true, false, String, Option, some, []}
use rust_mono.Prelude.Result.{Result, ok}
use rust_mono.Prelude.HashMap as Map
use rust_mono.Prelude.Text.{glue}
use mathlib.Core.Path.{subst}
use rust_mono.Routing.TopicPath.{TopicPath, get_segments}
use rust_mono.Routing.TopicPath as TopicPath
use rust_mono.Trie.Search.{find}
use rust_mono.Trie.Networks.{IsRegistry}
use rust_mono.Registry.{register_local_action_handler, get_local_action_handler}
use rust_mono.Node.{
  local_handler, NodeError, RequestContext, Node, Environment, register_action_handler,
}
use rust_mono.Node.Requests.{typed, request}
use rust_mono.Node.Lifecycle.States.{states}
use rust_mono.Contexts.RegistryService.{
  Values, Closures, state_found, handle_service_state, type_registered, init_registry,
}
use rust_mono.Contexts.States.{handle_service_state_lem}
use rust_mono.Contexts.Routes.{state_text, state_question, state_context, local_context-state}
use rust_mono.Contexts.Routes.Registered.{
  registry_context, with_actions, init_registry-with_actions, get_local_action_handler-with_actions,
}

module _ {F C FS V X W : Type 0} (env : Environment F C FS V X W) (to : Values FS V) {T : Type 0}
    (as_type : V → Result X T) where
  -- The state that is known of a service, as the type that is asked for, or null.
  abbrev pub answered :
      String
      → TopicPath
      → Node F C FS V X W
      → Node F C FS V X W
      → Node F C FS V X W × Result (NodeError X) T
  answered service q after n =
      typed env as_type
        (after, state_found env to (Map.get (glue ":" q.network_id service) (states n)))

module _ {F C FS V X W : Type 0} (env : Environment F C FS V X W) (to : Values FS V)
    (closures : Closures F) where
  -- Of the closures that the node calls, the one for states can be told from all others, and it runs
  -- `handle_service_state`.
  pub record IsTold (is_state : F → Bool) : Type 0 where
    pub known : is_state closures.service_state ≡ true
    pub only : (f : F) → is_state f ≡ true → f ≡ closures.service_state
    pub runs :
        (payload : Option V) (context : RequestContext) (n : Node F C FS V X W)
        → env.call_local closures.service_state payload context n
          ≡ (n, handle_service_state env to context n)

  type_registered_lem :
      (n : Node F C FS V X W) (r : W × Result X (Unit {0}))
      → (type_registered env to closures n r).0 ≡ record n { world = r.0 }
  type_registered_lem n (world, outcome) = refl

  module _ {T : Type 0} (as_type : V → Result X T) (is_state : F → Bool) (told : IsTold is_state)
      (path service : String) (q : TopicPath) (payload : Option V)
      (asked : get_segments q ≡ state_question service) (concrete : q.is_pattern ≡ false) where
    -- Where the closure is found for a path, the node answers.
    request-selected :
        (n : Node F C FS V X W) (registered : TopicPath)
        → TopicPath.new env.hasher path n.network_id ≡ ok q
        → get_local_action_handler n.service_registry q
          ≡ some (local_handler closures.service_state, registered)
        → registered.cached_action_path ≡ state_text
        → request env as_type path payload n ≡ answered env to as_type service q n n
    unfolding request Map.get
    request-selected n registered parsed selected at_state =
        rw
          (
            parsed,
            selected,
            local_context-state q service asked registered at_state,
            told.runs payload (state_context q service) n,
            handle_service_state_lem env to (state_context q service) service n refl,
          )
          refl

    request-with_actions :
        (n : Node F C FS V X W) (world : W)
        → TopicPath.new env.hasher path n.network_id ≡ ok q
        → IsRegistry n.service_registry.local_action_handlers
        → find n.service_registry.local_action_handlers q ≡ []
        → request env as_type path payload
            (record (with_actions env to closures q.network_id n) { world = world })
          ≡ answered env to as_type service q
              (record (with_actions env to closures q.network_id n) { world = world })
              n
    unfolding with_actions register_action_handler register_local_action_handler
    request-with_actions n world parsed m nothing =
        let (registered, selected, at_state) =
          get_local_action_handler-with_actions env to closures is_state q service asked concrete
            told.known told.only n m nothing in
        request-selected (record (with_actions env to closures q.network_id n) { world = world })
          registered parsed selected at_state

    -- After the initialization of the registry service, whatever its serializer answers, a request
    -- for `$registry/services/{service}/state` whose path is no pattern, where no handler was found
    -- before, is answered by the state that is known for the service in the path's network, or by
    -- null if none is, and changes nothing more; of the closures that the node calls, the one for
    -- states can be told from all others and runs `handle_service_state`, and the trie's maps hold
    -- each key once.
    pub request-init_registry :
        (register_type : W → W × Result X (Unit {0})) (n : Node F C FS V X W)
        → TopicPath.new env.hasher path n.network_id ≡ ok q
        → IsRegistry n.service_registry.local_action_handlers
        → find n.service_registry.local_action_handlers q ≡ []
        → request env as_type path payload
            (init_registry env to closures register_type (registry_context q.network_id) n).0
          ≡ answered env to as_type service q
              (init_registry env to closures register_type (registry_context q.network_id) n).0
              n
    request-init_registry register_type n parsed m nothing =
        let actions = with_actions env to closures q.network_id n in
        let made =
          ap (λ (r : Node F C FS V X W × Result (NodeError X) (Unit {0})). r.0)
            (init_registry-with_actions env to closures q.network_id register_type n)
          ∙ type_registered_lem actions (register_type actions.world) in
        subst
          (λ (after : Node F C FS V X W).
            request env as_type path payload after ≡ answered env to as_type service q after n)
          (sym made) (request-with_actions n (register_type actions.world).0 parsed m nothing)
