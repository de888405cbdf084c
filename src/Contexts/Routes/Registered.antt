-- ===== src/Contexts/Routes/Registered.antt =====
-- runar-node/src/services/registry_service.rs: what is registered when the registry service is
-- initialized, and what a request finds of it.
use rust_mono.Prelude.{
  ℕ, ◌≡◌, refl, ap, ◌∙◌, Bool, true, false, ◌&&◌, String, ◌==◌, eq_iff, Option, some, [], ◌∷◌,
  if◌then◌else◌, arith,
}
use rust_mono.Prelude.Result.{Result}
use rust_mono.Prelude.Text.{glue}
use rust_mono.Prelude.Bag.{total}
use rust_mono.Routing.TopicPath.{TopicPath, get_segments, new_service}
use rust_mono.Trie.{PathTrie, set_value}
use rust_mono.Trie.Search.{find_matches, find}
use rust_mono.Trie.Networks.{IsRegistry, set_values-IsRegistry}
use rust_mono.Registry.{get_local_action_handler, register_local_action_handler}
use rust_mono.Registry.Actions.{first_accepted, found, found-set_value, total-find_matches}
use rust_mono.Network.{ActionMetadata}
use rust_mono.Node.{
  Handler, local_handler, remote_handler, Node, Environment, register_action_handler,
}
use rust_mono.Contexts.{LifecycleContext, lifecycle_context}
use rust_mono.Contexts.Own.{own_metadata, register_own_action-ok}
use rust_mono.Contexts.RegistryService.{
  Values, Closures, type_registered, init_registry, register_list_services_action,
  register_service_info_action, register_service_state_action,
}
use rust_mono.Contexts.Routes.{
  state_text, list_action, info_action, state_action, state_question, serves-list, serves-info,
  serves-state,
}

abbrev pub registry_context : {V : Type 0} → String → LifecycleContext V
registry_context network = lifecycle_context (new_service network "$registry")

set_value-IsRegistry :
    {A : Type 0} (topic : TopicPath) (x : A) (t : PathTrie A)
    → IsRegistry t
    → IsRegistry (set_value topic x t)
unfolding set_value
set_value-IsRegistry topic x t m = set_values-IsRegistry topic (x ∷ []) t m

module _ {F C FS V X W : Type 0} (env : Environment F C FS V X W) (to : Values FS V)
    (closures : Closures F) where
  abbrev Stored : Type 0
  Stored = Handler F × TopicPath × Option (ActionMetadata FS)

  abbrev stored : TopicPath → String → String → F → Stored
  stored topic network name f =
      (local_handler f, topic, some (own_metadata env (new_service network "$registry") name))

  -- One of the three registrations.
  abbrev with_action : TopicPath → String → String → F → Node F C FS V X W → Node F C FS V X W
  with_action topic network name f n =
      register_action_handler topic (local_handler f)
        (some (own_metadata env (new_service network "$registry") name)) n

  unfoldable pub with_actions : String → Node F C FS V X W → Node F C FS V X W
  with_actions network n =
      with_action (state_action env.hasher network).topic network "services/{service_path}/state"
        closures.service_state
        (with_action (info_action env.hasher network).topic network "services/{service_path}"
          closures.service_info
          (with_action (list_action env.hasher network).topic network "services/list"
            closures.list_services n))

  pub init_registry-with_actions :
      (network : String) (register_type : W → W × Result X (Unit {0})) (n : Node F C FS V X W)
      → init_registry env to closures register_type (registry_context network) n
        ≡ type_registered env to closures
            (with_actions network n)
            (register_type (with_actions network n).world)
  unfolding init_registry register_list_services_action register_service_info_action
      register_service_state_action glue new_service with_actions
  init_registry-with_actions network register_type n =
      let topic = new_service network "$registry" in
      let list = list_action env.hasher network in
      let info = info_action env.hasher network in
      let state = state_action env.hasher network in
      rw
        (
          register_own_action-ok env topic list.topic "services/list"
              (local_handler closures.list_services) n list.parsed,
          register_own_action-ok env topic info.topic "services/{service_path}"
              (local_handler closures.service_info) _ info.parsed,
          register_own_action-ok env topic state.topic "services/{service_path}/state"
              (local_handler closures.service_state) _ state.parsed,
        )
        refl

  module _ (is_state : F → Bool) where
    -- A handler that is taken for that of states, at its path.
    abbrev tells_state : Handler F → TopicPath → Bool
    tells_state (local_handler f) topic = is_state f && topic.cached_action_path == state_text
    tells_state (remote_handler service name) topic = false

    tells_state_sound :
        ((f : F) → is_state f ≡ true → f ≡ closures.service_state)
        → (h : Handler F) (topic : TopicPath) → tells_state h topic ≡ true
        → (h ≡ local_handler closures.service_state) × (topic.cached_action_path ≡ state_text)
    tells_state_sound told (local_handler f) topic here = (
      ap local_handler (told f (ground arith)),
      (eq_iff topic.cached_action_path state_text).0 (ground arith),
    )
    tells_state_sound told (remote_handler service name) topic here = cc here

    module _ (q : TopicPath) (service : String) (asked : get_segments q ≡ state_question service)
        (concrete : q.is_pattern ≡ false) (known : is_state closures.service_state ≡ true) where
      found-with_actions :
          (w : Stored → ℕ) (n : Node F C FS V X W)
          → IsRegistry n.service_registry.local_action_handlers
          → find n.service_registry.local_action_handlers q ≡ []
          → found w (with_actions q.network_id n).service_registry.local_action_handlers q
            ≡ w (
                stored
                  (state_action env.hasher q.network_id).topic
                  q.network_id
                  "services/{service_path}/state"
                  closures.service_state)
      unfolding with_actions register_action_handler register_local_action_handler
      found-with_actions w n m nothing =
          let list = (list_action env.hasher q.network_id).topic in
          let info = (info_action env.hasher q.network_id).topic in
          let state = (state_action env.hasher q.network_id).topic in
          let x1 = stored list q.network_id "services/list" closures.list_services in
          let x2 = stored info q.network_id "services/{service_path}" closures.service_info in
          let x3 =
            stored state q.network_id "services/{service_path}/state" closures.service_state in
          let t = n.service_registry.local_action_handlers in
          let m1 = set_value-IsRegistry list x1 t m in
          let m2 = set_value-IsRegistry info x2 (set_value list x1 t) m1 in
          ground (
            arith,
            found-set_value w list q x1 t m concrete,
            found-set_value w info q x2 (set_value list x1 t) m1 concrete,
            found-set_value w state q x3 (set_value info x2 (set_value list x1 t)) m2 concrete,
            serves-list env.hasher q service asked,
            serves-info env.hasher q service asked,
            serves-state env.hasher q service asked,
            ap (total w) nothing,
          )

      pub get_local_action_handler-with_actions :
          ((f : F) → is_state f ≡ true → f ≡ closures.service_state)
          → (n : Node F C FS V X W) → IsRegistry n.service_registry.local_action_handlers
          → find n.service_registry.local_action_handlers q ≡ []
          → (registered : TopicPath) × (get_local_action_handler
                (with_actions q.network_id n).service_registry
                q
              ≡ some (local_handler closures.service_state, registered))
            × (registered.cached_action_path ≡ state_text)
      unfolding get_local_action_handler
      get_local_action_handler-with_actions told n m nothing =
          let trie = (with_actions q.network_id n).service_registry.local_action_handlers in
          let rejected : Stored → ℕ = λ x. if tells_state x.0 x.1 then 0 else 1 in
          let (h, registered, selected, accepted) =
            first_accepted tells_state (find_matches trie q)
              (ground (
                arith,
                total-find_matches (λ x. 1) trie q,
                found-with_actions (λ x. 1) n m nothing,
              ))
              (total-find_matches rejected trie q
                ∙ found-with_actions rejected n m nothing
                ∙ rw (known, (state_action env.hasher q.network_id).action) refl) in
          let (same, at_state) = tells_state_sound told h registered accepted in
          (registered, selected ∙ ap (λ (f : Handler F). some (f, registered)) same, at_state)
