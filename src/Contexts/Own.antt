-- ===== src/Contexts/Own.antt =====
-- runar-node/src/services/mod.rs: what a service gets when it asks for its own action.
use rust_mono.Prelude.{
  ◌≡◌, refl, ap, ◌∙◌, Bool, true, false, String, Option, none, some, All, arith,
}
use rust_mono.Prelude.Result.{Result, ok}
use rust_mono.Prelude.Text.{empty, glue}
use rust_mono.Prelude.Text.Split.{Free, has_char-glue}
use rust_mono.Routing.TopicPath.{TopicPath}
use rust_mono.Routing.TopicPath as TopicPath
use rust_mono.Trie.Search.{find}
use rust_mono.Trie.Networks.{IsRegistry}
use rust_mono.Registry.Actions.{serves_self}
use rust_mono.Network.{ActionMetadata}
use rust_mono.Node.{Handler, Node, Environment, register_action_handler}
use rust_mono.Node.Requests.{request_context, local_context, call_handler, typed}
use rust_mono.Node.Requests.Dispatch.{request-register_local_action_handler}
use rust_mono.Contexts.{
  full_path, event_context, lifecycle_context, action_description, register_own_action,
  request_in_context, request_in_event, request_in_lifecycle,
}
use rust_mono.Contexts.Paths.{full_path-relative, new-glue}

module _ {F C FS V X W : Type 0} (env : Environment F C FS V X W) where
  -- What `register_action` says of an action.
  abbrev pub own_metadata : TopicPath → String → ActionMetadata FS
  own_metadata topic name = record {
    name = name;
    description = action_description name topic.service_path;
    input_schema = none;
    output_schema = none;
  }

  pub register_own_action-ok :
      (topic q : TopicPath) (name : String) (handler : Handler F) (n : Node F C FS V X W)
      → TopicPath.new env.hasher (glue "/" topic.service_path name) topic.network_id ≡ ok q
      → register_own_action env (lifecycle_context topic) name handler n
        ≡ (register_action_handler q handler (some (own_metadata topic name)) n, ok tt)
  unfolding register_own_action lifecycle_context
  register_own_action-ok topic q name handler n h = rw h refl

  own_path :
      (topic q : TopicPath) (name d : String)
      → Free ":" topic.network_id × (empty topic.network_id ≡ false)
      → Free ":" topic.service_path
      → Free ":" name × Free "/" name
      → TopicPath.new env.hasher (glue "/" topic.service_path name) topic.network_id ≡ ok q
      → TopicPath.new env.hasher (full_path topic.network_id topic.service_path name) d ≡ ok q
  own_path topic q name d (free, some_network) service (bare, simple) h =
      ap (λ p. TopicPath.new env.hasher p d)
        (full_path-relative topic.network_id topic.service_path name bare ∙ rw simple refl)
      ∙ (new-glue env.hasher (glue "/" topic.service_path name) topic.network_id d q free
          some_network (has_char-glue ":" "/" topic.service_path name service bare (omega arith))
          h).0

  -- `register_action` of a mere name succeeds, and after it `request` of the name from each of the
  -- service's three contexts runs one and the same handler, with the parameters by its registration
  -- path, whichever network the node's own is; every property of a handler and a path that the new
  -- handler has with the path it is registered under, and all local ones found before at the path
  -- with theirs, that handler has with its own registration path. The path is well written and no
  -- pattern, the network is neither empty nor has a colon, as the service has none, and the trie's
  -- maps hold each key once.
  pub request-register_own_action :
      {T : Type 0} (as_type : V → Result X T) (topic q : TopicPath) (name : String)
      (payload : Option V) (n : Node F C FS V X W) (handler : Handler F)
      (p : Handler F → TopicPath → Bool)
      → Free ":" topic.network_id × (empty topic.network_id ≡ false)
      → Free ":" topic.service_path
      → Free ":" name × Free "/" name
      → TopicPath.new env.hasher (glue "/" topic.service_path name) topic.network_id ≡ ok q
      → q.is_pattern ≡ false
      → IsRegistry n.service_registry.local_action_handlers
      → p handler q ≡ true
      → All (λ x. p x.0 x.1 ≡ true) (find n.service_registry.local_action_handlers q)
      → (h : Handler F) × (registered : TopicPath) × (after : Node F C FS V X W) × (p h registered
          ≡ true)
        × (register_own_action env (lifecycle_context topic) name handler n ≡ (after, ok tt))
        × (request_in_context env as_type (request_context topic) name payload after
            ≡ typed env as_type (call_handler env h payload (local_context q registered) after))
        × (request_in_event env as_type (event_context topic) name payload after
            ≡ typed env as_type (call_handler env h payload (local_context q registered) after))
        × (request_in_lifecycle env as_type (lifecycle_context topic) name payload after
            ≡ typed env as_type (call_handler env h payload (local_context q registered) after))
  unfolding request_in_context request_in_event request_in_lifecycle request_context
      lifecycle_context
  request-register_own_action as_type topic q name payload n handler p network service simple parsed
        concrete m accepted others =
      let metadata : Option (ActionMetadata FS) = some (own_metadata topic name) in
      let (h, registered, good, asked, _) =
        request-register_local_action_handler env as_type
          (full_path topic.network_id topic.service_path name) q q payload n handler metadata p
          (own_path topic q name n.network_id network service simple parsed) m concrete
          (serves_self q) accepted others in
      (
        h,
        registered,
        register_action_handler q handler metadata n,
        good,
        register_own_action-ok topic q name handler n parsed,
        asked,
        asked,
        asked,
      )
