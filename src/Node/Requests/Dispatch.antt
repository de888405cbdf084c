-- ===== src/Node/Requests/Dispatch.antt =====
-- runar-node/src/node.rs: which handler a request runs.
use rust_mono.Prelude.{
  ℕ, zero, suc, ◌+◌, ◌%◌, ◌^◌, ◌<◌, ◌≡◌, refl, Bool, true, false, String, Option, none, some, List,
  [], ◌∷◌, All, get_elem?, length, arith,
}
use rust_mono.Prelude.Result.{Result, ok}
use rust_mono.Routing.TopicPath.{TopicPath, Fallible}
use rust_mono.Routing.TopicPath as TopicPath
use rust_mono.Trie.Search.{find}
use rust_mono.Trie.Networks.{IsRegistry}
use rust_mono.Trie.Networks.Own.{serves}
use rust_mono.LoadBalancing.{select_handler}
use rust_mono.Registry.{get_local_action_handler, get_remote_action_handlers}
use rust_mono.Registry.Actions.{get_local_action_handler-register_local_action_handler}
use rust_mono.Network.{ActionMetadata}
use rust_mono.Node.{Handler, Node, Environment, register_action_handler}
use rust_mono.Node.Requests.{
  request_context, local_context, call_handler, local_request, typed, call_remote, request,
}

get_elem?-of_lt {ℓ} :
    {A : Type ℓ} (xs : List A) (i : ℕ) → i < length xs → (a : A) × (get_elem? xs i ≡ some a)
get_elem?-of_lt [] i h = absurd (omega (arith, h))
get_elem?-of_lt (x ∷ xs) zero h = (x, refl)
get_elem?-of_lt (x ∷ xs) (suc i) h = get_elem?-of_lt xs i (omega (arith, h))

module _ {F C FS V X W T : Type 0} (env : Environment F C FS V X W) (as_type : V → Result X T) where
  selected_in_range :
      (topic : TopicPath) (payload : Option V) (n : Node F C FS V X W) (h : Handler F)
      (hs : List (Handler F))
      → (selected : Handler F) × (get_elem?
            (h ∷ hs)
            (n.load_balancer.current_index % length (h ∷ hs))
          ≡ some selected)
        × (call_remote env as_type topic payload n (h ∷ hs)
            ≡ typed env as_type (
                call_handler env selected payload (request_context topic) (record n {
                  load_balancer = record {
                    current_index = (n.load_balancer.current_index + 1) % 2 ^ 64;
                  };
                })))
  unfolding select_handler
  selected_in_range topic payload n h hs =
      let (selected, at) =
        get_elem?-of_lt (h ∷ hs) (n.load_balancer.current_index % length (h ∷ hs)) (omega arith) in
      (selected, at, rw at refl)

  -- If a path has no local handler but some remote ones, the index that `request` takes of them is
  -- in range, even after the counter has wrapped: it runs the handler at the counter modulo their
  -- number, and before that moves the counter on modulo 2^64.
  pub request-select_handler :
      (path : String) (topic : TopicPath) (payload : Option V) (n : Node F C FS V X W)
      (h : Handler F) (hs : List (Handler F))
      → TopicPath.new env.hasher path n.network_id ≡ ok topic
      → get_local_action_handler n.service_registry topic ≡ none
      → get_remote_action_handlers n.service_registry topic ≡ h ∷ hs
      → (selected : Handler F) × (get_elem?
            (h ∷ hs)
            (n.load_balancer.current_index % length (h ∷ hs))
          ≡ some selected)
        × (request env as_type path payload n
            ≡ typed env as_type (
                call_handler env selected payload (request_context topic) (record n {
                  load_balancer = record {
                    current_index = (n.load_balancer.current_index + 1) % 2 ^ 64;
                  };
                })))
  unfolding request
  request-select_handler path topic payload n h hs parsed no_local remote =
      let (selected, at, called) = selected_in_range topic payload n h hs in
      (selected, at, simp (parsed, no_local, remote) called)

  -- After `register_action_handler` of a local handler under a topic that serves a concrete path,
  -- `request` and `local_request` for the path both run one and the same handler in a context with
  -- its registration path's parameters, whatever remote handlers there are; every property of a
  -- handler and a path that the new handler has with its topic, and all local ones found before
  -- with their registration paths, it has with its own, and the trie's maps hold each key once.
  pub request-register_local_action_handler :
      (path : String) (topic q : TopicPath) (payload : Option V) (n : Node F C FS V X W)
      (handler : Handler F) (metadata : Option (ActionMetadata FS))
      (p : Handler F → TopicPath → Bool)
      → TopicPath.new env.hasher path n.network_id ≡ ok q
      → IsRegistry n.service_registry.local_action_handlers
      → q.is_pattern ≡ false
      → serves topic q ≡ true
      → p handler topic ≡ true
      → All (λ x. p x.0 x.1 ≡ true) (find n.service_registry.local_action_handlers q)
      → (h : Handler F) × (registered : TopicPath) × (p h registered ≡ true)
        × (request env as_type path payload (register_action_handler topic handler metadata n)
            ≡ typed env as_type (
                call_handler env h payload
                  (local_context q registered)
                  (register_action_handler topic handler metadata n)))
        × (local_request env path payload (register_action_handler topic handler metadata n)
            ≡ call_handler env h payload
                (local_context q registered)
                (register_action_handler topic handler metadata n))
  unfolding request local_request register_action_handler
  request-register_local_action_handler path topic q payload n handler metadata p parsed m concrete
        fit accepted others =
      let (h, registered, found, good) =
        get_local_action_handler-register_local_action_handler n.service_registry topic q handler
          metadata p m concrete fit accepted others in
      (h, registered, good, simp (parsed, found) refl, simp (parsed, found) refl)
