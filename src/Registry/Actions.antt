-- ===== src/Registry/Actions.antt =====
-- runar-node/src/services/service_registry.rs: what is found after a registration of an action
-- handler, of a remote service and of a state.
use mathlib.Core.List.{flat_map}
use mathlib.Core.Path.{subst}
use rust_mono.Prelude.{
  ℕ, ◌+◌, ◌<◌, ◌≡◌, refl, sym, ap, Bool, true, false, ◌&&◌, String, ◌==◌, eq_refl, Option, some,
  List, [], ◌∷◌, ◌++◌, All, arith, if◌then◌else◌,
}
use rust_mono.Prelude.Result.{ok, err}
use rust_mono.Prelude.Bag.{total, total-append, total-map, SameItems}
use rust_mono.Routing.TopicPath.{TopicPath, get_segments}
use rust_mono.Trie.{PathTrie, PathTrieMatch, set_value}
use rust_mono.Trie.Search.{find_matches, find}
use rust_mono.Trie.Entries.{keys, segment_kind, is_tail, is_star, is_param, is_text}
use rust_mono.Trie.Entries.Find.{fits}
use rust_mono.Trie.Networks.Own.{serves}
use rust_mono.Trie.Networks.{IsRegistry, find-set_values}
use rust_mono.Registry.{
  ServiceRegistry, RemoteService, service_already_exists, register_remote_service,
  register_local_action_handler, register_remote_action_handler, get_local_action_handler,
  get_remote_action_handlers, get_action_handler, first_handler, if_no_service, add_handler,
}

-- A path fits the key that it is registered under.
pub fits-keys_self : (segments : List String) → fits (keys segments) segments ≡ true
unfolding fits keys
fits-keys_self [] = refl
fits-keys_self (s ∷ rest) = elim (segment_kind s) [
  | is_tail t a b ↦ rw t refl
  | is_star t a b ↦ rw (t, a) (fits-keys_self rest)
  | is_param t a b ↦ rw (t, a, b) (fits-keys_self rest)
  | is_text t a b ↦ rw (t, a, b, eq_refl s) (fits-keys_self rest)
]

pub serves_self : (topic : TopicPath) → serves topic topic ≡ true
serves_self topic = rw (eq_refl topic.network_id, fits-keys_self (get_segments topic)) refl

module _ {X : Type 0} where
  -- The weight of what a search finds.
  abbrev pub found : (X → ℕ) → PathTrie X → TopicPath → ℕ
  found w trie q = total w (find trie q)

  pub total-find_matches :
      (w : X → ℕ) (trie : PathTrie X) (q : TopicPath)
      → total (λ m. w m.content) (find_matches trie q) ≡ found w trie q
  unfolding find
  total-find_matches w trie q = sym (total-map w (λ m. m.content) (find_matches trie q))

  pub found-set_value :
      (w : X → ℕ) (topic q : TopicPath) (x : X) (trie : PathTrie X)
      → IsRegistry trie
      → q.is_pattern ≡ false
      → found w (set_value topic x trie) q ≡ found w trie q + (if serves topic q then w x else 0)
  unfolding set_value
  found-set_value w topic q x trie m concrete = ground (
    arith,
    find-set_values topic q (x ∷ []) trie m concrete w,
    total-append w (find trie q) (
        if topic.network_id == q.network_id && fits (keys (get_segments topic)) (get_segments q)
        then x ∷ []
        else []),
  )

pub total-flat_map :
    {A B : Type 0} (w : B → ℕ) (f : A → List B) (xs : List A)
    → total w (flat_map f xs) ≡ total (λ x. total w (f x)) xs
unfolding flat_map
total-flat_map w f [] = refl
total-flat_map w f (x ∷ xs) =
    omega (arith, total-append w (f x) (flat_map f xs), total-flat_map w f xs)

module _ {H : Type 0} where
  -- The list that `register_remote_action_handler` takes to be that of the topic.
  abbrev pub first_list : List (PathTrieMatch (List H)) → List H
  first_list [] = []
  first_list (m ∷ ms) = m.content

  add_handler-eq :
      (topic : TopicPath) (handler : H) (ms : List (PathTrieMatch (List H)))
      (trie : PathTrie (List H))
      → add_handler topic handler ms trie ≡ set_value topic (first_list ms ++ handler ∷ []) trie
  add_handler-eq topic handler [] trie = refl
  add_handler-eq topic handler (m ∷ ms) trie = refl

module _ {H AM : Type 0} where
  -- The first of a list of matches, some of which must be.
  pub first_accepted :
      (p : H → TopicPath → Bool) (ms : List (PathTrieMatch (H × TopicPath × Option AM)))
      → 0 < total (λ m. 1) ms
      → total (λ m. if p m.content.0 m.content.1 then 0 else 1) ms ≡ 0
      → (h : H) × (registered : TopicPath) × (first_handler ms ≡ some (h, registered))
        × (p h registered ≡ true)
  first_accepted p [] pos zero_weight = absurd (omega (arith, pos))
  first_accepted p (m ∷ ms) pos zero_weight =
      (m.content.0, m.content.1, refl, ground (arith, zero_weight))

  total_accepted :
      (p : H → TopicPath → Bool) (xs : List (H × TopicPath × Option AM))
      → All (λ x. p x.0 x.1 ≡ true) xs
      → total (λ x. if p x.0 x.1 then 0 else 1) xs ≡ 0
  total_accepted p [] all = refl
  total_accepted p (x ∷ xs) (here, later) = ground (arith, here, total_accepted p xs later)

module _ {H C AM FS : Type 0} where
  pub get_local_action_handler-register_local_action_handler :
      (r : ServiceRegistry H C AM FS) (topic q : TopicPath) (handler : H) (metadata : Option AM)
      (p : H → TopicPath → Bool)
      → IsRegistry r.local_action_handlers
      → q.is_pattern ≡ false
      → serves topic q ≡ true
      → p handler topic ≡ true
      → All (λ x. p x.0 x.1 ≡ true) (find r.local_action_handlers q)
      → (h : H) × (registered : TopicPath) × (get_local_action_handler
            (register_local_action_handler r topic handler metadata)
            q
          ≡ some (h, registered))
        × (p h registered ≡ true)
  unfolding get_local_action_handler register_local_action_handler
  get_local_action_handler-register_local_action_handler r topic q handler metadata p m concrete fit
        accepted others =
      let x : H × TopicPath × Option AM = (handler, topic, metadata) in
      let trie = r.local_action_handlers in
      let after = set_value topic x trie in
      let rejected : H × TopicPath × Option AM → ℕ = λ y. if p y.0 y.1 then 0 else 1 in
      first_accepted p (find_matches after q)
        (ground (
          arith,
          total-find_matches (λ y. 1) after q,
          found-set_value (λ y. 1) topic q x trie m concrete,
          fit,
        ))
        (ground (
          arith,
          total-find_matches rejected after q,
          found-set_value rejected topic q x trie m concrete,
          total_accepted p (find trie q) others,
          accepted,
        ))

  -- After a local handler is registered under a topic that serves a concrete path,
  -- `get_action_handler` returns a handler for the path; it has every property that the new handler
  -- and all local ones found before share, whatever remote handlers there are; the trie's maps hold
  -- each key once.
  pub get_action_handler-register_local_action_handler :
      (r : ServiceRegistry H C AM FS) (topic q : TopicPath) (handler : H) (metadata : Option AM)
      (p : H → Bool)
      → IsRegistry r.local_action_handlers
      → q.is_pattern ≡ false
      → serves topic q ≡ true
      → p handler ≡ true
      → All (λ x. p x.0 ≡ true) (find r.local_action_handlers q)
      → (h : H) × (get_action_handler (register_local_action_handler r topic handler metadata) q
          ≡ some h)
        × (p h ≡ true)
  unfolding get_action_handler
  get_action_handler-register_local_action_handler r topic q handler metadata p m concrete fit
        accepted others =
      let (h, registered, found, good) =
        get_local_action_handler-register_local_action_handler r topic q handler metadata
          (λ h t. p h) m concrete fit accepted others in
      (h, rw found refl, good)

  -- The result of a registration when something is found under the topic.
  exists_already :
      (r : ServiceRegistry H C AM FS) (service : RemoteService)
      (ms : List (PathTrieMatch RemoteService))
      → 0 < total (λ m. 1) ms
      → if_no_service r service ms ≡ (r, err (service_already_exists service.service_topic))
  exists_already r service [] pos = ground arith
  exists_already r service (m ∷ ms) pos = refl

  stored_if_ok :
      (r after : ServiceRegistry H C AM FS) (service : RemoteService)
      (ms : List (PathTrieMatch RemoteService))
      → if_no_service r service ms ≡ (after, ok tt)
      → set_value service.service_topic service r.remote_services ≡ after.remote_services
  stored_if_ok r after service [] done = ap (λ o. (o.0).remote_services) done
  stored_if_ok r after service (m ∷ ms) done = cc (ap (λ o. o.1) done)

  -- After a remote service is registered, registering one under a concrete topic that the first
  -- one's topic serves returns the error that the service exists, and leaves the registry as it
  -- was; the trie's maps hold each key once.
  pub register_remote_service-register_remote_service :
      (r after : ServiceRegistry H C AM FS) (service again : RemoteService)
      → IsRegistry r.remote_services
      → again.service_topic.is_pattern ≡ false
      → serves service.service_topic again.service_topic ≡ true
      → register_remote_service r service ≡ (after, ok tt)
      → register_remote_service after again
        ≡ (after, err (service_already_exists again.service_topic))
  unfolding register_remote_service
  register_remote_service-register_remote_service r after service again m concrete fit done =
      let trie = r.remote_services in
      let topic = service.service_topic in
      let q = again.service_topic in
      let stored = stored_if_ok r after service (find_matches trie topic) done in
      exists_already after again (find_matches after.remote_services q) (
        subst (λ t. 0 < total (λ m'. 1) (find_matches t q)) stored
          (ground (
            arith,
            total-find_matches (λ y. 1) (set_value topic service trie) q,
            found-set_value (λ y. 1) topic q service trie m concrete,
            fit,
          )))

  -- After `register_remote_action_handler` under a topic that serves a concrete path,
  -- `get_remote_action_handlers` gives the handlers it gave before, those of the first match for
  -- the topic a second time, and the new one, up to order; the trie's maps hold each key once.
  pub get_remote_action_handlers-register_remote_action_handler :
      (r : ServiceRegistry H C AM FS) (topic q : TopicPath) (handler : H)
      → IsRegistry r.remote_action_handlers
      → q.is_pattern ≡ false
      → serves topic q ≡ true
      → SameItems (get_remote_action_handlers (register_remote_action_handler r topic handler) q) (
          get_remote_action_handlers r q
          ++ (first_list (find_matches r.remote_action_handlers topic) ++ handler ∷ []))
  unfolding get_remote_action_handlers register_remote_action_handler
  get_remote_action_handlers-register_remote_action_handler r topic q handler m concrete fit w =
      let trie = r.remote_action_handlers in
      let listed = first_list (find_matches trie topic) ++ handler ∷ [] in
      rw (add_handler-eq topic handler (find_matches trie topic) trie) (
        ground (
          arith,
          total-flat_map w (λ m. m.content) (find_matches (set_value topic listed trie) q),
          total-flat_map w (λ m. m.content) (find_matches trie q),
          total-find_matches (total w) (set_value topic listed trie) q,
          total-find_matches (total w) trie q,
          found-set_value (total w) topic q listed trie m concrete,
          total-append w (flat_map (λ m. m.content) (find_matches trie q)) listed,
          fit,
        ))
