-- ===== src/Node/Capabilities/Renamed.antt =====
-- runar-node/src/node.rs and runar-node/src/services/remote_service.rs: a remote service is stored by
-- its name and looked for by its path.
use rust_mono.Prelude.{
  ◌≡◌, refl, ap, ◌∙◌, true, false, String, eq_refl, none, some, List, [], ◌∷◌, arith,
}
use rust_mono.Prelude.Result.{Result, ok, err, and_then}
use rust_mono.Prelude.Bag.{total}
use rust_mono.Prelude.Int.{ltb_ℤ}
use rust_mono.Prelude.HashMap as Map
use rust_mono.Prelude.HashMap.{HashMap, get-insert}
use rust_mono.Routing.TopicPath.{TopicPath, Fallible, new_action_topic}
use rust_mono.Routing.TopicPath as TopicPath
use rust_mono.Trie.{PathTrie, PathTrieMatch, set_value}
use rust_mono.Trie.Search.{find_matches, find}
use rust_mono.Trie.Networks.{IsRegistry}
use rust_mono.Trie.Networks.Own.{serves}
use rust_mono.Registry.{
  RemoteService, service_not_found, if_no_service, register_remote_service,
  register_remote_action_handler, remove_remote_service, stop_all,
}
use rust_mono.Registry.Metadata.{ServiceMetadata}
use rust_mono.Registry.Actions.{found-set_value}
use rust_mono.Network.{ActionMetadata, NodeInfo}
use rust_mono.Node.{NodeError, of_registry, Node, Environment}
use rust_mono.Node.Capabilities.Versions.{add_new_peer-known_peers}
use rust_mono.Node.Capabilities as Capabilities
use rust_mono.Node.Capabilities.{
  created, create_all, register_action, init_remote, init_at, registered, register_all,
  create_from_capabilities, add_new_peer, removed, remove_at, remove_peer_services, know,
  process_known, process_remote_capabilities,
}

nothing_found {ℓ} : {X : Type ℓ} (xs : List X) → total (λ _. 1) xs ≡ 0 → xs ≡ []
nothing_found [] h = refl
nothing_found (x ∷ xs) h = absurd (omega (arith, h))

module _ {F C FS V X W : Type 0} (env : Environment F C FS V X W) where
  init_remote-remote_services :
      (service : RemoteService) (names : List String) (n : Node F C FS V X W)
      → (init_remote env service names n).service_registry.remote_services
        ≡ n.service_registry.remote_services
  unfolding init_remote register_remote_action_handler
  init_remote-remote_services service [] n = refl
  init_remote-remote_services service (name ∷ names) n =
      init_remote-remote_services service names _
      ∙ one (new_action_topic env.hasher service.service_topic name)
    where
      one :
          (t : Fallible TopicPath)
          → (register_action env service name n t).service_registry.remote_services
            ≡ n.service_registry.remote_services
      one (err e) = refl
      one (ok topic) = refl

  init_at-remote_services :
      (service : RemoteService) (n : Node F C FS V X W) (t : Fallible TopicPath)
      → (init_at env service n t).0.service_registry.remote_services
        ≡ n.service_registry.remote_services
  init_at-remote_services service n (err e) = refl
  init_at-remote_services service n (ok topic) =
      init_remote-remote_services service service.action_names n

  -- Nothing is found at a path that the service's topic does not serve, if nothing was.
  registered-find :
      (service : RemoteService) (n : Node F C FS V X W) (q : TopicPath)
      (ms : List (PathTrieMatch RemoteService))
      → IsRegistry n.service_registry.remote_services
      → q.is_pattern ≡ false
      → serves service.service_topic q ≡ false
      → find n.service_registry.remote_services q ≡ []
      → find
          (registered env service n
            (if_no_service n.service_registry service ms)).0.service_registry.remote_services
          q
        ≡ []
  registered-find service n q (m ∷ ms) registry concrete apart nothing = nothing
  registered-find service n q [] registry concrete apart nothing =
      ap (λ (t : PathTrie RemoteService). find t q)
        (init_at-remote_services service
          (record n {
            service_registry = record n.service_registry {
              remote_services =
                  set_value service.service_topic service n.service_registry.remote_services;
            };
          })
          (TopicPath.new env.hasher service.service_topic.path n.network_id))
      ∙ nothing_found _ (
          found-set_value (λ _. 1) service.service_topic q service
            n.service_registry.remote_services registry concrete
          ∙ rw (apart, nothing) (omega arith))

  remove_fails :
      (services : List (ServiceMetadata (ActionMetadata FS) FS))
      (s : ServiceMetadata (ActionMetadata FS) FS) (n : Node F C FS V X W) (q : TopicPath)
      → TopicPath.new env.hasher s.service_path s.network_id ≡ ok q
      → find n.service_registry.remote_services q ≡ []
      → remove_peer_services env (s ∷ services) n ≡ (n, err (of_registry (service_not_found q)))
  unfolding remove_peer_services remove_remote_service stop_all
  remove_fails services s n q parsed nothing = rw (parsed, nothing) refl

  and_then-done :
      (r : Node F C FS V X W × Result (NodeError X) (Unit {0}))
      → (and_then {B = Unit {0}} r (λ _ n. (n, ok tt))).0 ≡ r.0
  and_then-done (n, err e) = refl
  and_then-done (n, ok u) = refl

  add_new_peer-find :
      (info : NodeInfo FS) (s : ServiceMetadata (ActionMetadata FS) FS) (n : Node F C FS V X W)
      (named q : TopicPath)
      → info.services ≡ s ∷ []
      → n.network_transport ≡ true
      → TopicPath.new env.hasher s.name s.network_id ≡ ok named
      → q.is_pattern ≡ false
      → serves named q ≡ false
      → IsRegistry n.service_registry.remote_services
      → find n.service_registry.remote_services q ≡ []
      → find (add_new_peer env info n).0.service_registry.remote_services q ≡ []
  unfolding add_new_peer create_from_capabilities create_all register_all register_remote_service
      Capabilities.new
  add_new_peer-find info s n named q one there made concrete apart registry nothing =
      let service = Capabilities.new n.peer_id info.peer_id n.request_timeout_ms s named in
      simp (one, there, made)
        (ap (λ (m : Node F C FS V X W). find m.service_registry.remote_services q)
            (and_then-done
              (registered env service n (register_remote_service n.service_registry service)))
          ∙ registered-find service n q (find_matches n.service_registry.remote_services named)
              registry concrete apart nothing)

  -- If a peer that was not known tells of one service, whose name's topic does not serve the
  -- concrete path that its service path is, and no remote service is found there, then newer
  -- information of the peer is refused with the error that no service is at the path, and changes
  -- nothing; there is a transport, and the trie's maps hold each key once.
  pub process_remote_capabilities-renamed :
      (first second : NodeInfo FS) (s : ServiceMetadata (ActionMetadata FS) FS)
      (n : Node F C FS V X W) (named q : TopicPath)
      → first.services ≡ s ∷ []
      → second.peer_id.public_key ≡ first.peer_id.public_key
      → ltb_ℤ first.version second.version ≡ true
      → Map.get first.peer_id.public_key n.known_peers ≡ none
      → n.network_transport ≡ true
      → TopicPath.new env.hasher s.name s.network_id ≡ ok named
      → TopicPath.new env.hasher s.service_path s.network_id ≡ ok q
      → q.is_pattern ≡ false
      → serves named q ≡ false
      → IsRegistry n.service_registry.remote_services
      → find n.service_registry.remote_services q ≡ []
      → process_remote_capabilities env second (process_remote_capabilities env first n).0
        ≡ ((process_remote_capabilities env first n).0, err (of_registry (service_not_found q)))
  unfolding process_remote_capabilities
  process_remote_capabilities-renamed first second s n named q one same newer unknown there made
        parsed concrete apart registry nothing =
      let pk = first.peer_id.public_key in
      let after = (add_new_peer env first (know env first n)).0 in
      let gone : find after.service_registry.remote_services q ≡ [] =
        add_new_peer-find first s (know env first n) named q one there made concrete apart registry
          nothing in
      let known : Map.get second.peer_id.public_key after.known_peers ≡ some first = rw same (
        ap (Map.get pk) (add_new_peer-known_peers env first (know env first n))
        ∙ get-insert pk pk first n.known_peers
        ∙ rw (eq_refl pk) refl) in
      let fails : remove_peer_services env first.services after
          ≡ (after, err (of_registry (service_not_found q))) =
        ap (λ (l : List (ServiceMetadata (ActionMetadata FS) FS)). remove_peer_services env l after)
          one
        ∙ remove_fails [] s after q parsed gone in
      simp (unknown) (simp (known, newer, fails) refl)
