-- ===== src/Node/Capabilities/Versions.antt =====
-- runar-node/src/node.rs: what a node knows of its peers only becomes newer.
use rust_mono.Prelude.{
  ◌≡◌, ◌⊎◌, refl, sym, ap, ◌∙◌, if_both, true, false, String, ◌==◌, eq_iff, Option, none, some,
  Bool-cases, inl, inr, List, [], ◌∷◌, is_empty,
}
use rust_mono.Prelude.Result.{Result, ok, err, and_then}
use rust_mono.Prelude.Int.{ltb_ℤ, ltb_ℤ_irrefl, ltb_ℤ_asymm}
use rust_mono.Prelude.HashMap as Map
use rust_mono.Prelude.HashMap.{HashMap, get-insert}
use rust_mono.Routing.TopicPath.{TopicPath, Fallible, new_action_topic}
use rust_mono.Routing.TopicPath as TopicPath
use rust_mono.Registry.{
  ServiceRegistry, RemoteService, RegistryError, register_remote_service, remove_remote_service,
}
use rust_mono.Registry.Metadata.{ServiceMetadata}
use rust_mono.Network.{ActionMetadata, NodeInfo}
use rust_mono.Node.{Handler, NodeError, Node, Environment}
use rust_mono.Node.Capabilities.{
  register_action, init_remote, init_at, registered, register_all, create_from_capabilities,
  add_new_peer, removed, remove_at, remove_peer_services, know, process_known,
  process_remote_capabilities,
}

module _ {FS : Type 0} where
  -- What a key has after newer information was written.
  inserted_version :
      (info old : NodeInfo FS) (key : String) (peers : HashMap (NodeInfo FS))
      → Map.get key peers ≡ some old
      → (known : NodeInfo FS) × (Map.get key (Map.insert info.peer_id.public_key info peers)
          ≡ some known)
        × ((Map.get info.peer_id.public_key peers ≡ none)
              ⊎ ((existing : NodeInfo FS) × (Map.get info.peer_id.public_key peers ≡ some existing)
                  × (ltb_ℤ existing.version info.version ≡ true))
            → ltb_ℤ known.version old.version ≡ false)
  inserted_version info old key peers was_known =
      let pk = info.peer_id.public_key in
      elim (Bool-cases (pk == key)) [
        | inr other ↦ (
          old,
          get-insert pk key info peers ∙ rw other was_known,
          λ why. ltb_ℤ_irrefl old.version,
        )
        | inl same ↦ (
          info,
          get-insert pk key info peers ∙ rw same refl,
          λ why.
              let at : Map.get pk peers ≡ some old = rw ((eq_iff pk key).0 same) was_known in
              elim why [
                | inl unknown ↦ cc
                | inr (existing, found, newer) ↦
                    let it : existing ≡ old = cc in
                    ltb_ℤ_asymm old.version info.version
                      (ap (λ (x : NodeInfo FS). ltb_ℤ x.version info.version) (sym it) ∙ newer)
              ],
        )
      ]

module _ {F C FS V X W : Type 0} (env : Environment F C FS V X W) where
  init_remote-known_peers :
      (service : RemoteService) (names : List String) (n : Node F C FS V X W)
      → (init_remote env service names n).known_peers ≡ n.known_peers
  unfolding init_remote
  init_remote-known_peers service [] n = refl
  init_remote-known_peers service (name ∷ names) n =
      init_remote-known_peers service names _
      ∙ one (new_action_topic env.hasher service.service_topic name)
    where
      one :
          (t : Fallible TopicPath)
          → (register_action env service name n t).known_peers ≡ n.known_peers
      one (err e) = refl
      one (ok topic) = refl

  init_at-known_peers :
      (service : RemoteService) (n : Node F C FS V X W) (t : Fallible TopicPath)
      → (init_at env service n t).0.known_peers ≡ n.known_peers
  init_at-known_peers service n (err e) = refl
  init_at-known_peers service n (ok topic) = init_remote-known_peers service service.action_names n

  registered-known_peers :
      (service : RemoteService) (n : Node F C FS V X W)
      (o : ServiceRegistry (Handler F) C (ActionMetadata FS) FS × Result RegistryError (Unit {0}))
      → (registered env service n o).0.known_peers ≡ n.known_peers
  registered-known_peers service n (registry, err e) = refl
  registered-known_peers service n (registry, ok u) = init_at-known_peers service _ _

  and_then-known_peers :
      {A : Type 0}
      → (peers : HashMap (NodeInfo FS)) (r : Node F C FS V X W × Result (NodeError X) A)
        (next : A → Node F C FS V X W → Node F C FS V X W × Result (NodeError X) (Unit {0}))
      → r.0.known_peers ≡ peers
      → ((a : A) (n : Node F C FS V X W) → (next a n).0.known_peers ≡ n.known_peers)
      → (and_then r next).0.known_peers ≡ peers
  and_then-known_peers peers (n, err e) next same keep = same
  and_then-known_peers peers (n, ok a) next same keep = keep a n ∙ same

  register_all-known_peers :
      (services : List RemoteService) (n : Node F C FS V X W)
      → (register_all env services n).0.known_peers ≡ n.known_peers
  unfolding register_all
  register_all-known_peers [] n = refl
  register_all-known_peers (service ∷ services) n =
      and_then-known_peers n.known_peers
        (registered env service n (register_remote_service n.service_registry service))
        (λ _. register_all env services) (registered-known_peers service n _)
        (λ _. register_all-known_peers services)

  pub add_new_peer-known_peers :
      (info : NodeInfo FS) (n : Node F C FS V X W)
      → (add_new_peer env info n).0.known_peers ≡ n.known_peers
  unfolding add_new_peer
  add_new_peer-known_peers info n =
      if_both
        (λ (r : Node F C FS V X W × Result (NodeError X) (Unit {0})).
          r.0.known_peers ≡ n.known_peers)
        (is_empty info.services) _ _ refl
        (and_then-known_peers n.known_peers
          (n, create_from_capabilities env n info.peer_id info.services) (register_all env) refl
          register_all-known_peers)

  remove_at-known_peers :
      (n : Node F C FS V X W) (t : Fallible TopicPath)
      → (remove_at env n t).0.known_peers ≡ n.known_peers
  remove_at-known_peers n (err e) = refl
  remove_at-known_peers n (ok topic) =
      same (remove_remote_service env.hasher n.service_registry topic)
    where
      same :
          (o : ServiceRegistry (Handler F) C (ActionMetadata FS) FS
            × Result RegistryError (Unit {0}))
          → (removed env n o).0.known_peers ≡ n.known_peers
      same (registry, err e) = refl
      same (registry, ok u) = refl

  remove_peer_services-known_peers :
      (services : List (ServiceMetadata (ActionMetadata FS) FS)) (n : Node F C FS V X W)
      → (remove_peer_services env services n).0.known_peers ≡ n.known_peers
  unfolding remove_peer_services
  remove_peer_services-known_peers [] n = refl
  remove_peer_services-known_peers (service ∷ services) n =
      and_then-known_peers n.known_peers
        (remove_at env n (TopicPath.new env.hasher service.service_path service.network_id))
        (λ _. remove_peer_services env services) (remove_at-known_peers n _)
        (λ _. remove_peer_services-known_peers services)

  -- The services of a peer are taken out, and it is added again.
  replaced :
      (info : NodeInfo FS) (n : Node F C FS V X W)
      (r : Node F C FS V X W × Result (NodeError X) (Unit {0}))
      → r.0.known_peers ≡ n.known_peers
      → ((and_then r (λ _ after. add_new_peer env info (know env info after))).0.known_peers
          ≡ n.known_peers)
        ⊎ ((and_then r (λ _ after. add_new_peer env info (know env info after))).0.known_peers
            ≡ Map.insert info.peer_id.public_key info n.known_peers)
  replaced info n (after, err e) same = inl same
  replaced info n (after, ok u) same = inr (
      add_new_peer-known_peers info (know env info after)
      ∙ ap (Map.insert info.peer_id.public_key info) same)

  -- Either nothing is learnt of peers, or the peer was not known, or known with an older version.
  process_known-cases :
      (info : NodeInfo FS) (n : Node F C FS V X W) (found : Option (NodeInfo FS))
      → ((process_known env info n found).0.known_peers ≡ n.known_peers)
        ⊎ (((process_known env info n found).0.known_peers
              ≡ Map.insert info.peer_id.public_key info n.known_peers)
            × ((found ≡ none)
                ⊎ ((existing : NodeInfo FS) × (found ≡ some existing)
                    × (ltb_ℤ existing.version info.version ≡ true))))
  process_known-cases info n none = inr (add_new_peer-known_peers info (know env info n), inl refl)
  process_known-cases info n (some existing) =
      elim (Bool-cases (ltb_ℤ existing.version info.version)) [
        | inr old ↦ inl (rw old refl)
        | inl newer ↦
            rw newer
              (elim (replaced info n (remove_peer_services env existing.services n)
                (remove_peer_services-known_peers existing.services n)) [
                  | inl same ↦ inl same
                  | inr learnt ↦ inr (learnt, inr (existing, refl, newer))
                ])
      ]

  -- What a node knows of a peer stays known, and its version never falls, whatever peer information
  -- `process_remote_capabilities` is given and whether it succeeds or fails.
  pub process_remote_capabilities-version :
      (info old : NodeInfo FS) (key : String) (n : Node F C FS V X W)
      → Map.get key n.known_peers ≡ some old
      → (known : NodeInfo FS) × (Map.get key (process_remote_capabilities env info n).0.known_peers
          ≡ some known)
        × (ltb_ℤ known.version old.version ≡ false)
  unfolding process_remote_capabilities
  process_remote_capabilities-version info old key n was_known =
      let pk = info.peer_id.public_key in
      let found = Map.get pk n.known_peers in
      let (known, inserted, newer) = inserted_version info old key n.known_peers was_known in
      elim (process_known-cases info n found) [
        | inl same ↦ (old, ap (Map.get key) same ∙ was_known, ltb_ℤ_irrefl old.version)
        | inr (learnt, why) ↦ (known, ap (Map.get key) learnt ∙ inserted, newer why)
      ]
