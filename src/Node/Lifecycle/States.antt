-- ===== src/Node/Lifecycle/States.antt =====
-- runar-node/src/node.rs: the states that services have after `start` and `stop`.
use rust_mono.Prelude.{
  ◌≡◌, refl, ap, ap₂, ◌∙◌, if_both, true, false, String, ◌==◌, eq_refl, some, List, [], ◌∷◌, All,
  if◌then◌else◌,
}
use rust_mono.Prelude.Result.{Result, ok, err}
use rust_mono.Prelude.HashMap as Map
use rust_mono.Prelude.HashMap.{HashMap, get-insert}
use rust_mono.Routing.TopicPath.{TopicPath}
use rust_mono.Registry.{Service, ServiceEntry, ServiceState, running, error, update_service_state}
use rust_mono.Node.{NodeError, Node, Environment}
use rust_mono.Node.Lifecycle.{set_state, started, start_services, networking_started, start}

-- No service of the list has the path.
abbrev pub NotListed : String → List (TopicPath × ServiceEntry) → Type 0
NotListed path [] = Unit {0}
NotListed path ((topic, entry) ∷ services) =
    ((topic.path == path) ≡ false) × NotListed path services

-- No path is there twice.
abbrev pub PathsOnce : List (TopicPath × ServiceEntry) → Type 0
PathsOnce [] = Unit {0}
PathsOnce ((topic, entry) ∷ services) = NotListed topic.path services × PathsOnce services

abbrev pub state_of {ℓ} : {X : Type ℓ} → Result X (Unit {0}) → ServiceState
state_of (ok u) = running
state_of (err e) = error

module _ {F C FS V X W : Type 0} where
  abbrev pub states : Node F C FS V X W → HashMap ServiceState
  states n = n.service_registry.service_states_by_service_path

module _ {F C FS V X W : Type 0} (env : Environment F C FS V X W)
    (outcome : Service → Result X (Unit {0})) where
  -- The code of a service leaves the states of services alone, and succeeds or fails by `outcome`.
  abbrev pub Starts : Type 0
  Starts =
      (service : Service) (topic : TopicPath) (n : Node F C FS V X W)
      → ((env.start_service service topic n).1 ≡ outcome service)
        × (states (env.start_service service topic n).0 ≡ states n)

  started-states :
      (topic : TopicPath) (r : Node F C FS V X W × Result X (Unit {0}))
      → states (started env topic r) ≡ Map.insert topic.path (state_of r.1) (states r.0)
  unfolding set_state update_service_state
  started-states topic (n, ok u) = refl
  started-states topic (n, err e) = refl

  started_lem :
      Starts
      → (topic : TopicPath) (entry : ServiceEntry) (n : Node F C FS V X W)
      → states (started env topic (env.start_service entry.service topic n))
        ≡ Map.insert topic.path (state_of (outcome entry.service)) (states n)
  started_lem starts topic entry n =
      let (result, same) = starts entry.service topic n in
      started-states topic (env.start_service entry.service topic n)
      ∙ ap₂
          (λ (o : Result X (Unit {0})) (m : HashMap ServiceState).
            Map.insert topic.path (state_of o) m)
          result same

  get-start_services_other :
      Starts
      → (path : String) (services : List (TopicPath × ServiceEntry)) (n : Node F C FS V X W)
      → NotListed path services
      → Map.get path (states (start_services env services n)) ≡ Map.get path (states n)
  unfolding start_services
  get-start_services_other starts path [] n apart = refl
  get-start_services_other starts path ((topic, entry) ∷ services) n (apart, rest) =
      get-start_services_other starts path services _ rest
      ∙ ap (Map.get path) (started_lem starts topic entry n)
      ∙ get-insert topic.path path (state_of (outcome entry.service)) (states n)
      ∙ rw apart refl

  get-start_services :
      Starts
      → (services : List (TopicPath × ServiceEntry)) (n : Node F C FS V X W) → PathsOnce services
      → All
          (λ (s : TopicPath × ServiceEntry).
            Map.get s.0.path (states (start_services env services n))
            ≡ some (state_of (outcome s.1.service)))
          services
  unfolding start_services
  get-start_services starts [] n once = tt
  get-start_services starts ((topic, entry) ∷ services) n (apart, once) = (
    get-start_services_other starts topic.path services _ apart
        ∙ ap (Map.get topic.path) (started_lem starts topic entry n)
        ∙ get-insert topic.path topic.path (state_of (outcome entry.service)) (states n)
        ∙ rw (eq_refl topic.path) refl,
    get-start_services starts services _ once,
  )

  networking_started_lem :
      (r : Node F C FS V X W × Result (NodeError X) (Unit {0})) (m : HashMap ServiceState)
      → r.1 ≡ ok tt
      → states r.0 ≡ m
      → ((networking_started env r).1 ≡ ok tt)
        × ((networking_started env r).0.running ≡ true)
        × (states (networking_started env r).0 ≡ m)
  networking_started_lem (n, err e) m done same = cc done
  networking_started_lem (n, ok u) m done same = (refl, refl, same)

  All-transport :
      (m m' : HashMap ServiceState) (services : List (TopicPath × ServiceEntry))
      → m ≡ m'
      → All
          (λ (s : TopicPath × ServiceEntry).
            Map.get s.0.path m' ≡ some (state_of (outcome s.1.service)))
          services
      → All
          (λ (s : TopicPath × ServiceEntry).
            Map.get s.0.path m ≡ some (state_of (outcome s.1.service)))
          services
  All-transport m m' services same all = rw same all

  module _
      (start_networking shutdown_network : Node F C FS V X W
        → Node F C FS V X W × Result (NodeError X) (Unit {0})) where
    start_running :
        (n : Node F C FS V X W)
        → n.running ≡ true
        → start env start_networking shutdown_network n ≡ (n, ok tt)
    unfolding start
    start_running n on = rw on refl

    -- The network starts, and leaves the states of services alone.
    abbrev pub NetworkStarts : Type 0
    NetworkStarts =
        (n : Node F C FS V X W)
        → ((start_networking n).1 ≡ ok tt) × (states (start_networking n).0 ≡ states n)

    start_lem :
        Starts
        → NetworkStarts
        → (n : Node F C FS V X W) → n.running ≡ false
        → ((start env start_networking shutdown_network n).1 ≡ ok tt)
          × ((start env start_networking shutdown_network n).0.running ≡ true)
          × (states (start env start_networking shutdown_network n).0
              ≡ states (start_services env n.service_registry.local_services_list n))
    unfolding start
    start_lem starts network n off =
        let services = n.service_registry.local_services_list in
        let after = start_services env services n in
        let P = λ (r : Node F C FS V X W × Result (NodeError X) (Unit {0})).
          (r.1 ≡ ok tt) × (states r.0 ≡ states after) in
        let (done, same) =
          if_both P after.supports_networking (start_networking after) (after, ok tt)
            (network after) (refl, refl) in
        simp (off) (
          networking_started_lem
            (if after.supports_networking then start_networking after else (after, ok tt))
            (states after) done same)

    -- `start` of a node that is not running, where services start by a given outcome without
    -- touching states and the network starts, succeeds, leaves it running, and leaves each of its
    -- services, whose paths are all different, `running` or `error` by its outcome, so that one
    -- failure does not keep others from starting; a second `start` changes nothing.
    pub start-states :
        Starts
        → NetworkStarts
        → (n : Node F C FS V X W) → n.running ≡ false
        → PathsOnce n.service_registry.local_services_list
        → ((start env start_networking shutdown_network n).1 ≡ ok tt)
          × ((start env start_networking shutdown_network n).0.running ≡ true)
          × All
              (λ (s : TopicPath × ServiceEntry).
                Map.get s.0.path (states (start env start_networking shutdown_network n).0)
                ≡ some (state_of (outcome s.1.service)))
              n.service_registry.local_services_list
          × (start env start_networking shutdown_network
                (start env start_networking shutdown_network n).0
              ≡ ((start env start_networking shutdown_network n).0, ok tt))
    start-states starts network n off once =
        let services = n.service_registry.local_services_list in
        let (done, on, same) = start_lem starts network n off in
        (
          done,
          on,
          All-transport _ (states (start_services env services n)) services same
              (get-start_services starts services n once),
          start_running _ on,
        )
