-- ===== src/Node/Tests/States.antt =====
-- runar-node/src/node.rs: a node of two services is started.
use rust_mono.Prelude.{ℕ, ◌≡◌, refl, true, some, none, List, [], ◌∷◌, All}
use rust_mono.Prelude.Result.{Result, ok}
use rust_mono.Prelude.HashMap as Map
use rust_mono.Routing.TopicPath.{TopicPath}
use rust_mono.Routing.Tests.{users, get_user}
use rust_mono.Registry.{ServiceEntry, initialized}
use rust_mono.Node.{NodeError}
use rust_mono.Node.Lifecycle.{start}
use rust_mono.Node.Lifecycle.States.{state_of, states, Starts, NetworkStarts, start-states}
use rust_mono.Node.Samples.{Sample, outside, ann, node_of, start_outcome}

abbrev entry_of : TopicPath → ServiceEntry
entry_of topic = record {
  service = record { path = topic.path; name = ""; version = "1"; description = "" };
  service_topic = topic;
  service_state = initialized;
  registration_time = 0;
  last_start_time = none;
}

abbrev services : List (TopicPath × ServiceEntry)
services = (users, entry_of users) ∷ (get_user, entry_of get_user) ∷ []

abbrev two_services : Sample
two_services = record (node_of ann) {
  service_registry = record (node_of ann).service_registry { local_services_list = services };
}

abbrev quiet : Sample → Sample × Result (NodeError ℕ) (Unit {0})
quiet n = (n, ok tt)

outside-Starts : Starts outside start_outcome
outside-Starts = λ service topic n. (refl, refl)

quiet-NetworkStarts : NetworkStarts outside start_outcome quiet quiet
quiet-NetworkStarts = λ n. (refl, refl)

start-states_example :
    ((start outside quiet quiet two_services).1 ≡ ok tt)
    × ((start outside quiet quiet two_services).0.running ≡ true)
    × All
        (λ (s : TopicPath × ServiceEntry).
          Map.get s.0.path (states (start outside quiet quiet two_services).0)
          ≡ some (state_of (start_outcome s.1.service)))
        services
    × (start outside quiet quiet (start outside quiet quiet two_services).0
        ≡ ((start outside quiet quiet two_services).0, ok tt))
start-states_example =
    start-states outside start_outcome quiet quiet outside-Starts quiet-NetworkStarts two_services
      refl ((refl, tt), (tt, tt))
