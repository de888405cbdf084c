-- ===== src/Contexts/Tests/Registry.antt =====
-- runar-node/src/services/registry_service.rs: questions for the states of services.
use rust_mono.Prelude.{ℕ, ◌+◌, ◌≡◌, refl, Bool, false, none, [], ◌∷◌, eqb, eqb_iff, if◌then◌else◌}
use rust_mono.Prelude.Result.{Result, ok}
use rust_mono.Prelude.HashMap as Map
use rust_mono.Prelude.Text.{has_char, glue, split, join, starts_with_char, ends_with_char}
use rust_mono.Routing.TopicPath.{
  TopicPath, get_segments, parse_network, from_parts, path_pieces, scan, scan_segment, scan_add,
  action_text,
}
use rust_mono.Routing.Segment.{from_str, to_string, is_template_param, is_wildcard, is_template}
use rust_mono.Routing.TopicPath as TopicPath
use rust_mono.Routing.Tests.{users, new-users_by_name}
use rust_mono.Trie as Trie
use rust_mono.Trie.{get_child}
use rust_mono.Trie.Search.{find_matches, find}
use rust_mono.Trie.Entries.Distinct.{HasMaps}
use rust_mono.Trie.Networks.{IsRegistry}
use rust_mono.Node.Requests.{request}
use rust_mono.Registry as Registered
use rust_mono.Registry.{
  ServiceState, Service, created, initialized, running, stopped, paused, error, unknown,
}
use rust_mono.Node.{RequestContext, Environment}
use rust_mono.Node.Lifecycle.{add_service}
use rust_mono.Node.Samples.{Sample, outside, ann, node_of}
use rust_mono.Contexts.RegistryService.{
  Values, Closures, extract_service_path, handle_service_state, init_registry,
}
use rust_mono.Contexts.Routes.{state_question}
use rust_mono.Contexts.Routes.Registered.{registry_context}
use rust_mono.Contexts.Routes.Answers.{IsTold, answered, request-init_registry}
use rust_mono.Contexts.States.{state_after, handle_service_state-add_service}

abbrev state_number : ServiceState → ℕ
state_number created = 1
state_number initialized = 2
state_number running = 3
state_number stopped = 4
state_number paused = 5
state_number error = 6
state_number unknown = 7

abbrev numbers : Values ℕ ℕ
numbers = record { of_list = λ metadata. 1; of_metadata = λ metadata. 2; of_state = state_number }

abbrev users_service : Service
users_service = record { path = "users"; name = "Users"; version = "1"; description = "" }

abbrev of_users : RequestContext
of_users = record { topic_path = users; path_params = ("service_path", "users") ∷ [] }

handle_service_state-add_service_example :
    handle_service_state outside numbers of_users
      (add_service outside users_service (node_of ann)).0
    ≡ ok (state_number (state_after (outside.init_service users_service users (node_of ann)).1))
unfolding has_char Map.get
handle_service_state-add_service_example =
    handle_service_state-add_service outside numbers of_users users_service users (node_of ann) refl
      new-users_by_name refl refl

abbrev three : Closures ℕ
three = record { list_services = 1; service_info = 2; service_state = 3 }

abbrev is_three : ℕ → Bool
is_three f = eqb f 3

-- The closure 3 runs the handler.
abbrev telling : Environment ℕ ℕ ℕ ℕ ℕ ℕ
telling = record outside {
  call_local = λ f payload context n.
      (n, if eqb f 3 then handle_service_state outside numbers context n else ok f);
}

three-IsTold : IsTold telling numbers three is_three
unfolding handle_service_state extract_service_path
three-IsTold = record {
  known = refl;
  only = λ f here. (eqb_iff f 3).0 here;
  runs = λ payload context n. refl;
}

-- The path of the question, as it is parsed.
question :
    (q : TopicPath) × (TopicPath.new telling.hasher "$registry/services/users/state" "main" ≡ ok q)
    × (get_segments q ≡ state_question "users")
    × (q.is_pattern ≡ false)
unfolding TopicPath.new parse_network from_parts path_pieces scan scan_segment scan_add has_char
    split join glue from_str to_string is_template_param is_wildcard is_template starts_with_char
    ends_with_char action_text get_segments
question = (_, refl, refl, refl)

abbrev knowing : Sample
knowing = record (node_of ann) {
  service_registry = record (node_of ann).service_registry {
    service_states_by_service_path = ("main:users", running) ∷ [];
  };
}

knowing-IsRegistry : IsRegistry knowing.service_registry.local_action_handlers
unfolding Registered.new Trie.new HasMaps
knowing-IsRegistry = tt

nothing_found : find knowing.service_registry.local_action_handlers question.0 ≡ []
unfolding Registered.new Trie.new find find_matches get_child question
nothing_found = refl

abbrev registering : ℕ → ℕ × Result ℕ (Unit {0})
registering world = (world + 1, ok tt)

request-init_registry_example :
    request telling {T = ℕ}
      (λ v. ok v)
      "$registry/services/users/state"
      none
      (init_registry telling numbers three registering
        (registry_context question.0.network_id)
        knowing).0
    ≡ answered telling numbers
        (λ v. ok v)
        "users"
        question.0
        (init_registry telling numbers three registering
          (registry_context question.0.network_id)
          knowing).0
        knowing
request-init_registry_example =
    request-init_registry telling numbers three (λ v. ok v) is_three three-IsTold
      "$registry/services/users/state" "users" question.0 none question.2 question.3 registering
      knowing question.1 knowing-IsRegistry nothing_found
