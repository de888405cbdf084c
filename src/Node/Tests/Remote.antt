-- ===== src/Node/Tests/Remote.antt =====
-- runar-node/src/services/remote_service.rs and runar-node/src/node.rs: a service of another node.
use rust_mono.Prelude.{ℕ, ◌≡◌, refl, inr, false, none, some, [], ◌∷◌}
use rust_mono.Prelude.Result.{err}
use rust_mono.Prelude.Int.{pos, ltb_ℤ}
use rust_mono.Prelude.HashMap as Map
use rust_mono.Prelude.Text.{starts_with_char}
use rust_mono.Routing.Segment.{to_string, is_template_param}
use rust_mono.Routing.TopicPath.{get_segments}
use rust_mono.Routing.Tests.{
  get_user, users, new-get_user, new-users_by_name, new_action_topic-users,
}
use rust_mono.Trie as Trie
use rust_mono.Trie.{get_child}
use rust_mono.Trie.Search.{find_matches, find}
use rust_mono.Trie.Entries.{keys}
use rust_mono.Trie.Entries.Distinct.{HasMaps}
use rust_mono.Trie.Entries.Find.{fits}
use rust_mono.Trie.Networks.{IsRegistry}
use rust_mono.Trie.Networks.Own.{serves}
use rust_mono.Registry as Registry
use rust_mono.Registry.{service_not_found}
use rust_mono.Registry.Metadata.{ServiceMetadata}
use rust_mono.Network.{ActionMetadata, NodeInfo}
use rust_mono.Node.{NodeError, of_registry}
use rust_mono.Node.Requests.{create_action_handler}
use rust_mono.Node.Requests.Pending.{
  TakesOut, create_action_handler-pending, create_action_handler-pending_failed,
}
use rust_mono.Node.Capabilities.{process_remote_capabilities}
use rust_mono.Node.Capabilities.Versions.{process_remote_capabilities-version}
use rust_mono.Node.Capabilities.Renamed.{process_remote_capabilities-renamed}
use rust_mono.Node.Samples.{Sample, outside, ann, bob, node_of, remote_users}

outside-TakesOut : TakesOut outside "id"
outside-TakesOut = λ channel timeout n response received. cc received

create_action_handler-pending_example :
    Map.get "id"
      (create_action_handler outside remote_users "get" (some 3) (node_of ann)).0.pending_requests
    ≡ none
create_action_handler-pending_example =
    create_action_handler-pending outside remote_users "get" (some 3) (node_of ann) get_user
      (3 ∷ []) outside-TakesOut new_action_topic-users refl refl

abbrev offline : Sample
offline = record (node_of ann) { network_transport = false }

create_action_handler-pending_failed_example :
    (e : NodeError ℕ) × ((create_action_handler outside remote_users "get" (some 3) offline).1
      ≡ err e)
    × (Map.get "id"
          (create_action_handler outside remote_users "get" (some 3) offline).0.pending_requests
        ≡ some 0)
create_action_handler-pending_failed_example =
    create_action_handler-pending_failed outside remote_users "get" (some 3) offline get_user
      new_action_topic-users (inr (3 ∷ [], refl, refl))

abbrev metadata : ServiceMetadata (ActionMetadata ℕ) ℕ
metadata = record {
  network_id = "main";
  service_path = "users/get";
  name = "users";
  version = "1";
  description = "";
  actions = [];
  events = [];
  registration_time = 0;
  last_start_time = none;
}

abbrev bob_info : ℕ → NodeInfo ℕ
bob_info version = record {
  peer_id = bob;
  network_ids = "main" ∷ [];
  addresses = [];
  services = metadata ∷ [];
  version = pos version;
}

abbrev knows_bob : Sample
knows_bob = record (node_of ann) { known_peers = ("bob", bob_info 3) ∷ [] }

process_remote_capabilities-version_example :
    (known : NodeInfo ℕ) × (Map.get "bob"
        (process_remote_capabilities outside (bob_info 2) knows_bob).0.known_peers
      ≡ some known)
    × (ltb_ℤ known.version (pos 3) ≡ false)
unfolding Map.get
process_remote_capabilities-version_example =
    process_remote_capabilities-version outside (bob_info 2) (bob_info 3) "bob" knows_bob refl

apart : serves users get_user ≡ false
unfolding keys fits get_segments to_string is_template_param starts_with_char
apart = refl

new-remote_services : IsRegistry ((node_of ann).service_registry.remote_services)
unfolding Registry.new Trie.new HasMaps
new-remote_services = tt

none_found : find ((node_of ann).service_registry.remote_services) get_user ≡ []
unfolding Registry.new Trie.new find find_matches get_child
none_found = refl

process_remote_capabilities-renamed_example :
    process_remote_capabilities outside
      (bob_info 2)
      (process_remote_capabilities outside (bob_info 1) (node_of ann)).0
    ≡ (
      (process_remote_capabilities outside (bob_info 1) (node_of ann)).0,
      err (of_registry (service_not_found get_user)),
    )
unfolding Map.get
process_remote_capabilities-renamed_example =
    process_remote_capabilities-renamed outside (bob_info 1) (bob_info 2) metadata (node_of ann)
      users get_user refl refl refl refl refl new-users_by_name new-get_user refl apart
      new-remote_services none_found
