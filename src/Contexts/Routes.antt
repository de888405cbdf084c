-- ===== src/Contexts/Routes.antt =====
-- runar-node/src/services/registry_service.rs: the paths of its actions, and what a question
-- for the state of a service is made of.
pub mod Registered
pub mod Answers
use rust_mono.Prelude.{
  ℕ, ◌+◌, ◌<◌, ◌≡◌, refl, ap, ap₂, sym, ◌∙◌, Bool, true, false, ◌&&◌, String, ◌==◌, eq_iff, eq_refl,
  Option, some, none, List, [], ◌∷◌, if◌then◌else◌, arith,
}
use rust_mono.Prelude.Result.{Result, ok, err, ◌>>=◌, and_then, map_err}
use rust_mono.Prelude.HashMap as Map
use rust_mono.Prelude.Text.{
  has_char, split, join, glue, starts_with_char, ends_with_char, inner, braced,
}
use rust_mono.Prelude.Bag.{total}
use rust_mono.Routing.Segment.{from_str, to_string, is_template_param, is_wildcard, is_template}
use rust_mono.Routing.TopicPath.{
  TopicPath, Hasher, get_segments, parse_network, from_parts, path_pieces, scan, scan_segment,
  scan_add, segment_type, action_text, new_service,
}
use rust_mono.Routing.TopicPath as TopicPath
use rust_mono.Routing.Template.{extract_params, extract_loop}
use rust_mono.Trie.{PathTrie, set_value}
use rust_mono.Trie.Search.{find_matches, find}
use rust_mono.Trie.Entries.{keys}
use rust_mono.Trie.Entries.Find.{fits}
use rust_mono.Trie.Networks.{IsRegistry, set_values-IsRegistry}
use rust_mono.Trie.Networks.Own.{serves}
use rust_mono.Registry.{ServiceRegistry, get_local_action_handler, register_local_action_handler}
use rust_mono.Registry.Actions.{first_accepted, found, found-set_value, total-find_matches}
use rust_mono.Network.{ActionMetadata}
use rust_mono.Node.{
  Handler, local_handler, remote_handler, NodeError, RequestContext, Node, Environment,
  register_action_handler,
}
use rust_mono.Node.Requests.{request_context, local_context, typed, request}
use rust_mono.Node.Lifecycle.States.{states}
use rust_mono.Contexts.{LifecycleContext, lifecycle_context}
use rust_mono.Contexts.Own.{own_metadata, register_own_action-ok}
use rust_mono.Contexts.RegistryService.{
  Values, Closures, state_found, handle_service_state, type_registered, init_registry,
  register_list_services_action, register_service_info_action, register_service_state_action,
}
use rust_mono.Contexts.States.{handle_service_state_lem}

-- The path of an action, as it is parsed.
pub record IsAction (hasher : Hasher) (network text : String) (pieces : List String) : Type 0 where
  pub topic : TopicPath
  pub parsed : TopicPath.new hasher text network ≡ ok topic
  pub segments : get_segments topic ≡ pieces
  pub at_network : topic.network_id ≡ network
  pub action : topic.cached_action_path ≡ text

abbrev pub info_pieces : List String
info_pieces = "$registry" ∷ "services" ∷ "{service_path}" ∷ []

abbrev pub state_text : String
state_text = "$registry/services/{service_path}/state"

module _ (hasher : Hasher) (network : String) where
  pub list_action :
      IsAction hasher network "$registry/services/list" ("$registry" ∷ "services" ∷ "list" ∷ [])
  unfolding TopicPath.new parse_network from_parts path_pieces scan scan_segment scan_add has_char
      split join glue from_str to_string is_template_param is_wildcard is_template starts_with_char
      ends_with_char inner braced action_text get_segments
  list_action = record {
    topic = _;
    parsed = refl;
    segments = refl;
    at_network = refl;
    action = refl;
  }

  pub info_action : IsAction hasher network "$registry/services/{service_path}" info_pieces
  unfolding TopicPath.new parse_network from_parts path_pieces scan scan_segment scan_add has_char
      split join glue from_str to_string is_template_param is_wildcard is_template starts_with_char
      ends_with_char inner braced action_text get_segments
  info_action = record {
    topic = _;
    parsed = refl;
    segments = refl;
    at_network = refl;
    action = refl;
  }

  pub state_action :
      IsAction hasher network state_text
        ("$registry" ∷ "services" ∷ "{service_path}" ∷ "state" ∷ [])
  unfolding TopicPath.new parse_network from_parts path_pieces scan scan_segment scan_add has_char
      split join glue from_str to_string is_template_param is_wildcard is_template starts_with_char
      ends_with_char inner braced action_text get_segments
  state_action = record {
    topic = _;
    parsed = refl;
    segments = refl;
    at_network = refl;
    action = refl;
  }

-- The segments of a question for the state of a service.
abbrev pub state_question : String → List String
state_question service = "$registry" ∷ "services" ∷ service ∷ "state" ∷ []

module _ (hasher : Hasher) (q : TopicPath) (service : String)
    (asked : get_segments q ≡ state_question service) where
  pub serves-list : serves (list_action hasher q.network_id).topic q ≡ false
  unfolding keys fits is_template_param starts_with_char ends_with_char
  serves-list =
      let a = list_action hasher q.network_id in rw (a.at_network, a.segments, asked) (ground arith)

  pub serves-info : serves (info_action hasher q.network_id).topic q ≡ false
  unfolding keys fits is_template_param starts_with_char ends_with_char
  serves-info =
      let a = info_action hasher q.network_id in rw (a.at_network, a.segments, asked) (ground arith)

  pub serves-state : serves (state_action hasher q.network_id).topic q ≡ true
  unfolding keys fits is_template_param starts_with_char ends_with_char
  serves-state =
      let a = state_action hasher q.network_id in
      rw (a.at_network, a.segments, asked, eq_refl q.network_id) refl

-- The context that the handler of such a question gets.
abbrev pub state_context : TopicPath → String → RequestContext
state_context q service = record { topic_path = q; path_params = ("service_path", service) ∷ [] }

module _ (q : TopicPath) (service : String) (asked : get_segments q ≡ state_question service) where
  extract_params-state : extract_params q state_text ≡ ok (("service_path", service) ∷ [])
  unfolding extract_params extract_loop path_pieces split is_template_param starts_with_char
      ends_with_char inner Map.insert
  extract_params-state = rw asked refl

  pub local_context-state :
      (registered : TopicPath)
      → registered.cached_action_path ≡ state_text
      → local_context q registered ≡ state_context q service
  unfolding local_context request_context
  local_context-state registered at_state = rw (at_state, extract_params-state) refl
