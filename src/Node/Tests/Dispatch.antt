-- ===== src/Node/Tests/Dispatch.antt =====
-- runar-node/src/node.rs: which code requests and events reach.
use mathlib.Core.List.{flat_map}
use rust_mono.Prelude.{
  ℕ, ◌+◌, ◌%◌, ◌^◌, ◌≡◌, refl, Bool, true, false, ◌&&◌, String, ◌==◌, none, some, [], ◌∷◌, All,
  get_elem?, length, eqb, if◌then◌else◌,
}
use rust_mono.Prelude.Result.{ok}
use rust_mono.Prelude.Bag.{total}
use rust_mono.Prelude.Text.{starts_with_char}
use rust_mono.Routing.Segment.{to_string, is_template_param}
use rust_mono.Routing.TopicPath.{TopicPath, get_segments}
use rust_mono.Routing.Tests.{get_user, all_users, new-get_user, main-Free}
use rust_mono.Trie as Trie
use rust_mono.Trie.{get_child, set_value}
use rust_mono.Trie.Search.{find_matches, find, find_matches_internal}
use rust_mono.Trie.Entries.{keys, entries}
use rust_mono.Trie.Entries.Distinct.{HasMaps}
use rust_mono.Trie.Entries.Find.{fits}
use rust_mono.Trie.Networks.{IsRegistry}
use rust_mono.Trie.Networks.Own.{serves}
use rust_mono.Registry as Registry
use rust_mono.Registry.{get_local_action_handler, get_remote_action_handlers}
use rust_mono.Registry.Subscriptions.{get_local_event_subscribers}
use rust_mono.Registry.Delivery.{OwnsFirst}
use rust_mono.Node.{Handler, local_handler, remote_handler, register_action_handler}
use rust_mono.Node.Requests.{
  request_context, local_context, call_handler, typed, local_request, request,
}
use rust_mono.Node.Requests.Dispatch.{request-select_handler, request-register_local_action_handler}
use rust_mono.Node.Events.{EventRegistrationOptions, publish_with_options, subscribe_with_options}
use rust_mono.Node.Events.Published.{Counts, count-publish-subscribe}
use rust_mono.Node.Samples.{Sample, outside, ann, node_of, remote_users}

new-IsRegistry : (T : Type 0) → IsRegistry (Trie.new {T = T})
unfolding Trie.new HasMaps
new-IsRegistry T = tt

serves-all_users : serves all_users get_user ≡ true
unfolding keys fits get_segments to_string is_template_param starts_with_char
serves-all_users = refl

-- The handler 7, as it is registered under the topic.
abbrev is_seven : Handler ℕ → TopicPath → Bool
is_seven (local_handler f) topic =
    eqb f 7 && topic.cached_action_path == all_users.cached_action_path
is_seven (remote_handler service name) topic = false

none_found :
    All
      (λ x. is_seven x.0 x.1 ≡ true)
      (find ((node_of ann).service_registry.local_action_handlers) get_user)
unfolding Registry.new Trie.new find find_matches get_child
none_found = tt

abbrev registered : Sample
registered = register_action_handler all_users (local_handler 7) none (node_of ann)

new-local_action_handlers : IsRegistry ((node_of ann).service_registry.local_action_handlers)
unfolding Registry.new
new-local_action_handlers = new-IsRegistry _

request-register_local_action_handler_example :
    (h : Handler ℕ) × (topic : TopicPath) × (is_seven h topic ≡ true)
    × (request outside {T = ℕ} (λ v. ok v) "users/get" none registered
        ≡ typed outside
            (λ v. ok v)
            (call_handler outside h none (local_context get_user topic) registered))
    × (local_request outside "users/get" none registered
        ≡ call_handler outside h none (local_context get_user topic) registered)
request-register_local_action_handler_example =
    request-register_local_action_handler outside (λ v. ok v) "users/get" all_users get_user none
      (node_of ann) (local_handler 7) none is_seven new-get_user new-local_action_handlers refl
      serves-all_users refl none_found

abbrev get_of_remote : Handler ℕ
get_of_remote = remote_handler remote_users "get"

-- Both handlers are at `users/get`; the second is the next one.
abbrev with_remote : Sample
with_remote = record (node_of ann) {
  service_registry = record (node_of ann).service_registry {
    remote_action_handlers = set_value get_user (get_of_remote ∷ local_handler 7 ∷ []) Trie.new;
  };
  load_balancer = record { current_index = 5 };
}

no_local : get_local_action_handler with_remote.service_registry get_user ≡ none
unfolding get_local_action_handler find_matches Registry.new Trie.new get_child
no_local = refl

remote_found :
    get_remote_action_handlers with_remote.service_registry get_user
    ≡ get_of_remote ∷ local_handler 7 ∷ []
unfolding get_remote_action_handlers find_matches find_matches_internal set_value Trie.new get_child
    get_segments to_string is_template_param starts_with_char flat_map
remote_found = refl

request-select_handler_example :
    (selected : Handler ℕ) × (get_elem?
        (get_of_remote ∷ local_handler 7 ∷ [])
        (5 % length (get_of_remote ∷ local_handler 7 ∷ []))
      ≡ some selected)
    × (request outside {T = ℕ} (λ v. ok v) "users/get" none with_remote
        ≡ typed outside
            (λ v. ok v)
            (call_handler outside selected none
              (request_context get_user)
              (record with_remote { load_balancer = record { current_index = (5 + 1) % 2 ^ 64 } })))
request-select_handler_example =
    request-select_handler outside (λ v. ok v) "users/get" get_user none with_remote get_of_remote
      (local_handler 7 ∷ []) new-get_user no_local remote_found

abbrev no_options : EventRegistrationOptions ℕ
no_options = record { description = none; data_schema = none }

new-local_event_subscriptions :
    IsRegistry ((node_of ann).service_registry.local_event_subscriptions)
unfolding Registry.new
new-local_event_subscriptions = new-IsRegistry _

new-OwnsFirst : OwnsFirst get_user ((node_of ann).service_registry.local_event_subscriptions)
unfolding Registry.new Trie.new find_matches get_child entries
new-OwnsFirst = refl

outside-Counts : Counts outside (λ n. n.world) (λ c. c)
outside-Counts = λ callback topic payload n. refl

count-publish-subscribe_example :
    (id : String) × (after : Sample) × (subscribe_with_options outside "users/get" 5 no_options
        (node_of ann)
      ≡ (after, ok id))
    × ((publish_with_options outside "users/get" none after).0.world
        ≡ after.world
          + (total
                (λ (s : String × ℕ). s.1)
                (get_local_event_subscribers (node_of ann).service_registry get_user)
              + (if serves get_user get_user then 5 else 0)))
count-publish-subscribe_example =
    count-publish-subscribe outside (λ n. n.world) (λ c. c) outside-Counts "users/get" "users/get"
      get_user get_user 5 no_options none (node_of ann) (main-Free, refl) new-get_user new-get_user
      new-local_event_subscriptions new-OwnsFirst refl
