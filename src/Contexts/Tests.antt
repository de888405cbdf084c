-- ===== src/Contexts/Tests.antt =====
-- runar-node/src/services: runs of contexts, and the theorems applied to them.
mod Registry
use rust_mono.Prelude.{
  ℕ, ◌+◌, ◌≡◌, refl, ap, Bool, true, false, ◌&&◌, String, ◌==◌, none, some, List, [], ◌∷◌, All, eqb,
  if◌then◌else◌,
}
use rust_mono.Prelude.Result.{ok, ◌>>=◌}
use rust_mono.Prelude.Bag.{total}
use rust_mono.Prelude.Text.{has_char, glue, split}
use rust_mono.Routing.TopicPath.{TopicPath, path_pieces}
use rust_mono.Routing.Tests.{count_writes, users, get_user, new-get_user, main-Free}
use rust_mono.Trie as Trie
use rust_mono.Trie.{get_child}
use rust_mono.Trie.Search.{find_matches, find}
use rust_mono.Trie.Entries.{entries}
use rust_mono.Trie.Entries.Distinct.{HasMaps}
use rust_mono.Trie.Networks.{IsRegistry}
use rust_mono.Registry as Registered
use rust_mono.Registry.Subscriptions.{get_local_event_subscribers}
use rust_mono.Registry.Delivery.{OwnsFirst}
use rust_mono.Node.{Handler, local_handler, remote_handler, RequestContext}
use rust_mono.Node.Requests.{request_context, local_context, call_handler, typed, request_at}
use rust_mono.Node.Events.{publish_at}
use rust_mono.Node.Events.Published.{Counts}
use rust_mono.Node.Samples.{Sample, outside, ann, node_of}
use rust_mono.Contexts.{
  event_context, lifecycle_context, request_in_context, request_in_event, request_in_lifecycle,
  publish_in_context, publish_in_event, publish_in_lifecycle, register_own_action,
  subscribe_in_lifecycle,
}
use rust_mono.Contexts.Paths.{request_in_context-relative}
use rust_mono.Contexts.Own.{request-register_own_action}
use rust_mono.Contexts.Heard.{count-publish_in_lifecycle}
use rust_mono.Contexts.ServiceRequest.{
  ServiceRequest, service_request, requested_service, action_or_event,
}
use rust_mono.Contexts.ServiceRequest.Names.{first_piece, action_or_event-service_request}

abbrev asking : RequestContext
asking = record { topic_path = users; path_params = [] }

abbrev made : ServiceRequest ℕ
made = record { topic_path = get_user; payload = 3; context = asking }

service_request-users : service_request count_writes "users" "get" 3 asking ≡ ok made
unfolding service_request glue
service_request-users =
    ap (λ o. o >>= λ (t : TopicPath). ok (record made { topic_path = t })) new-get_user

action_or_event-service_request_example :
    (action_or_event made ≡ "get")
    × (requested_service made ≡ first_piece (path_pieces "users"))
    × (made.topic_path.network_id ≡ asking.topic_path.network_id)
unfolding has_char path_pieces split
action_or_event-service_request_example =
    action_or_event-service_request count_writes "users" "get" 3 asking made (refl, refl)
      (refl, refl, refl) service_request-users

request_in_context-relative_example :
    (get_user.network_id ≡ users.network_id)
    × (request_in_context outside {T = ℕ}
          (λ v. ok v)
          (request_context users)
          "get"
          none
          (node_of ann)
        ≡ request_at outside (λ v. ok v) "get" none (node_of ann) (ok get_user))
    × (request_in_event outside {T = ℕ} (λ v. ok v) (event_context users) "get" none (node_of ann)
        ≡ request_at outside (λ v. ok v) "get" none (node_of ann) (ok get_user))
    × (request_in_lifecycle outside {T = ℕ}
          (λ v. ok v)
          (lifecycle_context users)
          "get"
          none
          (node_of ann)
        ≡ request_at outside (λ v. ok v) "get" none (node_of ann) (ok get_user))
    × (publish_in_context outside (request_context users) "get" none (node_of ann)
        ≡ publish_at outside none (node_of ann) (ok get_user))
    × (publish_in_event outside (event_context users) "get" none (node_of ann)
        ≡ publish_at outside none (node_of ann) (ok get_user))
    × (publish_in_lifecycle outside (lifecycle_context users) "get" none (node_of ann)
        ≡ publish_at outside none (node_of ann) (ok get_user))
unfolding has_char glue
request_in_context-relative_example =
    request_in_context-relative outside (λ v. ok v) users get_user "get" none (node_of ann)
      (main-Free, refl) refl refl new-get_user

new-IsRegistry : (T : Type 0) → IsRegistry (Trie.new {T = T})
unfolding Trie.new HasMaps
new-IsRegistry T = tt

-- The handler 7, as it is registered under the topic.
abbrev is_seven : Handler ℕ → TopicPath → Bool
is_seven (local_handler f) topic =
    eqb f 7 && topic.cached_action_path == get_user.cached_action_path
is_seven (remote_handler service name) topic = false

no_handlers : IsRegistry ((node_of ann).service_registry.local_action_handlers)
unfolding Registered.new
no_handlers = new-IsRegistry _

none_found :
    All
      (λ x. is_seven x.0 x.1 ≡ true)
      (find ((node_of ann).service_registry.local_action_handlers) get_user)
unfolding Registered.new Trie.new find find_matches get_child
none_found = tt

request-register_own_action_example :
    (h : Handler ℕ) × (registered : TopicPath) × (after : Sample) × (is_seven h registered ≡ true)
    × (register_own_action outside (lifecycle_context users) "get" (local_handler 7) (node_of ann)
        ≡ (after, ok tt))
    × (request_in_context outside {T = ℕ} (λ v. ok v) (request_context users) "get" none after
        ≡ typed outside
            (λ v. ok v)
            (call_handler outside h none (local_context get_user registered) after))
    × (request_in_event outside {T = ℕ} (λ v. ok v) (event_context users) "get" none after
        ≡ typed outside
            (λ v. ok v)
            (call_handler outside h none (local_context get_user registered) after))
    × (request_in_lifecycle outside {T = ℕ} (λ v. ok v) (lifecycle_context users) "get" none after
        ≡ typed outside
            (λ v. ok v)
            (call_handler outside h none (local_context get_user registered) after))
unfolding has_char glue
request-register_own_action_example =
    request-register_own_action outside (λ v. ok v) users get_user "get" none (node_of ann)
      (local_handler 7) is_seven (main-Free, refl) refl (refl, refl) new-get_user refl no_handlers
      refl none_found

no_subscriptions : IsRegistry ((node_of ann).service_registry.local_event_subscriptions)
unfolding Registered.new
no_subscriptions = new-IsRegistry _

get_user-OwnsFirst : OwnsFirst get_user ((node_of ann).service_registry.local_event_subscriptions)
unfolding Registered.new Trie.new find_matches get_child entries
get_user-OwnsFirst = refl

outside-Counts : Counts outside (λ n. n.world) (λ c. c)
outside-Counts = λ callback topic payload n. refl

count-publish_in_lifecycle_example :
    (id : String) × (after : Sample) × (subscribe_in_lifecycle outside
        (lifecycle_context users)
        "users/get"
        5
        (node_of ann)
      ≡ (after, ok id))
    × ((publish_in_lifecycle outside (lifecycle_context users) "users/get" none after).0.world
        ≡ after.world
          + (total
                (λ (s : String × ℕ). s.1)
                (get_local_event_subscribers (node_of ann).service_registry get_user)
              + (if has_char "/" "users/get" then 5 else 0)))
unfolding has_char path_pieces split
count-publish_in_lifecycle_example =
    count-publish_in_lifecycle outside (λ n. n.world) (λ c. c) outside-Counts users get_user
      get_user "users/get" 5 none (node_of ann) (main-Free, refl) refl (refl, refl) (refl, refl)
      new-get_user new-get_user no_subscriptions get_user-OwnsFirst refl
