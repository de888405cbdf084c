-- ===== src/Registry/Tests.antt =====
-- Runs of the registry on a concrete subscription, and the theorems applied to it.
use rust_mono.Prelude.{
  ℕ, String, ◌≡◌, refl, ap, Bool, true, not, eqb, ◌==◌, Option, none, some, List, [], ◌∷◌, ◌++◌,
  map, retain, if◌then◌else◌, All,
}
use rust_mono.Prelude.Result.{ok}
use rust_mono.Prelude.Bag.{SameItems}
use rust_mono.Prelude.HashMap as Map
use rust_mono.Prelude.Text.{starts_with_char}
use rust_mono.Routing.Segment.{to_string, is_template_param}
use rust_mono.Routing.TopicPath.{TopicPath, get_segments}
use rust_mono.Routing.Tests.{count_writes, get_user, all_users, new-get_user, main-Free}
use rust_mono.Trie as Trie
use rust_mono.Trie.{PathTrie, PathTrieMatch, get_child, set_value, set_values, set_values_internal}
use rust_mono.Trie.Search.{find, find_matches, find_matches_internal, find_level}
use rust_mono.Trie.Entries.{keys, entries}
use rust_mono.Trie.Entries.Distinct.{HasMaps}
use rust_mono.Trie.Entries.Find.{fits}
use rust_mono.Trie.Networks.{IsRegistry, set_values-IsRegistry}
use rust_mono.Trie.Networks.Own.{serves, own}
use rust_mono.Registry.{ServiceRegistry, RemoteService, new, register_remote_service}
use rust_mono.Registry.Subscriptions.{
  Subscriber, register_local_event_subscription, get_local_event_subscribers, unsubscribe_local,
}
use rust_mono.Registry.Delivery.{OwnsFirst}
use rust_mono.Registry.Delivery.Ends.{get_local_event_subscribers-unsubscribe_local}
use rust_mono.Registry.Delivery.Starts.{
  get_local_event_subscribers-register_local_event_subscription,
}

abbrev Fresh : Type 0
Fresh = ServiceRegistry ℕ ℕ ℕ ℕ

abbrev empty_registry : Fresh
empty_registry = new

new-IsRegistry : (X : Type 0) → IsRegistry (Trie.new {T = X})
unfolding Trie.new HasMaps
new-IsRegistry X = tt

abbrev seven : ℕ → Bool
seven h = eqb h 7

serves-all_users : serves all_users get_user ≡ true
unfolding keys fits get_segments to_string is_template_param starts_with_char
serves-all_users = refl

serves-get_user : serves get_user get_user ≡ true
unfolding keys fits get_segments to_string is_template_param starts_with_char
serves-get_user = refl

find-new :
    All
      (λ (x : ℕ × TopicPath × Option ℕ). seven x.0 ≡ true)
      (find (empty_registry.local_action_handlers) get_user)
unfolding new Trie.new find find_matches get_child
find-new = tt

abbrev user_service : RemoteService
user_service = record {
  name = "users";
  service_topic = get_user;
  version = "1";
  description = "";
  network_id = "main";
  peer_id = record { public_key = "ann" };
  action_names = "get" ∷ [];
  local_node_id = record { public_key = "bob" };
  request_timeout_ms = 30000;
}

abbrev with_service : Fresh
with_service = record empty_registry { remote_services = set_value get_user user_service Trie.new }

register_remote_service-new :
    register_remote_service empty_registry user_service ≡ (with_service, ok tt)
unfolding new register_remote_service Trie.new find_matches get_child
register_remote_service-new = refl

OwnsFirst-new : (X : Type 0) → OwnsFirst get_user (Trie.new {T = List X})
unfolding Trie.new find_matches get_child entries
OwnsFirst-new X = refl

get_local_event_subscribers-register_local_event_subscription_example :
    (after : Fresh) × (register_local_event_subscription count_writes empty_registry "one" get_user
        7 none
      ≡ ok after)
    × SameItems (get_local_event_subscribers after get_user) (
        get_local_event_subscribers empty_registry get_user
        ++ (if serves get_user get_user then ("one", 7) ∷ [] else []))
unfolding new
get_local_event_subscribers-register_local_event_subscription_example =
    get_local_event_subscribers-register_local_event_subscription count_writes empty_registry "one"
      "users/get" "main" get_user get_user 7 none (main-Free, refl) new-get_user (new-IsRegistry _)
      (OwnsFirst-new _) refl

abbrev subscribed : List (Subscriber ℕ ℕ)
subscribed = ("one", 7, none) ∷ ("two", 9, none) ∷ []

abbrev with_subscriptions : Fresh
with_subscriptions = record empty_registry {
  local_event_subscriptions = set_value get_user subscribed Trie.new;
  subscription_id_to_topic_path = ("one", get_user) ∷ ("two", get_user) ∷ [];
}

abbrev subscribed_match : PathTrieMatch (List (Subscriber ℕ ℕ))
subscribed_match = record { content = subscribed; params = [] }

with_subscriptions-IsRegistry : IsRegistry (with_subscriptions.local_event_subscriptions)
unfolding set_value
with_subscriptions-IsRegistry =
    set_values-IsRegistry get_user (subscribed ∷ []) Trie.new (new-IsRegistry _)

known_topic : Map.get "one" (with_subscriptions.subscription_id_to_topic_path) ≡ some get_user
unfolding Map.get
known_topic = refl

find_matches_subscribed :
    find_matches (with_subscriptions.local_event_subscriptions) get_user ≡ subscribed_match ∷ []
unfolding Trie.new find_matches find_matches_internal find_level get_child set_value set_values
    set_values_internal get_segments to_string is_template_param starts_with_char
find_matches_subscribed = refl

own-subscribed : own get_user (with_subscriptions.local_event_subscriptions) ≡ subscribed ∷ []
unfolding Trie.new entries keys get_child set_value set_values set_values_internal get_segments
    to_string is_template_param starts_with_char
own-subscribed = refl

get_local_event_subscribers-unsubscribe_local_example :
    ((unsubscribe_local with_subscriptions "one").1 ≡ ok tt)
    × SameItems
        (get_local_event_subscribers (unsubscribe_local with_subscriptions "one").0 get_user
          ++ (if serves get_user get_user
              then map
                  (λ (s : Subscriber ℕ ℕ). (s.0, s.1))
                  (retain (λ s. not (not (s.0 == "one"))) subscribed)
              else []))
        (get_local_event_subscribers with_subscriptions get_user)
get_local_event_subscribers-unsubscribe_local_example =
    get_local_event_subscribers-unsubscribe_local with_subscriptions "one" get_user get_user
      subscribed_match [] with_subscriptions-IsRegistry known_topic find_matches_subscribed
      own-subscribed refl

unsubscribe_one :
    unsubscribe_local with_subscriptions "one"
    ≡ ((unsubscribe_local with_subscriptions "one").0, ok tt)
unsubscribe_one =
    ap (λ e. ((unsubscribe_local with_subscriptions "one").0, e))
      (get_local_event_subscribers-unsubscribe_local with_subscriptions "one" get_user get_user
        subscribed_match [] with_subscriptions-IsRegistry known_topic find_matches_subscribed
        own-subscribed refl).0

abbrev remote_list : List (String × ℕ)
remote_list = ("one", 7) ∷ ("two", 9) ∷ []

abbrev with_remote : Fresh
with_remote = record empty_registry {
  remote_event_subscriptions = set_value get_user remote_list Trie.new;
  subscription_id_to_topic_path = ("one", get_user) ∷ ("two", get_user) ∷ [];
}

abbrev remote_match : PathTrieMatch (List (String × ℕ))
remote_match = record { content = remote_list; params = [] }

with_remote-IsRegistry : IsRegistry (with_remote.remote_event_subscriptions)
unfolding set_value
with_remote-IsRegistry =
    set_values-IsRegistry get_user (remote_list ∷ []) Trie.new (new-IsRegistry _)

find_matches_remote :
    find_matches (with_remote.remote_event_subscriptions) get_user ≡ remote_match ∷ []
unfolding Trie.new find_matches find_matches_internal find_level get_child set_value set_values
    set_values_internal get_segments to_string is_template_param starts_with_char
find_matches_remote = refl

own-remote_list : own get_user (with_remote.remote_event_subscriptions) ≡ remote_list ∷ []
unfolding Trie.new entries keys get_child set_value set_values set_values_internal get_segments
    to_string is_template_param starts_with_char
own-remote_list = refl
