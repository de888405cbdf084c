-- ===== src/Registry/Subscriptions.antt =====
-- runar-node/src/services/service_registry.rs: event subscriptions. An identifier that the source
-- draws with `Uuid::new_v4` is an argument.
use mathlib.Core.List.{flat_map}
use rust_mono.Prelude.{
  Bool, true, false, not, String, ◌==◌, Option, none, some, List, [], ◌∷◌, ◌++◌, map, retain,
  is_empty, if◌then◌else◌,
}
use rust_mono.Prelude.Result.{ok, err, ◌>>=◌}
use rust_mono.Prelude.HashMap as Map
use rust_mono.Prelude.HashMap.{HashMap}
use rust_mono.Routing.TopicPath.{TopicPath, Hasher, Fallible}
use rust_mono.Routing.TopicPath as TopicPath
use rust_mono.Trie.{PathTrie, PathTrieMatch, set_value}
use rust_mono.Trie.Search.{find_matches}
use rust_mono.Trie.Removal.{remove_handler}
use rust_mono.Registry.{
  ServiceRegistry, EventMetadata, Outcome, no_topic_path, no_subscriptions, handler_not_found,
}

-- The list under a topic, extended by an item: the first match is taken to be that list.
module _ {X : Type 0} where
  abbrev pub accept_all : X → Bool
  accept_all x = true

  unfoldable pub append_to :
      TopicPath → X → List (PathTrieMatch (List X)) → PathTrie (List X) → PathTrie (List X)
  append_to topic x [] trie = set_value topic (x ∷ []) trie
  append_to topic x (m ∷ ms) trie =
      set_value topic (m.content ++ x ∷ []) (remove_handler (λ _. true) topic trie).0

  unfoldable pub put_back : TopicPath → List X → PathTrie (List X) → PathTrie (List X)
  put_back topic items trie = if is_empty items then trie else set_value topic items trie

  -- The list of a match, less some items, in place of what stands under the topic; and whether
  -- anything stood there.
  unfoldable pub replace_with :
      (X → Bool) → TopicPath → List X → PathTrie (List X) → PathTrie (List X) × Bool
  unfolding put_back
  replace_with keep topic items trie =
      let (without, removed) = remove_handler (λ _. true) topic trie in
      (put_back topic (retain keep items) without, removed)

abbrev pub Subscriber : Type 0 → Type 0 → Type 0
Subscriber C FS = String × C × Option (EventMetadata FS)

module _ {FS : Type 0} where
  abbrev pub add_event :
      TopicPath
      → Option (EventMetadata FS)
      → PathTrie (List (EventMetadata FS))
      → PathTrie (List (EventMetadata FS))
  add_event topic none events = events
  add_event topic (some metadata) events =
      append_to topic metadata (find_matches events topic) events

  -- One round of the loop over the matches for the service's topic.
  unfoldable pub drop_events :
      String
      → TopicPath
      → List (PathTrieMatch (List (EventMetadata FS)))
      → PathTrie (List (EventMetadata FS))
      → PathTrie (List (EventMetadata FS))
  unfolding replace_with
  drop_events path service_topic [] events = events
  drop_events path service_topic (m ∷ ms) events =
      drop_events path service_topic ms
        (replace_with (λ e. not (e.path == path)) service_topic m.content events).0

  abbrev pub drop_service_events :
      TopicPath
      → Option TopicPath
      → PathTrie (List (EventMetadata FS))
      → PathTrie (List (EventMetadata FS))
  drop_service_events topic none events = events
  drop_service_events topic (some service_topic) events =
      drop_events topic.path service_topic (find_matches events service_topic) events

module _ {H C AM FS : Type 0} where
  -- An `err` stands for the panic of `unwrap` on the service's path.
  unfoldable pub register_local_event_subscription :
      Hasher
      → ServiceRegistry H C AM FS
      → String
      → TopicPath
      → C
      → Option (EventMetadata FS)
      → Fallible (ServiceRegistry H C AM FS)
  unfolding append_to
  register_local_event_subscription hasher r subscription_id topic callback metadata = do
    let subscriptions = r.local_event_subscriptions
    service_topic ← TopicPath.new hasher topic.service_path topic.network_id
    ok (record r {
      local_event_subscriptions =
          append_to topic (subscription_id, callback, metadata) (find_matches subscriptions topic)
            subscriptions;
      subscription_id_to_topic_path =
          Map.insert subscription_id topic r.subscription_id_to_topic_path;
      local_events_by_service = add_event service_topic metadata r.local_events_by_service;
      subscription_id_to_service_topic_path =
          Map.insert subscription_id service_topic r.subscription_id_to_service_topic_path;
    })

  unfoldable pub register_remote_event_subscription :
      ServiceRegistry H C AM FS → String → TopicPath → C → ServiceRegistry H C AM FS
  unfolding append_to
  register_remote_event_subscription r subscription_id topic callback =
      let subscriptions = r.remote_event_subscriptions in
      record r {
        remote_event_subscriptions =
            append_to topic (subscription_id, callback) (find_matches subscriptions topic)
              subscriptions;
        subscription_id_to_topic_path =
            Map.insert subscription_id topic r.subscription_id_to_topic_path;
      }

  unfoldable pub get_local_event_subscribers :
      ServiceRegistry H C AM FS → TopicPath → List (String × C)
  get_local_event_subscribers r topic =
      flat_map (λ m. map (λ s. (s.0, s.1)) m.content)
        (find_matches r.local_event_subscriptions topic)

  unfoldable pub get_remote_event_subscribers :
      ServiceRegistry H C AM FS → TopicPath → List (String × C)
  get_remote_event_subscribers r topic =
      flat_map (λ m. m.content) (find_matches r.remote_event_subscriptions topic)

  abbrev pub finish_local :
      ServiceRegistry H C AM FS
      → String
      → TopicPath
      → PathTrie (List (Subscriber C FS)) × Bool
      → Outcome (ServiceRegistry H C AM FS)
  finish_local r subscription_id topic (subscriptions, false) = (
    record r { local_event_subscriptions = subscriptions },
    err (handler_not_found topic subscription_id),
  )
  finish_local r subscription_id topic (subscriptions, true) = (
    record r {
      local_event_subscriptions = subscriptions;
      subscription_id_to_topic_path = Map.remove subscription_id r.subscription_id_to_topic_path;
      local_events_by_service =
          drop_service_events topic
            (Map.get subscription_id r.subscription_id_to_service_topic_path)
            r.local_events_by_service;
    },
    ok tt,
  )

  abbrev pub unsubscribe_local_from :
      ServiceRegistry H C AM FS
      → String
      → TopicPath
      → List (PathTrieMatch (List (Subscriber C FS)))
      → Outcome (ServiceRegistry H C AM FS)
  unsubscribe_local_from r subscription_id topic [] =
      (r, err (no_subscriptions topic subscription_id))
  unsubscribe_local_from r subscription_id topic (m ∷ ms) =
      finish_local r subscription_id topic (
        replace_with (λ s. not (s.0 == subscription_id)) topic m.content
          r.local_event_subscriptions)

  abbrev pub unsubscribe_local_at :
      ServiceRegistry H C AM FS → String → Option TopicPath → Outcome (ServiceRegistry H C AM FS)
  unsubscribe_local_at r subscription_id none = (r, err (no_topic_path subscription_id))
  unsubscribe_local_at r subscription_id (some topic) =
      unsubscribe_local_from r subscription_id topic
        (find_matches r.local_event_subscriptions topic)

  unfoldable pub unsubscribe_local :
      ServiceRegistry H C AM FS → String → Outcome (ServiceRegistry H C AM FS)
  unfolding replace_with drop_events
  unsubscribe_local r subscription_id =
      unsubscribe_local_at r subscription_id
        (Map.get subscription_id r.subscription_id_to_topic_path)

  abbrev pub finish_remote :
      ServiceRegistry H C AM FS
      → String
      → TopicPath
      → PathTrie (List (String × C)) × Bool
      → Outcome (ServiceRegistry H C AM FS)
  finish_remote r subscription_id topic (subscriptions, false) = (
    record r { remote_event_subscriptions = subscriptions },
    err (handler_not_found topic subscription_id),
  )
  finish_remote r subscription_id topic (subscriptions, true) = (
    record r {
      remote_event_subscriptions = subscriptions;
      subscription_id_to_topic_path = Map.remove subscription_id r.subscription_id_to_topic_path;
    },
    ok tt,
  )

  abbrev pub unsubscribe_remote_from :
      ServiceRegistry H C AM FS
      → String
      → TopicPath
      → List (PathTrieMatch (List (String × C)))
      → Outcome (ServiceRegistry H C AM FS)
  unsubscribe_remote_from r subscription_id topic [] =
      (r, err (no_subscriptions topic subscription_id))
  unsubscribe_remote_from r subscription_id topic (m ∷ ms) = finish_remote r subscription_id topic (
      replace_with (λ s. not (s.0 == subscription_id)) topic m.content r.remote_event_subscriptions)

  abbrev pub unsubscribe_remote_at :
      ServiceRegistry H C AM FS → String → Option TopicPath → Outcome (ServiceRegistry H C AM FS)
  unsubscribe_remote_at r subscription_id none = (r, err (no_topic_path subscription_id))
  unsubscribe_remote_at r subscription_id (some topic) =
      unsubscribe_remote_from r subscription_id topic
        (find_matches r.remote_event_subscriptions topic)

  unfoldable pub unsubscribe_remote :
      ServiceRegistry H C AM FS → String → Outcome (ServiceRegistry H C AM FS)
  unfolding replace_with
  unsubscribe_remote r subscription_id =
      unsubscribe_remote_at r subscription_id
        (Map.get subscription_id r.subscription_id_to_topic_path)
