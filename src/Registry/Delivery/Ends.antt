-- ===== src/Registry/Delivery/Ends.antt =====
-- runar-node/src/services/service_registry.rs: `unsubscribe_local` and `unsubscribe_remote`.
use rust_mono.Prelude.{
  ℕ, ◌≡◌, refl, sym, ap, ◌∙◌, Bool, true, false, not, String, ◌==◌, eq_refl, Option, none, some,
  List, [], ◌∷◌, ◌++◌, map, retain, arith, if◌then◌else◌,
}
use rust_mono.Prelude.Result.{ok, err}
use rust_mono.Prelude.Bag.{total, total-append, total-map, SameItems}
use rust_mono.Prelude.HashMap as Map
use rust_mono.Prelude.HashMap.{get-remove}
use rust_mono.Routing.TopicPath.{TopicPath}
use rust_mono.Trie.{PathTrie, PathTrieMatch}
use rust_mono.Trie.Search.{find_matches}
use rust_mono.Trie.Networks.{IsRegistry}
use rust_mono.Trie.Networks.Own.{serves, own}
use rust_mono.Registry.{ServiceRegistry, no_topic_path}
use rust_mono.Registry.Subscriptions.{
  finish_remote, unsubscribe_remote, get_remote_event_subscribers, Subscriber, replace_with,
  get_local_event_subscribers, finish_local, unsubscribe_local_from, unsubscribe_local_at,
  unsubscribe_local,
}
use rust_mono.Registry.Actions.{found}
use rust_mono.Registry.Delivery.{
  total-remote, total-local, found-replace_with, removed-replace_with,
}

get-remove_self {ℓ} :
    {V : Type ℓ} (id : String) (m : Map.HashMap V) → Map.get id (Map.remove id m) ≡ none
get-remove_self id m = get-remove id id m ∙ rw (eq_refl id) refl

module _ {H C AM FS : Type 0} where
  -- After a finished unsubscription the identifier is unknown.
  forgotten_local :
      (r after : ServiceRegistry H C AM FS) (id : String) (topic : TopicPath)
      (left : PathTrie (List (Subscriber C FS)) × Bool)
      → finish_local r id topic left ≡ (after, ok tt)
      → Map.get id after.subscription_id_to_topic_path ≡ none
  forgotten_local r after id topic (trie, false) done = cc (ap (λ o. o.1) done)
  forgotten_local r after id topic (trie, true) done =
      ap (λ o. Map.get id (o.0).subscription_id_to_topic_path) (sym done)
      ∙ get-remove_self id r.subscription_id_to_topic_path

  forgotten_local_from :
      (r after : ServiceRegistry H C AM FS) (id : String) (topic : TopicPath)
      (ms : List (PathTrieMatch (List (Subscriber C FS))))
      → unsubscribe_local_from r id topic ms ≡ (after, ok tt)
      → Map.get id after.subscription_id_to_topic_path ≡ none
  forgotten_local_from r after id topic [] done = cc (ap (λ o. o.1) done)
  forgotten_local_from r after id topic (m ∷ ms) done =
      forgotten_local r after id topic
        (replace_with (λ s. not (s.0 == id)) topic m.content r.local_event_subscriptions) done

  forgotten_local_at :
      (r after : ServiceRegistry H C AM FS) (id : String) (topic : Option TopicPath)
      → unsubscribe_local_at r id topic ≡ (after, ok tt)
      → Map.get id after.subscription_id_to_topic_path ≡ none
  forgotten_local_at r after id none done = cc (ap (λ o. o.1) done)
  forgotten_local_at r after id (some topic) done =
      forgotten_local_from r after id topic (find_matches r.local_event_subscriptions topic) done

  -- After a successful `unsubscribe_local`, another one with the same identifier returns the error
  -- that no topic is mapped to it, and leaves the registry as it was.
  pub unsubscribe_local-unsubscribe_local :
      (r after : ServiceRegistry H C AM FS) (id : String)
      → unsubscribe_local r id ≡ (after, ok tt)
      → unsubscribe_local after id ≡ (after, err (no_topic_path id))
  unfolding unsubscribe_local
  unsubscribe_local-unsubscribe_local r after id done =
      ap (unsubscribe_local_at after id)
        (forgotten_local_at r after id (Map.get id r.subscription_id_to_topic_path) done)

  finished_local :
      (r : ServiceRegistry H C AM FS) (id : String) (topic : TopicPath)
      (left : PathTrie (List (Subscriber C FS)) × Bool)
      → left.1 ≡ true
      → ((finish_local r id topic left).1 ≡ ok tt)
        × ((finish_local r id topic left).0.local_event_subscriptions ≡ left.0)
  finished_local r id topic (trie, false) removed = cc
  finished_local r id topic (trie, true) removed = (refl, refl)

  -- If an identifier is mapped to a topic whose own list is the first match for it and the only
  -- list under its key, `unsubscribe_local` succeeds, and a concrete path then reaches, up to
  -- order, the subscribers it reached before less those of the topic's list with that identifier,
  -- if the topic serves it; the trie's maps hold each key once.
  pub get_local_event_subscribers-unsubscribe_local :
      (r : ServiceRegistry H C AM FS) (id : String) (topic q : TopicPath)
      (m : PathTrieMatch (List (Subscriber C FS)))
      (ms : List (PathTrieMatch (List (Subscriber C FS))))
      → IsRegistry r.local_event_subscriptions
      → Map.get id r.subscription_id_to_topic_path ≡ some topic
      → find_matches r.local_event_subscriptions topic ≡ m ∷ ms
      → own topic r.local_event_subscriptions ≡ m.content ∷ []
      → q.is_pattern ≡ false
      → ((unsubscribe_local r id).1 ≡ ok tt)
        × SameItems
            (get_local_event_subscribers (unsubscribe_local r id).0 q
              ++ (if serves topic q
                  then map
                      (λ (s : Subscriber C FS). (s.0, s.1))
                      (retain (λ s. not (not (s.0 == id))) m.content)
                  else []))
            (get_local_event_subscribers r q)
  unfolding unsubscribe_local
  get_local_event_subscribers-unsubscribe_local r id topic q m ms valid known first owns concrete =
      let mine : Subscriber C FS → Bool = λ s. not (s.0 == id) in
      let trie = r.local_event_subscriptions in
      let left = replace_with mine topic m.content trie in
      let run : unsubscribe_local r id ≡ finish_local r id topic left = rw (known, first) refl in
      let (finished, stored) =
        finished_local r id topic left
          (removed-replace_with mine topic m.content trie valid owns) in
      let gone : List (String × C) =
        map (λ (s : Subscriber C FS). (s.0, s.1)) (retain (λ s. not (mine s)) m.content) in
      (
        ap (λ o. o.1) run ∙ finished,
        λ w.
            let after = (unsubscribe_local r id).0 in
            let same_trie : after.local_event_subscriptions ≡ left.0 =
              ap (λ o. (o.0).local_event_subscriptions) run ∙ stored in
            let v : Subscriber C FS → ℕ = λ s. w (s.0, s.1) in
            ground (
              arith,
              total-append w (get_local_event_subscribers after q)
                  (if serves topic q then gone else []),
              total-local w after q,
              total-local w r q,
              ap (λ t. found (total v) t q) same_trie,
              total-map w (λ (s : Subscriber C FS). (s.0, s.1))
                  (retain (λ s. not (mine s)) m.content),
              found-replace_with v mine topic q m.content trie valid concrete owns,
            ),
      )

  finished_remote :
      (r : ServiceRegistry H C AM FS) (id : String) (topic : TopicPath)
      (left : PathTrie (List (String × C)) × Bool)
      → left.1 ≡ true
      → ((finish_remote r id topic left).1 ≡ ok tt)
        × ((finish_remote r id topic left).0.remote_event_subscriptions ≡ left.0)
  finished_remote r id topic (trie, false) removed = cc
  finished_remote r id topic (trie, true) removed = (refl, refl)

  -- If an identifier is mapped to a topic whose own list of remote subscribers is the first match
  -- for it and the only list under its key, `unsubscribe_remote` succeeds, and a concrete path then
  -- reaches, up to order, the remote subscribers it reached before less those of the topic's list
  -- with that identifier, if the topic serves it; the trie's maps hold each key once.
  pub get_remote_event_subscribers-unsubscribe_remote :
      (r : ServiceRegistry H C AM FS) (id : String) (topic q : TopicPath)
      (m : PathTrieMatch (List (String × C))) (ms : List (PathTrieMatch (List (String × C))))
      → IsRegistry r.remote_event_subscriptions
      → Map.get id r.subscription_id_to_topic_path ≡ some topic
      → find_matches r.remote_event_subscriptions topic ≡ m ∷ ms
      → own topic r.remote_event_subscriptions ≡ m.content ∷ []
      → q.is_pattern ≡ false
      → ((unsubscribe_remote r id).1 ≡ ok tt)
        × SameItems
            (get_remote_event_subscribers (unsubscribe_remote r id).0 q
              ++ (if serves topic q then retain (λ s. not (not (s.0 == id))) m.content else []))
            (get_remote_event_subscribers r q)
  unfolding unsubscribe_remote
  get_remote_event_subscribers-unsubscribe_remote r id topic q m ms valid known first owns
        concrete =
      let mine : String × C → Bool = λ s. not (s.0 == id) in
      let trie = r.remote_event_subscriptions in
      let left = replace_with mine topic m.content trie in
      let run : unsubscribe_remote r id ≡ finish_remote r id topic left = rw (known, first) refl in
      let (finished, stored) =
        finished_remote r id topic left
          (removed-replace_with mine topic m.content trie valid owns) in
      let gone : List (String × C) = retain (λ s. not (mine s)) m.content in
      (
        ap (λ o. o.1) run ∙ finished,
        λ w.
            let after = (unsubscribe_remote r id).0 in
            let same_trie : after.remote_event_subscriptions ≡ left.0 =
              ap (λ o. (o.0).remote_event_subscriptions) run ∙ stored in
            ground (
              arith,
              total-append w (get_remote_event_subscribers after q)
                  (if serves topic q then gone else []),
              total-remote w after q,
              total-remote w r q,
              ap (λ t. found (total w) t q) same_trie,
              found-replace_with w mine topic q m.content trie valid concrete owns,
            ),
      )
