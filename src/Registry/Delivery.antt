-- ===== src/Registry/Delivery.antt =====
-- runar-node/src/services/service_registry.rs: whom an event reaches after a subscription and after
-- its end.
pub mod Ends
pub mod Starts
use mathlib.Core.List.{flat_map}
use rust_mono.Prelude.{
  ℕ, zero, suc, ◌+◌, ◌<◌, ◌≡◌, ◌≢◌, refl, sym, ap, ◌∙◌, inl, inr, Bool, true, false, not, ◌&&◌,
  String, ◌==◌, eq_iff, eq_refl, Option, none, some, List, [], ◌∷◌, ◌++◌, map, length, ltb, retain,
  All, arith, if◌then◌else◌, Bool-cases, is_empty,
}
use rust_mono.Prelude.Result.{Result, ok, err, ◌>>=◌}
use rust_mono.Prelude.Bag.{
  total, total-append, total-map, total-retain, total_ext, total_zero, SameItems,
}
use rust_mono.Prelude.HashMap as Map
use rust_mono.Prelude.HashMap.{get-insert}
use rust_mono.Routing.TopicPath.{TopicPath, Hasher, get_segments}
use rust_mono.Routing.TopicPath as TopicPath
use rust_mono.Trie.{PathTrie, PathTrieMatch, set_value}
use rust_mono.Trie.Search.{find_matches, find}
use rust_mono.Trie.Removal.{remove_handler}
use rust_mono.Trie.Networks.{IsRegistry, set_values-IsRegistry, remove_handler-IsRegistry}
use rust_mono.Trie.Networks.Own.{
  serves, all_of, own, find-remove_own, remove_handler-own, own-unmatched,
}
use rust_mono.Registry.{ServiceRegistry, EventMetadata, Outcome}
use rust_mono.Registry.Subscriptions.{
  Subscriber, append_to, put_back, replace_with, register_local_event_subscription,
  register_remote_event_subscription, get_local_event_subscribers, get_remote_event_subscribers,
  unsubscribe_local, unsubscribe_remote,
}
use rust_mono.Registry.Actions.{
  found, total-find_matches, found-set_value, total-flat_map, serves_self,
}

module _ {X : Type 0} where
  abbrev pub first_match : List (PathTrieMatch (List X)) → List (List X)
  first_match [] = []
  first_match (m ∷ ms) = m.content ∷ []

  -- The first match for a topic is what stands under the topic itself, and nothing else does.
  abbrev pub OwnsFirst : TopicPath → PathTrie (List X) → Type 0
  OwnsFirst topic trie = own topic trie ≡ first_match (find_matches trie topic)

  pub found-append :
      (w : X → ℕ) (topic q : TopicPath) (x : X) (ms : List (PathTrieMatch (List X)))
      (t : PathTrie (List X))
      → IsRegistry t
      → q.is_pattern ≡ false
      → own topic t ≡ first_match ms
      → found (total w) (append_to topic x ms t) q
        ≡ found (total w) t q + (if serves topic q then w x else 0)
  unfolding append_to
  found-append w topic q x [] t m concrete owns =
      ground (arith, found-set_value (total w) topic q (x ∷ []) t m concrete)
  found-append w topic q x (n ∷ ms) t m concrete owns =
      let without = (remove_handler all_of topic t).0 in
      ground (
        arith,
        found-set_value (total w) topic q (n.content ++ x ∷ []) without
            (remove_handler-IsRegistry all_of topic t m) concrete,
        find-remove_own topic q (total w) t m concrete,
        ap (total (total w)) owns,
        total-append w n.content (x ∷ []),
      )

  found-put_back :
      (w : X → ℕ) (topic q : TopicPath) (items : List X) (t : PathTrie (List X))
      → IsRegistry t
      → q.is_pattern ≡ false
      → found (total w) (put_back topic items t) q
        ≡ found (total w) t q + (if serves topic q then total w items else 0)
  unfolding put_back
  found-put_back w topic q [] t m concrete = ground arith
  found-put_back w topic q (x ∷ xs) t m concrete =
      found-set_value (total w) topic q (x ∷ xs) t m concrete

  total-retain_both :
      (w : X → ℕ) (keep : X → Bool) (xs : List X)
      → total w (retain keep xs) + total w (retain (λ x. not (keep x)) xs) ≡ total w xs
  total-retain_both w keep [] = omega arith
  total-retain_both w keep (x ∷ xs) = ground (arith, total-retain_both w keep xs)

  pub found-replace_with :
      (w : X → ℕ) (keep : X → Bool) (topic q : TopicPath) (items : List X) (t : PathTrie (List X))
      → IsRegistry t
      → q.is_pattern ≡ false
      → own topic t ≡ items ∷ []
      → found (total w) (replace_with keep topic items t).0 q
          + (if serves topic q then total w (retain (λ x. not (keep x)) items) else 0)
        ≡ found (total w) t q
  unfolding replace_with
  found-replace_with w keep topic q items t m concrete owns =
      let without = (remove_handler all_of topic t).0 in
      ground (
        arith,
        found-put_back w topic q (retain keep items) without
            (remove_handler-IsRegistry all_of topic t m) concrete,
        find-remove_own topic q (total w) t m concrete,
        ap (total (total w)) owns,
        total-retain_both w keep items,
      )

  pub removed-replace_with :
      (keep : X → Bool) (topic : TopicPath) (items : List X) (t : PathTrie (List X))
      → IsRegistry t
      → own topic t ≡ items ∷ []
      → (replace_with keep topic items t).1 ≡ true
  unfolding replace_with
  removed-replace_with keep topic items t m owns =
      remove_handler-own topic t m ∙ ap (λ xs. ltb 0 (length xs)) owns

module _ {H C AM FS : Type 0} where
  pub total-local :
      (w : String × C → ℕ) (r : ServiceRegistry H C AM FS) (q : TopicPath)
      → total w (get_local_event_subscribers r q)
        ≡ found (total (λ s. w (s.0, s.1))) r.local_event_subscriptions q
  unfolding get_local_event_subscribers
  total-local w r q =
      let trie = r.local_event_subscriptions in
      total-flat_map w (λ m. map (λ s. (s.0, s.1)) m.content) (find_matches trie q)
      ∙ total_ext _ _ (find_matches trie q) (λ m. total-map w (λ s. (s.0, s.1)) m.content)
      ∙ total-find_matches (total (λ s. w (s.0, s.1))) trie q

  pub total-remote :
      (w : String × C → ℕ) (r : ServiceRegistry H C AM FS) (q : TopicPath)
      → total w (get_remote_event_subscribers r q) ≡ found (total w) r.remote_event_subscriptions q
  unfolding get_remote_event_subscribers
  total-remote w r q =
      let trie = r.remote_event_subscriptions in
      total-flat_map w (λ m. m.content) (find_matches trie q) ∙ total-find_matches (total w) trie q

  -- After `register_remote_event_subscription` a concrete path reaches the remote subscribers it
  -- reached before and, if the topic serves it, the new one once more, up to order; the trie's maps
  -- hold each key once, and the topic's own list is the first match for the topic, or neither is
  -- there.
  pub get_remote_event_subscribers-register_remote_event_subscription :
      (r : ServiceRegistry H C AM FS) (id : String) (topic q : TopicPath) (callback : C)
      → IsRegistry r.remote_event_subscriptions
      → OwnsFirst topic r.remote_event_subscriptions
      → q.is_pattern ≡ false
      → SameItems
          (get_remote_event_subscribers (register_remote_event_subscription r id topic callback) q)
          (get_remote_event_subscribers r q ++ (if serves topic q then (id, callback) ∷ [] else []))
  unfolding register_remote_event_subscription
  get_remote_event_subscribers-register_remote_event_subscription r id topic q callback m owns
        concrete w =
      let x : String × C = (id, callback) in
      let trie = r.remote_event_subscriptions in
      ground (
        arith,
        total-remote w (register_remote_event_subscription r id topic callback) q,
        total-remote w r q,
        found-append w topic q x (find_matches trie topic) trie m concrete owns,
        total-append w (get_remote_event_subscribers r q) (if serves topic q then x ∷ [] else []),
      )
