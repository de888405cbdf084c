-- ===== src/Registry/Delivery/Starts.antt =====
-- runar-node/src/services/service_registry.rs: `register_local_event_subscription`.
use mathlib.Core.Path.{subst}
use rust_mono.Prelude.{
  ℕ, ◌<◌, ◌≡◌, refl, sym, ap, ◌∙◌, Bool, true, false, not, String, Option, List, [], ◌∷◌, ◌++◌, map,
  length, retain, All, arith, if◌then◌else◌,
}
use rust_mono.Prelude.Result.{ok}
use rust_mono.Prelude.Bag.{total-append, SameItems}
use rust_mono.Prelude.HashMap as Map
use rust_mono.Prelude.Text.{empty, split}
use rust_mono.Prelude.Text.Split.{Free, split_of_Free, split-Free, split-Free_other}
use rust_mono.Routing.Segment.{PathSegment, from_str, to_string-from_str}
use rust_mono.Routing.TopicPath.{TopicPath, Hasher, parse_network, path_pieces, service_text}
use rust_mono.Routing.TopicPath as TopicPath
use rust_mono.Routing.Parsing.{new-IsWellFormed, new-IsPrinted, new_accepts_iff}
use rust_mono.Routing.Template.Laws.{parse_network-bare}
use rust_mono.Trie.Search.{find_matches}
use rust_mono.Trie.Networks.{IsRegistry}
use rust_mono.Trie.Networks.Own.{serves}
use rust_mono.Registry.{ServiceRegistry, EventMetadata}
use rust_mono.Registry.Subscriptions.{
  Subscriber, append_to, add_event, register_local_event_subscription, get_local_event_subscribers,
}
use rust_mono.Registry.Delivery.{OwnsFirst, total-local, found-append}

-- A text without separators that is not empty is a path of one segment.
path_pieces-single : (s : String) → Free "/" s → empty s ≡ false → path_pieces s ≡ s ∷ []
unfolding path_pieces
path_pieces-single s free some_text = rw (split_of_Free "/" s free, some_text) refl

abbrev IsPiece : String → Type 0
IsPiece s = Free "/" s × Free ":" s × (empty s ≡ false)

zip_pieces :
    (ps : List String)
    → All (Free "/") ps
    → All (Free ":") ps
    → All IsPiece (retain (λ p. not (empty p)) ps)
zip_pieces [] f g = tt
zip_pieces (p ∷ ps) (f, fs) (g, gs) =
    keep (empty p) refl (retain (λ q. not (empty q)) ps) (zip_pieces ps fs gs)
  where
    keep :
        (b : Bool)
        → empty p ≡ b
        → (qs : List String) → All IsPiece qs
        → All IsPiece (if not b then p ∷ qs else qs)
    keep true e qs rest = rest
    keep false e qs rest = ((f, g, e), rest)

path_pieces-All : (r : String) → Free ":" r → All IsPiece (path_pieces r)
unfolding path_pieces
path_pieces-All r free =
    zip_pieces (split "/" r) (split-Free "/" r) (split-Free_other ":" "/" r free)

service_text-IsPiece :
    (ss : List PathSegment) (ps : List String)
    → ss ≡ map from_str ps
    → All IsPiece ps
    → 0 < length ss
    → IsPiece (service_text ss)
service_text-IsPiece ss [] e all pos = ground (arith, ap length e)
service_text-IsPiece ss (p ∷ ps) e (here, later) pos =
    subst IsPiece (sym (ap service_text e ∙ to_string-from_str p)) here

module _ (hasher : Hasher) where
  -- The service of a path that `new` builds is itself a path.
  pub new-service_path :
      (p d : String) (tp : TopicPath)
      → Free ":" d × (empty d ≡ false)
      → TopicPath.new hasher p d ≡ ok tp
      → (service : TopicPath) × (TopicPath.new hasher tp.service_path tp.network_id ≡ ok service)
  new-service_path p d tp (free, some_network) h =
      let printed = new-IsPrinted hasher p d tp free some_network h in
      let well = (new-IsWellFormed hasher p d tp h).0 in
      let piece : IsPiece tp.service_path = subst IsPiece (sym well.service) (
        service_text-IsPiece tp.segments (path_pieces printed.rest) printed.pieces
          (path_pieces-All printed.rest printed.rest_free) well.nonempty) in
      let single = path_pieces-single tp.service_path piece.0 piece.2 in
      (new_accepts_iff hasher tp.service_path tp.network_id).1 (
        (tp.network_id, tp.service_path),
        parse_network-bare tp.service_path tp.network_id piece.1,
        rw single refl,
        rw single refl,
      )

  module _ {H C AM FS : Type 0} where
    -- `register_local_event_subscription` under a topic that `new` built (its default network
    -- neither empty nor with a colon) never panics, and afterwards a concrete path reaches the
    -- subscribers it reached before and, if the topic serves it, the new one once more, up to
    -- order; the trie's maps hold each key once, and the topic's own list is the first match for
    -- the topic, or neither is there.
    pub get_local_event_subscribers-register_local_event_subscription :
        (r : ServiceRegistry H C AM FS) (id p d : String) (topic q : TopicPath) (callback : C)
        (metadata : Option (EventMetadata FS))
        → Free ":" d × (empty d ≡ false)
        → TopicPath.new hasher p d ≡ ok topic
        → IsRegistry r.local_event_subscriptions
        → OwnsFirst topic r.local_event_subscriptions
        → q.is_pattern ≡ false
        → (after : ServiceRegistry H C AM FS) × (register_local_event_subscription hasher r id topic
              callback metadata
            ≡ ok after)
          × SameItems (get_local_event_subscribers after q) (
              get_local_event_subscribers r q
              ++ (if serves topic q then (id, callback) ∷ [] else []))
    unfolding register_local_event_subscription
    get_local_event_subscribers-register_local_event_subscription r id p d topic q callback metadata
          network made m owns concrete =
        let (service_topic, parsed) = new-service_path p d topic network made in
        let trie = r.local_event_subscriptions in
        let x : Subscriber C FS = (id, callback, metadata) in
        let y : String × C = (id, callback) in
        let subscriptions = append_to topic x (find_matches trie topic) trie in
        let after : ServiceRegistry H C AM FS = record r {
          local_event_subscriptions = subscriptions;
          subscription_id_to_topic_path = Map.insert id topic r.subscription_id_to_topic_path;
          local_events_by_service = add_event service_topic metadata r.local_events_by_service;
          subscription_id_to_service_topic_path =
              Map.insert id service_topic r.subscription_id_to_service_topic_path;
        } in
        (
          after,
          rw parsed refl,
          λ w.
              let v : Subscriber C FS → ℕ = λ s. w (s.0, s.1) in
              ground (
                arith,
                total-append w (get_local_event_subscribers r q)
                    (if serves topic q then y ∷ [] else []),
                total-local w after q,
                total-local w r q,
                found-append v topic q x (find_matches trie topic) trie m concrete owns,
              ),
        )
