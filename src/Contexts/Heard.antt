-- ===== src/Contexts/Heard.antt =====
-- runar-node/src/services/mod.rs: which of its own events a service hears.
use rust_mono.Prelude.{
  ℕ, ◌+◌, ◌≡◌, refl, ap, sym, ◌∙◌, inl, inr, false, String, ◌==◌, Option, none, List, [], ◌∷◌, ◌++◌,
  is_empty, map, arith, if◌then◌else◌, Bool-cases,
}
use rust_mono.Prelude.Result.{ok, ok-injective}
use rust_mono.Prelude.Bag.{total}
use rust_mono.Prelude.Text.{empty, has_char, glue}
use rust_mono.Prelude.Text.Split.{Free, split_of_Free}
use rust_mono.Routing.TopicPath.{TopicPath, Hasher, get_segments, path_pieces}
use rust_mono.Routing.TopicPath as TopicPath
use rust_mono.Routing.Parsing.{new-IsParsed, ok_parts}
use rust_mono.Routing.Template.Laws.{parse_network-bare, get_segments-pieces}
use rust_mono.Routing.Segment.{from_str}
use rust_mono.Routing.Invariant.Scanning.{scan_all}
use rust_mono.Trie.Entries.{keys, segment_kind, is_tail, is_star, is_param, is_text}
use rust_mono.Trie.Entries.Find.{fits}
use rust_mono.Trie.Networks.{IsRegistry}
use rust_mono.Trie.Networks.Own.{serves}
use rust_mono.Registry.Actions.{serves_self}
use rust_mono.Registry.Subscriptions.{get_local_event_subscribers}
use rust_mono.Registry.Delivery.{OwnsFirst}
use rust_mono.Node.{Node, Environment}
use rust_mono.Node.Events.{publish, subscribe}
use rust_mono.Node.Events.Published.{Counts, count-publish-subscribe}
use rust_mono.Contexts.{full_path, lifecycle_context, publish_in_lifecycle, subscribe_in_lifecycle}
use rust_mono.Contexts.Paths.{in_service, full_path-relative, new-glue, in_service-Free}
use rust_mono.Contexts.ServiceRequest.Names.{path_pieces-glue}

-- The segments of a path that has no network of its own.
get_segments-bare :
    (hasher : Hasher) (path network : String) (q : TopicPath)
    → Free ":" path
    → TopicPath.new hasher path network ≡ ok q
    → (get_segments q ≡ path_pieces path) × (is_empty (path_pieces path) ≡ false)
get_segments-bare hasher path network q bare h =
    let parts = new-IsParsed hasher path network q h in
    let (_, same) =
      ok_parts network path parts.network parts.rest
        (sym (parse_network-bare path network bare) ∙ parts.parsed) in
    (
      get_segments-pieces q (path_pieces path) (
          sym (ap (λ (x : TopicPath). x.segments) parts.result)
          ∙ (scan_all hasher (path_pieces parts.rest) parts.scanned parts.read).1
          ∙ ap (λ r. map from_str (path_pieces r)) (sym same)),
      ap (λ r. is_empty (path_pieces r)) same ∙ parts.some_piece,
    )

-- A key of one segment fits no longer path, but for `>`.
fits_short :
    (name p q : String) (ps : List String)
    → (name == ">") ≡ false
    → fits (keys (name ∷ [])) (p ∷ q ∷ ps) ≡ false
unfolding fits keys
fits_short name p q ps not_tail = elim (segment_kind name) [
  | is_tail t a b ↦ cc
  | is_star t a b ↦ rw (t, a) refl
  | is_param t a b ↦ rw (t, a, b) refl
  | is_text t a b ↦ rw (t, a, b) (ground arith)
]

fits_one :
    (name : String) (ps : List String)
    → (name == ">") ≡ false
    → is_empty ps ≡ false
    → fits (keys (name ∷ [])) (ps ++ name ∷ []) ≡ false
fits_one name [] not_tail some_piece = cc
fits_one name (p ∷ []) not_tail some_piece = fits_short name p name [] not_tail
fits_one name (p ∷ q ∷ ps) not_tail some_piece = fits_short name p q (ps ++ name ∷ []) not_tail

pieces_simple :
    (name : String)
    → Free "/" name
    → is_empty (path_pieces name) ≡ false
    → (path_pieces name ≡ name ∷ []) × (empty name ≡ false)
unfolding path_pieces
pieces_simple name simple some_piece = elim (Bool-cases (empty name)) [
  | inl none_left ↦ cc (rw (split_of_Free "/" name simple, none_left) at some_piece)
  | inr some_text ↦ (rw (split_of_Free "/" name simple, some_text) refl, some_text)
]

module _ (hasher : Hasher) (service_path name network : String) (t q : TopicPath)
    (bare : Free ":" service_path) (some_piece : is_empty (path_pieces service_path) ≡ false)
    (plain : Free ":" name) (not_tail : (name == ">") ≡ false)
    (subscribed : TopicPath.new hasher name network ≡ ok t)
    (published : TopicPath.new hasher (in_service service_path name) network ≡ ok q) where
  serves_mere : Free "/" name → serves t q ≡ false
  serves_mere simple =
      let (name_segments, named) = get_segments-bare hasher name network t plain subscribed in
      let (one, some_text) = pieces_simple name simple named in
      let text : in_service service_path name ≡ glue "/" service_path name = rw simple refl in
      let (all_segments, _) =
        get_segments-bare hasher (in_service service_path name) network q
          (in_service-Free service_path name bare plain) published in
      let segments =
        all_segments ∙ ap path_pieces text ∙ path_pieces-glue service_path name simple some_text in
      rw
        (
          name_segments ∙ one,
          segments,
          fits_one name (path_pieces service_path) not_tail some_piece,
        )
        (ground arith)

  serves_if_slash : serves t q ≡ has_char "/" name
  serves_if_slash = elim (Bool-cases (has_char "/" name)) [
    | inl has ↦
        let text : in_service service_path name ≡ name = rw has refl in
        let same : t ≡ q =
          ok-injective
            (sym subscribed ∙ ap (λ p. TopicPath.new hasher p network) (sym text) ∙ published) in
        ap (serves t) (sym same) ∙ serves_self t ∙ sym has
    | inr simple ↦ serves_mere simple ∙ sym simple
  ]

module _ {F C FS V X W : Type 0} (env : Environment F C FS V X W) (count : Node F C FS V X W → ℕ)
    (w : C → ℕ) where
  -- If every call of a callback adds its weight to some count, a service that subscribes to a path
  -- without a colon and then publishes the path, both by its lifecycle context in the node's
  -- network, adds the weights of the subscribers that the completed path reached before, and that
  -- of the new callback if and only if the path has a slash: a service does not hear an event that
  -- both calls give by its mere name. The completed path is no pattern, the name not `>`, the
  -- service has a piece between slashes and no colon, the network is neither empty nor has a colon,
  -- the trie's maps hold each key once, and the subscription's own list is the first match for it,
  -- or neither is there.
  pub count-publish_in_lifecycle :
      Counts env count w
      → (service t q : TopicPath) (name : String) (callback : C) (payload : Option V)
        (n : Node F C FS V X W)
      → Free ":" n.network_id × (empty n.network_id ≡ false)
      → service.network_id ≡ n.network_id
      → Free ":" service.service_path × (is_empty (path_pieces service.service_path) ≡ false)
      → Free ":" name × ((name == ">") ≡ false)
      → TopicPath.new env.hasher name n.network_id ≡ ok t
      → TopicPath.new env.hasher (in_service service.service_path name) n.network_id ≡ ok q
      → IsRegistry n.service_registry.local_event_subscriptions
      → OwnsFirst t n.service_registry.local_event_subscriptions
      → q.is_pattern ≡ false
      → (id : String) × (after : Node F C FS V X W) × (subscribe_in_lifecycle env
            (lifecycle_context service)
            name
            callback
            n
          ≡ (after, ok id))
        × (count (publish_in_lifecycle env (lifecycle_context service) name payload after).0
            ≡ count after
              + (total
                    (λ (s : String × C). w s.1)
                    (get_local_event_subscribers n.service_registry q)
                  + (if has_char "/" name then w callback else 0)))
  unfolding subscribe_in_lifecycle publish_in_lifecycle lifecycle_context subscribe publish
  count-publish_in_lifecycle counts service t q name callback payload n network same_network
        (bare, some_piece) (plain, not_tail) subscribed published m owns concrete =
      let text = in_service service.service_path name in
      let full = full_path service.network_id service.service_path name in
      let completed : TopicPath.new env.hasher full n.network_id ≡ ok q =
        ap (λ p. TopicPath.new env.hasher p n.network_id)
          (full_path-relative service.network_id service.service_path name plain
            ∙ ap (λ k. glue ":" k text) same_network)
        ∙ (new-glue env.hasher text n.network_id n.network_id q network.0 network.1
            (in_service-Free service.service_path name bare plain) published).0 in
      let (id, after, made, heard) =
        count-publish-subscribe env count w counts name full t q callback
          (record { description = none; data_schema = none }) payload n network subscribed completed
          m owns concrete in
      let served =
        serves_if_slash env.hasher service.service_path name n.network_id t q bare some_piece plain
          not_tail subscribed published in
      (id, after, made, rw served at heard)
