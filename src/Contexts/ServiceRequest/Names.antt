-- ===== src/Contexts/ServiceRequest/Names.antt =====
-- runar-node/src/services/mod.rs: the names that a `ServiceRequest` gives back.
use mathlib.Core.Path.{subst}
use rust_mono.Prelude.{
  ◌≡◌, refl, ap, sym, ◌∙◌, false, not, String, some, List, [], ◌∷◌, ◌++◌, map, All, is_empty,
  length, retain, All-retain, All-append, retain-append, get_last?, get_last?-append, arith, leb,
}
use rust_mono.Prelude.Result.{ok, >>=-eq-ok, ok-injective}
use rust_mono.Prelude.Text.{empty, glue, split, join}
use rust_mono.Prelude.Text.Split.{
  Free, split_of_Free, split-glue_all, split-join, split-Free, has_char-glue,
}
use rust_mono.Routing.Segment.{from_str, to_string-from_str, map-to_string-from_str}
use rust_mono.Routing.TopicPath.{TopicPath, Hasher, path_pieces, action_text, service_text}
use rust_mono.Routing.TopicPath as TopicPath
use rust_mono.Routing.Parsing.{new-IsParsed, ok_parts}
use rust_mono.Routing.Invariant.Scanning.{scan_all}
use rust_mono.Routing.Template.Laws.{parse_network-bare}
use rust_mono.Node.{RequestContext}
use rust_mono.Node.Events.{unwrap_or_default}
use rust_mono.Contexts.ServiceRequest.{
  ServiceRequest, service_request, requested_service, action_or_event,
}

pub path_pieces-glue :
    (a b : String)
    → Free "/" b
    → empty b ≡ false
    → path_pieces (glue "/" a b) ≡ path_pieces a ++ b ∷ []
unfolding path_pieces
path_pieces-glue a b simple some_text =
    ap (retain (λ p. not (empty p))) (split-glue_all "/" a b)
    ∙ retain-append (λ p. not (empty p)) (split "/" a) (split "/" b)
    ∙ rw (split_of_Free "/" b simple, some_text) refl

-- The texts of a path that was parsed without a network.
texts-new :
    (hasher : Hasher) (path network : String) (q : TopicPath)
    → Free ":" path
    → TopicPath.new hasher path network ≡ ok q
    → (q.cached_action_path ≡ action_text (map from_str (path_pieces path)))
      × (q.service_path ≡ service_text (map from_str (path_pieces path)))
      × (q.network_id ≡ network)
texts-new hasher path network q bare h =
    let parts = new-IsParsed hasher path network q h in
    let (same_n, same) =
      ok_parts network path parts.network parts.rest
        (sym (parse_network-bare path network bare) ∙ parts.parsed) in
    let whole =
      (scan_all hasher (path_pieces parts.rest) parts.scanned parts.read).1
      ∙ ap (λ r. map from_str (path_pieces r)) (sym same) in
    (
      sym (ap (λ (x : TopicPath). x.cached_action_path) parts.result) ∙ ap action_text whole,
      sym (ap (λ (x : TopicPath). x.service_path) parts.result) ∙ ap service_text whole,
      sym (ap (λ (x : TopicPath). x.network_id) parts.result) ∙ sym same_n,
    )

pieces-Free : (s : String) → All (Free "/") (path_pieces s)
unfolding path_pieces
pieces-Free s = All-retain (Free "/") (λ p. not (empty p)) (split "/" s) (split-Free "/" s)

action_text-pair :
    (p q : String) (ps : List String)
    → action_text (map from_str (p ∷ q ∷ ps)) ≡ join "/" (p ∷ q ∷ ps)
unfolding action_text
action_text-pair p q ps =
    let many : leb (length (map from_str (p ∷ q ∷ ps))) 1 ≡ false = ground arith in
    rw many (ap (join "/") (map-to_string-from_str (p ∷ q ∷ ps)))

-- The pieces of an action's path with a service in front, and the service's first piece.
names-append :
    (ps : List String) (a : String)
    → is_empty ps ≡ false
    → All (Free "/") ps
    → Free "/" a
    → get_last? (split "/" (action_text (map from_str (ps ++ a ∷ [])))) ≡ some a
names-append [] a some_piece all simple = cc
names-append (p ∷ []) a some_piece all simple =
    rw (action_text-pair p a [], split-join "/" p (a ∷ []) (all.0, (simple, tt))) refl
names-append (p ∷ q ∷ ps) a some_piece all simple =
    let whole = All-append (Free "/") (p ∷ q ∷ ps) (a ∷ []) all (simple, tt) in
    rw (action_text-pair p q (ps ++ a ∷ []), split-join "/" p (q ∷ (ps ++ a ∷ [])) whole)
      (get_last?-append (p ∷ q ∷ ps) a)

-- The first segment of a path, as it is printed.
abbrev pub first_piece : List String → String
first_piece [] = ""
first_piece (p ∷ ps) = p

service_text-append :
    (ps : List String) (a : String)
    → is_empty ps ≡ false
    → service_text (map from_str (ps ++ a ∷ [])) ≡ first_piece ps
service_text-append [] a some_piece = cc
service_text-append (p ∷ ps) a some_piece = to_string-from_str p

module _ {V : Type 0} where
  -- A service request that `new` makes of a service's path and the name of an action or event gives
  -- the name back, gives of the service the first piece between slashes, and goes to the network of
  -- its context; the name is not empty and has no slash or colon, and the path has a piece and no
  -- colon.
  pub action_or_event-service_request :
      (hasher : Hasher) (service_path name : String) (payload : V) (context : RequestContext)
      (r : ServiceRequest V)
      → Free ":" service_path × (is_empty (path_pieces service_path) ≡ false)
      → Free ":" name × Free "/" name × (empty name ≡ false)
      → service_request hasher service_path name payload context ≡ ok r
      → (action_or_event r ≡ name)
        × (requested_service r ≡ first_piece (path_pieces service_path))
        × (r.topic_path.network_id ≡ context.topic_path.network_id)
  unfolding service_request action_or_event requested_service
  action_or_event-service_request hasher service_path name payload context r (bare, some_piece)
        (plain, simple, some_text) h =
      let path = glue "/" service_path name in
      let network = context.topic_path.network_id in
      let (q, parsed, made) = >>=-eq-ok (TopicPath.new hasher path network) _ h in
      let free = has_char-glue ":" "/" service_path name bare plain (omega arith) in
      let (action, service, at_network) = texts-new hasher path network q free parsed in
      let pieces = path_pieces-glue service_path name simple some_text in
      subst
        (λ (x : ServiceRequest V).
          (action_or_event x ≡ name)
          × (requested_service x ≡ first_piece (path_pieces service_path))
          × (x.topic_path.network_id ≡ network))
        (ok-injective made)
        (
          ap (λ t. unwrap_or_default (get_last? (split "/" t)))
                (action ∙ ap (λ ps. action_text (map from_str ps)) pieces)
              ∙ ap unwrap_or_default (
                  names-append (path_pieces service_path) name some_piece (pieces-Free service_path)
                    simple),
          service
              ∙ ap (λ ps. service_text (map from_str ps)) pieces
              ∙ service_text-append (path_pieces service_path) name some_piece,
          at_network,
        )
