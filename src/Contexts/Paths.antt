-- ===== src/Contexts/Paths.antt =====
-- runar-node/src/services/mod.rs, request_context.rs and event_context.rs: where the paths lead that
-- contexts complete.
use rust_mono.Prelude.{
  ◌≡◌, refl, ap, ap₂, sym, ◌∙◌, inl, inr, false, String, Option, is_empty, length, if◌then◌else◌,
  Bool-cases, arith,
}
use rust_mono.Prelude.Result.{Result, ok, ◌>>=◌}
use rust_mono.Prelude.Text.{empty, has_char, glue}
use rust_mono.Prelude.Text.Split.{Free, has_char-glue}
use rust_mono.Routing.TopicPath.{
  TopicPath, Hasher, Scan, no_scan, scan, path_pieces, built, from_parts,
}
use rust_mono.Routing.TopicPath as TopicPath
use rust_mono.Routing.Parsing.{new-IsParsed, parse_network-glue, ok_parts}
use rust_mono.Routing.Template.Laws.{parse_network-bare}
use rust_mono.Node.{Node, Environment}
use rust_mono.Node.Requests.{request_context, request_at, request}
use rust_mono.Node.Events.{publish_at, publish_with_options, publish}
use rust_mono.Contexts.{
  full_path, event_context, lifecycle_context, request_in_context, request_in_event,
  request_in_lifecycle, publish_in_context, publish_in_event, publish_in_lifecycle,
}

-- A path in a service: a mere name is one of the service's own actions or events.
abbrev pub in_service : String → String → String
in_service service_path path = if has_char "/" path then path else glue "/" service_path path

pub in_service-Free :
    (service_path path : String)
    → Free ":" service_path
    → Free ":" path
    → Free ":" (in_service service_path path)
in_service-Free service_path path f g = elim (Bool-cases (has_char "/" path)) [
  | inl has ↦ rw has g
  | inr bare ↦ rw bare (has_char-glue ":" "/" service_path path f g (omega arith))
]

pub full_path-relative :
    (network service_path path : String)
    → Free ":" path
    → full_path network service_path path ≡ glue ":" network (in_service service_path path)
unfolding full_path
full_path-relative network service_path path free = ground arith

from_parts-built :
    (hasher : Hasher) (path network rest : String) (s : Scan)
    → is_empty (path_pieces rest) ≡ false
    → scan hasher (length (path_pieces rest)) 0 (path_pieces rest) no_scan ≡ ok s
    → from_parts hasher path (network, rest) ≡ ok (built hasher network rest s)
unfolding from_parts
from_parts-built hasher path network rest s some_left read = rw (some_left, read) refl

-- A path is read in its network whether that is the default or written in front.
pub new-glue :
    (hasher : Hasher) (path network d : String) (q : TopicPath)
    → Free ":" network
    → empty network ≡ false
    → Free ":" path
    → TopicPath.new hasher path network ≡ ok q
    → (TopicPath.new hasher (glue ":" network path) d ≡ ok q) × (q.network_id ≡ network)
unfolding TopicPath.new
new-glue hasher path network d q free some_network bare h =
    let parts = new-IsParsed hasher path network q h in
    let full = glue ":" network path in
    let (same_n, same_r) =
      ok_parts network path parts.network parts.rest
        (sym (parse_network-bare path network bare) ∙ parts.parsed) in
    (
      ap (λ o. o >>= from_parts hasher full)
            (parse_network-glue network path d some_network free bare)
          ∙ ap₂ (λ a b. from_parts hasher full (a, b)) same_n same_r
          ∙ from_parts-built hasher full parts.network parts.rest parts.scanned parts.some_piece
              parts.read
          ∙ ap ok parts.result,
      sym (ap (λ (x : TopicPath). x.network_id) parts.result) ∙ sym same_n,
    )

module _ {F C FS V X W : Type 0} (env : Environment F C FS V X W) where
  -- A path without a colon leads, from a context of a service, to the network of the context, where
  -- the three contexts find the same for it: what a node of that network finds for the path, or for
  -- the service and the path if that has no slash. The network is neither empty nor has a colon, as
  -- the service has none.
  pub request_in_context-relative :
      {T : Type 0} (as_type : V → Result X T) (topic q : TopicPath) (path : String)
      (payload : Option V) (n : Node F C FS V X W)
      → Free ":" topic.network_id × (empty topic.network_id ≡ false)
      → Free ":" topic.service_path
      → Free ":" path
      → TopicPath.new env.hasher (in_service topic.service_path path) topic.network_id ≡ ok q
      → (q.network_id ≡ topic.network_id)
        × (request_in_context env as_type (request_context topic) path payload n
            ≡ request_at env as_type path payload n (ok q))
        × (request_in_event env as_type (event_context topic) path payload n
            ≡ request_at env as_type path payload n (ok q))
        × (request_in_lifecycle env as_type (lifecycle_context topic) path payload n
            ≡ request_at env as_type path payload n (ok q))
        × (publish_in_context env (request_context topic) path payload n
            ≡ publish_at env payload n (ok q))
        × (publish_in_event env (event_context topic) path payload n
            ≡ publish_at env payload n (ok q))
        × (publish_in_lifecycle env (lifecycle_context topic) path payload n
            ≡ publish_at env payload n (ok q))
  unfolding request_in_context request_in_event request_in_lifecycle publish_in_context
      publish_in_event publish_in_lifecycle request_context lifecycle_context publish
      publish_with_options request
  request_in_context-relative as_type topic q path payload n (free, some_network) service bare h =
      let network = topic.network_id in
      let text = in_service topic.service_path path in
      let full = full_path-relative network topic.service_path path bare in
      let (parsed, same) =
        new-glue env.hasher text network n.network_id q free some_network
          (in_service-Free topic.service_path path service bare) h in
      (
        same,
        rw (full, parsed) refl,
        rw (full, parsed) refl,
        rw (full, parsed) refl,
        rw (full, parsed) refl,
        rw (full, parsed) refl,
        rw (full, parsed) refl,
      )
