-- ===== src/Routing/Parsing.antt =====
-- runar-node/src/routing/mod.rs, `TopicPath::new`: what it accepts, what it builds, and that the
-- text of a path parses back to the path.
use mathlib.Core.Path.{subst}
use rust_mono.Prelude.{
  ◌<◌, ◌≡◌, ◌↔◌, refl, ap, sym, ◌∙◌, inl, inr, true, false, String, List, [], ◌∷◌, map, length,
  is_empty, All, arith, Bool-cases,
}
use rust_mono.Prelude.Result.{ok, >>=-eq-ok, ok-injective}
use rust_mono.Prelude.Text.{empty, has_char, glue, split}
use rust_mono.Prelude.Text.Split.{Free, split_of_Free, split-glue, has_char-glue_self, split-Free}
use rust_mono.Routing.Segment.{from_str, map-to_string-from_str}
use rust_mono.Routing.TopicPath.{
  Hasher, TopicPath, Fallible, Scan, from_parts, no_scan, scan, built, new, parse_network,
  two_parts, path_pieces, segment_writes, get_segments,
}
use rust_mono.Routing.Invariant.{IsWellFormed, IsPrinted, multi_last}
use rust_mono.Routing.Invariant.Scanning.{scan_all, scan_decides}

pub ok_parts :
    (a b n r : String)
    → ◌≡◌ {A = Fallible (String × String)} (ok (a, b)) (ok (n, r))
    → (a ≡ n) × (b ≡ r)
ok_parts a b n r h = (cc, cc)

two_parts-Free :
    (p : String) (ps : List String) (n r : String)
    → All (Free ":") ps
    → two_parts p ps ≡ ok (n, r)
    → (empty n ≡ false) × Free ":" n × Free ":" r
two_parts-Free p (a ∷ b ∷ []) n r (f, (g, _)) h = elim (Bool-cases (empty a)) [
  | inl bad ↦ cc (rw bad at h)
  | inr good ↦
      let (same_n, same_r) = ok_parts a b n r (rw good at h) in
      (rw (← same_n) good, rw (← same_n) f, rw (← same_r) g)
]
two_parts-Free p [] n r f h = cc
two_parts-Free p (a ∷ []) n r f h = cc
two_parts-Free p (a ∷ b ∷ c ∷ ps) n r f h = cc

parse_network-Free :
    (p d n r : String)
    → Free ":" d
    → empty d ≡ false
    → parse_network p d ≡ ok (n, r)
    → (empty n ≡ false) × Free ":" n × Free ":" r
unfolding parse_network
parse_network-Free p d n r f e h = elim (Bool-cases (has_char ":" p)) [
  | inl has ↦ two_parts-Free p (split ":" p) n r (split-Free ":" p) (rw has at h)
  | inr bare ↦
      let (same_n, same_r) = ok_parts d p n r (rw bare at h) in
      (rw (← same_n) e, rw (← same_n) f, rw (← same_r) bare)
]

pub parse_network-glue :
    (n r d : String)
    → empty n ≡ false
    → Free ":" n
    → Free ":" r
    → parse_network (glue ":" n r) d ≡ ok (n, r)
unfolding parse_network
parse_network-glue n r d e f g =
    rw (has_char-glue_self ":" n r, split-glue ":" n r f, split_of_Free ":" r g, e) refl

length-pos {ℓ} :
    {A : Type ℓ} (f : String → A) (xs : List String) → is_empty xs ≡ false → 0 < length (map f xs)
length-pos f [] h = cc
length-pos f (x ∷ xs) h = omega arith

module _ (hasher : Hasher) where
  -- What a successful call has gone through.
  pub record IsParsed (p d : String) (tp : TopicPath) : Type 0 where
    pub network : String
    pub rest : String
    pub scanned : Scan
    pub parsed : parse_network p d ≡ ok (network, rest)
    pub some_piece : is_empty (path_pieces rest) ≡ false
    pub read : scan hasher (length (path_pieces rest)) 0 (path_pieces rest) no_scan ≡ ok scanned
    pub result : built hasher network rest scanned ≡ tp

  from_parts-ok :
      (p n r : String) (tp : TopicPath)
      → from_parts hasher p (n, r) ≡ ok tp
      → (is_empty (path_pieces r) ≡ false)
        × (s : Scan) × (scan hasher (length (path_pieces r)) 0 (path_pieces r) no_scan ≡ ok s)
        × (built hasher n r s ≡ tp)
  unfolding from_parts
  from_parts-ok p n r tp h = elim (Bool-cases (is_empty (path_pieces r))) [
    | inl none_left ↦ cc (rw none_left at h)
    | inr some_left ↦
        let (s, read, made) = >>=-eq-ok _ _ (rw some_left at h) in
        (some_left, s, read, ok-injective made)
  ]

  pub new-IsParsed : (p d : String) (tp : TopicPath) → new hasher p d ≡ ok tp → IsParsed p d tp
  unfolding new
  new-IsParsed p d tp h =
      let ((network, rest), parsed, later) = >>=-eq-ok (parse_network p d) _ h in
      let (some_left, s, read, made) = from_parts-ok p network rest tp later in
      record {
        network = network;
        rest = rest;
        scanned = s;
        parsed = parsed;
        some_piece = some_left;
        read = read;
        result = made;
      }

  read-multi_last :
      (pieces : List String) (s : Scan)
      → scan hasher (length pieces) 0 pieces no_scan ≡ ok s
      → multi_last (map from_str pieces) ≡ true
  read-multi_last pieces s h =
      elim (scan_decides hasher (length pieces) 0 pieces no_scan (omega arith)) [
        | inl (m, _) ↦ m
        | inr (_, bad) ↦ cc
      ]

  -- A path that `new` builds is well formed (its count, flags and service path are those of its
  -- segments, it has a segment, and, for at most 32 segments, its bitmap holds their types) and has
  -- no `>` before the last segment.
  pub new-IsWellFormed :
      (p d : String) (tp : TopicPath)
      → new hasher p d ≡ ok tp
      → IsWellFormed tp × (multi_last tp.segments ≡ true)
  new-IsWellFormed p d tp h =
      let parts = new-IsParsed p d tp h in
      let pieces = path_pieces parts.rest in
      let (valid, whole) = scan_all hasher pieces parts.scanned parts.read in
      subst (λ (x : TopicPath). IsWellFormed x × (multi_last x.segments ≡ true)) parts.result
        (
          record {
            counted = refl;
            nonempty = rw whole (length-pos from_str pieces parts.some_piece);
            pattern = valid.pattern;
            templates = valid.templates;
            service = refl;
            mapped = valid.mapped;
          },
          rw whole (read-multi_last pieces parts.scanned parts.read),
        )

  pub hash_components-new :
      (p d : String) (tp : TopicPath)
      → new hasher p d ≡ ok tp
      → tp.hash_components ≡ map (λ t. hasher (segment_writes t)) tp.segments
  hash_components-new p d tp h =
      let parts = new-IsParsed p d tp h in
      subst (λ (x : TopicPath). x.hash_components ≡ map (λ t. hasher (segment_writes t)) x.segments)
        parts.result (scan_all hasher (path_pieces parts.rest) parts.scanned parts.read).0.hashed

  pub new-IsPrinted :
      (p d : String) (tp : TopicPath)
      → Free ":" d
      → empty d ≡ false
      → new hasher p d ≡ ok tp
      → IsPrinted tp
  new-IsPrinted p d tp f e h =
      let parts = new-IsParsed p d tp h in
      let (_, n_free, r_free) = parse_network-Free p d parts.network parts.rest f e parts.parsed in
      subst IsPrinted parts.result (record {
        rest = parts.rest;
        text = refl;
        network_free = n_free;
        rest_free = r_free;
        pieces = (scan_all hasher (path_pieces parts.rest) parts.scanned parts.read).1;
      })

  -- The text of a path that `new` builds, with a default network that is neither empty nor contains
  -- a colon, parses back to the same path, whatever the default network then is.
  pub new-path :
      (p d d' : String) (tp : TopicPath)
      → Free ":" d
      → empty d ≡ false
      → new hasher p d ≡ ok tp
      → new hasher tp.path d' ≡ ok tp
  new-path p d d' tp f e h =
      let parts = new-IsParsed p d tp h in
      let n = parts.network in
      let r = parts.rest in
      let (n_some, n_free, r_free) = parse_network-Free p d n r f e parts.parsed in
      subst (λ (x : TopicPath). new hasher x.path d' ≡ ok x) parts.result
        (unfold new from_parts in
          rw (parse_network-glue n r d' n_some n_free r_free, parts.some_piece, parts.read) refl)

  -- `new` succeeds exactly when the network is well written, some piece between slashes is not
  -- empty, and no piece before the last is `>`; in all other cases it returns an error.
  pub new_accepts_iff :
      (p d : String)
      → ((tp : TopicPath) × (new hasher p d ≡ ok tp)) ↔ (
          (parts : String × String) × (parse_network p d ≡ ok parts)
          × (is_empty (path_pieces parts.1) ≡ false)
          × (multi_last (map from_str (path_pieces parts.1)) ≡ true))
  new_accepts_iff p d = (
    λ (tp, h).
        let parts = new-IsParsed p d tp h in
        (
          (parts.network, parts.rest),
          parts.parsed,
          parts.some_piece,
          read-multi_last (path_pieces parts.rest) parts.scanned parts.read,
        ),
    λ (parts, parsed, some_left, last).
        let pieces = path_pieces parts.1 in
        elim (scan_decides hasher (length pieces) 0 pieces no_scan (omega arith)) [
          | inl (_, (s, read)) ↦ (
            built hasher parts.0 parts.1 s,
            unfold new from_parts in rw (parsed, some_left, read) refl,
          )
          | inr (bad, _) ↦ absurd (cc)
        ],
  )

  -- The segments print as the non-empty pieces of the text.
  pub get_segments-new :
      (p d : String) (tp : TopicPath)
      → new hasher p d ≡ ok tp
      → (parts : String × String) × (parse_network p d ≡ ok parts)
        × (tp.network_id ≡ parts.0)
        × (tp.path ≡ glue ":" parts.0 parts.1)
        × (get_segments tp ≡ path_pieces parts.1)
  get_segments-new p d tp h =
      let parts = new-IsParsed p d tp h in
      let pieces = path_pieces parts.rest in
      let made = parts.result in
      (
        (parts.network, parts.rest),
        parts.parsed,
        ap (λ (x : TopicPath). x.network_id) (sym made),
        ap (λ (x : TopicPath). x.path) (sym made),
        ap get_segments (sym made)
            ∙ (unfold get_segments in
                rw ((scan_all hasher pieces parts.scanned parts.read).1, map-to_string-from_str)
                  refl),
      )
