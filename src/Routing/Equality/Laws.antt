-- ===== src/Routing/Equality/Laws.antt =====
-- runar-node/src/routing/mod.rs: what `==` on paths compares, and when equal paths hash alike.
use mathlib.Core.List.{flat_map}
use rust_mono.Prelude.{
  ◌≡◌, ◌≢◌, ◌↔◌, refl, ap, ap₂, sym, ◌∙◌, inl, inr, true, false, String, ◌==◌, eq_iff, eq_refl,
  List, [], ◌∷◌, map, length, is_empty, arith, not, if◌then◌else◌, ◌<◌, Bool-cases,
}
use rust_mono.Prelude.Result.{ok}
use rust_mono.Prelude.Text.{empty, glue, split}
use rust_mono.Prelude.Text.Split.{Free, split_of_Free, split-glue}
use rust_mono.Routing.Segment.{PathSegment, literal, from_str, seg_eq, seg_eq_sound, seg_eq_refl}
use rust_mono.Routing.TopicPath.{
  Hasher, TopicPath, HashWrite, write_str, write_u64, write_i32, segment_writes, path_pieces, new,
  new_service,
}
use rust_mono.Routing.Invariant.{IsWellFormed, IsPrinted}
use rust_mono.Routing.Parsing.{new-IsWellFormed, new-IsPrinted, hash_components-new}
use rust_mono.Routing.Equality.{zip_eq, topic_eq, hash_writes}

zip_eq_sound :
    (as' bs : List PathSegment) → length as' ≡ length bs → zip_eq as' bs ≡ true → as' ≡ bs
unfolding zip_eq
zip_eq_sound [] [] e h = refl
zip_eq_sound [] (b ∷ bs) e h = absurd (omega arith)
zip_eq_sound (a ∷ as') [] e h = absurd (omega arith)
zip_eq_sound (a ∷ as') (b ∷ bs) e h =
    ap₂ ◌∷◌ (seg_eq_sound a b (ground arith)) (zip_eq_sound as' bs (omega arith) (ground arith))

zip_eq_refl : (as' : List PathSegment) → zip_eq as' as' ≡ true
unfolding zip_eq
zip_eq_refl [] = refl
zip_eq_refl (a ∷ as') = rw (seg_eq_refl a) (zip_eq_refl as')

glue_inj :
    (n n' r r' : String)
    → Free ":" n
    → Free ":" n'
    → Free ":" r
    → Free ":" r'
    → glue ":" n r ≡ glue ":" n' r'
    → (n ≡ n') × (r ≡ r')
glue_inj n n' r r' f f' g g' e =
    let same : n ∷ r ∷ [] ≡ n' ∷ r' ∷ [] =
      rw
        (
          split-glue ":" n r f,
          split_of_Free ":" r g,
          split-glue ":" n' r' f',
          split_of_Free ":" r' g',
        )
        at (ap (split ":") e) in
    (cc, cc)

-- The text determines the network and the segments.
pub parts_of_path_eq :
    (a b : TopicPath)
    → IsPrinted a
    → IsPrinted b
    → a.path ≡ b.path
    → (a.network_id ≡ b.network_id) × (a.segments ≡ b.segments)
parts_of_path_eq a b pa pb e =
    let (n, r) =
      glue_inj a.network_id b.network_id pa.rest pb.rest pa.network_free pb.network_free
        pa.rest_free pb.rest_free (sym pa.text ∙ e ∙ pb.text) in
    (n, pa.pieces ∙ ap (λ (x : String). map from_str (path_pieces x)) r ∙ sym pb.pieces)

-- Two paths whose caches and texts agree with their segments are `==` exactly when they have the
-- same network and the same segments.
pub topic_eq_iff :
    (a b : TopicPath)
    → IsWellFormed a
    → IsWellFormed b
    → IsPrinted a
    → IsPrinted b
    → (topic_eq a b ≡ true) ↔ ((a.network_id ≡ b.network_id) × (a.segments ≡ b.segments))
unfolding topic_eq
topic_eq_iff a b wa wb pa pb = (forth, back)
  where
    forth : topic_eq a b ≡ true → (a.network_id ≡ b.network_id) × (a.segments ≡ b.segments)
    forth h = elim (Bool-cases (a.path == b.path)) [
      | inl same ↦ parts_of_path_eq a b pa pb ((eq_iff a.path b.path).0 same)
      | inr other ↦ (
        ground (arith, eq_iff a.network_id b.network_id),
        zip_eq_sound a.segments b.segments (ground arith) (ground arith),
      )
    ]

    back : (a.network_id ≡ b.network_id) × (a.segments ≡ b.segments) → topic_eq a b ≡ true
    back (n, s) =
        let lengths : length a.segments ≡ length b.segments = ap length s in
        let zipped : zip_eq a.segments b.segments ≡ true = rw s (zip_eq_refl b.segments) in
        ground (arith, eq_iff a.network_id b.network_id)

hash_writes-new_service :
    (network name : String)
    → hash_writes (new_service network name) ≡ write_str network ∷ write_i32 0 ∷ write_str name ∷ []
unfolding hash_writes new_service segment_writes flat_map
hash_writes-new_service network name = refl

module _ (hasher : Hasher) where
  -- A path that `new` builds feeds the hasher its network, and then one component a segment.
  pub hash_writes-new :
      (p d : String) (tp : TopicPath)
      → new hasher p d ≡ ok tp
      → hash_writes tp
        ≡ write_str tp.network_id ∷ map (λ t. write_u64 (hasher (segment_writes t))) tp.segments
  unfolding hash_writes
  hash_writes-new p d tp h =
      rw (hash_components-new hasher p d tp h)
        (hashed tp.segments (new-IsWellFormed hasher p d tp h).0.nonempty)
    where
      hashed :
          (xs : List PathSegment)
          → 0 < length xs
          → write_str tp.network_id
              ∷ (if not (is_empty (map (λ t. hasher (segment_writes t)) xs))
                  then map write_u64 (map (λ t. hasher (segment_writes t)) xs)
                  else flat_map segment_writes tp.segments)
            ≡ write_str tp.network_id ∷ map (λ t. write_u64 (hasher (segment_writes t))) xs
      hashed [] h = absurd (omega arith)
      hashed (x ∷ xs) h = ap (λ (ws : List HashWrite). write_str tp.network_id ∷ ws) (fuse (x ∷ xs))
        where
          fuse :
              (ys : List PathSegment)
              → map write_u64 (map (λ t. hasher (segment_writes t)) ys)
                ≡ map (λ t. write_u64 (hasher (segment_writes t))) ys
          fuse [] = refl
          fuse (y ∷ ys) =
              ap (λ (ws : List HashWrite). write_u64 (hasher (segment_writes y)) ∷ ws) (fuse ys)

  -- Two paths that `new` builds, the default networks being neither empty nor containing a colon,
  -- feed the same writes to a hasher if they are `==`.
  pub hash_writes_of_topic_eq :
      (p d p' d' : String) (a b : TopicPath)
      → Free ":" d × (empty d ≡ false)
      → Free ":" d' × (empty d' ≡ false)
      → new hasher p d ≡ ok a
      → new hasher p' d' ≡ ok b
      → topic_eq a b ≡ true
      → hash_writes a ≡ hash_writes b
  hash_writes_of_topic_eq p d p' d' a b (f, e) (f', e') ha hb h =
      let (n, s) =
        (topic_eq_iff a b (new-IsWellFormed hasher p d a ha).0
            (new-IsWellFormed hasher p' d' b hb).0 (new-IsPrinted hasher p d a f e ha)
            (new-IsPrinted hasher p' d' b f' e' hb)).0
          h in
      rw (hash_writes-new p d a ha, hash_writes-new p' d' b hb, n, s) refl

  -- A service path that `new` parses from a network and a name, its network and its one literal
  -- segment being these, is `==` to the path that `new_service` builds of them, but the two feed
  -- different writes to a hasher.
  pub new_service-hash_writes :
      (network name d : String) (tp : TopicPath)
      → new hasher (glue ":" network name) d ≡ ok tp
      → tp.network_id ≡ network
      → tp.segments ≡ literal name ∷ []
      → (topic_eq tp (new_service network name) ≡ true)
        × (hash_writes tp ≢ hash_writes (new_service network name))
  new_service-hash_writes network name d tp h n s = (
    unfold topic_eq new_service zip_eq seg_eq in
        rw s (
          ground (
            arith,
            eq_iff tp.network_id network,
            eq_refl name,
            (new-IsWellFormed hasher (glue ":" network name) d tp h).0.counted,
            ap length s,
          )),
    λ e.
        let left =
          hash_writes-new (glue ":" network name) d tp h
          ∙ ap
              (λ (xs : List PathSegment).
                write_str tp.network_id ∷ map (λ t. write_u64 (hasher (segment_writes t))) xs)
              s in
        let clash : write_str tp.network_id
              ∷ write_u64 (hasher (segment_writes (literal name)))
              ∷ []
            ≡ write_str network ∷ write_i32 0 ∷ write_str name ∷ [] =
          sym left ∙ e ∙ hash_writes-new_service network name in
        cc clash,
  )
