-- ===== src/Routing/Navigation/Laws.antt =====
-- `child` and `parent` keep paths well formed, and undo one another.
use mathlib.Core.Path.{subst}
use rust_mono.Prelude.{
  ℕ, ◌+◌, ◌-◌, ◌<◌, ◌≤◌, ◌≡◌, eqb, refl, ap, sym, ◌∙◌, inl, inr, false, String, List, [], ◌∷◌, ◌++◌,
  map, length, length-append, length-init, init, any, any-append, arith, Bool-cases, leb,
}
use rust_mono.Prelude.Result.{ok, ok-injective}
use rust_mono.Prelude.Text.{has_char, join}
use rust_mono.Routing.Segment.{PathSegment, from_str, to_string, is_wildcard, is_template}
use rust_mono.Routing.Bitmap.{set_segment_type}
use rust_mono.Routing.Bitmap.Laws.{clear-lt, get-clear_ne}
use rust_mono.Routing.TopicPath.{TopicPath, segment_type, service_text}
use rust_mono.Routing.Invariant.{IsMapped, IsWellFormed}
use rust_mono.Routing.Invariant.Mapped.{IsMapped-concat, get_elem?-init}
use rust_mono.Routing.Navigation.{child, parent, parent_topic, clear_last, is_wildcard_type}
use rust_mono.Routing.Navigation.Queries.{any_type-any, wildcard_type, template_type}

-- A child of a well-formed path is well formed.
pub child-IsWellFormed :
    (tp c : TopicPath) (segment : String)
    → IsWellFormed tp
    → child tp segment ≡ ok c
    → IsWellFormed c
unfolding child
child-IsWellFormed tp c segment w h = elim (Bool-cases (has_char "/" segment)) [
  | inl slash ↦ cc (rw slash at h)
  | inr plain ↦ subst IsWellFormed (ok-injective (rw plain at h)) (record {
    counted = rw length-append (omega (arith, w.counted));
    nonempty = rw length-append (omega arith);
    pattern = rw any-append (ground (arith, w.pattern));
    templates = rw any-append (ground (arith, w.templates));
    service = w.service ∙ head_stays tp.segments w.nonempty;
    mapped = λ fits.
        subst
          (λ (n : ℕ).
            IsMapped (set_segment_type tp.segment_type_bitmap n (segment_type new_segment))
              (tp.segments ++ new_segment ∷ []))
          (sym w.counted)
          (let room : length tp.segments < 32 =
              omega (arith, length-append tp.segments (new_segment ∷ [])) in
            IsMapped-concat tp.segment_type_bitmap tp.segments new_segment room
              (w.mapped (omega arith)));
  })
]
  where
    new_segment : PathSegment
    new_segment = from_str segment

    head_stays :
        (ss : List PathSegment)
        → 0 < length ss
        → service_text ss ≡ service_text (ss ++ from_str segment ∷ [])
    head_stays [] h = absurd (omega arith)
    head_stays (s ∷ ss) h = refl

IsMapped-clear_last :
    (b n : ℕ) (xs : List PathSegment)
    → n ≡ length xs
    → 0 < length xs
    → length xs ≤ 32
    → IsMapped b xs
    → IsMapped (clear_last b n) (init xs)
unfolding clear_last
IsMapped-clear_last b n xs e some_left fits m = record {
  in_range = clear-lt b (n - 1) m.in_range (omega arith);
  describes = λ j t h.
      let (before_last, found) = get_elem?-init xs t j h in
      get-clear_ne b (n - 1) j m.in_range (omega arith) (omega arith) (λ p. absurd (omega arith))
      ∙ m.describes j t found;
}

service-init : (ss : List PathSegment) → 1 < length ss → service_text ss ≡ service_text (init ss)
service-init [] h = absurd (omega arith)
service-init (s ∷ []) h = absurd (omega arith)
service-init (s ∷ t ∷ ss) h = refl

length-init_pos : (ss : List PathSegment) → 0 < length ss → length (init ss) + 1 ≡ length ss
length-init_pos [] h = absurd (omega arith)
length-init_pos (s ∷ ss) h = omega (arith, length-init s ss)

-- The parent of a well-formed path of at most 32 segments is well formed: the flags that `parent`
-- reads off the bitmap are those of the remaining segments.
pub parent-IsWellFormed :
    (tp p : TopicPath)
    → IsWellFormed tp
    → length tp.segments ≤ 32
    → parent tp ≡ ok p
    → IsWellFormed p
unfolding parent
parent-IsWellFormed tp p w fits h = elim (Bool-cases (leb (length tp.segments) 1)) [
  | inl short ↦ cc (rw short at h)
  | inr long ↦
      let several : 1 < length tp.segments = ground (arith, long) in
      let shorter = length-init_pos tp.segments w.nonempty in
      let mapped : IsMapped (clear_last tp.segment_type_bitmap tp.segment_count)
          (init tp.segments) =
        IsMapped-clear_last tp.segment_type_bitmap tp.segment_count tp.segments w.counted w.nonempty
          fits (w.mapped fits) in
      subst IsWellFormed (ok-injective (rw long at h)) (record {
        counted = omega (arith, w.counted, shorter);
        nonempty = omega (arith, shorter);
        pattern =
            any_type-any is_wildcard_type is_wildcard _ (init tp.segments) wildcard_type mapped;
        templates =
            any_type-any (λ t. eqb t 1) is_template _ (init tp.segments) template_type mapped;
        service = w.service ∙ service-init tp.segments several;
        mapped = λ _. mapped;
      })
]

init-concat {ℓ} : {A : Type ℓ} (xs : List A) (x : A) → init (xs ++ x ∷ []) ≡ xs
init-concat [] x = refl
init-concat (y ∷ []) x = refl
init-concat (y ∷ z ∷ xs) x = ap (λ (ys : List _). y ∷ ys) (init-concat (z ∷ xs) x)

child-parts :
    (tp c : TopicPath) (segment : String)
    → child tp segment ≡ ok c
    → (c.segments ≡ tp.segments ++ from_str segment ∷ [])
      × (c.network_id ≡ tp.network_id)
      × (c.service_path ≡ tp.service_path)
unfolding child
child-parts tp c segment h = elim (Bool-cases (has_char "/" segment)) [
  | inl slash ↦ cc (rw slash at h)
  | inr plain ↦
      let e = ok-injective (rw plain at h) in
      (
        ap (λ (x : TopicPath). x.segments) (sym e),
        ap (λ (x : TopicPath). x.network_id) (sym e),
        ap (λ (x : TopicPath). x.service_path) (sym e),
      )
]

-- `parent` fails on a path of one segment and on no other.
pub parent-ok :
    (tp : TopicPath)
    → 1 < length tp.segments
    → (p : TopicPath) × (parent tp ≡ ok p)
      × (p.network_id ≡ tp.network_id)
      × (p.segments ≡ init tp.segments)
      × (p.service_path ≡ tp.service_path)
      × (p.cached_action_path ≡ join "/" (map to_string (init tp.segments)))
unfolding parent
parent-ok tp several =
    let long : leb (length tp.segments) 1 ≡ false = ground arith in
    (parent_topic tp, rw long refl, refl, refl, refl, refl)

-- The parent of a child of a well-formed path of fewer than 32 segments exists and has the network,
-- the segments, the count, the service path and the two flags of the path.
pub parent-child :
    (tp c : TopicPath) (segment : String)
    → IsWellFormed tp
    → length tp.segments < 32
    → child tp segment ≡ ok c
    → (p : TopicPath) × (parent c ≡ ok p)
      × (p.network_id ≡ tp.network_id)
      × (p.segments ≡ tp.segments)
      × (p.segment_count ≡ tp.segment_count)
      × (p.service_path ≡ tp.service_path)
      × (p.is_pattern ≡ tp.is_pattern)
      × (p.has_templates ≡ tp.has_templates)
parent-child tp c segment w room h =
    let (pushed, network, service) = child-parts tp c segment h in
    let longer : length c.segments ≡ length tp.segments + 1 =
      ap length pushed ∙ length-append tp.segments (from_str segment ∷ []) in
    let (p, found, same_network, popped, same_service, _) =
      parent-ok c (omega (arith, longer, w.nonempty)) in
    let wp =
      parent-IsWellFormed c p (child-IsWellFormed tp c segment w h) (omega (arith, longer)) found in
    let back : p.segments ≡ tp.segments =
      popped ∙ ap init pushed ∙ init-concat tp.segments (from_str segment) in
    (
      p,
      found,
      same_network ∙ network,
      back,
      wp.counted ∙ ap length back ∙ sym w.counted,
      same_service ∙ service,
      wp.pattern ∙ ap (any is_wildcard) back ∙ sym w.pattern,
      wp.templates ∙ ap (any is_template) back ∙ sym w.templates,
    )
