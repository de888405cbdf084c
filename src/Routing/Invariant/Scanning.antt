-- ===== src/Routing/Invariant/Scanning.antt =====
-- The loop of `TopicPath::new`: its variables agree with the segments read so far, and it fails
-- exactly on a `>` before the last segment.
use rust_mono.Prelude.{
  ℕ, ◌+◌, ◌<◌, ◌≤◌, ◌≡◌, refl, ap, sym, ◌∙◌, ◌⊎◌, inl, inr, true, false, String, List, [], ◌∷◌,
  ◌++◌, map, length, length-append, any, any-append, arith, Bool-cases, if◌then◌else◌, append_assoc,
  append-nil, map-append,
}
use mathlib.Core.Path.{subst}
use rust_mono.Prelude.Result.{ok, err, >>=-eq-ok, ok-injective}
use rust_mono.Routing.Segment.{
  PathSegment, multi_wildcard, from_str, is_wildcard, is_multi_wildcard, is_template,
}
use rust_mono.Routing.TopicPath.{
  Hasher, Scan, no_scan, scan_add, scan_segment, scan, segment_writes, multi_wildcard_not_last,
}
use rust_mono.Routing.Invariant.{IsMapped, multi_last}
use rust_mono.Routing.Invariant.Mapped.{IsMapped-concat}

module _ (hasher : Hasher) where
  pub record IsScanned (s : Scan) : Type 0 where
    pub pattern : s.is_pattern ≡ any is_wildcard s.segments
    pub templates : s.has_templates ≡ any is_template s.segments
    pub hashed : s.hash_components ≡ map (λ t. hasher (segment_writes t)) s.segments
    pub mapped : length s.segments ≤ 32 → IsMapped s.segment_type_bitmap s.segments

  scan_add-IsScanned :
      (i : ℕ) (t : PathSegment) (s : Scan)
      → i ≡ length s.segments
      → IsScanned s
      → IsScanned (scan_add hasher i t s)
  unfolding scan_add
  scan_add-IsScanned i t s e v = record {
    pattern = rw (any-append is_wildcard s.segments (t ∷ [])) (ground (arith, v.pattern));
    templates = rw (any-append is_template s.segments (t ∷ [])) (ground (arith, v.templates));
    hashed = rw (map-append, v.hashed) refl;
    mapped = λ fits.
        let room : length s.segments < 32 = omega (arith, length-append s.segments (t ∷ [])) in
        rw e (IsMapped-concat s.segment_type_bitmap s.segments t room (v.mapped (omega arith)));
  }

  scan_segment-ok :
      (count i : ℕ) (t : PathSegment) (s r : Scan)
      → scan_segment hasher count i t s ≡ ok r
      → scan_add hasher i t s ≡ r
  unfolding scan_segment
  scan_segment-ok count i multi_wildcard s r h = ground arith
  scan_segment-ok count i _ s r h = cc

  pub segments-scan_add :
      (i : ℕ) (t : PathSegment) (s : Scan) → (scan_add hasher i t s).segments ≡ s.segments ++ t ∷ []
  unfolding scan_add
  segments-scan_add i t s = refl

  pub scan-IsScanned :
      (count i : ℕ) (texts : List String) (s r : Scan)
      → i ≡ length s.segments
      → IsScanned s
      → scan hasher count i texts s ≡ ok r
      → IsScanned r × (r.segments ≡ s.segments ++ map from_str texts)
  unfolding scan
  scan-IsScanned count i [] s r e v h =
      subst (λ (x : Scan). IsScanned x × (x.segments ≡ s.segments ++ [])) (ok-injective h)
        (v, sym (append-nil _))
  scan-IsScanned count i (text ∷ rest) s r e v h =
      let t = from_str text in
      let (next, one, later) = >>=-eq-ok (scan_segment hasher count i t s) _ h in
      let same : scan_add hasher i t s ≡ next = scan_segment-ok count i t s next one in
      let pushed : next.segments ≡ s.segments ++ t ∷ [] =
        ap (λ (x : Scan). x.segments) (sym same) ∙ segments-scan_add i t s in
      let index : i + 1 ≡ length next.segments = rw (pushed, length-append) (omega (arith, e)) in
      let (valid, whole) =
        scan-IsScanned count (i + 1) rest next r index
          (subst IsScanned same (scan_add-IsScanned i t s e v)) later in
      (valid, whole ∙ rw (pushed, append_assoc) refl)

  IsScanned-no_scan : IsScanned no_scan
  IsScanned-no_scan = record {
    pattern = refl;
    templates = refl;
    hashed = refl;
    mapped = λ _. record { in_range = omega arith; describes = λ i s h. cc };
  }

  pub scan_all :
      (texts : List String) (r : Scan)
      → scan hasher (length texts) 0 texts no_scan ≡ ok r
      → IsScanned r × (r.segments ≡ map from_str texts)
  scan_all texts r h = scan-IsScanned (length texts) 0 texts no_scan r refl IsScanned-no_scan h

  scan_segment_last :
      (count i : ℕ) (t : PathSegment) (s : Scan)
      → i + 1 ≡ count
      → scan_segment hasher count i t s ≡ ok (scan_add hasher i t s)
  unfolding scan_segment
  scan_segment_last count i multi_wildcard s e = ground arith
  scan_segment_last count i _ s e = refl

  scan_segment_inner :
      (count i : ℕ) (t : PathSegment) (s : Scan)
      → i + 1 < count
      → scan_segment hasher count i t s
        ≡ (if is_multi_wildcard t then err multi_wildcard_not_last else ok (scan_add hasher i t s))
  unfolding scan_segment is_multi_wildcard
  scan_segment_inner count i multi_wildcard s e = ground arith
  scan_segment_inner count i _ s e = refl

  -- Whether the loop succeeds is decided by the place of `>` alone.
  pub scan_decides :
      (count i : ℕ) (texts : List String) (s : Scan)
      → i + length texts ≡ count
      → ((multi_last (map from_str texts) ≡ true)
          × ((r : Scan) × (scan hasher count i texts s ≡ ok r)))
        ⊎ ((multi_last (map from_str texts) ≡ false)
            × (scan hasher count i texts s ≡ err multi_wildcard_not_last))
  unfolding scan
  scan_decides count i [] s e = inl (refl, (s, refl))
  scan_decides count i (text ∷ []) s e =
      let t = from_str text in
      inl (refl, (scan_add hasher i t s, rw (scan_segment_last count i t s e) refl))
  scan_decides count i (text ∷ u ∷ rest) s e =
      elim (Bool-cases (is_multi_wildcard (from_str text))) [
        | inl early ↦ inr (
          rw early refl,
          rw (scan_segment_inner count i (from_str text) s (omega arith), early) refl,
        )
        | inr fine ↦
            rw (scan_segment_inner count i (from_str text) s (omega arith), fine)
              (scan_decides count (i + 1) (u ∷ rest) (scan_add hasher i (from_str text) s)
                (omega arith))
      ]
