-- ===== src/Keys/Certificates/Names.antt =====
-- runar-keys/src/certificate.rs: when `normalize_dn` takes two distinguished names for one.
use rust_mono.Prelude.{
  ◌≡◌, ◌↔◌, refl, ap, sym, ◌∙◌, inl, inr, Bool, true, false, not, String, List, [], ◌∷◌, map,
  retain, Bool-cases, All,
}
use rust_mono.Prelude.Bag.{SameItems}
use rust_mono.Prelude.Text.{empty, split, join}
use rust_mono.Prelude.Text.Split.{Free, split-Free, split-join}
use rust_mono.Keys.Certificates.{trim_start, trim_end, sort, normalize_dn}
use rust_mono.Keys.Certificates.Sorting.{sort_iff, All-sort}
use rust_mono.Keys.Certificates.Trimming.{
  IsTrimmed, all_blank, trim_of_IsTrimmed, trim-IsTrimmed, all_blank-of_trim, trim_start_blank,
  Free-trim,
}

-- The parts of a name whose pieces are given: the pieces without the blanks around them, in their
-- order; a piece of blanks only is none.
pub data AreParts : List String → List String → Type 0 where
  no_piece : AreParts [] []
  part :
      {s t : String} {ss ts : List String}
      → IsTrimmed s t
      → empty t ≡ false
      → AreParts ss ts
      → AreParts (s ∷ ss) (t ∷ ts)
  blank :
      {s : String} {ss ts : List String}
      → all_blank s ≡ true
      → AreParts ss ts
      → AreParts (s ∷ ss) ts

-- Two names have the same parts between their commas, each equally often, in whatever order.
abbrev pub SameName : String → String → Type 0
SameName a b =
    (ps : List String) × (qs : List String) × AreParts (split "," a) ps
    × AreParts (split "," b) qs
    × SameItems ps qs

abbrev trimmed : String → String
trimmed s = trim_end (trim_start s)

abbrev kept_parts : List String → List String
kept_parts pieces = retain (λ s. not (empty s)) (map trimmed pieces)

empty-eq : (s : String) → empty s ≡ true → s ≡ ""
empty-eq String.[] h = refl
empty-eq (String.◌∷◌ c s) h = cc

kept_parts-AreParts : (pieces : List String) → AreParts pieces (kept_parts pieces)
kept_parts-AreParts [] = no_piece
kept_parts-AreParts (s ∷ ss) = elim (Bool-cases (empty (trimmed s))) [
  | inl none ↦
      rw none (blank (all_blank-of_trim s (empty-eq (trimmed s) none)) (kept_parts-AreParts ss))
  | inr some ↦ rw some (part (trim-IsTrimmed s) some (kept_parts-AreParts ss))
]

AreParts-eq : {pieces ps : List String} → AreParts pieces ps → kept_parts pieces ≡ ps
unfolding trim_end
AreParts-eq no_piece = refl
AreParts-eq (part {s} {t} {ss} {ts} i full rest) =
    rw (trim_of_IsTrimmed s t i full, full) (ap (λ (us : List String). t ∷ us) (AreParts-eq rest))
AreParts-eq (blank {s} {ss} {ts} h rest) = rw (trim_start_blank s h) (AreParts-eq rest)

abbrev IsPiece : String → Type 0
IsPiece s = Free "," s × (empty s ≡ false)

kept_parts-IsPiece :
    (pieces : List String) → All (Free ",") pieces → All IsPiece (kept_parts pieces)
kept_parts-IsPiece [] h = tt
kept_parts-IsPiece (s ∷ ss) (free, h) = elim (Bool-cases (empty (trimmed s))) [
  | inl none ↦ rw none (kept_parts-IsPiece ss h)
  | inr some ↦ rw some ((Free-trim "," s free, some), kept_parts-IsPiece ss h)
]

Free-pieces : (ps : List String) → All IsPiece ps → All (Free ",") ps
Free-pieces [] h = tt
Free-pieces (p ∷ ps) ((free, _), h) = (free, Free-pieces ps h)

abbrev starts_empty : List String → Bool
starts_empty [] = false
starts_empty (s ∷ ss) = empty s

not_blank : (q : String) (qs : List String) → "" ∷ [] ≡ q ∷ qs → empty q ≡ false → ⊥
not_blank q qs e full = let both = ap starts_empty e in cc

join_inj :
    (ps qs : List String) → All IsPiece ps → All IsPiece qs → join "," ps ≡ join "," qs → ps ≡ qs
unfolding join split
join_inj [] [] h k e = refl
join_inj [] (q ∷ qs) h k e =
    let pieces = ap (split ",") e ∙ split-join "," q qs (Free-pieces (q ∷ qs) k) in
    absurd (not_blank q qs pieces k.0.1)
join_inj (p ∷ ps) [] h k e =
    let pieces = sym (ap (split ",") e) ∙ split-join "," p ps (Free-pieces (p ∷ ps) h) in
    absurd (not_blank p ps pieces h.0.1)
join_inj (p ∷ ps) (q ∷ qs) h k e =
    sym (split-join "," p ps (Free-pieces (p ∷ ps) h))
    ∙ ap (split ",") e
    ∙ split-join "," q qs (Free-pieces (q ∷ qs) k)

-- Two names are normalized to the same text exactly when they are the same up to the order of their
-- parts.
pub normalize_dn_iff : (a b : String) → (normalize_dn a ≡ normalize_dn b) ↔ SameName a b
unfolding normalize_dn
normalize_dn_iff a b = (
  λ e. (
    kept_parts (split "," a),
    kept_parts (split "," b),
    kept_parts-AreParts (split "," a),
    kept_parts-AreParts (split "," b),
    (sort_iff _ _).0 (join_inj _ _ (pieces a) (pieces b) e),
  ),
  λ (ps, qs, p, q, same).
      ap (join ",")
        (ap sort (AreParts-eq p) ∙ (sort_iff ps qs).1 same ∙ ap sort (sym (AreParts-eq q))),
)
  where
    pieces : (dn : String) → All IsPiece (sort (kept_parts (split "," dn)))
    pieces dn = All-sort IsPiece _ (kept_parts-IsPiece (split "," dn) (split-Free "," dn))
