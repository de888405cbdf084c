-- ===== src/Keys/Certificates/Trimming.antt =====
-- runar-keys/src/certificate.rs: what `trim` makes of a text in `normalize_dn`.
use Prim.Native.String as Str
use text.Mathlib.TextLemmas.{nil-append, cons-append}
use rust_mono.Prelude.{
  ◌≡◌, refl, ap, sym, ◌∙◌, inl, inr, Char, Bool, true, false, ◌&&◌, String, arith, Bool-cases,
  if_both, if◌then◌else◌,
}
use rust_mono.Prelude.Text.{empty, has_char}
use rust_mono.Prelude.Text.Split.{Free}
use rust_mono.Keys.Certificates.{is_whitespace, trim_start, trim_end}

abbrev pub all_blank : String → Bool
all_blank Str.[] = true
all_blank (Str.◌∷◌ c s) = is_whitespace c && all_blank s

abbrev pub starts_blank : String → Bool
starts_blank Str.[] = false
starts_blank (Str.◌∷◌ c s) = is_whitespace c

abbrev pub ends_blank : String → Bool
ends_blank Str.[] = false
ends_blank (Str.◌∷◌ c Str.[]) = is_whitespace c
ends_blank (Str.◌∷◌ c (Str.◌∷◌ d s)) = ends_blank (Str.◌∷◌ d s)

-- The second text is the first without all of the blanks around it.
pub record IsTrimmed (s t : String) : Type 0 where
  pub before : String
  pub after : String
  pub shape : s ≡ Str.◌++◌ before (Str.◌++◌ t after)
  pub blank_before : all_blank before ≡ true
  pub blank_after : all_blank after ≡ true
  pub starts : starts_blank t ≡ false
  pub ends : ends_blank t ≡ false

trim_start-append : (b s : String) → all_blank b ≡ true → trim_start (Str.◌++◌ b s) ≡ trim_start s
unfolding trim_start
trim_start-append Str.[] s h = rw nil-append refl
trim_start-append (Str.◌∷◌ c b) s h = rw cons-append (ground (arith, trim_start-append b s))

trim_start_same : (s : String) → starts_blank s ≡ false → trim_start s ≡ s
unfolding trim_start
trim_start_same Str.[] h = refl
trim_start_same (Str.◌∷◌ c s) h = rw h refl

pub trim_start_blank : (s : String) → all_blank s ≡ true → trim_start s ≡ ""
unfolding trim_start
trim_start_blank Str.[] h = refl
trim_start_blank (Str.◌∷◌ c s) h = ground (arith, trim_start_blank s)

trim_end_blank : (s : String) → all_blank s ≡ true → trim_end s ≡ ""
unfolding trim_end
trim_end_blank Str.[] h = refl
trim_end_blank (Str.◌∷◌ c s) h =
    step (trim_end s) (trim_end_blank s (ground arith)) (is_whitespace c) (ground arith)
  where
    step :
        (r : String)
        → r ≡ ""
        → (b : Bool) → b ≡ true
        → (if b && empty r then "" else Str.◌∷◌ c r) ≡ ""
    step r e b k = rw (e, k) refl

trim_end-append : (s b : String) → all_blank b ≡ true → trim_end (Str.◌++◌ s b) ≡ trim_end s
unfolding trim_end
trim_end-append Str.[] b h = rw nil-append (trim_end_blank b h)
trim_end-append (Str.◌∷◌ c s) b h = rw cons-append (rw (trim_end-append s b h) refl)

trim_end_same : (s : String) → ends_blank s ≡ false → trim_end s ≡ s
unfolding trim_end
trim_end_same Str.[] h = refl
trim_end_same (Str.◌∷◌ c Str.[]) h = rw h refl
trim_end_same (Str.◌∷◌ c (Str.◌∷◌ d s)) h = rw (trim_end_same (Str.◌∷◌ d s) h) (ground arith)

trim-IsTrimmed_same :
    (t after : String)
    → all_blank after ≡ true
    → starts_blank t ≡ false
    → ends_blank t ≡ false
    → empty t ≡ false
    → trim_end (trim_start (Str.◌++◌ t after)) ≡ t
trim-IsTrimmed_same Str.[] after blank starts ends full = absurd (cc)
trim-IsTrimmed_same (Str.◌∷◌ c t) after blank starts ends full =
    ap trim_end (trim_start_same (Str.◌++◌ (Str.◌∷◌ c t) after) (rw cons-append starts))
    ∙ trim_end-append (Str.◌∷◌ c t) after blank
    ∙ trim_end_same (Str.◌∷◌ c t) ends

-- Trimming finds the text between the blanks.
pub trim_of_IsTrimmed :
    (s t : String) → IsTrimmed s t → empty t ≡ false → trim_end (trim_start s) ≡ t
trim_of_IsTrimmed s t i full =
    ap (λ u. trim_end (trim_start u)) i.shape
    ∙ ap trim_end (trim_start-append i.before (Str.◌++◌ t i.after) i.blank_before)
    ∙ trim-IsTrimmed_same t i.after i.blank_after i.starts i.ends full

trim_start-parts :
    (s : String)
    → (b : String) × (s ≡ Str.◌++◌ b (trim_start s))
      × (all_blank b ≡ true)
      × (starts_blank (trim_start s) ≡ false)
unfolding trim_start
trim_start-parts Str.[] = ("", sym (nil-append ""), refl, refl)
trim_start-parts (Str.◌∷◌ c s) = elim (Bool-cases (is_whitespace c)) [
  | inl blank ↦
      let (b, shape, blanks, starts) = trim_start-parts s in
      (
        Str.◌∷◌ c b,
        rw (blank, cons-append) (ap (Str.◌∷◌ c) shape),
        rw blank blanks,
        rw blank starts,
      )
  | inr other ↦ ("", rw other (sym (nil-append (Str.◌∷◌ c s))), refl, rw other other)
]

trim_end-parts :
    (s : String)
    → (a : String) × (s ≡ Str.◌++◌ (trim_end s) a)
      × (all_blank a ≡ true)
      × (ends_blank (trim_end s) ≡ false)
unfolding trim_end
trim_end-parts Str.[] = ("", sym (nil-append ""), refl, refl)
trim_end-parts (Str.◌∷◌ c s) =
    let (a, shape, blanks, ends) = trim_end-parts s in
    go (trim_end s) a shape blanks ends (is_whitespace c) refl
  where
    go :
        (r a : String)
        → s ≡ Str.◌++◌ r a
        → all_blank a ≡ true
        → ends_blank r ≡ false
        → (b : Bool) → is_whitespace c ≡ b
        → (a' : String) × (Str.◌∷◌ c s ≡ Str.◌++◌ (if b && empty r then "" else Str.◌∷◌ c r) a')
          × (all_blank a' ≡ true)
          × (ends_blank (if b && empty r then "" else Str.◌∷◌ c r) ≡ false)
    go Str.[] a shape blanks ends true e = (
      Str.◌∷◌ c a,
      ap (Str.◌∷◌ c) (shape ∙ nil-append a) ∙ sym (nil-append (Str.◌∷◌ c a)),
      rw e blanks,
      refl,
    )
    go Str.[] a shape blanks ends false e =
        (a, ap (Str.◌∷◌ c) shape ∙ sym (cons-append c "" a), blanks, e)
    go (Str.◌∷◌ d r) a shape blanks ends true e =
        (a, ap (Str.◌∷◌ c) shape ∙ sym (cons-append c (Str.◌∷◌ d r) a), blanks, ends)
    go (Str.◌∷◌ d r) a shape blanks ends false e =
        (a, ap (Str.◌∷◌ c) shape ∙ sym (cons-append c (Str.◌∷◌ d r) a), blanks, ends)

starts_blank-trim_end : (s : String) → starts_blank s ≡ false → starts_blank (trim_end s) ≡ false
unfolding trim_end
starts_blank-trim_end Str.[] h = refl
starts_blank-trim_end (Str.◌∷◌ c s) h = rw h h

pub trim-IsTrimmed : (s : String) → IsTrimmed s (trim_end (trim_start s))
trim-IsTrimmed s =
    let (b, shape, blank, starts) = trim_start-parts s in
    let (a, rest, blanks, ends) = trim_end-parts (trim_start s) in
    record {
      before = b;
      after = a;
      shape = shape ∙ ap (Str.◌++◌ b) rest;
      blank_before = blank;
      blank_after = blanks;
      starts = starts_blank-trim_end (trim_start s) starts;
      ends = ends;
    }

all_blank-append :
    (a b : String) → all_blank a ≡ true → all_blank b ≡ true → all_blank (Str.◌++◌ a b) ≡ true
all_blank-append Str.[] b h k = rw nil-append k
all_blank-append (Str.◌∷◌ c a) b h k = rw cons-append (ground (arith, all_blank-append a b))

pub all_blank-of_trim : (s : String) → trim_end (trim_start s) ≡ "" → all_blank s ≡ true
all_blank-of_trim s e =
    let i = trim-IsTrimmed s in
    let shape : s ≡ Str.◌++◌ i.before i.after =
      i.shape
      ∙ ap (λ t. Str.◌++◌ i.before (Str.◌++◌ t i.after)) e
      ∙ ap (Str.◌++◌ i.before) (nil-append i.after) in
    ap all_blank shape ∙ all_blank-append i.before i.after i.blank_before i.blank_after

Free-trim_start : (k : Char) (s : String) → Free k s → Free k (trim_start s)
unfolding trim_start has_char
Free-trim_start k Str.[] h = refl
Free-trim_start k (Str.◌∷◌ c s) h =
    if_both (Free k) (is_whitespace c) (trim_start s) (Str.◌∷◌ c s)
      (Free-trim_start k s (ground arith)) h

Free-trim_end : (k : Char) (s : String) → Free k s → Free k (trim_end s)
unfolding trim_end has_char
Free-trim_end k Str.[] h = refl
Free-trim_end k (Str.◌∷◌ c s) h =
    if_both (Free k) (is_whitespace c && empty (trim_end s)) "" (Str.◌∷◌ c (trim_end s)) refl
      (ground (arith, Free-trim_end k s))

pub Free-trim : (k : Char) (s : String) → Free k s → Free k (trim_end (trim_start s))
Free-trim k s h = Free-trim_end k (trim_start s) (Free-trim_start k s h)
