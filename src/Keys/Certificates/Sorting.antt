-- ===== src/Keys/Certificates/Sorting.antt =====
-- runar-keys/src/certificate.rs: `sort` in `normalize_dn`, and the order of the parts.
use rust_mono.Prelude.{
  ℕ, ◌+◌, ◌≡◌, ◌≢◌, ◌↔◌, refl, ap, sym, ◌∙◌, inl, inr, String, ◌==◌, eq_iff, eq_refl, List, [], ◌∷◌,
  ◌++◌, arith, if◌then◌else◌, Bool-cases, All,
}
use rust_mono.Prelude.Bag.{total, total-append, SameItems}
use rust_mono.Prelude.Text.Order.{lt_text, lt_text-swap, lt_text-between}
use rust_mono.Keys.Certificates.{insert_sorted, sort}

total-insert_sorted :
    (w : String → ℕ) (s : String) (l : List String) → total w (insert_sorted s l) ≡ w s + total w l
total-insert_sorted w s [] = refl
total-insert_sorted w s (t ∷ ts) = ground (arith, total-insert_sorted w s ts)

pub sort-SameItems : (l : List String) → SameItems (sort l) l
unfolding sort
sort-SameItems [] w = refl
sort-SameItems (s ∷ ss) w = omega (arith, total-insert_sorted w s (sort ss), sort-SameItems ss w)

insert_sorted-swap_apart :
    (a b : String) (l : List String)
    → a ≢ b
    → insert_sorted a (insert_sorted b l) ≡ insert_sorted b (insert_sorted a l)
insert_sorted-swap_apart a b [] n = ground (arith, lt_text-swap a b n)
insert_sorted-swap_apart a b (t ∷ ts) n = ground (
  arith,
  lt_text-swap a b n,
  lt_text-between t a b,
  lt_text-between t b a,
  insert_sorted-swap_apart a b ts n,
)

insert_sorted-swap :
    (a b : String) (l : List String)
    → insert_sorted a (insert_sorted b l) ≡ insert_sorted b (insert_sorted a l)
insert_sorted-swap a b l = elim (Bool-cases (a == b)) [
  | inl same ↦ rw ((eq_iff a b).0 same) refl
  | inr apart ↦ insert_sorted-swap_apart a b l (λ e. absurd (ground (arith, (eq_iff a b).1 e)))
]

sort-middle : (a : String) (l r : List String) → sort (l ++ a ∷ r) ≡ insert_sorted a (sort (l ++ r))
unfolding sort
sort-middle a [] r = refl
sort-middle a (b ∷ l) r =
    ap (insert_sorted b) (sort-middle a l r) ∙ insert_sorted-swap b a (sort (l ++ r))

-- A text that is counted in a list stands in it.
parted :
    (a : String) (r : List String)
    → total (λ s. if a == s then 1 else 0) r ≢ 0
    → (before after : List String) × (r ≡ before ++ a ∷ after)
parted a [] n = absurd (n refl)
parted a (s ∷ r) n = elim (Bool-cases (a == s)) [
  | inl same ↦ ([], r, ap (λ (t : String). t ∷ r) (sym ((eq_iff a s).0 same)))
  | inr apart ↦
      let (before, after, shape) = parted a r (λ e. n (ground (arith, apart))) in
      (s ∷ before, after, ap (λ (l : List String). s ∷ l) shape)
]

sort-eq_of_SameItems : (l r : List String) → SameItems l r → sort l ≡ sort r
unfolding sort
sort-eq_of_SameItems [] [] h = refl
sort-eq_of_SameItems [] (s ∷ r) h = let counted = h (λ _. 1) in absurd (omega arith)
sort-eq_of_SameItems (a ∷ l) r h =
    let count : String → ℕ = λ s. if a == s then 1 else 0 in
    let here : count a ≡ 1 = rw (eq_refl a) refl in
    let counted : count a + total count l ≡ total count r = h count in
    let (before, after, shape) = parted a r (λ e. absurd (omega arith)) in
    let rest = sort-eq_of_SameItems l (before ++ after) (λ w. omega (
      arith,
      h w,
      ap (total w) shape,
      total-append w before (a ∷ after),
      total-append w before after,
    )) in
    ap (insert_sorted a) rest ∙ sym (ap sort shape ∙ sort-middle a before after)

-- Two lists are sorted to the same one exactly when they hold the same texts equally often.
pub sort_iff : (l r : List String) → (sort l ≡ sort r) ↔ SameItems l r
sort_iff l r = (
  λ e w. sym (sort-SameItems l w) ∙ ap (total w) e ∙ sort-SameItems r w,
  sort-eq_of_SameItems l r,
)

module _ {κ} (P : String → Type κ) where
  All-insert_sorted : (s : String) (l : List String) → P s → All P l → All P (insert_sorted s l)
  All-insert_sorted s [] p h = (p, tt)
  All-insert_sorted s (t ∷ ts) p (q, h) = elim (Bool-cases (lt_text t s)) [
    | inl below ↦ rw below (q, All-insert_sorted s ts p h)
    | inr other ↦ rw other (p, (q, h))
  ]

  pub All-sort : (l : List String) → All P l → All P (sort l)
  unfolding sort
  All-sort [] h = tt
  All-sort (s ∷ ss) (p, h) = All-insert_sorted s (sort ss) p (All-sort ss h)
