-- ===== src/LoadBalancing/Fair.antt =====
-- runar-node/src/services/load_balancing.rs: each handler is selected once a round.
use native.Mathlib.Nat.{mod-eq_of_lt, add-mod_right}
use rust_mono.Prelude.{
  ℕ, zero, suc, ◌+◌, ◌%◌, ◌^◌, ◌≤◌, ◌<◌, ◌≡◌, refl, ap, ◌∙◌, false, List, [], ◌∷◌, length, is_empty,
  eqb, ltb, leb, ◌&&◌, if◌then◌else◌, arith,
}
use rust_mono.Prelude.Bag.{total}
use rust_mono.LoadBalancing.{RoundRobinLoadBalancer, select_handler, selections}

abbrev one_at : ℕ → ℕ → ℕ
one_at k i = if eqb i k then 1 else 0

-- How often `k` is an answer.
abbrev pub picks : ℕ → List ℕ → ℕ
picks k answers = total (one_at k) answers

-- How often `k` is among `rounds` remainders from an index on.
window : ℕ → ℕ → ℕ → ℕ → ℕ
window n k zero i = 0
window n k (suc rounds) i = one_at k (i % n) + window n k rounds (i + 1)

module _ (n k : ℕ) where
  window-shift :
      (rounds i : ℕ)
      → window n k rounds (i + 1) + one_at k (i % n)
        ≡ window n k rounds i + one_at k ((i + rounds) % n)
  unfolding window
  window-shift zero i = let e : i + 0 ≡ i = omega arith in rw e (omega arith)
  window-shift (suc rounds) i =
      let e : i + 1 + rounds ≡ i + suc rounds = omega arith in
      let ih : window n k rounds (i + 1 + 1) + one_at k ((i + 1) % n)
          ≡ window n k rounds (i + 1) + one_at k ((i + suc rounds) % n) =
        window-shift rounds (i + 1)
        ∙ ap (λ (j : ℕ). window n k rounds (i + 1) + one_at k (j % n)) e in
      omega (arith, ih)

  -- A whole round sees every answer equally often, wherever it begins.
  window-anywhere : (i : ℕ) → window n k n i ≡ window n k n 0
  window-anywhere zero = refl
  window-anywhere (suc i) =
      let e : suc i ≡ i + 1 = omega arith in
      rw e (omega (arith, window-shift n i, ap (one_at k) (add-mod_right i n), window-anywhere i))

  window-small :
      (rounds i : ℕ)
      → i + rounds ≤ n
      → window n k rounds i ≡ (if leb i k && ltb k (i + rounds) then 1 else 0)
  unfolding window
  window-small zero i h = ground arith
  window-small (suc rounds) i h =
      rw (mod-eq_of_lt {n = i} {m = n} (omega arith))
        (ground (arith, window-small rounds (i + 1) (omega arith)))

module _ {ℓ} {H : Type ℓ} where
  selections-suc :
      (calls : ℕ) (handlers : List H) (b : RoundRobinLoadBalancer)
      → is_empty handlers ≡ false
      → selections (suc calls) handlers b
        ≡ (b.current_index % length handlers)
          ∷ selections calls handlers (record { current_index = (b.current_index + 1) % 2 ^ 64 })
  unfolding selections select_handler
  selections-suc calls handlers b some_handler = rw some_handler refl

  picks-selections :
      (k rounds : ℕ) (handlers : List H) (b : RoundRobinLoadBalancer)
      → is_empty handlers ≡ false
      → b.current_index + rounds ≤ 2 ^ 64
      → picks k (selections rounds handlers b) ≡ window (length handlers) k rounds b.current_index
  unfolding window selections
  picks-selections k zero handlers b some_handler h = refl
  picks-selections k (suc zero) handlers b some_handler h =
      ap (picks k) (selections-suc zero handlers b some_handler)
  picks-selections k (suc (suc rounds)) handlers b some_handler h =
      let i = b.current_index in
      let no_wrap : (i + 1) % 2 ^ 64 ≡ i + 1 = mod-eq_of_lt (omega (arith, h)) in
      let after : RoundRobinLoadBalancer = record { current_index = (i + 1) % 2 ^ 64 } in
      let ih : picks k (selections (suc rounds) handlers after)
          ≡ window (length handlers) k (suc rounds) ((i + 1) % 2 ^ 64) =
        picks-selections k (suc rounds) handlers after some_handler (omega (arith, h, no_wrap)) in
      ap (picks k) (selections-suc (suc rounds) handlers b some_handler)
      ∙ ap (λ (m : ℕ). one_at k (i % length handlers) + m)
          (ih ∙ ap (window (length handlers) k (suc rounds)) no_wrap)

  some_handler_of : (handlers : List H) (k : ℕ) → k < length handlers → is_empty handlers ≡ false
  some_handler_of [] k h = absurd (omega (arith, h))
  some_handler_of (x ∷ xs) k h = refl

  -- As many successive calls of `select_handler` as there are handlers select each of them exactly
  -- once, whatever the counter is, if it does not pass 2^64 on the way.
  pub selections_fair :
      (handlers : List H) (b : RoundRobinLoadBalancer) (k : ℕ)
      → k < length handlers
      → b.current_index + length handlers ≤ 2 ^ 64
      → picks k (selections (length handlers) handlers b) ≡ 1
  selections_fair handlers b k in_range no_wrap =
      picks-selections k (length handlers) handlers b (some_handler_of handlers k in_range) no_wrap
      ∙ window-anywhere (length handlers) k b.current_index
      ∙ window-small (length handlers) k (length handlers) 0 (omega arith)
      ∙ ground (arith, in_range)
