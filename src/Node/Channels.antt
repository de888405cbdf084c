-- ===== src/Node/Channels.antt =====
-- runar-node/src/node.rs and runar-node/src/services/remote_service.rs: a oneshot channel is used once.
pub mod Kept
pub mod Messages
use rust_mono.Prelude.{
  ℕ, ◌+◌, ◌≤◌, ◌<◌, ◌≡◌, refl, sym, ap, String, ◌==◌, eq_iff, eq_refl, Option, none, some, List, [],
  ◌∷◌, eqb, ltb, Bool-cases, if◌then◌else◌, inl, inr, Bool, true, false, arith,
}
use rust_mono.Prelude.Result.{Result, ok, err}
use rust_mono.Prelude.Bag.{total}
use rust_mono.Prelude.HashMap as Map
use rust_mono.Prelude.HashMap.{HashMap}
use rust_mono.Node.{Node, Environment}
use rust_mono.Node.Requests.{open_request, remove_pending}

abbrev pub is_channel : ℕ → ℕ → ℕ
is_channel c x = if eqb x c then 1 else 0

-- How many requests wait on a channel.
abbrev pub waiting : ℕ → HashMap ℕ → ℕ
waiting c pending = total (λ (p : String × ℕ). is_channel c p.1) pending

module _ {E : Type 0} where
  -- How many results were sent into a channel.
  abbrev pub results : ℕ → List (ℕ × E) → ℕ
  results c sent = total (λ (p : ℕ × E). is_channel c p.0) sent

waiting-insert :
    (c k_channel : ℕ) (k : String) (m : HashMap ℕ)
    → waiting c (Map.insert k k_channel m) ≤ waiting c m + is_channel c k_channel
unfolding Map.insert
waiting-insert c v k [] = omega arith
waiting-insert c v k ((j, w) ∷ m) = elim (Bool-cases (j == k)) [
  | inl same ↦ rw same (omega arith)
  | inr other ↦ rw other (omega (arith, waiting-insert c v k m))
]

pub waiting-remove : (c : ℕ) (k : String) (m : HashMap ℕ) → waiting c (Map.remove k m) ≤ waiting c m
unfolding Map.remove
waiting-remove c k [] = omega arith
waiting-remove c k ((j, w) ∷ m) = elim (Bool-cases (j == k)) [
  | inl same ↦ rw same (omega (arith, waiting-remove c k m))
  | inr other ↦ rw other (omega (arith, waiting-remove c k m))
]

waiting-remove_found :
    (c v : ℕ) (k : String) (m : HashMap ℕ)
    → Map.get k m ≡ some v
    → waiting c (Map.remove k m) + is_channel c v ≤ waiting c m
unfolding Map.remove Map.get
waiting-remove_found c v k [] h = absurd (cc h)
waiting-remove_found c v k ((j, w) ∷ m) h = elim (Bool-cases (j == k)) [
  | inl same ↦
      let found : w ≡ v = ground (arith, h, same) in
      rw same (rw (sym found) (omega (arith, waiting-remove c k m)))
  | inr other ↦
      let deeper : Map.get k m ≡ some v = ground (arith, h, other) in
      rw other (omega (arith, waiting-remove_found c v k m deeper))
]

module _ {F C FS V X W : Type 0} where
  -- Requests that wait on a channel and results that were sent into it are one together at most, and
  -- none for a channel that is not made yet.
  abbrev pub IsOneshot : Node F C FS V X W → Type 0
  IsOneshot n =
      (c : ℕ)
      → waiting c n.pending_requests + results c n.sent ≤ (if ltb c n.next_channel then 1 else 0)

  pub open_request-IsOneshot :
      (id : String) (n : Node F C FS V X W) → IsOneshot n → IsOneshot (open_request id n)
  unfolding open_request
  open_request-IsOneshot id n h =
      λ c. ground (arith, h c, waiting-insert c n.next_channel id n.pending_requests)

  pub remove_pending-IsOneshot :
      (id : String) (n : Node F C FS V X W) → IsOneshot n → IsOneshot (remove_pending id n)
  unfolding remove_pending
  remove_pending-IsOneshot id n h = λ c. omega (arith, h c, waiting-remove c id n.pending_requests)
