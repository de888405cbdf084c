-- ===== src/Peers/Indexed.antt =====
-- runar-node/src/network/transport/peer_registry.rs: the map of peers holds each peer once, under its
-- own public key.
use rust_mono.Prelude.{
  ◌≡◌, refl, ◌∙◌, Bool, inl, inr, String, ◌==◌, eq_iff, none, some, [], ◌∷◌, retain, Bool-cases,
  arith,
}
use mathlib.Core.Path.{subst}
use rust_mono.Prelude.HashMap as Map
use rust_mono.Prelude.HashMap.{HashMap, get-insert, get-remove}
use rust_mono.Peers.{PeerEntry}

-- Each peer is once in the map, under its own public key.
unfoldable pub IsIndexed : HashMap PeerEntry → Type 0
IsIndexed [] = Unit {0}
IsIndexed ((k, e) ∷ m) = (Map.get k m ≡ none) × (e.peer_info.public_key ≡ k) × IsIndexed m

pub IsIndexed-insert :
    (k : String) (e : PeerEntry) (m : HashMap PeerEntry)
    → e.peer_info.public_key ≡ k
    → IsIndexed m
    → IsIndexed (Map.insert k e m)
unfolding IsIndexed Map.insert Map.get
IsIndexed-insert k e [] own h = (refl, own, tt)
IsIndexed-insert k e ((j, d) ∷ m) own (single, own_d, h) = elim (Bool-cases (j == k)) [
  | inl same ↦ rw same (subst (λ i. Map.get i m ≡ none) ((eq_iff j k).0 same) single, own, h)
  | inr apart ↦ rw apart (
    get-insert k j e m ∙ ground (arith, single, eq_iff j k, eq_iff k j),
    own_d,
    IsIndexed-insert k e m own h,
  )
]

pub IsIndexed-remove :
    (k : String) (m : HashMap PeerEntry) → IsIndexed m → IsIndexed (Map.remove k m)
unfolding IsIndexed Map.remove
IsIndexed-remove k [] h = tt
IsIndexed-remove k ((j, d) ∷ m) (single, own_d, h) = elim (Bool-cases (j == k)) [
  | inl same ↦ rw same (IsIndexed-remove k m h)
  | inr apart ↦ rw apart (
    get-remove k j m ∙ ground (arith, single, eq_iff j k, eq_iff k j),
    own_d,
    IsIndexed-remove k m h,
  )
]

get_of_retain :
    (p : String × PeerEntry → Bool) (k : String) (m : HashMap PeerEntry)
    → Map.get k m ≡ none
    → Map.get k (retain p m) ≡ none
unfolding Map.get
get_of_retain p k [] h = refl
get_of_retain p k ((j, d) ∷ m) h = ground (arith, get_of_retain p k m)

pub IsIndexed-retain :
    (p : String × PeerEntry → Bool) (m : HashMap PeerEntry) → IsIndexed m → IsIndexed (retain p m)
unfolding IsIndexed
IsIndexed-retain p [] h = tt
IsIndexed-retain p ((j, d) ∷ m) (single, own_d, h) = elim (Bool-cases (p (j, d))) [
  | inl kept ↦ rw kept (get_of_retain p j m single, own_d, IsIndexed-retain p m h)
  | inr dropped ↦ rw dropped (IsIndexed-retain p m h)
]

pub get-own_key :
    (k : String) (e : PeerEntry) (m : HashMap PeerEntry)
    → IsIndexed m
    → Map.get k m ≡ some e
    → e.peer_info.public_key ≡ k
unfolding IsIndexed Map.get
get-own_key k e [] h found = cc
get-own_key k e ((j, d) ∷ m) (single, own, h) found = elim (Bool-cases (j == k)) [
  | inl same ↦
      let picked : some d ≡ some e = ground (arith, found, same) in
      let taken : d ≡ e = cc in
      subst (λ x. x.peer_info.public_key ≡ k) taken (own ∙ (eq_iff j k).0 same)
  | inr apart ↦ get-own_key k e m h (ground (arith, found, apart))
]
