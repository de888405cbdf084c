-- ===== src/Node/Connections/Laws.antt =====
-- runar-node/src/node.rs: of two nodes that discover one another, one connects.
use rust_mono.Prelude.{◌≡◌, ◌≢◌, ◌⊎◌, inl, inr, refl, true, false, Bool-cases}
use rust_mono.Prelude.Result.{ok}
use rust_mono.Peers.{PeerInfo}
use rust_mono.Node.{Node, Environment}
use rust_mono.Prelude.Text.Order.{lt_text, lt_text-swap}
use rust_mono.Node.Connections.{connection, handle_discovered_node}

module _ {F C FS V X W : Type 0} (env : Environment F C FS V X W) where
  -- A node that could connect: its network is enabled, and it is not connected to the other one.
  abbrev pub CanConnect : PeerInfo → Node F C FS V X W → Type 0
  CanConnect info n =
      (n.supports_networking ≡ true)
      × (n.network_transport ≡ true)
      × (env.is_connected (record { public_key = info.public_key }) n.world ≡ false)

  connects :
      (info : PeerInfo) (n : Node F C FS V X W)
      → CanConnect info n
      → lt_text n.peer_id.public_key info.public_key ≡ true
      → handle_discovered_node env info n ≡ connection env n (env.connect_peer info n.world)
  unfolding handle_discovered_node
  connects info n (enabled, transport, apart) smaller = rw (enabled, smaller, transport, apart) refl

  waits :
      (info : PeerInfo) (n : Node F C FS V X W)
      → n.supports_networking ≡ true
      → lt_text n.peer_id.public_key info.public_key ≡ false
      → handle_discovered_node env info n ≡ (n, ok tt)
  unfolding handle_discovered_node
  waits info n enabled larger = rw (enabled, larger) refl

module _ {F C FS V X W : Type 0} (env : Environment F C FS V X W) where
  -- If two nodes with different keys, both with networking and a transport and not yet connected,
  -- discover each other, exactly one of them tries to connect, and the other one does nothing.
  pub handle_discovered_node_once :
      (m n : Node F C FS V X W) (info_m info_n : PeerInfo)
      → info_m.public_key ≡ m.peer_id.public_key
      → info_n.public_key ≡ n.peer_id.public_key
      → m.peer_id.public_key ≢ n.peer_id.public_key
      → CanConnect env info_n m
      → CanConnect env info_m n
      → ((handle_discovered_node env info_n m ≡ connection env m (env.connect_peer info_n m.world))
          × (handle_discovered_node env info_m n ≡ (n, ok tt)))
        ⊎ ((handle_discovered_node env info_n m ≡ (m, ok tt))
            × (handle_discovered_node env info_m n
                ≡ connection env n (env.connect_peer info_m n.world)))
  handle_discovered_node_once m n info_m info_n of_m of_n apart can_m can_n =
      let swap = lt_text-swap m.peer_id.public_key n.peer_id.public_key apart in
      elim (Bool-cases (lt_text m.peer_id.public_key n.peer_id.public_key)) [
        | inl smaller ↦ inl (
          connects env info_n m can_m (rw of_n smaller),
          waits env info_m n can_n.0 (rw of_m (rw smaller at swap)),
        )
        | inr larger ↦ inr (
          waits env info_n m can_m.0 (rw of_n larger),
          connects env info_m n can_n (rw of_m (rw larger at swap)),
        )
      ]
