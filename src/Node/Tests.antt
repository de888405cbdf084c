-- ===== src/Node/Tests.antt =====
-- runar-node/src/node.rs: runs of two nodes, and the theorems applied to them.
mod Answers
mod Dispatch
mod Remote
mod States
use rust_mono.Prelude.{ℕ, ◌≡◌, ◌≢◌, ◌⊎◌, refl, eq_iff, none, [], arith}
use rust_mono.Prelude.Result.{ok}
use rust_mono.Node.Messages.{handle_network_message}
use rust_mono.Node.Connections.{connection, handle_discovered_node}
use rust_mono.Node.Connections.Laws.{handle_discovered_node_once}
use rust_mono.Node.Channels.{IsOneshot}
use rust_mono.Node.Channels.Kept.{KeepsChannels}
use rust_mono.Node.Channels.Messages.{handle_network_message-IsOneshot}
use rust_mono.Node.Samples.{outside, ann, bob, node_of, info_of, message_of, asker}

ann-ne-bob : ann.public_key ≢ bob.public_key
ann-ne-bob = λ e. cc ((eq_iff "ann" "bob").1 e)

handle_discovered_node_once_example :
    ((handle_discovered_node outside (info_of bob) (node_of ann)
        ≡ connection outside (node_of ann) (1, ok tt))
      × (handle_discovered_node outside (info_of ann) (node_of bob) ≡ (node_of bob, ok tt)))
    ⊎ ((handle_discovered_node outside (info_of bob) (node_of ann) ≡ (node_of ann, ok tt))
        × (handle_discovered_node outside (info_of ann) (node_of bob)
            ≡ connection outside (node_of bob) (1, ok tt)))
handle_discovered_node_once_example =
    handle_discovered_node_once outside (node_of ann) (node_of bob) (info_of ann) (info_of bob) refl
      refl ann-ne-bob (refl, refl, refl) (refl, refl, refl)

outside-KeepsChannels : KeepsChannels outside
outside-KeepsChannels = record {
  calls = λ f payload context n h. h;
  notifies = λ c topic payload n h. h;
  waits = λ channel timeout n h. h;
}

asker-IsOneshot : IsOneshot asker
asker-IsOneshot = λ c. ground arith

handle_network_message-IsOneshot_example :
    IsOneshot (handle_network_message outside (message_of "Response" bob ann) asker).0
handle_network_message-IsOneshot_example =
    handle_network_message-IsOneshot outside outside-KeepsChannels (message_of "Response" bob ann)
      asker asker-IsOneshot
