-- ===== src/Node/Samples.antt =====
-- runar-node/src/node.rs: two nodes and an outside world for the runs.
use rust_mono.Prelude.{ℕ, ◌+◌, true, false, String, ◌==◌, none, List, [], ◌∷◌, eqb, if◌then◌else◌}
use rust_mono.Prelude.Result.{Result, ok, err}
use rust_mono.Prelude.Int.{pos}
use rust_mono.Routing.Tests.{count_writes, users}
use rust_mono.Peers.{PeerId, PeerInfo}
use rust_mono.Registry as Registry
use rust_mono.Registry.{Service, RemoteService}
use rust_mono.Network.{NetworkMessage, NetworkMessagePayloadItem}
use rust_mono.Node.{Node, Environment, elapsed, other}

abbrev pub Sample : Type 0
Sample = Node ℕ ℕ ℕ ℕ ℕ ℕ

abbrev pub first_byte : List ℕ → Result ℕ ℕ
first_byte [] = err 0
first_byte (b ∷ bs) = ok b

-- A service starts unless its path is `broken`.
abbrev pub start_outcome : Service → Result ℕ (Unit {0})
start_outcome s = if s.path == "broken" then err 1 else ok tt

-- A handler is the value that it answers, or fails if it is 0; a callback counts itself in the
-- world. No response comes in time.
abbrev pub outside : Environment ℕ ℕ ℕ ℕ ℕ ℕ
outside = record {
  hasher = count_writes;
  call_local = λ f payload context n. (n, if eqb f 0 then err (other 1) else ok f);
  notify = λ c topic payload n. (record n { world = n.world + c }, ok tt);
  init_service = λ s topic n. (n, ok tt);
  start_service = λ s topic n. (n, start_outcome s);
  stop_service = λ s topic n. (n, ok tt);
  await_response = λ channel timeout n. (n, elapsed);
  serialize_value = λ v. ok (v ∷ []);
  deserialize_value = first_byte;
  null = 0;
  is_null = λ v. eqb v 0;
  error_value = λ e. 9;
  new_uuid = λ w. (w + 1, "id");
  now = λ w. w;
  send_message = λ message w. (w + 1, ok tt);
  is_connected = λ peer w. false;
  connect_peer = λ peer w. (w + 1, ok tt);
}

abbrev pub ann : PeerId
ann = record { public_key = "ann" }

abbrev pub bob : PeerId
bob = record { public_key = "bob" }

abbrev pub node_of : PeerId → Sample
node_of peer = record {
  network_id = "main";
  network_ids = "main" ∷ [];
  peer_id = peer;
  request_timeout_ms = 30000;
  service_registry = Registry.new;
  known_peers = [];
  running = false;
  supports_networking = true;
  network_transport = true;
  load_balancer = record { current_index = 4 };
  pending_requests = [];
  next_channel = 0;
  sent = [];
  registry_version = pos 0;
  debounce_notify_task = none;
  spawned = 0;
  world = 0;
}

abbrev pub info_of : PeerId → PeerInfo
info_of peer = record { public_key = peer.public_key; addresses = [] }

abbrev pub remote_users : RemoteService
remote_users = record {
  name = "users";
  service_topic = users;
  version = "1";
  description = "";
  network_id = "main";
  peer_id = bob;
  action_names = "get" ∷ [];
  local_node_id = ann;
  request_timeout_ms = 30000;
}

abbrev pub item : NetworkMessagePayloadItem
item = record { path = "users/get"; value_bytes = 3 ∷ []; correlation_id = "id" }

abbrev pub message_of : String → PeerId → PeerId → NetworkMessage
message_of message_type source destination = record {
  source = source;
  destination = destination;
  message_type = message_type;
  payloads = item ∷ [];
}

-- Channel 0 waits under `id`, and channel 1 is used.
abbrev pub asker : Sample
asker = record (node_of ann) {
  pending_requests = ("id", 0) ∷ [];
  next_channel = 2;
  sent = (1, ok 5) ∷ [];
}
