-- ===== src/Node/Tests/Answers.antt =====
-- runar-node/src/node.rs: a request of one node to another one.
use rust_mono.Prelude.{◌≡◌, refl, true, none, some, [], ◌∷◌}
use rust_mono.Prelude.Result.{ok, err}
use rust_mono.Prelude.Text.{starts_with_char}
use rust_mono.Prelude.HashMap as Map
use rust_mono.Routing.Segment.{to_string, is_template_param}
use rust_mono.Routing.TopicPath.{get_segments}
use rust_mono.Routing.Tests.{get_user, new-get_user}
use rust_mono.Trie as Trie
use rust_mono.Trie.{get_child, set_value}
use rust_mono.Trie.Search.{find_matches, find_matches_internal}
use rust_mono.Registry as Registry
use rust_mono.Registry.{register_local_action_handler, get_local_action_handler}
use rust_mono.Network.{NetworkMessage}
use rust_mono.Node.{local_handler, no_local_handler, register_action_handler}
use rust_mono.Node.Requests.{local_request}
use rust_mono.Node.Messages.{handle_network_request, handle_network_message}
use rust_mono.Node.Messages.Replies.{
  sent_by, handle_network_message-answer, handle_network_message-error,
}
use rust_mono.Node.Samples.{Sample, outside, ann, bob, node_of, item, message_of, asker}

-- A node that answers `users/get` with 7.
abbrev answering : Sample
answering = register_action_handler get_user (local_handler 7) none (node_of bob)

answering-local_request : local_request outside "users/get" (some 3) answering ≡ (answering, ok 7)
unfolding local_request register_action_handler get_local_action_handler find_matches
    register_local_action_handler set_value Registry.new get_child find_matches_internal
    get_segments to_string is_template_param starts_with_char
answering-local_request = rw new-get_user refl

bob-local_request :
    local_request outside "users/get" (some 3) (node_of bob)
    ≡ (node_of bob, err (no_local_handler get_user))
unfolding local_request get_local_action_handler find_matches Registry.new Trie.new get_child
bob-local_request = rw new-get_user refl

answering-enabled : answering.supports_networking ≡ true
unfolding register_action_handler
answering-enabled = refl

answering-transport : answering.network_transport ≡ true
unfolding register_action_handler
answering-transport = refl

handle_network_message-answer_example :
    (answered : NetworkMessage) × (handle_network_request outside
        (message_of "Request" ann bob)
        answering
      ≡ (sent_by outside answered answering, ok tt))
    × (answered.destination ≡ ann)
    × (handle_network_message outside answered asker ≡ (
      record asker {
        pending_requests = Map.remove "id" asker.pending_requests;
        sent = (0, ok 7) ∷ asker.sent;
      },
      ok tt,
    ))
unfolding Map.get
handle_network_message-answer_example =
    handle_network_message-answer outside outside (message_of "Request" ann bob) item 3 7 7 (7 ∷ [])
      0 answering answering asker (refl, refl) answering-enabled answering-transport
      answering-local_request refl refl refl refl

handle_network_message-error_example :
    (answered : NetworkMessage) × (handle_network_request outside
        (message_of "Request" ann bob)
        (node_of bob)
      ≡ (sent_by outside answered (node_of bob), ok tt))
    × (answered.destination ≡ ann)
    × (handle_network_message outside answered asker ≡ (asker, ok tt))
handle_network_message-error_example =
    handle_network_message-error outside outside (message_of "Request" ann bob) item 3
      (no_local_handler get_user) (9 ∷ []) (node_of bob) (node_of bob) asker (refl, refl) refl refl
      bob-local_request refl
