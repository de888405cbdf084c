-- ===== src/Registry.antt =====
-- runar-node/src/services/service_registry.rs: the state of `ServiceRegistry`, services and action
-- handlers. Handlers, callbacks and the metadata of actions are only stored and passed on: their
-- types are parameters. Locks are taken for one operation at a time, which the model makes whole.
pub mod Subscriptions
pub mod Metadata
pub mod Actions
pub mod Delivery
mod Tests
use mathlib.Core.List.{flat_map}
use rust_mono.Prelude.{
  ℕ, Bool, true, false, ◌&&◌, eqb, String, Option, none, some, List, [], ◌∷◌, ◌++◌, map, is_empty,
  if◌then◌else◌,
}
use rust_mono.Prelude.Result.{Result, ok, err}
use rust_mono.Prelude.HashMap as Map
use rust_mono.Prelude.HashMap.{HashMap}
use rust_mono.Routing.TopicPath.{TopicPath, Hasher, Fallible, new_action_topic}
use rust_mono.Routing.Equality.{topic_eq, hash_writes}
use rust_mono.Peers.{PeerId}
use rust_mono.Trie.{PathTrie, PathTrieMatch, set_value}
use rust_mono.Trie as Trie
use rust_mono.Trie.Search.{find_matches, find}
use rust_mono.Trie.Removal.{remove_values}

pub data ServiceState : Type 0 where
  created initialized running stopped paused error unknown : ServiceState

pub data RegistryError : Type 0 where
  service_not_found service_already_exists : TopicPath → RegistryError
  no_topic_path : String → RegistryError
  no_subscriptions handler_not_found : TopicPath → String → RegistryError

-- The new state, and `Ok(())` or the error.
abbrev pub Outcome : Type 0 → Type 0
Outcome R = R × Result RegistryError (Unit {0})

-- What a service says of itself through `AbstractService`.
pub record Service : Type 0 where
  pub path : String
  pub name : String
  pub version : String
  pub description : String

pub record ServiceEntry : Type 0 where
  pub service : Service
  pub service_topic : TopicPath
  pub service_state : ServiceState
  pub registration_time : ℕ
  pub last_start_time : Option ℕ

-- Of the map of actions the keys: the metadata in it is never read. The fields that all remote
-- services of a node share (transport, serializer, pending requests) are the node's.
pub record RemoteService : Type 0 where
  pub name : String
  pub service_topic : TopicPath
  pub version : String
  pub description : String
  pub network_id : String
  pub peer_id : PeerId
  pub action_names : List String
  pub local_node_id : PeerId
  pub request_timeout_ms : ℕ

pub record EventMetadata (FieldSchema : Type 0) : Type 0 where
  pub path : String
  pub description : String
  pub data_schema : Option FieldSchema

pub record ServiceRegistry (ActionHandler EventCallback ActionMetadata FieldSchema : Type 0)
    : Type 0 where
  pub local_action_handlers : PathTrie (ActionHandler × TopicPath × Option ActionMetadata)
  pub local_events_by_service : PathTrie (List (EventMetadata FieldSchema))
  pub remote_action_handlers : PathTrie (List ActionHandler)
  pub local_event_subscriptions :
      PathTrie (List (String × EventCallback × Option (EventMetadata FieldSchema)))
  pub remote_event_subscriptions : PathTrie (List (String × EventCallback))
  pub subscription_id_to_topic_path : HashMap TopicPath
  pub subscription_id_to_service_topic_path : HashMap TopicPath
  pub local_services : PathTrie ServiceEntry
  pub local_services_list : List (TopicPath × ServiceEntry)
  pub remote_services : PathTrie RemoteService
  pub service_states_by_service_path : HashMap ServiceState

-- `insert` on a `HashMap` with keys that are paths: a key is replaced if it hashes alike and is `==`.
unfoldable pub insert_by_topic {ℓ} :
    {V : Type ℓ} → Hasher → TopicPath → V → List (TopicPath × V) → List (TopicPath × V)
insert_by_topic hasher k v [] = (k, v) ∷ []
insert_by_topic hasher k v ((j, w) ∷ m) =
    if eqb (hasher (hash_writes j)) (hasher (hash_writes k)) && topic_eq j k
    then (j, v) ∷ m
    else (j, w) ∷ insert_by_topic hasher k v m

module _ {H : Type 0} where
  abbrev pub add_handler :
      TopicPath → H → List (PathTrieMatch (List H)) → PathTrie (List H) → PathTrie (List H)
  add_handler topic handler [] trie = set_value topic (handler ∷ []) trie
  add_handler topic handler (m ∷ ms) trie = set_value topic (m.content ++ handler ∷ []) trie

module _ {H : Type 0} where
  abbrev pub or_remote : Option (H × TopicPath) → List H → Option H
  or_remote (some (handler, topic)) remote = some handler
  or_remote none [] = none
  or_remote none (handler ∷ handlers) = some handler

module _ {H AM : Type 0} where
  abbrev first_handler : List (PathTrieMatch (H × TopicPath × Option AM)) → Option (H × TopicPath)
  first_handler [] = none
  first_handler (m ∷ ms) = some (m.content.0, m.content.1)

module _ {H C AM FS : Type 0} where
  unfoldable pub new : ServiceRegistry H C AM FS
  new = record {
    local_action_handlers = Trie.new;
    local_events_by_service = Trie.new;
    remote_action_handlers = Trie.new;
    local_event_subscriptions = Trie.new;
    remote_event_subscriptions = Trie.new;
    subscription_id_to_topic_path = [];
    subscription_id_to_service_topic_path = [];
    local_services = Trie.new;
    local_services_list = [];
    remote_services = Trie.new;
    service_states_by_service_path = [];
  }

  unfoldable pub update_service_state :
      ServiceRegistry H C AM FS → TopicPath → ServiceState → ServiceRegistry H C AM FS
  update_service_state r service_topic state = record r {
    service_states_by_service_path =
        Map.insert service_topic.path state r.service_states_by_service_path;
  }

  unfoldable pub get_service_state : ServiceRegistry H C AM FS → TopicPath → Option ServiceState
  get_service_state r service_path = Map.get service_path.path r.service_states_by_service_path

  unfoldable pub register_local_service :
      Hasher → ServiceRegistry H C AM FS → ServiceEntry → ServiceRegistry H C AM FS
  unfolding update_service_state
  register_local_service hasher r service =
      let topic = service.service_topic in
      let stored : ServiceRegistry H C AM FS = record r {
        local_services = set_value topic service r.local_services;
      } in
      let updated = update_service_state stored topic service.service_state in
      record updated {
        local_services_list = insert_by_topic hasher topic service updated.local_services_list;
      }

  abbrev pub if_no_service :
      ServiceRegistry H C AM FS
      → RemoteService
      → List (PathTrieMatch RemoteService)
      → Outcome (ServiceRegistry H C AM FS)
  if_no_service r service [] = (
    record r { remote_services = set_value service.service_topic service r.remote_services },
    ok tt,
  )
  if_no_service r service (m ∷ ms) = (r, err (service_already_exists service.service_topic))

  unfoldable pub register_remote_service :
      ServiceRegistry H C AM FS → RemoteService → Outcome (ServiceRegistry H C AM FS)
  register_remote_service r service =
      if_no_service r service (find_matches r.remote_services service.service_topic)

  unfoldable pub register_local_action_handler :
      ServiceRegistry H C AM FS → TopicPath → H → Option AM → ServiceRegistry H C AM FS
  register_local_action_handler r topic handler metadata = record r {
    local_action_handlers = set_value topic (handler, topic, metadata) r.local_action_handlers;
  }

  unfoldable pub remove_remote_action_handler :
      ServiceRegistry H C AM FS → TopicPath → ServiceRegistry H C AM FS
  remove_remote_action_handler r topic = record r {
    remote_action_handlers = remove_values topic r.remote_action_handlers;
  }

  -- `RemoteService::stop`: paths that cannot be made are passed over with a warning.
  abbrev pub remove_if_path :
      ServiceRegistry H C AM FS → Fallible TopicPath → ServiceRegistry H C AM FS
  remove_if_path r (err e) = r
  remove_if_path r (ok topic) = remove_remote_action_handler r topic

  unfoldable pub stop :
      Hasher → TopicPath → List String → ServiceRegistry H C AM FS → ServiceRegistry H C AM FS
  unfolding remove_remote_action_handler
  stop hasher service_topic [] r = r
  stop hasher service_topic (name ∷ names) r =
      stop hasher service_topic names
        (remove_if_path r (new_action_topic hasher service_topic name))

  unfoldable pub stop_all :
      Hasher → List RemoteService → ServiceRegistry H C AM FS → ServiceRegistry H C AM FS
  unfolding stop
  stop_all hasher [] r = r
  stop_all hasher (s ∷ ss) r = stop_all hasher ss (stop hasher s.service_topic s.action_names r)

  unfoldable pub remove_remote_service :
      Hasher → ServiceRegistry H C AM FS → TopicPath → Outcome (ServiceRegistry H C AM FS)
  unfolding stop_all
  remove_remote_service hasher r service_topic =
      let services = find r.remote_services service_topic in
      let after = stop_all hasher services r in
      if is_empty services then (r, err (service_not_found service_topic)) else (
        record after { remote_services = remove_values service_topic after.remote_services },
        ok tt,
      )

  unfoldable pub register_remote_action_handler :
      ServiceRegistry H C AM FS → TopicPath → H → ServiceRegistry H C AM FS
  register_remote_action_handler r topic handler =
      let trie = r.remote_action_handlers in
      record r { remote_action_handlers = add_handler topic handler (find_matches trie topic) trie }

  unfoldable pub get_local_action_handler :
      ServiceRegistry H C AM FS → TopicPath → Option (H × TopicPath)
  get_local_action_handler r topic = first_handler (find_matches r.local_action_handlers topic)

  unfoldable pub get_remote_action_handlers : ServiceRegistry H C AM FS → TopicPath → List H
  get_remote_action_handlers r topic =
      flat_map (λ m. m.content) (find_matches r.remote_action_handlers topic)

  unfoldable pub get_action_handler : ServiceRegistry H C AM FS → TopicPath → Option H
  unfolding get_local_action_handler get_remote_action_handlers
  get_action_handler r topic =
      or_remote (get_local_action_handler r topic) (get_remote_action_handlers r topic)
