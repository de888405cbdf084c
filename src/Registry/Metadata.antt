-- ===== src/Registry/Metadata.antt =====
-- runar-node/src/services/service_registry.rs: what the registry says of its services. An `err`
-- stands for the panic of `unwrap` on the path `service/*`.
use mathlib.Core.List.{flat_map}
use rust_mono.Prelude.{ℕ, Bool, not, ◌&&◌, String, Option, none, some, List, [], ◌∷◌, if◌then◌else◌}
use rust_mono.Prelude.Result.{ok, ◌>>=◌}
use rust_mono.Prelude.HashMap as Map
use rust_mono.Prelude.HashMap.{HashMap}
use rust_mono.Prelude.Text.{glue, starts_with_char}
use rust_mono.Routing.TopicPath.{TopicPath, Hasher, Fallible}
use rust_mono.Routing.TopicPath as TopicPath
use rust_mono.Trie.{PathTrieMatch}
use rust_mono.Trie.Search.{find_matches}
use rust_mono.Registry.{ServiceRegistry, ServiceEntry, EventMetadata}

pub record ServiceMetadata (ActionMetadata FieldSchema : Type 0) : Type 0 where
  pub network_id : String
  pub service_path : String
  pub name : String
  pub version : String
  pub description : String
  pub actions : List ActionMetadata
  pub events : List (EventMetadata FieldSchema)
  pub registration_time : ℕ
  pub last_start_time : Option ℕ

abbrev pub given {ℓ} : {A : Type ℓ} → Option A → List A
given none = []
given (some metadata) = metadata ∷ []

module _ {H C AM FS : Type 0} where
  unfoldable pub get_events_metadata :
      ServiceRegistry H C AM FS → TopicPath → List (EventMetadata FS)
  get_events_metadata r search_path =
      flat_map (λ m. m.content) (find_matches r.local_events_by_service search_path)

  unfoldable pub get_actions_metadata : ServiceRegistry H C AM FS → TopicPath → List AM
  get_actions_metadata r search_path =
      flat_map (λ m. given m.content.2) (find_matches r.local_action_handlers search_path)

  unfoldable pub metadata_of :
      ServiceRegistry H C AM FS → ServiceEntry → String → TopicPath → ServiceMetadata AM FS
  unfolding get_actions_metadata get_events_metadata
  metadata_of r entry network search_path = record {
    network_id = network;
    service_path = entry.service.path;
    name = entry.service.name;
    version = entry.service.version;
    description = entry.service.description;
    actions = get_actions_metadata r search_path;
    events = get_events_metadata r search_path;
    registration_time = entry.registration_time;
    last_start_time = entry.last_start_time;
  }

  module _ (hasher : Hasher) where
    unfoldable pub entry_metadata :
        ServiceRegistry H C AM FS → ServiceEntry → String → Fallible (ServiceMetadata AM FS)
    unfolding metadata_of
    entry_metadata r entry network = do
      search_path ← TopicPath.new hasher (glue "/" entry.service.path "*") network
      ok (metadata_of r entry network search_path)

    abbrev first_metadata :
        ServiceRegistry H C AM FS
        → String
        → List (PathTrieMatch ServiceEntry)
        → Fallible (Option (ServiceMetadata AM FS))
    first_metadata r network [] = ok none
    first_metadata r network (m ∷ ms) = do
      metadata ← entry_metadata r m.content network
      ok (some metadata)

    unfoldable pub get_service_metadata :
        ServiceRegistry H C AM FS → TopicPath → Fallible (Option (ServiceMetadata AM FS))
    unfolding entry_metadata
    get_service_metadata r topic =
        first_metadata r topic.network_id (find_matches r.local_services topic)

    -- The loop over the services, the map of results being passed on.
    unfoldable pub collect_metadata :
        ServiceRegistry H C AM FS
        → Bool
        → List (TopicPath × ServiceEntry)
        → HashMap (ServiceMetadata AM FS)
        → Fallible (HashMap (ServiceMetadata AM FS))
    unfolding entry_metadata
    collect_metadata r include_internal [] result = ok result
    collect_metadata r include_internal ((topic, entry) ∷ entries) result =
        (if not include_internal && starts_with_char "$" entry.service.path then ok result else do
          metadata ← entry_metadata r entry entry.service_topic.network_id
          ok (Map.insert entry.service.path metadata result))
        >>= collect_metadata r include_internal entries

    unfoldable pub get_all_service_metadata :
        ServiceRegistry H C AM FS → Bool → Fallible (HashMap (ServiceMetadata AM FS))
    unfolding collect_metadata
    get_all_service_metadata r include_internal =
        collect_metadata r include_internal r.local_services_list []
