-- ===== src/Contexts/RegistryService.antt =====
-- runar-node/src/services/registry_service.rs: the service that tells of the services of a node. Its
-- delegate is the node, which is passed on; its handlers read it only.
use rust_mono.Prelude.{true, String, Option, none, some, List, [], ◌∷◌}
use rust_mono.Prelude.Result.{Result, ok, err, and_then, map_err, ok_or}
use rust_mono.Prelude.HashMap as Map
use rust_mono.Prelude.HashMap.{HashMap}
use rust_mono.Routing.TopicPath.{TopicPath, PathError, Fallible, new_service}
use rust_mono.Routing.TopicPath as TopicPath
use rust_mono.Registry.{ServiceState, get_service_state}
use rust_mono.Registry.Metadata.{ServiceMetadata, get_all_service_metadata, get_service_metadata}
use rust_mono.Network.{ActionMetadata}
use rust_mono.Node.{
  local_handler, NodeError, no_service_path, no_service_path_in, invalid_service_path, path_error,
  other, RequestContext, Node, Environment,
}
use rust_mono.Contexts.{LifecycleContext, register_own_action}

-- `ArcValue::from_list`, `ArcValue::from_struct` and `ArcValue::null`
pub record Values (FS V : Type 0) : Type 0 where
  pub of_list : List (ServiceMetadata (ActionMetadata FS) FS) → V
  pub of_metadata : ServiceMetadata (ActionMetadata FS) FS → V
  pub of_state : ServiceState → V

-- The closures that are registered.
pub record Closures (F : Type 0) : Type 0 where
  pub list_services : F
  pub service_info : F
  pub service_state : F

abbrev pub values_of {ℓ} : {A : Type ℓ} → HashMap A → List A
values_of [] = []
values_of ((key, value) ∷ m) = value ∷ values_of m

module _ {F C FS V X W : Type 0} (env : Environment F C FS V X W) (to : Values FS V) where
  unfoldable pub extract_service_path : RequestContext → Result (NodeError X) String
  extract_service_path context = ok_or no_service_path (Map.get "service_path" context.path_params)

  abbrev pub listed :
      Fallible (HashMap (ServiceMetadata (ActionMetadata FS) FS)) → Result (NodeError X) V
  listed (err e) = err (path_error e)
  listed (ok metadata) = ok (to.of_list (values_of metadata))

  unfoldable pub handle_list_services : RequestContext → Node F C FS V X W → Result (NodeError X) V
  handle_list_services context n =
      listed (get_all_service_metadata env.hasher n.service_registry true)

  abbrev pub metadata_found :
      Fallible (Option (ServiceMetadata (ActionMetadata FS) FS)) → Result (NodeError X) V
  metadata_found (err e) = err (path_error e)
  metadata_found (ok none) = ok env.null
  metadata_found (ok (some metadata)) = ok (to.of_metadata metadata)

  abbrev pub info_at : Node F C FS V X W → Fallible TopicPath → Result (NodeError X) V
  info_at n (err e) = err (invalid_service_path e)
  info_at n (ok topic) = metadata_found (get_service_metadata env.hasher n.service_registry topic)

  abbrev pub info_of_path :
      RequestContext → Node F C FS V X W → Result (NodeError X) String → Result (NodeError X) V
  info_of_path context n (err e) = err e
  info_of_path context n (ok path) =
      info_at n (TopicPath.new env.hasher path context.topic_path.network_id)

  -- An `err` of `path_error` stands for the panic of `unwrap` in the registry.
  unfoldable pub handle_service_info : RequestContext → Node F C FS V X W → Result (NodeError X) V
  unfolding extract_service_path
  handle_service_info context n = info_of_path context n (extract_service_path context)

  abbrev pub state_found : Option ServiceState → Result (NodeError X) V
  state_found none = ok env.null
  state_found (some state) = ok (to.of_state state)

  abbrev pub state_of_path :
      RequestContext → Node F C FS V X W → Result (NodeError X) String → Result (NodeError X) V
  state_of_path context n (err e) = err (no_service_path_in e)
  state_of_path context n (ok path) =
      state_found
        (get_service_state n.service_registry (new_service context.topic_path.network_id path))

  unfoldable pub handle_service_state : RequestContext → Node F C FS V X W → Result (NodeError X) V
  unfolding extract_service_path
  handle_service_state context n = state_of_path context n (extract_service_path context)

  module _ (closures : Closures F) where
    unfoldable pub register_list_services_action :
        LifecycleContext V → Node F C FS V X W → Node F C FS V X W × Result (NodeError X) (Unit {0})
    register_list_services_action context n =
        register_own_action env context "services/list" (local_handler closures.list_services) n

    unfoldable pub register_service_info_action :
        LifecycleContext V → Node F C FS V X W → Node F C FS V X W × Result (NodeError X) (Unit {0})
    register_service_info_action context n =
        register_own_action env context "services/{service_path}"
          (local_handler closures.service_info) n

    unfoldable pub register_service_state_action :
        LifecycleContext V → Node F C FS V X W → Node F C FS V X W × Result (NodeError X) (Unit {0})
    register_service_state_action context n =
        register_own_action env context "services/{service_path}/state"
          (local_handler closures.service_state) n

    abbrev pub type_registered :
        Node F C FS V X W
        → W × Result X (Unit {0})
        → Node F C FS V X W × Result (NodeError X) (Unit {0})
    type_registered n (world, outcome) = (record n { world = world }, map_err other outcome)

    -- `register_type` is what the serializer does with the type of states.
    unfoldable pub init_registry :
        (W → W × Result X (Unit {0}))
        → LifecycleContext V
        → Node F C FS V X W
        → Node F C FS V X W × Result (NodeError X) (Unit {0})
    unfolding register_list_services_action register_service_info_action
        register_service_state_action
    init_registry register_type context n =
        and_then (register_list_services_action context n) (λ _ n1.
          and_then (register_service_info_action context n1) (λ _ n2.
            and_then (register_service_state_action context n2)
              (λ _ n3. type_registered n3 (register_type n3.world))))
