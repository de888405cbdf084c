-- ===== src/Network.antt =====
-- runar-node/src/network/transport/mod.rs and runar-node/src/network/discovery/mod.rs: what nodes
-- send one another.
use rust_mono.Prelude.{ℕ, String, Option, List}
use rust_mono.Prelude.Int.{ℤ}
use rust_mono.Peers.{PeerId}
use rust_mono.Registry.Metadata.{ServiceMetadata}

pub record ActionMetadata (FieldSchema : Type 0) : Type 0 where
  pub name : String
  pub description : String
  pub input_schema : Option FieldSchema
  pub output_schema : Option FieldSchema

pub record NetworkMessagePayloadItem : Type 0 where
  pub path : String
  pub value_bytes : List ℕ
  pub correlation_id : String

pub record NetworkMessage : Type 0 where
  pub source : PeerId
  pub destination : PeerId
  pub message_type : String
  pub payloads : List NetworkMessagePayloadItem

pub record NodeInfo (FieldSchema : Type 0) : Type 0 where
  pub peer_id : PeerId
  pub network_ids : List String
  pub addresses : List String
  pub services : List (ServiceMetadata (ActionMetadata FieldSchema) FieldSchema)
  pub version : ℤ
