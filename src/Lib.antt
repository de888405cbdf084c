-- ===== src/Lib.antt =====
-- Routing, the trie of handlers, the service registry, load balancing, the registry of peers, the
-- requests, events, messages and services, and the keys of a Runar node, in a cubical type theory.
--
-- The program. A node routes requests and events by topic paths. `TopicPath`
-- (runar-node/src/routing/mod.rs) parses `network:service/segment/...`, keeps caches (flags,
-- texts, hashes and a bitmap of segment types) and matches patterns. `PathTrie`
-- (runar-node/src/routing/path_registry.rs) holds handlers under paths, by network and then by
-- segment, and finds those that a path fits. A node's service registry keeps its handlers in such
-- tries. The node (runar-node/src/node.rs) dispatches requests and events to what the registry
-- finds, sends requests to remote services (runar-node/src/services/remote_service.rs), handles
-- the messages of other nodes, and starts and stops services. Services reach the node by their
-- contexts (runar-node/src/services/mod.rs), which complete paths by the service and its network,
-- and the registry service (runar-node/src/services/registry_service.rs) tells what is known of
-- services.
--
-- Files. Prelude: tests on numbers, lists, multisets (Bag), hash maps (HashMap), results (Result),
-- texts (Text, with Split, Braces and Order), and `i64` (Int). Routing: Segment (`PathSegment`),
-- Bitmap (the bitmap of segment types), TopicPath (the record, `TopicPath::new` and the small
-- constructors), Navigation (`child`, `parent`, the queries on the bitmap), Equality (`PartialEq`
-- and `Hash`), Matching (`matches`, `segments_match`, `matches_template`), Template
-- (`extract_params`, `from_template`), Invariant and Parsing (what `new` establishes). Trie: the
-- tree and its insertions (Trie), the searches (Trie/Search), the removals (Trie/Removal), the
-- abstract view as a list of keys and handlers (Trie/Entries) and the public operations
-- (Trie/Networks). Definitions have the names of the functions they model; a helper that stands
-- for a part of a function (a loop body, a match) is named for what it does. Methods on `&mut
-- self` return the new value; a result vector and a map that the source passes by `&mut` are
-- arguments and results.
--
-- Registry (runar-node/src/services/service_registry.rs): the state of `ServiceRegistry`, services
-- and action handlers (Registry), event subscriptions (Registry/Subscriptions) and metadata
-- (Registry/Metadata); Registry/Actions and Registry/Delivery say what is found after a
-- registration and after its end. LoadBalancing (runar-node/src/services/load_balancing.rs): the
-- round-robin choice of a handler. Peers (runar-node/src/network/transport/peer_registry.rs): the
-- known peers, their status and the removal of stale ones; the clock is an argument, and the
-- abstract view is a function from keys to entries (Peers/Refinement). Node
-- (runar-node/src/node.rs): the state of `Node`; Node/Requests (`request`, `local_request` and the
-- handlers of remote services), Node/Events (publication and subscription), Node/Messages
-- (`handle_network_message` and its three handlers), Node/Capabilities (what a peer's information
-- does to the registry), Node/Lifecycle (`add_service`, `start`, `stop`) and Node/Connections
-- (`handle_discovered_node` and `get_local_node_info`). Node/Channels says how oneshot channels
-- are used. Network holds the data that nodes send. Contexts (runar-node/src/services): what the
-- code of services is handed, the contexts of mod.rs, request_context.rs and event_context.rs
-- (Contexts, Contexts/Remote), service requests (Contexts/ServiceRequest) and the registry service
-- of registry_service.rs (Contexts/RegistryService); Contexts/Paths says where the paths lead that
-- contexts complete, Contexts/Own and Contexts/Heard what a service gets of its own actions and
-- events, Contexts/States and Contexts/Routes what the registry service answers. A context holds
-- its node in the source; here the node is passed on beside it. Keys (runar-keys/src): what both
-- key managers do with the libraries of cryptography (Keys), and what it can be relied on for
-- (Keys/Ecies); Keys/Certificates (certificate.rs), Keys/Mobile (mobile.rs, with the envelopes in
-- Keys/Mobile/Sealing and Keys/Mobile/Envelopes) and Keys/Node (node.rs, with what a node seals
-- and opens in Keys/Node/Sealing and Keys/Node/Networks, and what it exports in Keys/Node/State).
-- The libraries are records of functions, `Crypto` and `Pki`; a source of random bytes is passed
-- on by what draws from it, and what the libraries promise is the record `IsCrypto`. Handlers,
-- callbacks and the schemas of metadata are only stored and passed on, so their types are
-- parameters; an identifier that the source draws with `Uuid::new_v4` is an argument, and so is
-- the hash of the map keyed by paths. Every method is one step: what two methods do to one another
-- between their locks is not modelled, and logging is left out. A method that can fail returns the
-- new state with its result, since some errors come after a change. `unwrap` on a path gives an
-- error result in place of the panic.
--
-- Numbers. The bitmap is a `u64`: shifts take their amount modulo 64 and drop what leaves the
-- word. Two bits a segment make room for 32 segments, and the theorems on the bitmap say so. The
-- counter of the load balancer and the version of a node's services wrap around. All loops are
-- structural recursions on lists (a list of segments stands for a slice and an index), so no fuel
-- is used. Errors are constructors with what the message quotes.
--
-- Hash maps are association lists (in the trie a data type of its own), and their order stands for
-- the unspecified order of iteration; what a search finds is compared up to order. The standard
-- library's `DefaultHasher` is a parameter: a function from the writes it was given to its result.
--
-- The node's `Environment` holds what the node calls of other code: handlers and callbacks of
-- services, the start and end of services, the serializer, the transport, the clock, and the wait
-- for a response. A handler, a callback and a wait may change the whole node, since other tasks
-- run meanwhile, so they are functions of the node's state; what theorems need of them are
-- hypotheses. A oneshot channel is a number, and what was sent into channels is kept in `sent`.
-- Clones of a node share their state here; in the source the flag `running` and the task of the
-- debounce are each clone's own. Nothing is run forever, so no fuel is needed here either.
--
-- Not modelled: the building of a node and its transports, the keys that it holds, the network's
-- bodies of start and stop, transports, discovery, the keys service, serialization, macros, the
-- command line, the gateway and the SQLite services, whose code is mostly input and output,
-- cryptography and code generation.
pub mod Contexts
pub mod Keys
pub mod LoadBalancing
pub mod Network
pub mod Node
pub mod Peers
pub mod Prelude
pub mod Registry
pub mod Routing
pub mod Trie
