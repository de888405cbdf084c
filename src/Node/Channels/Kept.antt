-- ===== src/Node/Channels/Kept.antt =====
-- runar-node/src/node.rs and runar-node/src/services/remote_service.rs: what the requests of a
-- node do to its oneshot channels.
use rust_mono.Prelude.{ℕ, String, Option, none, some, List, if_both}
use rust_mono.Prelude.Result.{Result, ok, err}
use rust_mono.Routing.TopicPath.{TopicPath, Fallible}
use rust_mono.Registry.{RemoteService}
use rust_mono.Node.{
  Handler, local_handler, remote_handler, NodeError, RequestContext, Wait, received, closed,
  elapsed, Node, Environment,
}
use rust_mono.Node.Requests.{
  local_context, open_request, finish_request, request_message, or_null, wait_for, after_send,
  send_serialized, send_request, send_to, create_action_handler, call_handler, call_local_handler,
  local_request_at, local_request,
}
use rust_mono.Node.Channels.{IsOneshot, open_request-IsOneshot, remove_pending-IsOneshot}

module _ {F C FS V X W : Type 0} where
  -- The code that the node runs, and the tasks that run during a wait, use each channel once too.
  pub record KeepsChannels (env : Environment F C FS V X W) : Type 0 where
    pub calls :
        (f : F) (payload : Option V) (context : RequestContext) (n : Node F C FS V X W)
        → IsOneshot n
        → IsOneshot (env.call_local f payload context n).0
    pub notifies :
        (callback : C) (topic : TopicPath) (payload : Option V) (n : Node F C FS V X W)
        → IsOneshot n
        → IsOneshot (env.notify callback topic payload n).0
    pub waits :
        (channel timeout : ℕ) (n : Node F C FS V X W)
        → IsOneshot n
        → IsOneshot (env.await_response channel timeout n).0

  finish_request-IsOneshot :
      (id : String) (outcome : Wait X V) (n : Node F C FS V X W)
      → IsOneshot n
      → IsOneshot (finish_request id outcome n).0
  finish_request-IsOneshot id (received (ok v)) n h = h
  finish_request-IsOneshot id (received (err e)) n h = h
  finish_request-IsOneshot id closed n h = remove_pending-IsOneshot id n h
  finish_request-IsOneshot id elapsed n h = remove_pending-IsOneshot id n h

module _ {F C FS V X W : Type 0} (env : Environment F C FS V X W) (keeps : KeepsChannels env) where
  open keeps use {calls, notifies, waits}

  wait_for-IsOneshot :
      (service : RemoteService) (id : String) (channel : ℕ) (n : Node F C FS V X W)
      → IsOneshot n
      → IsOneshot (wait_for env service id channel n).0
  unfolding wait_for
  wait_for-IsOneshot service id channel n h =
      finish_request-IsOneshot id (env.await_response channel service.request_timeout_ms n).1 _
        (waits channel service.request_timeout_ms n h)

  after_send-IsOneshot :
      (service : RemoteService) (id : String) (channel : ℕ) (n : Node F C FS V X W)
      (sending : Result X (Unit {0}))
      → IsOneshot n
      → IsOneshot (after_send env service id channel n sending).0
  after_send-IsOneshot service id channel n (err e) h = remove_pending-IsOneshot id n h
  after_send-IsOneshot service id channel n (ok _) h = wait_for-IsOneshot service id channel n h

  send_serialized-IsOneshot :
      (service : RemoteService) (topic : TopicPath) (id : String) (channel : ℕ)
      (n : Node F C FS V X W) (payload : Result X (List ℕ))
      → IsOneshot n
      → IsOneshot (send_serialized env service topic id channel n payload).0
  send_serialized-IsOneshot service topic id channel n (err e) h = h
  send_serialized-IsOneshot service topic id channel n (ok payload) h =
      let message = request_message service topic payload id in
      let sending = env.send_message message n.world in
      if_both (λ (r : Node F C FS V X W × Result (NodeError X) V). IsOneshot r.0)
        n.network_transport _ _
        (after_send-IsOneshot service id channel (record n { world = sending.0 }) sending.1 h) h

  send_request-IsOneshot :
      (service : RemoteService) (topic : TopicPath) (params : Option V) (n : Node F C FS V X W)
      → IsOneshot n
      → IsOneshot (send_request env service topic params n).0
  unfolding send_request
  send_request-IsOneshot service topic params n h =
      let drawn = env.new_uuid n.world in
      let before : Node F C FS V X W = record n { world = drawn.0 } in
      send_serialized-IsOneshot service topic drawn.1 n.next_channel (open_request drawn.1 before)
        (env.serialize_value (or_null env.null params)) (open_request-IsOneshot drawn.1 before h)

  send_to-IsOneshot :
      (service : RemoteService) (params : Option V) (n : Node F C FS V X W) (t : Fallible TopicPath)
      → IsOneshot n
      → IsOneshot (send_to env service params n t).0
  send_to-IsOneshot service params n (err e) h = h
  send_to-IsOneshot service params n (ok topic) h = send_request-IsOneshot service topic params n h

  create_action_handler-IsOneshot :
      (service : RemoteService) (action : String) (params : Option V) (n : Node F C FS V X W)
      → IsOneshot n
      → IsOneshot (create_action_handler env service action params n).0
  unfolding create_action_handler
  create_action_handler-IsOneshot service action params n h = send_to-IsOneshot service params n _ h

  pub handler-IsOneshot :
      (handler : Handler F) (payload : Option V) (context : RequestContext) (n : Node F C FS V X W)
      → IsOneshot n
      → IsOneshot (call_handler env handler payload context n).0
  handler-IsOneshot (local_handler f) payload context n h = calls f payload context n h
  handler-IsOneshot (remote_handler service action) payload context n h =
      create_action_handler-IsOneshot service action payload n h

  call_local_handler-IsOneshot :
      (topic : TopicPath) (payload : Option V) (n : Node F C FS V X W)
      (found : Option (Handler F × TopicPath))
      → IsOneshot n
      → IsOneshot (call_local_handler env topic payload n found).0
  call_local_handler-IsOneshot topic payload n none h = h
  call_local_handler-IsOneshot topic payload n (some (handler, path)) h =
      handler-IsOneshot handler payload (local_context topic path) n h

  local_request_at-IsOneshot :
      (path : String) (payload : Option V) (n : Node F C FS V X W) (t : Fallible TopicPath)
      → IsOneshot n
      → IsOneshot (local_request_at env path payload n t).0
  local_request_at-IsOneshot path payload n (err e) h = h
  local_request_at-IsOneshot path payload n (ok topic) h =
      call_local_handler-IsOneshot topic payload n _ h

  pub local_request-IsOneshot :
      (path : String) (payload : Option V) (n : Node F C FS V X W)
      → IsOneshot n
      → IsOneshot (local_request env path payload n).0
  unfolding local_request
  local_request-IsOneshot path payload n h = local_request_at-IsOneshot path payload n _ h
