-- ===== src/Node/Events/Published.antt =====
-- runar-node/src/node.rs: who is notified of an event.
use rust_mono.Prelude.{
  ℕ, ◌+◌, ◌≡◌, refl, ap, ◌∙◌, if_both, Bool, true, false, String, Option, some, List, [], ◌∷◌,
  if◌then◌else◌, arith,
}
use rust_mono.Prelude.Result.{ok}
use rust_mono.Prelude.Bag.{total, total-append}
use rust_mono.Prelude.Text.{empty}
use rust_mono.Prelude.Text.Split.{Free}
use rust_mono.Routing.TopicPath.{TopicPath}
use rust_mono.Routing.TopicPath as TopicPath
use rust_mono.Trie.Networks.{IsRegistry}
use rust_mono.Trie.Networks.Own.{serves}
use rust_mono.Registry.{ServiceRegistry, EventMetadata}
use rust_mono.Registry.Subscriptions.{get_local_event_subscribers}
use rust_mono.Registry.Delivery.{OwnsFirst}
use rust_mono.Registry.Delivery.Starts.{
  get_local_event_subscribers-register_local_event_subscription,
}
use rust_mono.Network.{ActionMetadata}
use rust_mono.Node.{Handler, Node, Environment, node_changed, notify_node_change, if_running}
use rust_mono.Node.Events.{
  EventRegistrationOptions, unwrap_or_default, notify_all, publish_with_options,
  subscribe_with_options,
}

weight_if {ℓ} :
    {A : Type ℓ} (b : Bool) (w : A → ℕ) (a : A)
    → total w (if b then a ∷ [] else []) ≡ (if b then w a else 0)
weight_if true w a = omega arith
weight_if false w a = refl

module _ {F C FS V X W : Type 0} where
  if_running_keeps :
      (n : Node F C FS V X W)
      → ((if_running n).service_registry ≡ n.service_registry)
        × ((if_running n).network_id ≡ n.network_id)
  unfolding if_running node_changed notify_node_change
  if_running_keeps n =
      if_both
        (λ (m : Node F C FS V X W).
          (m.service_registry ≡ n.service_registry) × (m.network_id ≡ n.network_id))
        n.running _ n (refl, refl) (refl, refl)

module _ {F C FS V X W : Type 0} (env : Environment F C FS V X W) (count : Node F C FS V X W → ℕ)
    (w : C → ℕ) where
  -- Each call of a callback is counted by its weight, whatever the callback does and answers.
  abbrev pub Counts : Type 0
  Counts =
      (callback : C) (topic : TopicPath) (payload : Option V) (n : Node F C FS V X W)
      → count (env.notify callback topic payload n).0 ≡ count n + w callback

  count-notify_all :
      Counts
      → (topic : TopicPath) (payload : Option V) (subscribers : List (String × C))
        (n : Node F C FS V X W)
      → count (notify_all env topic payload subscribers n)
        ≡ count n + total (λ (s : String × C). w s.1) subscribers
  unfolding notify_all
  count-notify_all counts topic payload [] n = omega arith
  count-notify_all counts topic payload ((id, callback) ∷ rest) n =
      let after = (env.notify callback topic payload n).0 in
      omega
        (arith, counts callback topic payload n, count-notify_all counts topic payload rest after)

  count-publish_with_options :
      Counts
      → (path : String) (topic : TopicPath) (payload : Option V) (n : Node F C FS V X W)
      → TopicPath.new env.hasher path n.network_id ≡ ok topic
      → (count (publish_with_options env path payload n).0
          ≡ count n
            + total
                (λ (s : String × C). w s.1)
                (get_local_event_subscribers n.service_registry topic))
        × ((publish_with_options env path payload n).1 ≡ ok tt)
  unfolding publish_with_options
  count-publish_with_options counts path topic payload n parsed =
      (rw parsed (count-notify_all counts topic payload _ n), rw parsed refl)

  -- If every call of a callback adds its weight to some count, whatever the callback answers, then
  -- `subscribe_with_options` under a topic that `new` built succeeds, and a later publication of a
  -- concrete path adds the weights of the subscribers that the path reached before and, if the
  -- topic serves it, that of the new callback; the network is neither empty nor has a colon, the
  -- trie's maps hold each key once, and the topic's own list is the first match for the topic, or
  -- neither is there.
  pub count-publish-subscribe :
      Counts
      → (subscription path : String) (topic q : TopicPath) (callback : C)
        (options : EventRegistrationOptions FS) (payload : Option V) (n : Node F C FS V X W)
      → Free ":" n.network_id × (empty n.network_id ≡ false)
      → TopicPath.new env.hasher subscription n.network_id ≡ ok topic
      → TopicPath.new env.hasher path n.network_id ≡ ok q
      → IsRegistry n.service_registry.local_event_subscriptions
      → OwnsFirst topic n.service_registry.local_event_subscriptions
      → q.is_pattern ≡ false
      → (id : String) × (after : Node F C FS V X W) × (subscribe_with_options env subscription
            callback options n
          ≡ (after, ok id))
        × (count (publish_with_options env path payload after).0
            ≡ count after
              + (total
                    (λ (s : String × C). w s.1)
                    (get_local_event_subscribers n.service_registry q)
                  + (if serves topic q then w callback else 0)))
  unfolding subscribe_with_options
  count-publish-subscribe counts subscription path topic q callback options payload n network made
        parsed m owns concrete =
      let (world, id) = env.new_uuid n.world in
      let metadata : EventMetadata FS = record {
        path = subscription;
        description = unwrap_or_default options.description;
        data_schema = options.data_schema;
      } in
      let (registry, registered, delivered) =
        get_local_event_subscribers-register_local_event_subscription env.hasher n.service_registry
          id subscription n.network_id topic q callback (some metadata) network made m owns
          concrete in
      let stored : Node F C FS V X W = record n { world = world; service_registry = registry } in
      let after = if_running stored in
      let (kept_registry, kept_network) = if_running_keeps stored in
      let weight : String × C → ℕ = λ s. w s.1 in
      let new_one : List (String × C) = if serves topic q then (id, callback) ∷ [] else [] in
      (
        id,
        after,
        simp (made, registered) refl,
        (count-publish_with_options counts path q payload after (rw kept_network parsed)).0
            ∙ ap
                (λ (r : ServiceRegistry (Handler F) C (ActionMetadata FS) FS).
                  count after + total weight (get_local_event_subscribers r q))
                kept_registry
            ∙ ap (λ (m : ℕ). count after + m)
                (delivered weight
                  ∙ total-append weight (get_local_event_subscribers n.service_registry q) new_one
                  ∙ ap
                      (λ (m : ℕ).
                        total weight (get_local_event_subscribers n.service_registry q) + m)
                      (weight_if (serves topic q) weight (id, callback))),
      )
