-- ===== src/Trie/Networks.antt =====
-- runar-node/src/routing/path_registry.rs: the public operations of `PathTrie`, which choose the
-- trie of the topic's network and leave those of other networks alone.
pub mod Own
pub mod Patterns
use rust_mono.Prelude.{
  ℕ, ◌+◌, ◌≡◌, refl, sym, ◌∙◌, inl, inr, Bool, true, false, not, ◌&&◌, String, ◌==◌, eq_iff, List,
  [], ◌∷◌, ◌++◌, map, arith, if◌then◌else◌, Bool-cases, retain, All,
}
use rust_mono.Prelude.Bag.{
  total, total-append, total-map, total_ext, total-retain, total_zero, SameItems,
}
use rust_mono.Routing.TopicPath.{TopicPath, get_segments}
use rust_mono.Trie.{
  PathTrie, node, Children, no_children, child_entry, Child, absent, present, get_child, entry,
  modify, modify_child, or_new, set_values_internal, set_values, set_value,
}
use rust_mono.Trie.Search.{find_matches_internal, network_trie, visit, find_matches, find}
use rust_mono.Trie.Removal.{remove_values, remove_handler_internal, remove_handler}
use rust_mono.Trie.Entries.{
  Key, keys, Entry, stored, entries, entries_child, total-present, total-absent,
}
use rust_mono.Trie.Entries.Insert.{entries-set_values_internal, total-or_new}
use rust_mono.Trie.Entries.Distinct.{
  HasMaps, ChildrenMaps, ChildMaps, ChildrenMaps-entry, ChildrenMaps-modify,
  set_values_internal-Keeps, remove_values_internal-Keeps, remove_handler_internal-Keeps,
}
use rust_mono.Trie.Entries.OneChild.{ChildMaps-get_child}
use rust_mono.Trie.Entries.Find.{
  fits, fitting, total-fitting, if_fits, find_matches_internal-fitting,
}
use rust_mono.Trie.Entries.Dropping.{drop_key, same_keys_refl, total-modify_child}
use rust_mono.Trie.Entries.Remove.{under_key, total-remove_handler_internal}

module _ {ℓ} {T : Type ℓ} where
  -- Every map of a registry's trie, that of the networks included, holds a key once.
  abbrev pub IsRegistry : PathTrie T → Type 0
  IsRegistry (node c ch w tm name mw nw) = ChildrenMaps nw

  -- The handlers that a registry holds for a network.
  abbrev pub entries_of : String → PathTrie T → List (Entry T)
  entries_of network trie = entries_child (network_trie network trie)

  get_child-entry :
      (n k : String) (f : PathTrie T → PathTrie T) (c : Children T)
      → get_child n (entry k f c)
        ≡ (if k == n then present (f (or_new (get_child n c))) else get_child n c)
  unfolding get_child entry or_new
  get_child-entry n k f no_children = refl
  get_child-entry n k f (child_entry j t c) =
      ground (arith, eq_iff j k, eq_iff j n, eq_iff k n, get_child-entry n k f c)

  get_child-modify :
      (n k : String) (f : PathTrie T → PathTrie T) (c : Children T)
      → get_child n (modify k f c)
        ≡ (if k == n then modify_child f (get_child n c) else get_child n c)
  unfolding get_child modify
  get_child-modify n k f no_children = ground arith
  get_child-modify n k f (child_entry j t c) =
      ground (arith, eq_iff j k, eq_iff j n, eq_iff k n, get_child-modify n k f c)

  -- `set_values` keeps the maps of a trie, that of the networks included, free of repeated keys.
  pub set_values-IsRegistry :
      (topic : TopicPath) (handlers : List T) (t : PathTrie T)
      → IsRegistry t
      → IsRegistry (set_values topic handlers t)
  unfolding set_values
  set_values-IsRegistry topic handlers (node c ch w tm name mw nw) m =
      ChildrenMaps-entry topic.network_id _ nw
        (set_values_internal-Keeps (get_segments topic) handlers) m

  -- `remove_values` keeps the maps of a trie, that of the networks included, free of repeated keys.
  pub remove_values-IsRegistry :
      (topic : TopicPath) (t : PathTrie T) → IsRegistry t → IsRegistry (remove_values topic t)
  unfolding remove_values
  remove_values-IsRegistry topic (node c ch w tm name mw nw) m =
      ChildrenMaps-entry topic.network_id _ nw (remove_values_internal-Keeps (get_segments topic)) m

  -- `remove_handler` keeps the maps of a trie, that of the networks included, free of repeated
  -- keys.
  pub remove_handler-IsRegistry :
      (p : T → Bool) (topic : TopicPath) (t : PathTrie T)
      → IsRegistry t
      → IsRegistry (remove_handler p topic t).0
  unfolding remove_handler
  remove_handler-IsRegistry p topic (node c ch w tm name mw nw) m =
      ChildrenMaps-modify topic.network_id _ nw
        (remove_handler_internal-Keeps p (get_segments topic)) m

  pub total-set_values :
      (topic : TopicPath) (handlers : List T) (t : PathTrie T) (n : String) (w : Entry T → ℕ)
      → total w (entries_of n (set_values topic handlers t))
        ≡ total w (entries_of n t)
          + (if topic.network_id == n
              then total (λ h. w (keys (get_segments topic), h)) handlers
              else 0)
  unfolding set_values
  total-set_values topic handlers (node c ch wc tm name mw nw) n w =
      let k = topic.network_id in
      let segments = get_segments topic in
      let f = set_values_internal segments handlers in
      let old = get_child n nw in
      elim (Bool-cases (k == n)) [
        | inl same ↦
            rw (get_child-entry n k f nw, same)
              (omega (
                arith,
                total-present w (f (or_new old)),
                entries-set_values_internal segments handlers (or_new old) w,
                total-append w (entries (or_new old)) (map (stored (keys segments)) handlers),
                total-map w (stored (keys segments)) handlers,
                total-or_new w old,
              ))
        | inr other ↦ rw (get_child-entry n k f nw, other) (omega arith)
      ]

  found_in :
      (q : List String) (c : Child T)
      → ChildMaps c
      → SameItems
          (map (λ m. m.content) (visit (find_matches_internal q) c ([], [])).0)
          (fitting q (entries_child c))
  unfolding HasMaps
  found_in q absent m w =
      sym (total-fitting q w (entries_child absent) ∙ total-absent (if_fits q w))
  found_in q (present t) m w =
      find_matches_internal-fitting q t [] m w
      ∙ total-fitting q w (entries t)
      ∙ sym (total-present (if_fits q w) t)
      ∙ sym (total-fitting q w (entries_child (present t)))

  pub total-remove_handler :
      (p : T → Bool) (topic : TopicPath) (t : PathTrie T) (n : String) (w : Entry T → ℕ)
      → IsRegistry t
      → total w (entries_of n (remove_handler p topic t).0)
        ≡ total
            (if topic.network_id == n then drop_key p (keys (get_segments topic)) w else w)
            (entries_of n t)
  unfolding remove_handler
  total-remove_handler p topic (node c ch wc tm name mw nw) n w m =
      let k = topic.network_id in
      let segments = get_segments topic in
      let f = remove_handler_internal p segments in
      elim (Bool-cases (k == n)) [
        | inl same ↦
            rw (get_child-modify n k f nw, same)
              (total-modify_child (drop_key p (keys segments) w) w f
                (total-remove_handler_internal p segments w) (get_child n nw)
                (ChildMaps-get_child n nw m))
        | inr other ↦ rw (get_child-modify n k f nw, other) refl
      ]

  -- For a concrete path `find` implements its specification: it finds, up to order, exactly the
  -- handlers of the path's network whose keys fit the path's segments, if the maps of the trie hold
  -- each key once.
  pub find-fitting :
      (t : PathTrie T) (q : TopicPath)
      → IsRegistry t
      → q.is_pattern ≡ false
      → SameItems (find t q) (fitting (get_segments q) (entries_of q.network_id t))
  unfolding find find_matches get_segments
  find-fitting (node c ch wc tm name mw nw) q m concrete w = rw concrete (
      found_in (get_segments q) (get_child q.network_id nw) (ChildMaps-get_child q.network_id nw m)
        w)

  -- After `set_values` on a trie whose maps hold each key once, `find` for a concrete path
  -- (`is_pattern` false) finds, in whatever order, what it found before, and beside it the new
  -- handlers if the topic has the path's network and its key fits the path's segments, and nothing
  -- else.
  pub find-set_values :
      (topic q : TopicPath) (handlers : List T) (t : PathTrie T)
      → IsRegistry t
      → q.is_pattern ≡ false
      → SameItems (find (set_values topic handlers t) q) (
          find t q
          ++ (if topic.network_id == q.network_id
                && fits (keys (get_segments topic)) (get_segments q)
              then handlers
              else []))
  find-set_values topic q handlers t m concrete w =
      let segments = get_segments q in
      let t' = set_values topic handlers t in
      let added =
        if topic.network_id == q.network_id && fits (keys (get_segments topic)) segments
        then handlers
        else [] in
      let here = find-fitting t' q (set_values-IsRegistry topic handlers t m) concrete w in
      let before = find-fitting t q m concrete w in
      ground (
        arith,
        here,
        before,
        total-fitting segments w (entries_of q.network_id t'),
        total-fitting segments w (entries_of q.network_id t),
        total-set_values topic handlers t q.network_id (if_fits segments w),
        total-append w (find t q) added,
        total_zero (λ h. 0) handlers (λ h. refl),
      )

  -- The entries that a removal takes out of the network of a search.
  abbrev pub taken : (T → Bool) → TopicPath → String → Entry T → Bool
  taken p topic network e = topic.network_id == network && under_key p (keys (get_segments topic)) e

  -- After `remove_handler`, `find` for a concrete path finds, in whatever order, the handlers whose
  -- keys fit the path, less those of the topic's network that stand under the topic's own key and
  -- are accepted by the predicate; the trie's maps hold each key once.
  pub find-remove_handler :
      (p : T → Bool) (topic q : TopicPath) (t : PathTrie T)
      → IsRegistry t
      → q.is_pattern ≡ false
      → SameItems (find (remove_handler p topic t).0 q) (
          fitting
            (get_segments q)
            (retain (λ e. not (taken p topic q.network_id e)) (entries_of q.network_id t)))
  find-remove_handler p topic q t m concrete w =
      let segments = get_segments q in
      let n = q.network_id in
      let left = retain (λ e. not (taken p topic n e)) (entries_of n t) in
      find-fitting (remove_handler p topic t).0 q (remove_handler-IsRegistry p topic t m) concrete w
      ∙ total-fitting segments w (entries_of n (remove_handler p topic t).0)
      ∙ total-remove_handler p topic t n (if_fits segments w) m
      ∙ total_ext _ _ (entries_of n t) (λ e. ground arith)
      ∙ sym (total-retain (if_fits segments w) (λ e. not (taken p topic n e)) (entries_of n t))
      ∙ sym (total-fitting segments w left)

  total_drop :
      (p : T → Bool) (ks : List Key) (w : Entry T → ℕ) (es : List (Entry T))
      → All (λ e. p e.1 ≡ false) es
      → total (drop_key p ks w) es ≡ total w es
  total_drop p ks w [] h = refl
  total_drop p ks w (e ∷ es) (here, later) = ground (arith, total_drop p ks w es later)

  -- If a predicate accepts a handler and none that the trie holds for the network of a concrete
  -- path, then `set_value` of the handler under a topic and `remove_handler` with that predicate
  -- and topic leave what `find` finds for the path as it was, up to order; the trie's maps hold
  -- each key once.
  pub find-remove_handler-set_value :
      (p : T → Bool) (topic q : TopicPath) (handler : T) (t : PathTrie T)
      → IsRegistry t
      → q.is_pattern ≡ false
      → p handler ≡ true
      → All (λ e. p e.1 ≡ false) (entries_of q.network_id t)
      → SameItems (find (remove_handler p topic (set_value topic handler t)).0 q) (find t q)
  unfolding set_value
  find-remove_handler-set_value p topic q handler t m concrete accepted others w =
      let n = q.network_id in
      let segments = get_segments q in
      let ks = keys (get_segments topic) in
      let t' = set_values topic (handler ∷ []) t in
      let m' = set_values-IsRegistry topic (handler ∷ []) t m in
      let after = (remove_handler p topic t').0 in
      let v = if_fits segments w in
      ground (
        arith,
        find-fitting after q (remove_handler-IsRegistry p topic t' m') concrete w,
        total-fitting segments w (entries_of n after),
        total-remove_handler p topic t' n v m',
        total-set_values topic (handler ∷ []) t n (drop_key p ks v),
        total-set_values topic (handler ∷ []) t n v,
        total_drop p ks v (entries_of n t) others,
        find-fitting t q m concrete w,
        total-fitting segments w (entries_of n t),
        same_keys_refl ks,
        accepted,
      )
