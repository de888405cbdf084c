-- ===== src/Trie/Search.antt =====
-- runar-node/src/routing/path_registry.rs: the searches of `PathTrie`. The result vector and the
-- map of current parameters, which the source passes by `&mut`, are passed on.
use rust_mono.Prelude.{String, ◌==◌, Option, none, some, List, [], ◌∷◌, ◌++◌, map, if◌then◌else◌}
use rust_mono.Prelude.HashMap as Map
use rust_mono.Prelude.HashMap.{HashMap}
use rust_mono.Routing.TopicPath.{TopicPath, get_segments}
use rust_mono.Trie.{
  PathTrie, node, Children, no_children, child_entry, Child, absent, present, PathTrieMatch,
  get_child,
}

-- The results so far and the current parameters.
abbrev pub Found {ℓ} : Type ℓ → Type ℓ
Found T = List (PathTrieMatch T) × HashMap String

abbrev pub Collector {ℓ} : Type ℓ → Type ℓ
Collector T = List (PathTrieMatch T) → List (PathTrieMatch T)

-- Put the old value of a parameter back, or take the parameter out.
abbrev pub restore : String → Option String → HashMap String → HashMap String
restore name none params = Map.remove name params
restore name (some value) params = Map.insert name value params

module _ {ℓ} {T : Type ℓ} where
  abbrev pub with_params : HashMap String → T → PathTrieMatch T
  with_params params handler = record { content = handler; params = params }

  abbrev pub push_all : List T → Found T → Found T
  push_all handlers (results, params) = (results ++ map (with_params params) handlers, params)

  abbrev pub visit : (PathTrie T → Found T → Found T) → Child T → Found T → Found T
  visit deeper absent s = s
  visit deeper (present t) s = deeper t s

  abbrev pub restored : String → HashMap String → Found T → Found T
  restored name before (results, params) = (results, restore name (Map.get name before) params)

  abbrev pub visit_template :
      (PathTrie T → Found T → Found T) → Option String → String → Child T → Found T → Found T
  visit_template deeper name segment absent s = s
  visit_template deeper none segment (present t) s = deeper t s
  visit_template deeper (some name) segment (present t) (results, params) =
      restored name params (deeper t (results, Map.insert name segment params))

  -- One level of the search; `deeper` is the recursive call for the next index.
  unfoldable pub find_level :
      (PathTrie T → Found T → Found T) → String → PathTrie T → Found T → Found T
  find_level deeper segment (node c ch w tm name mw nw) s =
      let at_level = push_all mw s in
      let in_children = visit deeper (get_child segment ch) at_level in
      let in_wildcard = visit deeper w in_children in
      visit_template deeper name segment tm in_wildcard

  abbrev content_of : PathTrie T → List T
  content_of (node c ch w tm name mw nw) = c

  unfoldable pub find_matches_internal : List String → PathTrie T → Found T → Found T
  unfolding find_level
  find_matches_internal [] trie s = push_all (content_of trie) s
  find_matches_internal (segment ∷ rest) trie s =
      find_level (find_matches_internal rest) segment trie s

  unfoldable mutual
    pub collect_all_handlers : PathTrie T → List (PathTrieMatch T) → List (PathTrieMatch T)
    collect_all_handlers (node c ch w tm name mw nw) results =
        let here = results ++ map (with_params []) c ++ map (with_params []) mw in
        collect_all_child tm (collect_all_child w (collect_all_children ch here))

    pub collect_all_children : Children T → List (PathTrieMatch T) → List (PathTrieMatch T)
    collect_all_children no_children results = results
    collect_all_children (child_entry k t c) results =
        collect_all_children c (collect_all_handlers t results)

    pub collect_all_child : Child T → List (PathTrieMatch T) → List (PathTrieMatch T)
    collect_all_child absent results = results
    collect_all_child (present t) results = collect_all_handlers t results

  abbrev pub collect_each : (PathTrie T → Collector T) → Children T → Collector T
  collect_each collect no_children results = results
  collect_each collect (child_entry k t c) results = collect_each collect c (collect t results)

  abbrev pub collect_in : (PathTrie T → Collector T) → Child T → Collector T
  collect_in collect absent results = results
  collect_in collect (present t) results = collect t results

  unfoldable pub collect_level : (PathTrie T → Collector T) → String → PathTrie T → Collector T
  unfolding collect_all_handlers
  collect_level collect segment (node c ch w tm name mw nw) results =
      if segment == "*"
      then collect_in collect tm (collect_in collect w (collect_each collect ch results))
      else if segment == ">"
      then collect_all_handlers (node c ch w tm name mw nw) results
      else collect_in collect (get_child segment ch) results

  unfoldable pub collect_wildcard_matches : List String → PathTrie T → Collector T
  unfolding collect_level
  collect_wildcard_matches [] trie results = results ++ map (with_params []) (content_of trie)
  collect_wildcard_matches (segment ∷ rest) trie results =
      collect_level (collect_wildcard_matches rest) segment trie results

  abbrev pub network_trie : String → PathTrie T → Child T
  network_trie network (node c ch w tm name mw nw) = get_child network nw

  unfoldable pub find_wildcard_matches : PathTrie T → TopicPath → List (PathTrieMatch T)
  find_wildcard_matches trie pattern =
      collect_in (collect_wildcard_matches (get_segments pattern))
        (network_trie pattern.network_id trie) []

  abbrev pub results_of : Found T → List (PathTrieMatch T)
  results_of (results, params) = results

  unfoldable pub find_matches : PathTrie T → TopicPath → List (PathTrieMatch T)
  find_matches trie topic =
      if topic.is_pattern
      then find_wildcard_matches trie topic
      else results_of (
          visit (find_matches_internal (get_segments topic)) (network_trie topic.network_id trie)
            ([], []))

  unfoldable pub find : PathTrie T → TopicPath → List T
  find trie topic = map (λ m. m.content) (find_matches trie topic)
