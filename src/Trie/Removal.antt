-- ===== src/Trie/Removal.antt =====
-- runar-node/src/routing/path_registry.rs: removing values and handlers from `PathTrie`.
use rust_mono.Prelude.{
  Bool, false, not, String, ◌==◌, List, [], ◌∷◌, length, retain, ltb, if◌then◌else◌,
}
use rust_mono.Routing.Segment.{is_template_param}
use rust_mono.Routing.TopicPath.{TopicPath, get_segments}
use rust_mono.Trie.{PathTrie, node, Child, absent, present, get_child, entry, modify, modify_child}

module _ {ℓ} {T : Type ℓ} where
  unfoldable pub remove_level : (PathTrie T → PathTrie T) → String → PathTrie T → PathTrie T
  unfolding modify
  remove_level deeper segment (node c ch w tm name mw nw) =
      if segment == "*"
      then node c ch (modify_child deeper w) tm name mw nw
      else if is_template_param segment
      then node c ch w (modify_child deeper tm) name mw nw
      else node c (modify segment deeper ch) w tm name mw nw

  abbrev clear_content : PathTrie T → PathTrie T
  clear_content (node c ch w tm name mw nw) = node [] ch w tm name mw nw

  unfoldable pub remove_values_internal : List String → PathTrie T → PathTrie T
  unfolding remove_level
  remove_values_internal [] trie = clear_content trie
  remove_values_internal (segment ∷ rest) trie =
      remove_level (remove_values_internal rest) segment trie

  unfoldable pub remove_values : TopicPath → PathTrie T → PathTrie T
  remove_values topic (node c ch w tm name mw nw) =
      node c ch w tm name mw
        (entry topic.network_id (remove_values_internal (get_segments topic)) nw)

  -- The trie that `remove_handler_internal` leaves, and whether it removed something.
  module _ (predicate : T → Bool) where
    abbrev pub kept : List T → List T
    kept = retain (λ h. not (predicate h))

    abbrev pub shrunk : List T → Bool
    shrunk handlers = ltb (length (kept handlers)) (length handlers)

    unfoldable pub remove_handler_level :
        (PathTrie T → PathTrie T) → String → PathTrie T → PathTrie T
    unfolding modify
    remove_handler_level deeper segment (node c ch w tm name mw nw) =
        if segment == ">"
        then node c ch w tm name (kept mw) nw
        else if segment == "*"
        then node c ch (modify_child deeper w) tm name mw nw
        else if is_template_param segment
        then node c ch w (modify_child deeper tm) name mw nw
        else node c (modify segment deeper ch) w tm name mw nw

    abbrev keep_content : PathTrie T → PathTrie T
    keep_content (node c ch w tm name mw nw) = node (kept c) ch w tm name mw nw

    unfoldable pub remove_handler_internal : List String → PathTrie T → PathTrie T
    unfolding remove_handler_level
    remove_handler_internal [] trie = keep_content trie
    remove_handler_internal (segment ∷ rest) trie =
        remove_handler_level (remove_handler_internal rest) segment trie

    abbrev pub removed_in : (PathTrie T → Bool) → Child T → Bool
    removed_in removed absent = false
    removed_in removed (present t) = removed t

    unfoldable pub removed_level : (PathTrie T → Bool) → String → PathTrie T → Bool
    removed_level deeper segment (node c ch w tm name mw nw) =
        if segment == ">"
        then shrunk mw
        else if segment == "*"
        then removed_in deeper w
        else if is_template_param segment
        then removed_in deeper tm
        else removed_in deeper (get_child segment ch)

    abbrev shrunk_content : PathTrie T → Bool
    shrunk_content (node c ch w tm name mw nw) = shrunk c

    unfoldable pub handler_removed : List String → PathTrie T → Bool
    unfolding removed_level
    handler_removed [] trie = shrunk_content trie
    handler_removed (segment ∷ rest) trie = removed_level (handler_removed rest) segment trie

    unfoldable pub remove_handler : TopicPath → PathTrie T → PathTrie T × Bool
    remove_handler topic (node c ch w tm name mw nw) = (
      node c ch w tm name mw
          (modify topic.network_id (remove_handler_internal (get_segments topic)) nw),
      removed_in (handler_removed (get_segments topic)) (get_child topic.network_id nw),
    )
