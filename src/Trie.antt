-- ===== src/Trie.antt =====
-- runar-node/src/routing/path_registry.rs: `PathTrie`. A list of segments stands for the slice and
-- the index into it.
pub mod Search
pub mod Removal
pub mod Entries
pub mod Networks
mod Tests
use rust_mono.Prelude.{
  ℕ, ◌+◌, Bool, true, false, ◌&&◌, String, ◌==◌, Option, none, some, List, [], ◌∷◌, ◌++◌, is_empty,
  length, if◌then◌else◌,
}
use rust_mono.Prelude.HashMap.{HashMap}
use rust_mono.Prelude.Text.{inner}
use rust_mono.Routing.Segment.{is_template_param}
use rust_mono.Routing.TopicPath.{TopicPath, get_segments}

-- `HashMap<String, PathTrie<T>>` and `Option<Box<PathTrie<T>>>` have types of their own.
mutual
  pub data PathTrie {ℓ} (T : Type ℓ) : Type ℓ where
    node :
        (content : List T)
        → (children : Children T) → (wildcard_child template_child : Child T)
        → (template_param_name : Option String) → (multi_wildcard : List T)
        → (networks : Children T) → PathTrie T

  pub data Children {ℓ} (T : Type ℓ) : Type ℓ where
    no_children : Children T
    child_entry : String → PathTrie T → Children T → Children T

  pub data Child {ℓ} (T : Type ℓ) : Type ℓ where
    absent : Child T
    present : PathTrie T → Child T

pub record PathTrieMatch {ℓ} (T : Type ℓ) : Type ℓ where
  pub content : T
  pub params : HashMap String

module _ {ℓ} {T : Type ℓ} where
  unfoldable pub new : PathTrie T
  new = node [] no_children absent absent none [] no_children

  -- `children.get(key)`
  unfoldable pub get_child : String → Children T → Child T
  get_child k no_children = absent
  get_child k (child_entry j t c) = if j == k then present t else get_child k c

  -- A write through `children.entry(key).or_default()`.
  unfoldable pub entry : String → (PathTrie T → PathTrie T) → Children T → Children T
  unfolding new
  entry k f no_children = child_entry k (f new) no_children
  entry k f (child_entry j t c) =
      if j == k then child_entry j (f t) c else child_entry j t (entry k f c)

  -- A write through `children.get_mut(key)`, if there is one.
  unfoldable pub modify : String → (PathTrie T → PathTrie T) → Children T → Children T
  modify k f no_children = no_children
  modify k f (child_entry j t c) =
      if j == k then child_entry j (f t) c else child_entry j t (modify k f c)

  abbrev pub modify_child : (PathTrie T → PathTrie T) → Child T → Child T
  modify_child f absent = absent
  modify_child f (present t) = present (f t)

  unfoldable pub or_new : Child T → PathTrie T
  unfolding new
  or_new absent = new
  or_new (present t) = t

  -- The name is stored when the template child is created, and kept from then on.
  abbrev pub param_name : Child T → Option String → String → Option String
  param_name absent name segment = some (inner segment)
  param_name (present t) name segment = name

  -- One level of the insertion; `deeper` is the recursive call for the next index.
  unfoldable pub set_level : List T → (PathTrie T → PathTrie T) → String → PathTrie T → PathTrie T
  unfolding entry or_new
  set_level handlers deeper segment (node c ch w tm name mw nw) =
      if segment == ">"
      then node c ch w tm name (mw ++ handlers) nw
      else if segment == "*"
      then node c ch (present (deeper (or_new w))) tm name mw nw
      else if is_template_param segment
      then node c ch w (present (deeper (or_new tm))) (param_name tm name segment) mw nw
      else node c (entry segment deeper ch) w tm name mw nw

  abbrev add_content : List T → PathTrie T → PathTrie T
  add_content handlers (node c ch w tm name mw nw) = node (c ++ handlers) ch w tm name mw nw

  unfoldable pub set_values_internal : List String → List T → PathTrie T → PathTrie T
  unfolding set_level
  set_values_internal [] handlers trie = add_content handlers trie
  set_values_internal (segment ∷ rest) handlers trie =
      set_level handlers (set_values_internal rest handlers) segment trie

  unfoldable pub set_values : TopicPath → List T → PathTrie T → PathTrie T
  unfolding set_values_internal
  set_values topic content_list (node c ch w tm name mw nw) =
      node c ch w tm name mw
        (entry topic.network_id (set_values_internal (get_segments topic) content_list) nw)

  unfoldable pub set_value : TopicPath → T → PathTrie T → PathTrie T
  unfolding set_values
  set_value topic content trie = set_values topic (content ∷ []) trie

  unfoldable pub add_batch_values : List TopicPath → List T → PathTrie T → PathTrie T
  unfolding set_values
  add_batch_values [] contents trie = trie
  add_batch_values (topic ∷ topics) contents trie =
      add_batch_values topics contents (set_values topic contents trie)

-- `is_empty` and `handler_count`.
abbrev pub is_absent {ℓ} : {T : Type ℓ} → Child T → Bool
is_absent absent = true
is_absent (present t) = false

abbrev pub is_childless {ℓ} : {T : Type ℓ} → Children T → Bool
is_childless no_children = true
is_childless (child_entry k t c) = false

unfoldable pub is_empty_trie {ℓ} : {T : Type ℓ} → PathTrie T → Bool
is_empty_trie (node c ch w tm name mw nw) =
    is_empty c && is_empty mw && is_childless ch && is_absent w && is_absent tm && is_childless nw

unfoldable mutual
  pub handler_count {ℓ} : {T : Type ℓ} → PathTrie T → ℕ
  handler_count (node c ch w tm name mw nw) =
      length c + length mw + count_children ch + count_child w + count_child tm + count_children nw

  pub count_children {ℓ} : {T : Type ℓ} → Children T → ℕ
  count_children no_children = 0
  count_children (child_entry k t c) = handler_count t + count_children c

  pub count_child {ℓ} : {T : Type ℓ} → Child T → ℕ
  count_child absent = 0
  count_child (present t) = handler_count t
