-- ===== src/Trie/Tests.antt =====
-- Runs of the trie on concrete registrations, and the theorems applied to them.
use rust_mono.Prelude.{
  ℕ, ◌≡◌, refl, Bool, false, not, eqb, ◌&&◌, ◌==◌, [], ◌∷◌, ◌++◌, if◌then◌else◌, retain, All,
}
use rust_mono.Prelude.Bag.{SameItems}
use rust_mono.Routing.Segment.{to_string, is_template_param}
use rust_mono.Prelude.Text.{starts_with_char}
use rust_mono.Routing.TopicPath.{get_segments}
use rust_mono.Routing.Tests.{get_user, all_users}
use rust_mono.Trie.{PathTrie, get_child, new, set_value, set_values, set_values_internal}
use rust_mono.Trie.Search.{find}
use rust_mono.Trie.Removal.{remove_handler}
use rust_mono.Trie.Entries.{keys, entries}
use rust_mono.Trie.Entries.Distinct.{HasMaps, HasMaps-new, set_values_internal-Keeps}
use rust_mono.Trie.Entries.Find.{fits, fitting}
use rust_mono.Trie.Entries.Collect.{selects, selects_before, selected}
use rust_mono.Trie.Networks.Patterns.{find-selected}
use rust_mono.Trie.Networks.{
  IsRegistry, entries_of, taken, set_values-IsRegistry, find-fitting, find-set_values,
  find-remove_handler, find-remove_handler-set_value,
}

abbrev no_handlers : PathTrie ℕ
no_handlers = new

abbrev one_handler : PathTrie ℕ
one_handler = set_value all_users 7 no_handlers

abbrev is_nine : ℕ → Bool
is_nine h = eqb h 9

no_handlers-IsRegistry : IsRegistry no_handlers
unfolding new HasMaps
no_handlers-IsRegistry = tt

one_handler-IsRegistry : IsRegistry one_handler
unfolding set_value
one_handler-IsRegistry = set_values-IsRegistry all_users (7 ∷ []) no_handlers no_handlers-IsRegistry

find-fitting_example :
    SameItems
      (find one_handler get_user)
      (fitting (get_segments get_user) (entries_of "main" one_handler))
find-fitting_example = find-fitting one_handler get_user one_handler-IsRegistry refl

find-set_values_example : SameItems (find (set_values all_users (9 ∷ []) one_handler) get_user) (
    find one_handler get_user
    ++ (if all_users.network_id == get_user.network_id
          && fits (keys (get_segments all_users)) (get_segments get_user)
        then 9 ∷ []
        else []))
find-set_values_example =
    find-set_values all_users get_user (9 ∷ []) one_handler one_handler-IsRegistry refl

find-remove_handler_example :
    SameItems (find (remove_handler is_nine all_users one_handler).0 get_user) (
      fitting (get_segments get_user) (
        retain
          (λ e. not (taken is_nine all_users get_user.network_id e))
          (entries_of get_user.network_id one_handler)))
find-remove_handler_example =
    find-remove_handler is_nine all_users get_user one_handler one_handler-IsRegistry refl

entries_of-one_handler : All (λ e. is_nine e.1 ≡ false) (entries_of "main" one_handler)
unfolding set_value set_values set_values_internal get_segments to_string new entries get_child
    is_template_param starts_with_char
entries_of-one_handler = (refl, tt)

find-remove_handler-set_value_example :
    SameItems
      (find (remove_handler is_nine all_users (set_value all_users 9 one_handler)).0 get_user)
      (find one_handler get_user)
find-remove_handler-set_value_example =
    find-remove_handler-set_value is_nine all_users get_user 9 one_handler one_handler-IsRegistry
      refl refl entries_of-one_handler

abbrev inner_trie : PathTrie ℕ
inner_trie = set_values_internal ("users" ∷ "{id}" ∷ []) (7 ∷ 9 ∷ []) no_handlers

inner_trie-HasMaps : HasMaps inner_trie
inner_trie-HasMaps =
    set_values_internal-Keeps ("users" ∷ "{id}" ∷ []) (7 ∷ 9 ∷ []) no_handlers (HasMaps-new ℕ)

find-selected_example : SameItems (find one_handler all_users) (
    selected (selects (get_segments all_users)) (entries_of "main" one_handler)
    ++ selected (selects_before (get_segments all_users)) (entries_of "main" one_handler))
find-selected_example = find-selected one_handler all_users one_handler-IsRegistry refl
