-- ===== src/Routing/Tests.antt =====
-- Runs of the routing code on concrete paths, and the theorems applied to them.
use rust_mono.Prelude.{
  ◌≡◌, refl, ◌↔◌, ◌⊎◌, ◌≢◌, is_empty, true, false, String, [], ◌∷◌, map, length, init, arith,
}
use rust_mono.Prelude.Result.{ok}
use rust_mono.Prelude.Text.{
  braced, starts_with_char, ends_with_char, inner, has_char, glue, split, join,
}
use rust_mono.Prelude.Text.Split.{Free}
use rust_mono.Routing.Invariant.{IsWellFormed, multi_last}
use rust_mono.Routing.Parsing.{
  new-IsWellFormed, new-IsPrinted, new-path, new_accepts_iff, get_segments-new,
}
use rust_mono.Routing.Equality.{topic_eq, hash_writes}
use rust_mono.Routing.Equality.Laws.{new_service-hash_writes}
use rust_mono.Routing.Navigation.{child, child_text, parent, parent_topic}
use rust_mono.Routing.Navigation.Laws.{parent-ok, parent-child}
use rust_mono.Routing.Matching.{matches}
use rust_mono.Routing.Matching.Relation.{Fits, FitsBefore}
use rust_mono.Routing.Matching.Laws.{IsPath, matches_iff}
use rust_mono.Prelude.HashMap as Map
use rust_mono.Prelude.HashMap.{HashMap}
use rust_mono.Routing.Template.{extract_loop, extract_params, from_template}
use rust_mono.Routing.Template.Laws.{named, distinct_names, from_template-extract_params}
use rust_mono.Routing.Segment.{
  template, literal, single_wildcard, is_template_param, from_str, to_string, is_wildcard,
  is_template,
}
use rust_mono.Routing.Bitmap.{shl64, not64, set_segment_type}
use rust_mono.Routing.TopicPath.{
  Hasher, TopicPath, segment_type, segment_writes, parse_network, path_pieces, scan_add,
  scan_segment, scan, from_parts, new, new_service, new_action_topic, action_text, get_segments,
}

-- A hash that counts the writes.
abbrev pub count_writes : Hasher
count_writes writes = length writes

abbrev pub get_user : TopicPath
get_user = record {
  path = "main:users/get";
  network_id = "main";
  segments = literal "users" ∷ literal "get" ∷ [];
  is_pattern = false;
  has_templates = false;
  service_path = "users";
  cached_action_path = "users/get";
  segment_count = 2;
  hash_components = 2 ∷ 2 ∷ [];
  segment_type_bitmap = 0;
}

abbrev pub all_users : TopicPath
all_users = record {
  path = "main:users/*";
  network_id = "main";
  segments = literal "users" ∷ single_wildcard ∷ [];
  is_pattern = true;
  has_templates = false;
  service_path = "users";
  cached_action_path = "users/*";
  segment_count = 2;
  hash_components = 2 ∷ 1 ∷ [];
  segment_type_bitmap = 8;
}

-- The path to the same action, with an empty segment in its text.
abbrev get_user_again : TopicPath
get_user_again = record get_user { path = "main:users//get" }

abbrev pub users : TopicPath
users = record {
  path = "main:users";
  network_id = "main";
  segments = literal "users" ∷ [];
  is_pattern = false;
  has_templates = false;
  service_path = "users";
  cached_action_path = "";
  segment_count = 1;
  hash_components = 2 ∷ [];
  segment_type_bitmap = 0;
}

pub new-get_user : new count_writes "users/get" "main" ≡ ok get_user
unfolding new parse_network from_parts path_pieces scan scan_segment scan_add action_text from_str
    to_string is_template_param set_segment_type segment_type segment_writes shl64 not64 is_wildcard
    is_template has_char split starts_with_char glue join
new-get_user = refl

new-get_user_again : new count_writes "main:users//get" "main" ≡ ok get_user_again
unfolding new parse_network from_parts path_pieces scan scan_segment scan_add action_text from_str
    to_string is_template_param set_segment_type segment_type segment_writes shl64 not64 is_wildcard
    is_template has_char split starts_with_char glue join
new-get_user_again = refl

new-all_users : new count_writes "main:users/*" "main" ≡ ok all_users
unfolding new parse_network from_parts path_pieces scan scan_segment scan_add action_text from_str
    to_string is_template_param set_segment_type segment_type segment_writes shl64 not64 is_wildcard
    is_template has_char split starts_with_char glue join
new-all_users = refl

new-users : new count_writes "main:users" "main" ≡ ok users
unfolding new parse_network from_parts path_pieces scan scan_segment scan_add action_text from_str
    to_string is_template_param set_segment_type segment_type segment_writes shl64 not64 is_wildcard
    is_template has_char split starts_with_char glue join
new-users = refl

pub new-users_by_name : new count_writes "users" "main" ≡ ok users
unfolding new parse_network from_parts path_pieces scan scan_segment scan_add action_text from_str
    to_string is_template_param set_segment_type segment_type segment_writes shl64 not64 is_wildcard
    is_template has_char split starts_with_char glue join
new-users_by_name = refl

pub new_action_topic-users : new_action_topic count_writes users "get" ≡ ok get_user
unfolding new parse_network from_parts path_pieces scan scan_segment scan_add action_text from_str
    to_string is_template_param set_segment_type segment_type segment_writes shl64 not64 is_wildcard
    is_template has_char split starts_with_char glue join new_action_topic
new_action_topic-users = refl

child-users : child users "*" ≡ ok (record all_users { hash_components = [] })
unfolding new parse_network from_parts path_pieces scan scan_segment scan_add action_text from_str
    to_string is_template_param set_segment_type segment_type segment_writes shl64 not64 is_wildcard
    is_template has_char split starts_with_char glue join child child_text
child-users = refl

pub main-Free : Free ":" "main"
unfolding has_char
main-Free = refl

get_user-IsPath : IsPath get_user
get_user-IsPath = record {
  well_formed = (new-IsWellFormed count_writes "users/get" "main" get_user new-get_user).0;
  printed = new-IsPrinted count_writes "users/get" "main" get_user main-Free refl new-get_user;
  last = (new-IsWellFormed count_writes "users/get" "main" get_user new-get_user).1;
  short = omega arith;
}

all_users-IsPath : IsPath all_users
all_users-IsPath = record {
  well_formed = (new-IsWellFormed count_writes "main:users/*" "main" all_users new-all_users).0;
  printed = new-IsPrinted count_writes "main:users/*" "main" all_users main-Free refl new-all_users;
  last = (new-IsWellFormed count_writes "main:users/*" "main" all_users new-all_users).1;
  short = omega arith;
}

get_user_again-IsWellFormed : IsWellFormed get_user_again
get_user_again-IsWellFormed =
    (new-IsWellFormed count_writes "main:users//get" "main" get_user_again new-get_user_again).0

users-IsWellFormed : IsWellFormed users
users-IsWellFormed = (new-IsWellFormed count_writes "main:users" "main" users new-users).0

matches_iff_example : (matches all_users get_user ≡ true) ↔ (
    (all_users.network_id ≡ get_user.network_id)
    × (Fits all_users.segments (map to_string get_user.segments)
        ⊎ FitsBefore all_users.segments (map to_string get_user.segments)))
matches_iff_example =
    matches_iff all_users get_user all_users-IsPath get_user-IsPath refl refl refl refl

new-path_example : new count_writes "main:users/get" "other" ≡ ok get_user
new-path_example =
    new-path count_writes "users/get" "main" "other" get_user main-Free refl new-get_user

new_accepts_iff_example : ((tp : TopicPath) × (new count_writes "users/>/get" "main" ≡ ok tp)) ↔ (
    (parts : String × String) × (parse_network "users/>/get" "main" ≡ ok parts)
    × (is_empty (path_pieces parts.1) ≡ false)
    × (multi_last (map from_str (path_pieces parts.1)) ≡ true))
new_accepts_iff_example = new_accepts_iff count_writes "users/>/get" "main"

get_segments-new_example :
    (parts : String × String) × (parse_network "main:users//get" "main" ≡ ok parts)
    × ("main" ≡ parts.0)
    × ("main:users//get" ≡ glue ":" parts.0 parts.1)
    × (get_segments get_user_again ≡ path_pieces parts.1)
get_segments-new_example =
    get_segments-new count_writes "main:users//get" "main" get_user_again new-get_user_again

new_service-hash_writes_example :
    (topic_eq users (new_service "main" "users") ≡ true)
    × (hash_writes users ≢ hash_writes (new_service "main" "users"))
unfolding glue
new_service-hash_writes_example =
    new_service-hash_writes count_writes "main" "users" "main" users new-users refl refl

parent-all_users : parent all_users ≡ ok (parent_topic all_users)
unfolding parent
parent-all_users = refl

parent-ok_example :
    (p : TopicPath) × (parent all_users ≡ ok p)
    × (p.network_id ≡ "main")
    × (p.segments ≡ init all_users.segments)
    × (p.service_path ≡ "users")
    × (p.cached_action_path ≡ join "/" (map to_string (init all_users.segments)))
parent-ok_example = parent-ok all_users (omega arith)

parent-child_example :
    (p : TopicPath) × (parent (record all_users { hash_components = [] }) ≡ ok p)
    × (p.network_id ≡ "main")
    × (p.segments ≡ literal "users" ∷ [])
    × (p.segment_count ≡ 1)
    × (p.service_path ≡ "users")
    × (p.is_pattern ≡ false)
    × (p.has_templates ≡ false)
parent-child_example =
    parent-child users (record all_users { hash_components = [] }) "*" users-IsWellFormed
      (omega arith) child-users

extract_params-get_user : extract_params get_user "users/{action}" ≡ ok (("action", "get") ∷ [])
unfolding extract_params extract_loop path_pieces get_segments to_string is_template_param split
    starts_with_char ends_with_char inner Map.insert
extract_params-get_user = refl

distinct_names-users : distinct_names (path_pieces "users/{action}") ≡ true
unfolding distinct_names named path_pieces split is_template_param starts_with_char ends_with_char
    inner
distinct_names-users = refl

from_template-extract_params_example :
    (again : TopicPath) × (from_template count_writes "users/{action}"
        (("action", "get") ∷ [])
        "main"
      ≡ ok again)
    × (again.network_id ≡ "main")
    × (get_segments again ≡ get_segments get_user)
from_template-extract_params_example =
    from_template-extract_params count_writes "users/get" "main" "users/{action}" get_user
      (("action", "get") ∷ []) (main-Free, refl) new-get_user distinct_names-users
      extract_params-get_user

has_brace : has_char "{" "users/{action}" ≡ true
unfolding has_char
has_brace = refl

abbrev user_by_id : TopicPath
user_by_id = record {
  path = "main:users/{id}";
  network_id = "main";
  segments = literal "users" ∷ template "id" ∷ [];
  is_pattern = false;
  has_templates = true;
  service_path = "users";
  cached_action_path = "users/{id}";
  segment_count = 2;
  hash_components = 2 ∷ 2 ∷ [];
  segment_type_bitmap = 4;
}

new-user_by_id : new count_writes "main:users/{id}" "main" ≡ ok user_by_id
unfolding new parse_network from_parts path_pieces scan scan_segment scan_add action_text from_str
    to_string is_template_param set_segment_type segment_type segment_writes shl64 not64 is_wildcard
    is_template has_char split starts_with_char glue join ends_with_char inner braced
new-user_by_id = refl
