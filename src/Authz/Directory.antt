-- ===== src/Authz/Directory.antt =====
-- The users of the seed file (authorization-service/src/authz/user_directory.py, directory.py).
use security_event_rag_demo.Base.{
  String, ◌<>◌, Bool, not, false, ◌&&◌, ◌||◌, Option, none, some, List, map, select, first, truthy,
  or_empty, contains, str_eq, if◌then◌else◌,
}
use security_event_rag_demo.Authz.Sorting.{sorted_by}
use security_event_rag_demo.Authz.Records.{AuthzSubject, SeedUser, to_subject}

unfoldable pub all_users : List SeedUser → List SeedUser
all_users users = sorted_by (λ u. u.user_id) users

-- `f"{user.family_name}, {user.given_name}"`
abbrev pub full_name : SeedUser → String
full_name u = u.family_name <> ", " <> u.given_name

unfoldable pub display_name_for : List SeedUser → Option String → Option String
display_name_for users user_id =
    if truthy user_id
    then (elim (first (λ u. str_eq u.user_id (or_empty user_id)) users) [
      | none ↦ user_id
      | some u ↦ some (full_name u)
    ])
    else none

-- The users that `funding_approver_candidates` and `instruction_approver_candidates` keep.
unfoldable pub is_funding_approver : String → SeedUser → Bool
is_funding_approver owning_lob u =
    contains u.roles "FUNDING_APPROVER"
    && contains u.groups "MIDDLE_OFFICE"
    && contains u.covering_lobs owning_lob

abbrev same_lob : Option String → String → Bool
same_lob none lob = false
same_lob (some s) lob = str_eq s lob

unfoldable pub is_instruction_approver : String → SeedUser → Bool
is_instruction_approver owning_lob u =
    contains u.roles "INSTRUCTION_APPROVER" && same_lob u.lob owning_lob

unfoldable pub candidates_of : (SeedUser → Bool) → List SeedUser → List AuthzSubject
candidates_of keeps users = sorted_by (λ s. s.user_id) (map to_subject (select keeps users))

unfoldable pub funding_approver_candidates : List SeedUser → String → List AuthzSubject
unfolding candidates_of
funding_approver_candidates users owning_lob = candidates_of (is_funding_approver owning_lob) users

unfoldable pub instruction_approver_candidates : List SeedUser → String → List AuthzSubject
unfolding candidates_of
instruction_approver_candidates users owning_lob =
    candidates_of (is_instruction_approver owning_lob) users

-- `_AMOUNT_CLUBS` and `_split_groups`
abbrev pub is_amount_club : String → Bool
is_amount_club group =
    str_eq group "UP_TO_100_MILLION_CLUB"
    || str_eq group "UP_TO_1_BILLION_CLUB"
    || str_eq group "UP_TO_100_BILLION_CLUB"

unfoldable pub split_groups : List String → List String × List String
split_groups groups = (select (λ g. not (is_amount_club g)) groups, select is_amount_club groups)

pub record UserDirectoryRow : Type 0 where
  pub user_id : String
  pub login_name : String
  pub given_name : String
  pub family_name : String
  pub display_name : String
  pub title : String
  pub lob : Option String
  pub roles : List String
  pub groups : List String
  pub amount_clubs : List String
  pub covering_lobs : List String
  pub supervisor_id : Option String
  pub supervisor_display_name : Option String

unfoldable pub directory_row : List SeedUser → String → SeedUser → UserDirectoryRow
unfolding split_groups display_name_for
directory_row users email_domain u = record {
  user_id = u.user_id;
  login_name = u.user_id <> "@" <> email_domain;
  given_name = u.given_name;
  family_name = u.family_name;
  display_name = full_name u;
  title = u.title;
  lob = u.lob;
  roles = u.roles;
  groups = (split_groups u.groups).0;
  amount_clubs = (split_groups u.groups).1;
  covering_lobs = u.covering_lobs;
  supervisor_id = u.supervisor_id;
  supervisor_display_name = display_name_for users u.supervisor_id;
}

unfoldable pub build_user_directory_rows : List SeedUser → String → List UserDirectoryRow
unfolding all_users directory_row
build_user_directory_rows users email_domain =
    map (directory_row users email_domain) (all_users users)
