-- ===== src/Dashboard/Users.antt =====
-- dashboard/db/users.go: users, the text in which a row of the database keeps the roles of a user, and
-- the message of dashboard/proto/data.proto that the browser gets.
pub mod Roles
use skylb.Prelude.{
  ◌≡◌, Bool, true, false, List, [], ◌∷◌, ◌++◌, Option, none, some, Str, ℤ, pos, if◌then◌else◌, ◌=?◌,
  str_eq, int_eq,
}
use skylb.Go.Strings.{split, trim_space}
use skylb.Go.Strconv.{itoa, atoi}
use skylb.Go.Maps.{GoSet, get, put}

abbrev pub role_admin : ℤ
role_admin = pos 0

abbrev pub role_developer : ℤ
role_developer = pos 1

abbrev pub role_operation : ℤ
role_operation = pos 2

pub record User : Type 0 where
  pub login_name : Str
  pub roles : Str
  pub disabled : Bool
  pub version : ℤ

pub record UserInfo : Type 0 where
  pub login_name : Str
  pub disabled : Bool
  pub version : ℤ
  pub is_admin : Bool
  pub is_dev : Bool
  pub is_ops : Bool

-- What AddRole makes of the text of the roles.
abbrev pub with_role : Str → ℤ → Str
with_role [] role = itoa role
with_role (x ∷ xs) role = (x ∷ xs) ++ b',' ∷ itoa role

unfoldable pub add_role : ℤ → User → User
add_role role u = record {
  login_name = u.login_name;
  roles = with_role u.roles role;
  disabled = u.disabled;
  version = u.version;
}

-- One round of the loop of GetRoles: an error of Atoi is only logged.
abbrev pub put_piece : Str → GoSet ℤ → GoSet ℤ
put_piece r rs = let t = trim_space r in if t =? [] then rs else put (atoi t).value tt rs

unfoldable pub put_pieces : List Str → GoSet ℤ → GoSet ℤ
put_pieces [] rs = rs
put_pieces (r ∷ ws) rs = put_pieces ws (put_piece r rs)

unfoldable pub get_roles : User → GoSet ℤ
unfolding put_pieces
get_roles u = put_pieces (split b',' u.roles) []

-- _, ok := rs[role]
abbrev pub has_role : ℤ → GoSet ℤ → Bool
has_role role rs = elim (get role rs) [ none ↦ false | some u ↦ true ]

unfoldable pub to_user_info : User → UserInfo
unfolding get_roles
to_user_info u =
    let rs = get_roles u in
    record {
      login_name = u.login_name;
      disabled = u.disabled;
      version = u.version;
      is_admin = has_role role_admin rs;
      is_dev = has_role role_developer rs;
      is_ops = has_role role_operation rs;
    }

abbrev pub add_role_if : Bool → ℤ → User → User
add_role_if true role u = add_role role u
add_role_if false role u = u

unfoldable pub from_user_info : UserInfo → User
unfolding add_role
from_user_info info = add_role_if info.is_ops role_operation (
    add_role_if info.is_dev role_developer (
      add_role_if info.is_admin role_admin (record {
        login_name = info.login_name;
        roles = [];
        disabled = info.disabled;
        version = info.version;
      })))

-- dashboard/users.go: isAdmin.
unfoldable pub is_admin : User → Bool
unfolding get_roles
is_admin user = has_role role_admin (get_roles user)
