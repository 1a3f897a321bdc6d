-- ===== src/Dashboard/Handlers.antt =====
-- The handlers of dashboard: users.go, logs.go, lameduck.go, instance.go, login.go, logout.go, home.go
-- and the middleware of web.go. A handler takes what proto.Unmarshal makes of the body, the user of the
-- session and the state; `none` as an outcome stands for a panic. The lame duck calls of skylb-api and
-- the table of service names are parameters.
pub mod Instances
pub mod Login
pub mod Guards
pub mod Sessions
use skylb.Prelude.{
  ℕ, ◌-◌, Bool, true, false, not, ◌&&◌, ◌||◌, leb, List, [], ◌∷◌, ◌++◌, map, Option, none, some,
  Str, ℤ, if◌then◌else◌, get_elem?, ◌=?◌, str_eq,
}
use skylb.Go.Strings.{lit, split, index}
use skylb.Go.Strconv.{itoa}
use skylb.Dashboard.Users.{User, UserInfo, to_user_info, from_user_info, is_admin}
use skylb.Dashboard.Database.{
  Result, ok, err, Log, LogInfo, Database, Answer, to_log_info, get_users, upsert_user, create_log,
  get_logs, authenticate, merge_user_roles, named,
}

pub record Site : Type 1 where
  pub db : Database
  pub error_text : db.Error → Str
  pub service_ids_to_names : ℤ → Option Str
  pub service_id_to_name : ℤ → Option Str
  pub host_port : Str → Str → Str
  pub set_lame_duck_mode : Str → Str → db.World → Result db.Error (Unit {0}) × db.World
  pub unset_lame_duck_mode : Str → Str → db.World → Result db.Error (Unit {0}) × db.World

-- What is written to the response.
pub data Reply {ℓ} (A : Type ℓ) : Type ℓ where
  bad_request : Reply A
  unauthorized : Reply A
  not_found : Reply A
  redirect : Str → Reply A
  page : Reply A
  message : A → Reply A

-- A response that has an error message only.
pub record Status : Type 0 where
  pub error_msg : Str

pub record GetUsersResponse : Type 0 where
  pub error_msg : Str
  pub users : List UserInfo

pub record GetCurrentUserResponse : Type 0 where
  pub error_msg : Str
  pub user : Option UserInfo

pub record UpsertUserRequest : Type 0 where
  pub user : Option UserInfo
  pub is_new : Bool

pub record GetLogsRequest : Type 0 where
  pub operator : Str
  pub service_id : ℤ

pub record GetLogsResponse : Type 0 where
  pub error_msg : Str
  pub operator : Str
  pub service_id : ℤ
  pub logs : List LogInfo

abbrev pub status : Str → Reply Status
status text = message (record { error_msg = text })

-- strings.ToTitle, on ASCII text.
abbrev to_title_byte : ℕ → ℕ
to_title_byte c = if leb b'a' c && leb c b'z' then c - 32 else c

abbrev pub to_title : Str → Str
to_title s = map to_title_byte s

-- The middleware `authenticate`: `none` hands over to the next handler.
unfoldable pub authenticate_request : Str → Str → Option User → Option (Reply Status)
authenticate_request path method session = if path =? lit "/_/login" then none else elim session [
  | some u ↦ none
  | none ↦
      if to_title method =? lit "POST" then some unauthorized else some (redirect (lit "/login"))
]

unfoldable pub get_current_user_handler : Bool → Option User → Reply GetCurrentUserResponse
unfolding to_user_info
get_current_user_handler decoded session =
    if decoded
    then elim session [
      | none ↦ message (record { error_msg = lit "Not login."; user = none })
      | some cur_user ↦ message (record { error_msg = []; user = some (to_user_info cur_user) })
    ]
    else bad_request

-- The template is a parameter of the page; the handler only chooses.
unfoldable pub home_handler : Option User → Reply UserInfo
unfolding to_user_info
home_handler session = elim session [
  | none ↦ not_found
  | some cur_user ↦ message (to_user_info cur_user)
]

-- The reply and the session after the logout.
unfoldable pub logout_handler : Option User → Reply Status × Option User
logout_handler session = (redirect (lit "/login"), none)

module _ (site : Site) where
  open site use {db, error_text, service_ids_to_names}

  abbrev answer_users : Answer db (List User) → Reply GetUsersResponse × db.World
  answer_users (ok us, w) = (message (record { error_msg = []; users = map to_user_info us }), w)
  answer_users (err e, w) = (message (record { error_msg = error_text e; users = [] }), w)

  unfoldable pub get_users_handler :
      Bool → Option User → db.World → Reply GetUsersResponse × db.World
  unfolding get_users to_user_info
  get_users_handler decoded session w =
      if decoded
      then elim session [
        | none ↦ (message (record { error_msg = lit "Not login."; users = [] }), w)
        | some cur_user ↦
            if is_admin cur_user
            then answer_users (get_users db w)
            else (message (record { error_msg = lit "No permission."; users = [] }), w)
      ]
      else (bad_request, w)

  abbrev answer_upsert : Answer db (Unit {0}) → Reply Status × db.World
  answer_upsert (ok n, w) = (status [], w)
  answer_upsert (err e, w) = (status (lit "Failed to save user, please reload and try again."), w)

  abbrev pub upsert_request : User → UpsertUserRequest → db.World → Option (Reply Status × db.World)
  unfolding upsert_user from_user_info
  upsert_request cur_user req w = elim req.user [
    | none ↦ none
    | some info ↦ some (answer_upsert (upsert_user db cur_user (from_user_info info) req.is_new w))
  ]

  pub upsert_user_handler :
      Option UpsertUserRequest → Option User → db.World → Option (Reply Status × db.World)
  unfolding upsert_request is_admin
  upsert_user_handler none session w = some (bad_request, w)
  upsert_user_handler (some req) none w = some (status (lit "Not login."), w)
  upsert_user_handler (some req) (some cur_user) w =
      if not (is_admin cur_user)
      then some (status (lit "No permission."), w)
      else if cur_user.disabled
      then some (status (lit "Disabled."), w)
      else upsert_request cur_user req w

  abbrev answer_logs : GetLogsRequest → Answer db (List Log) → Reply GetLogsResponse × db.World
  unfolding to_log_info
  answer_logs req (ok ls, w) = (
    message (record {
      error_msg = [];
      operator = req.operator;
      service_id = req.service_id;
      logs = map (to_log_info service_ids_to_names) ls;
    }),
    w,
  )
  answer_logs req (err e, w) = (
    message (record { error_msg = error_text e; operator = []; service_id = ℤ.pos 0; logs = [] }),
    w,
  )

  unfoldable pub get_logs_handler :
      Option GetLogsRequest → Option User → db.World → Reply GetLogsResponse × db.World
  unfolding get_logs answer_logs
  get_logs_handler none session w = (bad_request, w)
  get_logs_handler (some req) none w = (
    message
        (record { error_msg = lit "Not login."; operator = []; service_id = ℤ.pos 0; logs = [] }),
    w,
  )
  get_logs_handler (some req) (some cur_user) w =
      answer_logs req (get_logs db req.operator req.service_id w)
