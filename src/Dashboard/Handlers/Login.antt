-- ===== src/Dashboard/Handlers/Login.antt =====
-- dashboard/login.go: the handlers that set the user of the session.
use skylb.Prelude.{Bool, [], Option, none, some, Str, if◌then◌else◌, str_eq}
use skylb.Go.Strings.{lit}
use skylb.Dashboard.Users.{User}
use skylb.Dashboard.Database.{ok, err, Answer, authenticate, merge_user_roles, named}
use skylb.Dashboard.Handlers.{Site, Reply, bad_request, redirect, page, Status, status}

pub record LoginRequest : Type 0 where
  pub login_name : Str
  pub password : Str

module _ (site : Site) where
  open site use {db}

  -- A login handler: its reply, the session after it and the state.
  abbrev Login : Type 0
  Login = Reply Status × Option User × db.World

  -- setDebugUser: an error of MergeUserRoles is not read.
  pub set_debug_user : Str → db.World → Login
  unfolding merge_user_roles
  set_debug_user login_name w =
      let m = merge_user_roles db (named db login_name) w in (redirect (lit "/"), some m.0, m.1.1)

  abbrev pub post_login : Option User → Answer db User → Login
  post_login session (ok user, w) = (redirect (lit "/"), some user, w)
  post_login session (err e, w) = (page, session, w)

  unfoldable pub login_post_handler : Bool → Str → Str → Option User → db.World → Login
  unfolding set_debug_user authenticate
  login_post_handler debug_mode login_name password session w =
      if debug_mode
      then set_debug_user login_name w
      else post_login session (authenticate db login_name password w)

  abbrev pub api_login : Option User → Answer db User → Login
  api_login session (ok user, w) = (status [], some user, w)
  api_login session (err e, w) = (status (lit "Login name and password not match."), session, w)

  unfoldable pub login_api_handler : Bool → Option LoginRequest → Option User → db.World → Login
  unfolding set_debug_user authenticate
  login_api_handler debug_mode none session w = (bad_request, session, w)
  login_api_handler debug_mode (some req) session w =
      if debug_mode
      then set_debug_user req.login_name w
      else api_login session (authenticate db req.login_name req.password w)
