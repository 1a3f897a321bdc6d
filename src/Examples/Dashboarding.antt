-- ===== src/Examples/Dashboarding.antt =====
-- The theorems on the dashboard at concrete inputs.
use skylb.Prelude.{◌≡◌, refl, true, false, [], ◌∷◌, none, some, pos, str_eq, int_eq, ◌⊎◌}
use skylb.Go.Strings.{lit, split, trim_space, trim_left, trim_right}
use skylb.Go.Strconv.{atoi, parse}
use skylb.Go.Maps.{get, put}
use skylb.Dashboard.Users.{
  User, UserInfo, is_admin, get_roles, put_pieces, to_user_info, from_user_info,
}
use skylb.Dashboard.Users.Roles.{to_user_info-from_user_info}
use skylb.Dashboard.Database.{
  ok, err, update_user, upsert_user, merge_user_roles, create_log, get_users, get_logs,
}
use skylb.Dashboard.Database.Clean.{operations_close}
use skylb.Dashboard.Database.Rows.{update_user-rows, IsUpdate, IsLost}
use skylb.Dashboard.Handlers.{Site}
use skylb.Dashboard.Handlers.Instances.{AddInstanceRequest, ToggleLameduckRequest}
use skylb.Dashboard.Handlers.Login.{login_post_handler, login_api_handler}
use skylb.Dashboard.Handlers.Guards.{
  WriteRequest, write_handler, write_handler-IsRefused, IsRefused,
}
use skylb.Dashboard.Handlers.Sessions.{login_sessions, IsVouchedSession}
use skylb.Examples.Accounts.{Tables, Failure, tables, tables_view, tables-TxLaws}

abbrev info : UserInfo
info = record {
  login_name = lit "ann";
  disabled = false;
  version = pos 3;
  is_admin = true;
  is_dev = false;
  is_ops = true;
}

abbrev ann : User
ann = record { login_name = lit "ann"; roles = lit "0, 2"; disabled = false; version = pos 3 }

abbrev bob : User
bob = record { login_name = lit "bob"; roles = lit "dev"; disabled = false; version = pos 0 }

abbrev dev : User
dev = record { login_name = lit "dan"; roles = lit "1"; disabled = false; version = pos 0 }

abbrev eve : User
eve = record { login_name = lit "eve"; roles = lit "0"; disabled = true; version = pos 1 }

abbrev start : Tables
start = record {
  stored = (lit "ann", ann) ∷ (lit "bob", bob) ∷ [];
  pending = [];
  current = none;
  next = 1;
}

abbrev promoted : User
promoted = record { login_name = lit "bob"; roles = lit "1"; disabled = true; version = pos 9 }

abbrev site : Site
site = record {
  db = tables;
  error_text = λ e. lit "failed";
  service_ids_to_names = λ id. some (lit "shop");
  service_id_to_name = λ id. some (lit "shop");
  host_port = λ host port. host;
  set_lame_duck_mode = λ name hp w. (err Failure.refused, w);
  unset_lame_duck_mode = λ name hp w. (ok tt, w);
}

abbrev add_request : AddInstanceRequest
add_request = record { id = pos 7; address = lit "10.0.0.1:80" }

abbrev toggle : ToggleLameduckRequest
toggle = record { id = pos 7; address = lit "10.0.0.1:80"; lameduck = false }

to_user_info-from_user_info_example : to_user_info (from_user_info info) ≡ info
to_user_info-from_user_info_example = to_user_info-from_user_info info

operations_close_example :
    (tables_view.is_open 5 (upsert_user tables ann promoted false start).1 ≡ false)
    × (tables_view.is_open 5 (merge_user_roles tables promoted start).1.1 ≡ false)
    × (tables_view.is_open 5 (create_log tables (lit "ann") (pos 7) (lit "x") start).1 ≡ false)
    × (tables_view.is_open 5 (get_users tables start).1 ≡ false)
    × (tables_view.is_open 5 (get_logs tables (lit "ann") (pos 7) start).1 ≡ false)
operations_close_example =
    operations_close tables tables_view tables-TxLaws ann promoted false (lit "ann") (pos 7)
      (lit "x") start 5 refl

update_user-rows_example :
    ((tables_view.stored (update_user tables ann promoted start).1 ≡ tables_view.stored start)
      × IsLost tables tables_view tables-TxLaws promoted
          (tables_view.stored start)
          (update_user tables ann promoted start).1)
    ⊎ IsUpdate tables tables_view tables-TxLaws promoted
        (tables_view.stored start)
        (tables_view.stored (update_user tables ann promoted start).1)
unfolding update_user get put
update_user-rows_example = update_user-rows tables tables_view tables-TxLaws ann promoted start refl

write_handler-IsRefused_example :
    IsRefused site
      (write_handler site (WriteRequest.toggle_lameduck (some toggle)) (some dev) start)
      start
unfolding is_admin get_roles put_pieces split trim_space trim_left trim_right atoi parse get put
write_handler-IsRefused_example =
    write_handler-IsRefused site (WriteRequest.toggle_lameduck (some toggle)) (some dev) start refl

login_sessions_example :
    IsVouchedSession site
      (lit "ann")
      (lit "secret")
      start
      none
      (login_post_handler site false (lit "ann") (lit "secret") none start).1
    × IsVouchedSession site
        (lit "ann")
        (lit "secret")
        start
        none
        (login_api_handler site false
          (some (record { login_name = lit "ann"; password = lit "secret" }))
          none
          start).1
login_sessions_example = login_sessions site (lit "ann") (lit "secret") none start
