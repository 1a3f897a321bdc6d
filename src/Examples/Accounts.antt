-- ===== src/Examples/Accounts.antt =====
-- Examples for dashboard/db and the handlers: tables in memory with one open transaction at a time.
use mathlib.Core.Path.{fun_ext}
use skylb.Prelude.{
  ℕ, ◌+◌, ◌≡◌, ◌≢◌, refl, sym, ap, ◌∙◌, inl, Bool, true, false, ◌==◌, ==_iff, [], Option, none,
  some, Str, arith, ◌=?◌, str_eq,
}
use skylb.Go.Strings.{lit}
use skylb.Go.Maps.{GoMap, get, put, get-put}
use skylb.Dashboard.Users.{User}
use skylb.Dashboard.Database.{Result, ok, err, Database}
use skylb.Dashboard.Database.Laws.{TxView, TxLaws, Finds, Writes, Commits, Closes}

pub data Failure : Type 0 where
  no_more_rows tx_done refused : Failure

pub record Tables : Type 0 where
  pub stored : GoMap Str User
  pub pending : GoMap Str User
  pub current : Option ℕ
  pub next : ℕ

abbrev is_current : ℕ → Option ℕ → Bool
is_current t none = false
is_current t (some c) = t == c

abbrev find_pending : Option User → Tables → Result Failure User × Tables
find_pending none w = (err no_more_rows, w)
find_pending (some u) w = (ok u, w)

abbrev write_pending : Str → User → Tables → Result Failure (Unit {0}) × Tables
write_pending name u w = (
  ok tt,
  record { stored = w.stored; pending = put name u w.pending; current = w.current; next = w.next },
)

abbrev drop_pending : Bool → Tables → Tables
drop_pending true w = record {
  stored = w.stored;
  pending = w.stored;
  current = none;
  next = w.next;
}
drop_pending false w = w

abbrev commit_pending : Bool → Tables → Result Failure (Unit {0}) × Tables
commit_pending true w =
    (ok tt, record { stored = w.pending; pending = w.pending; current = none; next = w.next })
commit_pending false w = (err tx_done, w)

abbrev pub tables : Database
tables = record {
  World = Tables;
  Error = Failure;
  Tx = ℕ;
  errors_new = λ s. refused;
  is_no_more_rows = λ e. elim e [ no_more_rows ↦ true | tx_done ↦ false | refused ↦ false ];
  new_tx = λ w. (
    ok w.next,
    record { stored = w.stored; pending = w.stored; current = some w.next; next = w.next + 1 },
  );
  find_users = λ t w. (ok [], w);
  find_user = λ t name w. find_pending (get name w.pending) w;
  insert_row = λ t u w. write_pending u.login_name u w;
  update_row = λ t name u w. write_pending name u w;
  exec_log = λ t operator id content w. (ok tt, w);
  find_logs = λ t fs w. (ok [], w);
  commit = λ t w. commit_pending (is_current t w.current) w;
  rollback = λ t w. drop_pending (is_current t w.current) w;
  ldap_dial = λ w. (ok tt, w);
  ldap_auth = λ name password w. (ok (password =? lit "secret"), w);
}

abbrev pub tables_view : TxView tables
tables_view = record {
  stored = λ w name. get name w.stored;
  view = λ t w name. get name w.pending;
  is_open = λ t w. is_current t w.current;
}

found-lem :
    (t : ℕ) (name : Str) (w : Tables) (o : Option User)
    → get name w.pending ≡ o
    → Finds tables tables_view t name w (find_pending o w)
found-lem t name w none h = ((refl, λ s o. o), λ e. (refl, h))
found-lem t name w (some u) h = ((refl, λ s o. o), refl, h)

written-lem :
    (t : ℕ) (name : Str) (u : User) (w : Tables)
    → Writes tables tables_view t name u w (write_pending name u w)
written-lem t name u w = ((refl, λ s o. o), fun_ext (λ k. get-put name k u w.pending))

differ : false ≢ true
differ e = ground arith

not_current : (s t : ℕ) (c : Option ℕ) → is_current t c ≡ false → is_current s c ≡ true → s ≢ t
not_current s t c h o e = absurd (differ (sym h ∙ ap (λ x. is_current x c) (sym e) ∙ o))

committed-lem :
    (t : ℕ) (w : Tables) (b : Bool)
    → is_current t w.current ≡ b
    → Commits tables tables_view t w (commit_pending b w)
committed-lem t w true h = (refl, h, λ s o. ground arith)
committed-lem t w false h = (refl, λ s o. (o, not_current s t w.current h o))

dropped-lem :
    (t : ℕ) (w : Tables) (b : Bool)
    → is_current t w.current ≡ b
    → (tables_view.stored (drop_pending b w) ≡ tables_view.stored w)
      × Closes tables tables_view t w (drop_pending b w)
dropped-lem t w true h = (refl, λ s o. ground arith)
dropped-lem t w false h = (refl, λ s o. (o, not_current s t w.current h o))

pub tables-TxLaws : TxLaws tables tables_view
tables-TxLaws = record {
  begins = λ w. (refl, refl, λ s o. inl ((==_iff s w.next).0 o));
  reads_users = λ t w. ((refl, λ s o. o), refl);
  finds = λ t name w. found-lem t name w (get name w.pending) refl;
  inserts = λ t u w. written-lem t u.login_name u w;
  updates = λ t name u w. written-lem t name u w;
  logs = λ t operator id content w. ((refl, λ s o. o), refl);
  reads_logs = λ t fs w. ((refl, λ s o. o), refl);
  commits = λ t w. committed-lem t w (is_current t w.current) refl;
  rolls_back = λ t w. dropped-lem t w (is_current t w.current) refl;
}
