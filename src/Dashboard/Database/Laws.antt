-- ===== src/Dashboard/Database/Laws.antt =====
-- Transactions: what the operations of dashboard/db rely on, and that each ends the transaction that it
-- begins, and changes no stored row when it fails.
use skylb.Prelude.{
  ◌≡◌, ◌≢◌, refl, ◌∙◌, ◌⊎◌, inl, inr, Bool, true, List, Option, none, some, Str, ℤ, if◌then◌else◌,
  ◌=?◌, str_eq,
}
use skylb.Dashboard.Users.{User}
use skylb.Dashboard.Database.{
  ok, err, Filter, Database, Answer, roll_back_on_error, and_then, commit_or_return,
  commit_or_roll_back, begun,
}

-- The rows of the table of users, by login name.
abbrev pub Rows : Type 0
Rows = Str → Option User

-- The committed rows, the rows that a transaction sees, and the transactions that are open.
pub record TxView (db : Database) : Type 0 where
  pub stored : db.World → Rows
  pub view : db.Tx → db.World → Rows
  pub is_open : db.Tx → db.World → Bool

module _ (db : Database) (v : TxView db) where
  open db use {World, Error, Tx}
  open v use {stored, view, is_open}

  -- No transaction that was closed is open.
  abbrev pub OpensNone : World → World → Type 0
  OpensNone w w' = (s : Tx) → is_open s w' ≡ true → is_open s w ≡ true

  -- Besides, the stored rows are the same.
  abbrev pub IsIdle : World → World → Type 0
  IsIdle w w' = (stored w' ≡ stored w) × OpensNone w w'

  -- The transaction is closed, and no other is opened.
  abbrev pub Closes : Tx → World → World → Type 0
  Closes t w w' = (s : Tx) → is_open s w' ≡ true → (is_open s w ≡ true) × (s ≢ t)

  abbrev pub Begins : World → Answer db Tx → Type 0
  Begins w (ok t, w') =
      (stored w' ≡ stored w)
      × (view t w' ≡ stored w)
      × ((s : Tx) → is_open s w' ≡ true → (s ≡ t) ⊎ (is_open s w ≡ true))
  Begins w (err e, w') = IsIdle w w'

  abbrev pub Finds : Tx → Str → World → Answer db User → Type 0
  Finds t name w (ok u, w') = IsIdle w w' × (view t w' ≡ view t w) × (view t w name ≡ some u)
  Finds t name w (err e, w') =
      IsIdle w w' × (db.is_no_more_rows e ≡ true → (view t w' ≡ view t w) × (view t w name ≡ none))

  abbrev pub Reads : {A : Type 0} → Tx → World → Answer db A → Type 0
  Reads t w a = IsIdle w a.1 × (view t a.1 ≡ view t w)

  abbrev pub Writes : Tx → Str → User → World → Answer db (Unit {0}) → Type 0
  Writes t name u w (ok n, w') =
      IsIdle w w' × (view t w' ≡ λ k. if name =? k then some u else view t w k)
  Writes t name u w (err e, w') = IsIdle w w'

  abbrev pub Commits : Tx → World → Answer db (Unit {0}) → Type 0
  Commits t w (ok n, w') = (stored w' ≡ view t w) × (is_open t w ≡ true) × Closes t w w'
  Commits t w (err e, w') = (stored w' ≡ stored w) × Closes t w w'

-- What the package documents: NewTx begins a transaction, which sees the stored rows; a statement
-- changes only what its transaction sees; Commit stores that, or fails, as it does on a closed
-- transaction; Rollback drops it. After either the transaction is closed.
pub record TxLaws (db : Database) (v : TxView db) : Type 0 where
  pub begins : (w : db.World) → Begins db v w (db.new_tx w)
  pub reads_users : (t : db.Tx) (w : db.World) → Reads db v t w (db.find_users t w)
  pub finds : (t : db.Tx) (name : Str) (w : db.World) → Finds db v t name w (db.find_user t name w)
  pub inserts :
      (t : db.Tx) (u : User) (w : db.World) → Writes db v t u.login_name u w (db.insert_row t u w)
  pub updates :
      (t : db.Tx) (name : Str) (u : User) (w : db.World)
      → Writes db v t name u w (db.update_row t name u w)
  pub logs :
      (t : db.Tx) (operator : Str) (id : ℤ) (content : Str) (w : db.World)
      → Reads db v t w (db.exec_log t operator id content w)
  pub reads_logs :
      (t : db.Tx) (fs : List Filter) (w : db.World) → Reads db v t w (db.find_logs t fs w)
  pub commits : (t : db.Tx) (w : db.World) → Commits db v t w (db.commit t w)
  pub rolls_back :
      (t : db.Tx) (w : db.World)
      → (v.stored (db.rollback t w) ≡ v.stored w) × Closes db v t w (db.rollback t w)

module _ (db : Database) where
  -- A chain of calls: either the first fails, or the second starts where it ended.
  pub and_then-elim :
      {A B : Type 0} (Q : Answer db B → Type 0) (a : Answer db A) (f : A → db.World → Answer db B)
      → ((x : A) (w' : db.World) → a ≡ (ok x, w') → Q (f x w'))
      → ((e : db.Error) (w' : db.World) → a ≡ (err e, w') → Q (err e, w'))
      → Q (and_then db a f)
  and_then-elim Q (ok x, w') f h k = h x w' refl
  and_then-elim Q (err e, w') f h k = k e w' refl

module _ (db : Database) (v : TxView db) (laws : TxLaws db v) where
  open db use {World, Error, Tx, commit, rollback}
  open v use {stored, view, is_open}

  -- An operation leaves no transaction open, and when it fails it leaves the stored rows.
  abbrev pub IsClean : {A : Type 0} → World → Answer db A → Type 0
  IsClean w (ok x, w') = OpensNone db v w w'
  IsClean w (err e, w') = IsIdle db v w w'

  -- The same of the part after NewTx, which closes its transaction.
  abbrev pub IsSettled : {A : Type 0} → Tx → World → Answer db A → Type 0
  IsSettled t w (ok x, w') = Closes db v t w w'
  IsSettled t w (err e, w') = (stored w' ≡ stored w) × Closes db v t w w'

  pub IsIdle-trans : (a b c : World) → IsIdle db v a b → IsIdle db v b c → IsIdle db v a c
  IsIdle-trans a b c h k = (k.0 ∙ h.0, λ s o. h.1 s (k.1 s o))

  Commits-Closes :
      (t : Tx) (w : World) (a : Answer db (Unit {0})) → Commits db v t w a → Closes db v t w a.1
  Commits-Closes t w (ok n, w') h = h.2
  Commits-Closes t w (err e, w') h = h.1

  pub commit-Closes : (t : Tx) (w w' : World) → IsIdle db v w w' → Closes db v t w (commit t w').1
  commit-Closes t w w' h s o =
      let c = Commits-Closes t w' (commit t w') (laws.commits t w') s o in (h.1 s c.0, c.1)

  pub roll_back_idle :
      (t : Tx) (w w' : World)
      → IsIdle db v w w'
      → (stored (rollback t w') ≡ stored w) × Closes db v t w (rollback t w')
  roll_back_idle t w w' h = (
    (laws.rolls_back t w').0 ∙ h.0,
    λ s o. (h.1 s ((laws.rolls_back t w').1 s o).0, ((laws.rolls_back t w').1 s o).1),
  )

  IsIdle-of_Closes :
      (t : Tx) (w w' : World) → (stored w' ≡ stored w) × Closes db v t w w' → IsIdle db v w w'
  IsIdle-of_Closes t w w' h = (h.0, λ s o. (h.1 s o).0)

  pub commit_or_return-IsSettled :
      {A : Type 0} (t : Tx) (w : World) (a : Answer db A)
      → IsIdle db v w a.1
      → IsSettled t w (commit_or_return db t (roll_back_on_error db t a))
  commit_or_return-IsSettled t w (ok x, w') h = commit-Closes t w w' h
  commit_or_return-IsSettled t w (err e, w') h = roll_back_idle t w w' h

  pub commit_or_roll_back-IsSettled :
      {A : Type 0} (t : Tx) (w : World) (a : Answer db A)
      → IsIdle db v w a.1
      → IsSettled t w (commit_or_roll_back db t (roll_back_on_error db t a))
  commit_or_roll_back-IsSettled t w (ok x, w') h = commit-Closes t w w' h
  commit_or_roll_back-IsSettled t w (err e, w') h =
      roll_back_idle t w (rollback t w')
        (IsIdle-of_Closes t w (rollback t w') (roll_back_idle t w w' h))

  pub OpensNone-of_Closes :
      (t : Tx) (w w1 w2 : World)
      → Begins db v w (ok t, w1)
      → Closes db v t w1 w2
      → OpensNone db v w w2
  OpensNone-of_Closes t w w1 w2 b c s o = elim (b.2 s (c s o).0) [
    | inl e ↦ absurd ((c s o).1 e)
    | inr l ↦ l
  ]

  pub IsClean-of_IsSettled :
      {A : Type 0} (t : Tx) (w w1 : World) (a : Answer db A)
      → Begins db v w (ok t, w1)
      → IsSettled t w1 a
      → IsClean w a
  IsClean-of_IsSettled t w w1 (ok x, w2) b c = OpensNone-of_Closes t w w1 w2 b c
  IsClean-of_IsSettled t w w1 (err e, w2) b c = (c.0 ∙ b.0, OpensNone-of_Closes t w w1 w2 b c.1)

  pub begun-IsClean :
      {A : Type 0} (w : World) (body : Tx → World → Answer db A) (a : Answer db Tx)
      → ((t : Tx) (w : World) → IsSettled t w (body t w))
      → Begins db v w a
      → IsClean w (begun db body a)
  begun-IsClean w body (ok t, w1) h b = IsClean-of_IsSettled t w w1 (body t w1) b (h t w1)
  begun-IsClean w body (err e, w1) h b = b
