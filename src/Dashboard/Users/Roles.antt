-- ===== src/Dashboard/Users/Roles.antt =====
-- The roles of a user: what GetRoles reads, what AddRole adds, and the way through a message.
use skylb.Prelude.{
  ◌≡◌, ◌≢◌, refl, ap, ◌∙◌, ◌↔◌, ◌⊎◌, inl, inr, Bool, true, false, List, [], ◌∷◌, ◌++◌, arith, Str,
  ℤ, pos, if◌then◌else◌, IsInt32, ◌=?◌, =?_iff, str_eq, int_eq, In, All,
}
use skylb.Go.Strings.{split, trim_space, split-cut, split-Without, trim_left, trim_right}
use skylb.Go.Strconv.{
  itoa, atoi, atoi-itoa, itoa-ne-nil, IsInt64-of_IsInt32, itoa-Without, itoa-IsNumeric, IsNumeric,
}
use skylb.Go.Maps.{GoSet, get, put, get-put}
use skylb.Dashboard.Users.{
  User, UserInfo, role_admin, with_role, add_role, put_piece, put_pieces, get_roles, has_role,
  to_user_info, from_user_info, is_admin,
}

roles_of :
    (n : Str) (dis : Bool) (v : ℤ) (a d o : Bool)
    → to_user_info (
        from_user_info (record {
          login_name = n;
          disabled = dis;
          version = v;
          is_admin = a;
          is_dev = d;
          is_ops = o;
        }))
      ≡ record { login_name = n; disabled = dis; version = v; is_admin = a; is_dev = d; is_ops = o }
unfolding to_user_info from_user_info get_roles put_pieces add_role get put split trim_space
    trim_left trim_right itoa atoi
roles_of n dis v true true true = refl
roles_of n dis v true true false = refl
roles_of n dis v true false true = refl
roles_of n dis v true false false = refl
roles_of n dis v false true true = refl
roles_of n dis v false true false = refl
roles_of n dis v false false true = refl
roles_of n dis v false false false = refl

-- A message survives the way to a row and back.
pub to_user_info-from_user_info : (info : UserInfo) → to_user_info (from_user_info info) ≡ info
to_user_info-from_user_info info =
    roles_of info.login_name info.disabled info.version info.is_admin info.is_dev info.is_ops

-- A piece of the text that GetRoles reads as the role.
abbrev pub NamesRole : ℤ → Str → Type 0
NamesRole role r = (trim_space r ≢ []) × ((atoi (trim_space r)).value ≡ role)

abbrev pub HasRole : ℤ → GoSet ℤ → Type 0
HasRole role rs = has_role role rs ≡ true

has_role-put :
    (role k : ℤ) (rs : GoSet ℤ)
    → has_role role (put k tt rs) ≡ (if k =? role then true else has_role role rs)
has_role-put role k rs = ground (arith, get-put k role tt rs)

HasRole-put_piece :
    (role : ℤ) (r : Str) (rs : GoSet ℤ)
    → HasRole role (put_piece r rs) ↔ (NamesRole role r ⊎ HasRole role rs)
HasRole-put_piece role r rs = ground (
  arith,
  has_role-put role (atoi (trim_space r)).value rs,
  =?_iff (trim_space r) [],
  =?_iff (atoi (trim_space r)).value role,
)

no_role : (role : ℤ) → ¬ HasRole role []
unfolding get
no_role role h = ground arith

HasRole-put_pieces_later :
    (role : ℤ) (ws : List Str) (rs : GoSet ℤ) → HasRole role rs → HasRole role (put_pieces ws rs)
unfolding put_pieces
HasRole-put_pieces_later role [] rs h = h
HasRole-put_pieces_later role (w ∷ ws) rs h =
    HasRole-put_pieces_later role ws (put_piece w rs) ((HasRole-put_piece role w rs).1 (inr h))

HasRole-put_pieces :
    (role : ℤ) (r : Str) (ws : List Str) (rs : GoSet ℤ)
    → In r ws
    → NamesRole role r
    → HasRole role (put_pieces ws rs)
unfolding put_pieces
HasRole-put_pieces role r [] rs m n = absurd m.1
HasRole-put_pieces role r (w ∷ ws) rs (inl e) n =
    HasRole-put_pieces_later role ws (put_piece w rs)
      ((HasRole-put_piece role w rs).1 (inl (rw e at n)))
HasRole-put_pieces role r (w ∷ ws) rs (inr m) n = HasRole-put_pieces role r ws (put_piece w rs) m n

HasRole-put_pieces_cases :
    (role : ℤ) (ws : List Str) (rs : GoSet ℤ)
    → HasRole role (put_pieces ws rs)
    → ((r : Str) × In r ws × NamesRole role r) ⊎ HasRole role rs
unfolding put_pieces
HasRole-put_pieces_cases role [] rs h = inr h
HasRole-put_pieces_cases role (w ∷ ws) rs h =
    elim (HasRole-put_pieces_cases role ws (put_piece w rs) h) [
      | inl (r, m, n) ↦ inl (r, inr m, n)
      | inr k ↦ elim ((HasRole-put_piece role w rs).0 k) [
        | inl n ↦ inl (w, inl refl, n)
        | inr l ↦ inr l
      ]
    ]

-- A user has a role just when a piece of the text between commas, not blank, is read by Atoi as the
-- role, an error of Atoi ignored.
pub get_roles_iff :
    (role : ℤ) (u : User)
    → HasRole role (get_roles u) ↔ ((r : Str) × In r (split b',' u.roles) × NamesRole role r)
unfolding get_roles
get_roles_iff role u = (
  λ h. elim (HasRole-put_pieces_cases role (split b',' u.roles) [] h) [
    | inl e ↦ e
    | inr k ↦ absurd (no_role role k)
  ],
  λ (r, m, n). HasRole-put_pieces role r (split b',' u.roles) [] m n,
)

put_pieces-append :
    (ws vs : List Str) (rs : GoSet ℤ) → put_pieces (ws ++ vs) rs ≡ put_pieces vs (put_pieces ws rs)
unfolding put_pieces
put_pieces-append [] vs rs = refl
put_pieces-append (w ∷ ws) vs rs = put_pieces-append ws vs (put_piece w rs)

-- A piece that is no number, such as a misspelt role, makes the user an administrator.
pub malformed-is_admin :
    (u : User) (r : Str)
    → In r (split b',' u.roles)
    → trim_space r ≢ []
    → atoi (trim_space r) ≡ record { value = pos 0; failed = true }
    → is_admin u ≡ true
unfolding is_admin
malformed-is_admin u r m n e = (get_roles_iff role_admin u).1 (r, m, (n, ap (λ p. p.value) e))

trim_left_id : (s : Str) → All IsNumeric s → trim_left s ≡ s
unfolding trim_left
trim_left_id [] h = refl
trim_left_id (x ∷ xs) h = ground arith

trim_right_id : (s : Str) → All IsNumeric s → trim_right s ≡ s
unfolding trim_right
trim_right_id [] h = refl
trim_right_id (x ∷ []) h = ground arith
trim_right_id (x ∷ y ∷ s) h = rw (trim_right_id (y ∷ s) h.1) refl

trim_space-itoa : (z : ℤ) → trim_space (itoa z) ≡ itoa z
unfolding trim_space
trim_space-itoa z =
    ap trim_left (trim_right_id (itoa z) (itoa-IsNumeric z))
    ∙ trim_left_id (itoa z) (itoa-IsNumeric z)

put_piece-itoa : (z : ℤ) (rs : GoSet ℤ) → IsInt32 z → put_piece (itoa z) rs ≡ put z tt rs
put_piece-itoa z rs h =
    rw (trim_space-itoa z)
      (ground (arith, =?_iff (itoa z) [], itoa-ne-nil z, atoi-itoa z (IsInt64-of_IsInt32 z h)))

put_pieces-with_role :
    (s : Str) (z : ℤ)
    → IsInt32 z
    → put_pieces (split b',' (with_role s z)) [] ≡ put z tt (put_pieces (split b',' s) [])
unfolding put_pieces split trim_space trim_left trim_right
put_pieces-with_role [] z h =
    rw (split-Without b',' (itoa z) (itoa-Without b',' z (λ n. omega arith)))
      (put_piece-itoa z [] h)
put_pieces-with_role (x ∷ xs) z h =
    let one = split-Without b',' (itoa z) (itoa-Without b',' z (λ n. omega arith)) in
    rw (split-cut b',' (x ∷ xs) (itoa z), one)
      (put_pieces-append (split b',' (x ∷ xs)) (itoa z ∷ []) [] ∙ put_piece-itoa z _ h)

-- AddRole adds the role and keeps the others.
pub get_roles-add_role :
    (k : ℤ) (u : User) → IsInt32 k → get_roles (add_role k u) ≡ put k tt (get_roles u)
unfolding get_roles add_role
get_roles-add_role k u h = put_pieces-with_role u.roles k h
