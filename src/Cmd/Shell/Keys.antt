-- ===== src/Cmd/Shell/Keys.antt =====
-- An instance that the shell has added is found again by the commands "ls" and "rm".
use skylb.Prelude.{
  ℕ, ◌^◌, ◌<◌, ◌≡◌, refl, ap, ◌∙◌, [], ◌∷◌, ◌++◌, map, some, Str, ℤ, pos, to_int32, to_int32-id,
  arith, =?_refl, str_eq,
}
use skylb.Go.Strings.{Without}
use skylb.Go.Strconv.{atoi, itoa, atoi-itoa, itoa-Without, IsInt64-of_IsInt32}
use skylb.Go.Path.{join_path}
use skylb.Go.Text.{replace_byte}
use skylb.Cmd.Shell.{Service, prefix}
use skylb.Cmd.Shell.Instances.{
  instance_key, instance_value, instance_addresses, listed_key, listed_subset, port_at, shown_at,
  and_listed, listed_subsets,
}

replace_byte-Without : (c r : ℕ) (s : Str) → Without c s → map (replace_byte c r) s ≡ s
replace_byte-Without c r [] h = refl
replace_byte-Without c r (x ∷ xs) h = ground (arith, replace_byte-Without c r xs h.1)

replace_byte-cut :
    (c r : ℕ) (s t : Str)
    → Without c s
    → Without c t
    → map (replace_byte c r) (s ++ c ∷ t) ≡ s ++ r ∷ t
replace_byte-cut c r [] t h k = ground (arith, replace_byte-Without c r t k)
replace_byte-cut c r (x ∷ xs) t h k = ground (arith, replace_byte-cut c r xs t h.1 k)

port_back : (n : ℕ) → n < 2 ^ 31 → to_int32 (atoi (itoa (pos n))).value ≡ pos n
port_back n h = rw (atoi-itoa (pos n) (IsInt64-of_IsInt32 (pos n) h)) (to_int32-id (pos n) h)

port_at_refl :
    (name : Str) (z : ℤ)
    → port_at name 0 (record { name = name; port = z; protocol = [] } ∷ [])
      ≡ some (0, record { name = name; port = z; protocol = [] })
port_at_refl name z = rw (=?_refl name) refl

-- For a port that is written as its number, and a host without a colon: the value that "add" writes is
-- listed as "<host>:<port>", and from that text "rm" makes the key that "add" has written to.
pub listed-instance_value :
    (svc : Service) (port_name host : Str) (n : ℕ)
    → Without b':' host
    → n < 2 ^ 31
    → (listed_subsets port_name (instance_value svc port_name host (itoa (pos n))).subsets
        ≡ some ((host ++ b':' ∷ itoa (pos n)) ∷ []))
      × (listed_key svc (host ++ b':' ∷ itoa (pos n)) ≡ instance_key svc host (itoa (pos n)))
unfolding listed_subsets listed_subset instance_value listed_key instance_key
listed-instance_value svc port_name host n h lt = (
  ap (λ o. and_listed o (some []))
        (ap (shown_at (instance_addresses svc host))
          (port_at_refl port_name (to_int32 (atoi (itoa (pos n))).value)))
      ∙ ap (λ z. some ((host ++ b':' ∷ itoa z) ∷ [])) (port_back n lt),
  ap (λ s. join_path (prefix ∷ svc.namespace ∷ svc.name ∷ s ∷ []))
      (replace_byte-cut b':' b'_' host (itoa (pos n)) h
        (itoa-Without b':' (pos n) (λ d. omega arith))),
)
