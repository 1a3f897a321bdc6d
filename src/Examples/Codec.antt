-- ===== src/Examples/Codec.antt =====
-- A codec for the objects that the hub writes, which hold one address, one port, and at most one
-- label. It takes the place of encoding/json in the examples.
use mathlib.Core.Path.{subst}
use skylb.Prelude.{
  ℕ, zero, suc, ◌≡◌, ◌≢◌, refl, ap, sym, ◌∙◌, List, [], ◌∷◌, Option, none, some, Str, ℤ, pos,
  negsuc, arith, str_eq, get_elem?, drop,
}
use skylb.Go.Strings.{push}
use skylb.Go.Maps.{GoMap, get, HasKeysOnce}
use skylb.Api.{ObjectReference, EndpointAddress, EndpointPort, EndpointSubset, Endpoints}

abbrev write : Str → Str → Str
write [] r = 0 ∷ r
write (x ∷ xs) r = suc x ∷ write xs r

abbrev write_all : List Str → Str
write_all [] = []
write_all (s ∷ ss) = write s (write_all ss)

abbrev read_all : Str → List Str
read_all [] = []
read_all (zero ∷ r) = [] ∷ read_all r
read_all (suc x ∷ r) = push x (read_all r)

read_all-write : (s r : Str) → read_all (write s r) ≡ s ∷ read_all r
read_all-write [] r = refl
read_all-write (x ∷ xs) r = ap (push x) (read_all-write xs r)

read_all-write_all : (ss : List Str) → read_all (write_all ss) ≡ ss
read_all-write_all [] = refl
read_all-write_all (s ∷ ss) = read_all-write s (write_all ss) ∙ ap (◌∷◌ s) (read_all-write_all ss)

abbrev field : ℕ → List Str → Str
field i ss = elim (get_elem? ss i) [ none ↦ [] | some s ↦ s ]

abbrev first_number : Str → ℤ
first_number [] = pos 0
first_number (n ∷ s) = pos n

abbrev labels_of : List Str → GoMap Str Str
labels_of [] = []
labels_of (k ∷ []) = []
labels_of (k ∷ v ∷ ss) = (k, v) ∷ []

abbrev of_fields : List Str → Endpoints
of_fields ss = record {
  meta = record { name = field 0 ss; namespace = field 1 ss; labels = labels_of (drop 9 ss) };
  subsets =
      record {
        addresses =
            record {
              ip = field 2 ss;
              target_ref =
                  some (record { kind = field 3 ss; namespace = field 4 ss; name = field 5 ss });
            }
            ∷ [];
        not_ready_addresses = [];
        ports =
            record { name = field 6 ss; port = first_number (field 7 ss); protocol = field 8 ss }
            ∷ [];
      }
      ∷ [];
}

abbrev part_fields :
    Str → Str → List Str → Str → Option ObjectReference → Str → Str → ℤ → Option (List Str)
part_fields name ns ls ip none pn proto port = none
part_fields name ns ls ip (some r) pn proto (negsuc n) = none
part_fields name ns ls ip (some r) pn proto (pos n) =
    some (name ∷ ns ∷ ip ∷ r.kind ∷ r.namespace ∷ r.name ∷ pn ∷ (n ∷ []) ∷ proto ∷ ls)

abbrev subset_fields :
    Str
    → Str
    → List Str
    → List EndpointAddress
    → List EndpointAddress
    → List EndpointPort
    → Option (List Str)
subset_fields name ns ls (a ∷ []) [] (p ∷ []) =
    part_fields name ns ls a.ip a.target_ref p.name p.protocol p.port
subset_fields name ns ls _ _ _ = none

abbrev subsets_fields : Str → Str → List Str → List EndpointSubset → Option (List Str)
subsets_fields name ns ls [] = none
subsets_fields name ns ls (s ∷ []) =
    subset_fields name ns ls s.addresses s.not_ready_addresses s.ports
subsets_fields name ns ls (s ∷ t ∷ ss) = none

abbrev fields_of : Str → Str → GoMap Str Str → List EndpointSubset → Option (List Str)
fields_of name ns [] subsets = subsets_fields name ns [] subsets
fields_of name ns ((k, v) ∷ []) subsets = subsets_fields name ns (k ∷ v ∷ []) subsets
fields_of name ns (l ∷ m ∷ ls) subsets = none

abbrev or_default : Option (List Str) → Endpoints
or_default none = of_fields []
or_default (some ss) = of_fields ss

abbrev object : Str → Str → GoMap Str Str → List EndpointSubset → Endpoints
object name ns labels subsets = record {
  meta = record { name = name; namespace = ns; labels = labels };
  subsets = subsets;
}

part_fields-back :
    (name ns : Str) (ls : List Str) (ip : Str) (r : Option ObjectReference) (pn proto : Str)
    (port : ℤ) (ss : List Str)
    → part_fields name ns ls ip r pn proto port ≡ some ss
    → of_fields ss
      ≡ object name ns (labels_of ls) (
          record {
            addresses = record { ip = ip; target_ref = r } ∷ [];
            not_ready_addresses = [];
            ports = record { name = pn; port = port; protocol = proto } ∷ [];
          }
          ∷ [])
part_fields-back name ns ls ip none pn proto port ss e = cc
part_fields-back name ns ls ip (some r) pn proto (negsuc n) ss e = cc
part_fields-back name ns ls ip (some r) pn proto (pos n) ss e = ap or_default (sym e)

subset_fields-back :
    (name ns : Str) (ls : List Str) (ads nr : List EndpointAddress) (ps : List EndpointPort)
    (ss : List Str)
    → subset_fields name ns ls ads nr ps ≡ some ss
    → of_fields ss
      ≡ object name ns
          (labels_of ls)
          (record { addresses = ads; not_ready_addresses = nr; ports = ps } ∷ [])
subset_fields-back name ns ls [] nr ps ss e = cc
subset_fields-back name ns ls (a ∷ b ∷ ads) nr ps ss e = cc
subset_fields-back name ns ls (a ∷ []) (b ∷ nr) ps ss e = cc
subset_fields-back name ns ls (a ∷ []) [] [] ss e = cc
subset_fields-back name ns ls (a ∷ []) [] (p ∷ q ∷ ps) ss e = cc
subset_fields-back name ns ls (a ∷ []) [] (p ∷ []) ss e =
    part_fields-back name ns ls a.ip a.target_ref p.name p.protocol p.port ss e

subsets_fields-back :
    (name ns : Str) (ls : List Str) (subsets : List EndpointSubset) (ss : List Str)
    → subsets_fields name ns ls subsets ≡ some ss
    → of_fields ss ≡ object name ns (labels_of ls) subsets
subsets_fields-back name ns ls [] ss e = cc
subsets_fields-back name ns ls (s ∷ t ∷ us) ss e = cc
subsets_fields-back name ns ls (s ∷ []) ss e =
    subset_fields-back name ns ls s.addresses s.not_ready_addresses s.ports ss e

fields_of-back :
    (name ns : Str) (labels : GoMap Str Str) (subsets : List EndpointSubset) (ss : List Str)
    → fields_of name ns labels subsets ≡ some ss
    → of_fields ss ≡ object name ns labels subsets
fields_of-back name ns [] subsets ss e = subsets_fields-back name ns [] subsets ss e
fields_of-back name ns ((k, v) ∷ []) subsets ss e =
    subsets_fields-back name ns (k ∷ v ∷ []) subsets ss e
fields_of-back name ns (l ∷ m ∷ ls) subsets ss e = cc

abbrev text_of : Option (List Str) → Option Str
text_of none = none
text_of (some ss) = some (1 ∷ write_all ss)

abbrev pub marshal : Endpoints → Option Str
marshal e = text_of (fields_of e.name e.namespace e.labels e.subsets)

abbrev pub unmarshal : Str → Option Endpoints
unmarshal [] = none
unmarshal (t ∷ text) = some (of_fields (read_all text))

text_of-back :
    (o : Option (List Str)) (e : Endpoints) (text : Str)
    → ((ss : List Str) → o ≡ some ss → of_fields ss ≡ e)
    → text_of o ≡ some text
    → (text ≢ []) × (unmarshal text ≡ some e)
text_of-back none e text back q = cc
text_of-back (some ss) e [] back q = cc
text_of-back (some ss) e (t ∷ text) back q = (
  (λ z. ground (arith, z)),
  ap some (
      ap of_fields (
        ap read_all (sym (ap (λ o. elim o [ none ↦ [] | some u ↦ drop 1 u ]) q))
        ∙ read_all-write_all ss)
      ∙ back ss refl),
)

labels_of-HasKeysOnce : (ss : List Str) → HasKeysOnce (labels_of ss)
unfolding get
labels_of-HasKeysOnce [] = tt
labels_of-HasKeysOnce (k ∷ []) = tt
labels_of-HasKeysOnce (k ∷ v ∷ ss) = (refl, tt)

pub marshal-back :
    (e : Endpoints) (text : Str) → marshal e ≡ some text → (text ≢ []) × (unmarshal text ≡ some e)
marshal-back e text q =
    text_of-back (fields_of e.name e.namespace e.labels e.subsets) e text
      (fields_of-back e.name e.namespace e.labels e.subsets) q

pub unmarshal_labels : (text : Str) (e : Endpoints) → unmarshal text ≡ some e → HasKeysOnce e.labels
unmarshal_labels [] e q = cc
unmarshal_labels (t ∷ text) e q =
    subst (λ (x : Endpoints). HasKeysOnce x.labels) (ap (λ o. elim o [ none ↦ e | some x ↦ x ]) q)
      (labels_of-HasKeysOnce (drop 9 (read_all text)))
