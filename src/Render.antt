-- ===== src/Render.antt =====
-- operator/internal/render/render.go: the names and the addresses that the operator gives the pods
-- of a cluster, and the way back from a name to its ordinal.
pub mod RoundTrip
pub mod Members
pub mod Examples
use distributed_kv_data_stor.Prelude.{
  ℕ, zero, suc, ◌+◌, ◌-◌, ◌*◌, ◌^◌, Str, str_eq, Bool, true, false, ◌&&◌, Option, none, some, List,
  [], ◌∷◌, ◌++◌, ltb, leb, ◌==◌, if◌then◌else◌,
}
use distributed_kv_data_stor.GoMap.{GoMap, insert}
use distributed_kv_data_stor.HashRing.Fnv.{itoa}

-- strings.CutPrefix
unfoldable pub cut_prefix : Str → Str → Option Str
cut_prefix s [] = some s
cut_prefix [] (p ∷ ps) = none
cut_prefix (c ∷ s) (p ∷ ps) = let rest = cut_prefix s ps in if c == p then rest else none

unfoldable pub parse_digits : Str → ℕ → Option ℕ
parse_digits [] acc = some acc
parse_digits (c ∷ s) acc =
    let rest = parse_digits s (acc * 10 + (c - b'0')) in
    if leb b'0' c && leb c b'9' then rest else none

-- The sign and the size of an int.
pub record Signed : Type 0 where
  pub negative : Bool
  pub size : ℕ

unfoldable pub parse_unsigned : Bool → ℕ → Str → Option Signed
unfolding parse_digits
parse_unsigned negative limit [] = none
parse_unsigned negative limit (c ∷ s) = elim (parse_digits (c ∷ s) 0) [
  | none ↦ none
  | some n ↦ if leb n limit then some (record { negative = negative; size = n }) else none
]

-- strconv.Atoi: an optional sign and digits, within an int64.
unfoldable pub atoi : Str → Option Signed
unfolding parse_unsigned
atoi [] = none
atoi (c ∷ s) =
    if c == b'-'
    then parse_unsigned true (2 ^ 63) s
    else if c == b'+'
    then parse_unsigned false (2 ^ 63 - 1) s
    else parse_unsigned false (2 ^ 63 - 1) (c ∷ s)

abbrev pub grpc_port : ℕ
grpc_port = 7000

abbrev pub cluster_domain : Str
cluster_domain =
    b'.' ∷ b's' ∷ b'v' ∷ b'c' ∷ b'.' ∷ b'c' ∷ b'l' ∷ b'u' ∷ b's' ∷ b't' ∷ b'e' ∷ b'r' ∷ b'.' ∷ b'l'
    ∷ b'o' ∷ b'c' ∷ b'a' ∷ b'l' ∷ []

-- The name and the namespace of a KVCluster.
pub record ClusterName : Type 0 where
  pub name : Str
  pub namespace : Str

unfoldable pub member_id : ClusterName → ℕ → Str
member_id c ordinal = c.name ++ b'-' ∷ itoa ordinal

unfoldable pub pod_host : ClusterName → ℕ → Str
unfolding member_id
pod_host c ordinal =
    member_id c ordinal ++ (b'.' ∷ c.name ++ (b'.' ∷ c.namespace ++ cluster_domain))

unfoldable pub member_address : ClusterName → ℕ → Str
unfolding pod_host
member_address c ordinal = pod_host c ordinal ++ b':' ∷ itoa grpc_port

-- The loop of Members: `left` ordinals from `i` on.
unfoldable pub members_from : ClusterName → ℕ → ℕ → GoMap Str → GoMap Str
unfolding member_id member_address insert
members_from c zero i m = m
members_from c (suc left) i m =
    members_from c left (i + 1) (insert (member_id c i) (member_address c i) m)

unfoldable pub members : ClusterName → ℕ → GoMap Str
unfolding members_from
members c count = members_from c count 0 []

-- A number that Atoi read, if Itoa writes it back as the text.
unfoldable pub exact_ordinal : Str → Signed → Option ℕ
exact_ordinal s i =
    if i.negative && ltb 0 i.size
    then none
    else if str_eq (itoa i.size) s
    then some i.size
    else none

unfoldable pub ordinal : ClusterName → Str → Option ℕ
unfolding cut_prefix atoi exact_ordinal
ordinal c id = elim (cut_prefix id (c.name ++ b'-' ∷ [])) [
  | none ↦ none
  | some s ↦ elim (atoi s) [ none ↦ none | some i ↦ exact_ordinal s i ]
]
