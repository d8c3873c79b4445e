-- ===== src/Render/Examples.antt =====
-- Tests of the names and addresses, and the theorems at concrete inputs.
use distributed_kv_data_stor.Prelude.{
  ℕ, Str, ◌≡◌, refl, ap, ◌<◌, arith, Option, none, some, [], ◌∷◌,
}
use distributed_kv_data_stor.GoMap.{lookup}
use distributed_kv_data_stor.Render.{ClusterName, member_id, members, ordinal}
use distributed_kv_data_stor.Render.RoundTrip.{ordinal-member_id}
use distributed_kv_data_stor.Render.Members.{lookup-members, member_at}

abbrev kv : ClusterName
kv = record { name = b'k' ∷ b'v' ∷ []; namespace = b'n' ∷ [] }

-- "kv-12"
abbrev kv_12 : Str
kv_12 = b'k' ∷ b'v' ∷ b'-' ∷ b'1' ∷ b'2' ∷ []

-- "kv-012"
abbrev kv_012 : Str
kv_012 = b'k' ∷ b'v' ∷ b'-' ∷ b'0' ∷ b'1' ∷ b'2' ∷ []

test_ordinal : ordinal kv kv_12 ≡ some 12
unfolding ordinal distributed_kv_data_stor.Prelude.str_eq distributed_kv_data_stor.HashRing.Fnv.itoa
test_ordinal = refl

-- A leading zero is not the canonical form.
test_leading_zero : ordinal kv kv_012 ≡ none
unfolding ordinal distributed_kv_data_stor.Prelude.str_eq distributed_kv_data_stor.HashRing.Fnv.itoa
test_leading_zero = refl

ordinal-member_id_example : ordinal kv (member_id kv 12) ≡ some 12
ordinal-member_id_example = ordinal-member_id kv 12 (omega arith)

lookup-members_example : lookup kv_12 (members kv 3) ≡ member_at kv 3 (ordinal kv kv_12)
lookup-members_example = lookup-members kv 3 kv_12 (omega arith)
