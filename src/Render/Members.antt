-- ===== src/Render/Members.antt =====
-- The member set that the operator writes for a number of pods.
use distributed_kv_data_stor.Prelude.{
  ℕ, zero, suc, ◌+◌, ◌^◌, ◌≤◌, ◌<◌, Str, str_eq, str_eq_iff, ◌≡◌, ◌↔◌, refl, subst, ◌∙◌, true, ◌&&◌,
  Option, none, some, [], ltb, leb, if◌then◌else◌, arith, Option-cases, inl, inr,
}
use distributed_kv_data_stor.GoMap.{GoMap, lookup, insert, lookup-insert}
use distributed_kv_data_stor.Render.{
  ClusterName, member_id, member_address, members_from, members, ordinal,
}
use distributed_kv_data_stor.Render.RoundTrip.{ordinal-member_id, member_id-ordinal}

-- An id is the one of pod `i` exactly if its ordinal is `i`.
pub member_id_iff :
    (c : ClusterName) (k : Str) (i : ℕ)
    → i < 2 ^ 63
    → (str_eq (member_id c i) k ≡ true) ↔ (ordinal c k ≡ some i)
member_id_iff c k i h = (
  (λ e.
      subst (λ t. ordinal c t ≡ some i) ((str_eq_iff (member_id c i) k).0 e)
        (ordinal-member_id c i h)),
  (λ e. (str_eq_iff (member_id c i) k).1 (member_id-ordinal c k i e)),
)

unfoldable pub member_at : ClusterName → ℕ → Option ℕ → Option Str
member_at c count none = none
member_at c count (some i) = if ltb i count then some (member_address c i) else none

lookup-members_from-none :
    (c : ClusterName) (k : Str) (left i : ℕ) (m : GoMap Str)
    → i + left ≤ 2 ^ 63
    → ordinal c k ≡ none
    → lookup k (members_from c left i m) ≡ lookup k m
unfolding members_from
lookup-members_from-none c k zero i m h e = refl
lookup-members_from-none c k (suc left) i m h e = ground (
  arith,
  lookup-members_from-none c k left (i + 1) (insert (member_id c i) (member_address c i) m),
  lookup-insert (member_id c i) k (member_address c i) m,
  member_id_iff c k i,
)

lookup-members_from-some :
    (c : ClusterName) (k : Str) (j left i : ℕ) (m : GoMap Str)
    → i + left ≤ 2 ^ 63
    → ordinal c k ≡ some j
    → lookup k (members_from c left i m)
      ≡ (if leb i j && ltb j (i + left) then some (member_address c j) else lookup k m)
unfolding members_from
lookup-members_from-some c k j zero i m h e = ground arith
lookup-members_from-some c k j (suc left) i m h e = ground (
  arith,
  lookup-members_from-some c k j left (i + 1) (insert (member_id c i) (member_address c i) m),
  lookup-insert (member_id c i) k (member_address c i) m,
  member_id_iff c k i,
)

-- The member set for `count` pods has exactly the ids whose ordinal is below `count`, each with the
-- address of that pod.
pub lookup-members :
    (c : ClusterName) (count : ℕ) (k : Str)
    → count ≤ 2 ^ 63
    → lookup k (members c count) ≡ member_at c count (ordinal c k)
unfolding members lookup member_at
lookup-members c count k h = elim (Option-cases (ordinal c k)) [
  | inl e ↦ rw e (lookup-members_from-none c k count 0 [] (omega arith) e)
  | inr (j, e) ↦ rw e (lookup-members_from-some c k j count 0 [] (omega arith) e ∙ ground arith)
]
