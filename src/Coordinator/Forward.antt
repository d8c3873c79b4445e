-- ===== src/Coordinator/Forward.antt =====
-- Which replicas a forwarded write is sent to, and how the call ends; and what isReplicaFor says.
use distributed_kv_data_stor.Prelude.{
  Str, ◌≡◌, ◌≢◌, refl, sym, ap, ◌∙◌, subst, Bool, true, false, none, some, List, [], ◌∷◌, ◌++◌,
  Memᴰ, if◌then◌else◌, ◌⊎◌, inl, inr, ◌↔◌, All, append_assoc, append-nil, arith, Bool-cases, str_eq,
  str_eq_iff,
}
use mathlib.Core.List
use mathlib.Core.Bool.{false≢true}
use distributed_kv_data_stor.HashRing.{HashRing, get_preference_list}
use distributed_kv_data_stor.Coordinator.{
  QuorumConfig, unavailable, failed_precondition, other_code, Placement, split_self, is_replica_for,
}
use distributed_kv_data_stor.Coordinator.Gather.{
  Attempt, no_client, accepted, refused, not_forwarded, no_replica, Forwarded, forward_put,
}

-- An answer past which forwardPut goes on. Unavailable is not proof that the write was not applied:
-- gRPC can report it after the server applied the write (docs/known-limitations.md).
abbrev pub MovesOn : Attempt → Type 0
MovesOn (refused unavailable) = Unit
MovesOn (refused failed_precondition) = Unit
MovesOn _ = ⊥

-- The replica can be asked: there is a connection to it.
abbrev pub has_client : Attempt → Bool
has_client no_client = false
has_client _ = true

-- The replicas that are alive and can be asked, in their order.
unfoldable pub askable : (Str → Bool) → (Str → Attempt) → List Str → List Str
askable is_dead attempt [] = []
askable is_dead attempt (id ∷ ids) =
    let rest = askable is_dead attempt ids in
    if is_dead id then rest else if has_client (attempt id) then id ∷ rest else rest

-- How a forwarded write can end, over the replicas `live` that can be asked. Those before the last
-- one asked each answered Unavailable or FailedPrecondition.
pub data Ended (attempt : Str → Attempt) (start live : List Str) (f : Forwarded) : Type 0 where
  by_ack :
      (past : List Str) (last : Str) (unasked : List Str)
      → live ≡ past ++ last ∷ unasked
      → All (λ id. MovesOn (attempt id)) past
      → attempt last ≡ accepted
      → f ≡ record { error = none; asked = start ++ (past ++ last ∷ []) }
      → Ended attempt start live f
  by_error :
      (past : List Str) (last : Str) (unasked : List Str)
      → live ≡ past ++ last ∷ unasked
      → All (λ id. MovesOn (attempt id)) past
      → attempt last ≡ refused other_code
      → f ≡ record { error = some (not_forwarded other_code); asked = start ++ (past ++ last ∷ []) }
      → Ended attempt start live f
  by_none :
      All (λ id. MovesOn (attempt id)) live
      → f ≡ record { error = some no_replica; asked = start ++ live }
      → Ended attempt start live f

Ended-onward :
    (attempt : Str → Attempt) (start live : List Str) (id : Str) (f : Forwarded)
    → MovesOn (attempt id)
    → Ended attempt (start ++ id ∷ []) live f
    → Ended attempt start (id ∷ live) f
Ended-onward attempt start live id f n (by_ack past last unasked whole all e g) =
    by_ack (id ∷ past) last unasked (ap (λ l. id ∷ l) whole) (n, all) e
      (g
        ∙ ap (λ l. record { error = none; asked = l })
            (append_assoc start (id ∷ []) (past ++ last ∷ [])))
Ended-onward attempt start live id f n (by_error past last unasked whole all e g) =
    by_error (id ∷ past) last unasked (ap (λ l. id ∷ l) whole) (n, all) e
      (g
        ∙ ap (λ l. record { error = some (not_forwarded other_code); asked = l })
            (append_assoc start (id ∷ []) (past ++ last ∷ [])))
Ended-onward attempt start live id f n (by_none all g) =
    by_none (n, all)
      (g
        ∙ ap (λ l. record { error = some no_replica; asked = l })
            (append_assoc start (id ∷ []) live))

-- forwardPut asks the replicas that are alive and have a connection, in their order, going on past one only when it answers Unavailable or FailedPrecondition. The first other
-- answer is the call's: it succeeds exactly if that one accepted. It reports Unavailable exactly if
-- every replica that it could ask gave one of those two answers.
pub forward_put-Ended :
    (is_dead : Str → Bool) (attempt : Str → Attempt) (replicas start : List Str)
    → Ended attempt start
        (askable is_dead attempt replicas)
        (forward_put is_dead attempt replicas start)
unfolding forward_put askable
forward_put-Ended is_dead attempt [] start =
    by_none tt (ap (λ l. record { error = some no_replica; asked = l }) (sym (append-nil start)))
forward_put-Ended is_dead attempt (id ∷ replicas) start = elim (Bool-cases (is_dead id)) [
  | inl dead ↦ rw dead (forward_put-Ended is_dead attempt replicas start)
  | inr alive ↦ rw alive (
      one (attempt id) refl (forward_put-Ended is_dead attempt replicas start)
        (forward_put-Ended is_dead attempt replicas (start ++ id ∷ [])))
]
  where
    rest : List Str
    rest = askable is_dead attempt replicas

    one :
        (a : Attempt)
        → attempt id ≡ a
        → Ended attempt start rest (forward_put is_dead attempt replicas start)
        → Ended attempt
            (start ++ id ∷ [])
            rest
            (forward_put is_dead attempt replicas (start ++ id ∷ []))
        → Ended attempt start (if has_client a then id ∷ rest else rest) (elim a [
          | no_client ↦ forward_put is_dead attempt replicas start
          | accepted ↦ record { error = none; asked = start ++ id ∷ [] }
          | refused unavailable ↦ forward_put is_dead attempt replicas (start ++ id ∷ [])
          | refused failed_precondition ↦ forward_put is_dead attempt replicas (start ++ id ∷ [])
          | refused other_code ↦ record {
            error = some (not_forwarded other_code);
            asked = start ++ id ∷ [];
          }
        ])
    one no_client e skip next = skip
    one accepted e skip next = by_ack [] id rest refl tt e refl
    one (refused unavailable) e skip next =
        Ended-onward attempt start rest id _ (subst MovesOn (sym e) tt) next
    one (refused failed_precondition) e skip next =
        Ended-onward attempt start rest id _ (subst MovesOn (sym e) tt) next
    one (refused other_code) e skip next = by_error [] id rest refl tt e refl

-- What isReplicaFor says of a key whose preference list is `listed`.
pub record IsPlacement (self : Str) (listed : List Str) (placed : Placement) : Type 0 where
  pub replica_iff : (placed.is_replica ≡ true) ↔ Memᴰ self listed
  pub peers_iff : (id : Str) → Memᴰ id placed.peers ↔ (Memᴰ id listed × (id ≢ self))

split_self-replica :
    (self : Str) (nodes : List Str) (f : Placement)
    → ((split_self self nodes f).is_replica ≡ true) ↔ ((f.is_replica ≡ true) ⊎ Memᴰ self nodes)
unfolding split_self
split_self-replica self [] f = (inl, λ s. elim s [ inl e ↦ e | inr m ↦ elim m [ ] ])
split_self-replica self (n ∷ nodes) f = elim (Bool-cases (str_eq n self)) [
  | inl e ↦
      rw (e, split_self)
        (
          λ h. inr (Memᴰ.head (sym ((str_eq_iff n self).0 e))),
          λ s. (split_self-replica self nodes (record f { is_replica = true })).1 (inl refl),
        )
  | inr e ↦
      rw (e, split_self)
        (
          λ h. elim ((split_self-replica self nodes (record f { peers = f.peers ++ n ∷ [] })).0 h) [
            | inl g ↦ inl g
            | inr m ↦ inr (Memᴰ.tail m)
          ],
          λ s. (split_self-replica self nodes (record f { peers = f.peers ++ n ∷ [] })).1 (elim s [
            | inl g ↦ inl g
            | inr m ↦ elim (List.Memᴰ.cases_cons m) [
              | inl g ↦ absurd (ground (arith, str_eq_iff n self))
              | inr k ↦ inr k
            ]
          ]),
        )
]

split_self-peers :
    (self : Str) (nodes : List Str) (f : Placement) (id : Str)
    → Memᴰ id (split_self self nodes f).peers ↔ (Memᴰ id f.peers ⊎ (Memᴰ id nodes × (id ≢ self)))
unfolding split_self
split_self-peers self [] f id = (inl, λ s. elim s [ inl m ↦ m | inr m ↦ elim m.0 [ ] ])
split_self-peers self (n ∷ nodes) f id = elim (Bool-cases (str_eq n self)) [
  | inl e ↦
      rw (e, split_self)
        (
          λ h. elim ((split_self-peers self nodes (record f { is_replica = true }) id).0 h) [
            | inl m ↦ inl m
            | inr m ↦ inr (Memᴰ.tail m.0, m.1)
          ],
          λ s. (split_self-peers self nodes (record f { is_replica = true }) id).1 (elim s [
            | inl m ↦ inl m
            | inr m ↦ elim (List.Memᴰ.cases_cons m.0) [
              | inl g ↦ absurd (m.1 (g ∙ (str_eq_iff n self).0 e))
              | inr k ↦ inr (k, m.1)
            ]
          ]),
        )
  | inr e ↦
      rw (e, split_self)
        (
          λ h.
              elim ((split_self-peers self nodes (record f { peers = f.peers ++ n ∷ [] }) id).0 h) [
                | inl m ↦ elim (List.Memᴰ.append_cases f.peers m) [
                  | inl k ↦ inl k
                  | inr k ↦
                      let same = List.Memᴰ.eq_of_singleton k in
                      inr (Memᴰ.head same, λ g. ground (arith, str_eq_iff n self))
                ]
                | inr m ↦ inr (Memᴰ.tail m.0, m.1)
              ],
          λ s. (split_self-peers self nodes (record f { peers = f.peers ++ n ∷ [] }) id).1 (elim s [
            | inl m ↦ inl (List.Memᴰ.append_left (n ∷ []) m)
            | inr m ↦ elim (List.Memᴰ.cases_cons m.0) [
              | inl g ↦ inl (List.Memᴰ.append_right f.peers (Memᴰ.head g))
              | inr k ↦ inr (k, m.1)
            ]
          ]),
        )
]

-- A node counts as a replica of a key exactly when the key's preference list names it, and its
-- peers are exactly the other nodes of the list.
pub is_replica_for-IsPlacement :
    (self : Str) (config : QuorumConfig) (ring : HashRing) (key : Str)
    → IsPlacement self (get_preference_list ring key config.n) (is_replica_for self config ring key)
unfolding is_replica_for
is_replica_for-IsPlacement self config ring key =
    let listed = get_preference_list ring key config.n in
    let start : Placement = record { is_replica = false; peers = [] } in
    record {
      replica_iff = (
        λ h. elim ((split_self-replica self listed start).0 h) [
          | inl e ↦ absurd (false≢true e)
          | inr m ↦ m
        ],
        λ m. (split_self-replica self listed start).1 (inr m),
      );
      peers_iff = λ id. (
        λ h. elim ((split_self-peers self listed start id).0 h) [ inl m ↦ elim m [ ] | inr m ↦ m ],
        λ m. (split_self-peers self listed start id).1 (inr m),
      );
    }
