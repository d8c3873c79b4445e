-- ===== src/Coordinator/Overlap.antt =====
-- Why W + R > N makes a read see an acknowledged write: two quorums of a key's replicas meet.
use distributed_kv_data_stor.Prelude.{
  ℕ, zero, suc, ◌+◌, ◌≤◌, ◌<◌, Str, ◌≡◌, refl, sym, ◌∙◌, subst, none, some, List, [], ◌∷◌, ◌++◌,
  map, length, length-append, take, arith, Bool-cases, Option-cases, inl, inr, ◌⊎◌, Memᴰ,
}
use mathlib.Core.List
use mathlib.Core.Bool.{true≢false}
use distributed_kv_data_stor.Model.{DataItem}
use distributed_kv_data_stor.HashRing.Claims.{Distinct}
use distributed_kv_data_stor.HashRing.Preference.{contains, contains-mem, mem-contains}
use distributed_kv_data_stor.Coordinator.Gather.{FetchResult}
use distributed_kv_data_stor.Coordinator.Read.{responses_in}

module _ {ℓ} {A : Type ℓ} where
  -- The list without one occurrence of a member.
  abbrev Without : A → List A → Type ℓ
  Without x ys =
      (rest : List A) × (length ys ≡ suc (length rest))
      × ((z : A) → Memᴰ z ys → (z ≡ x) ⊎ Memᴰ z rest)

  without : (x : A) (ys : List A) → Memᴰ x ys → Without x ys
  without x [] m = elim m [ ]
  without x (y ∷ ys) (Memᴰ.head e) =
      (ys, refl, λ z m. elim (List.Memᴰ.cases_cons m) [ inl f ↦ inl (f ∙ sym e) | inr n ↦ inr n ])
  without x (y ∷ ys) (Memᴰ.tail m) =
      let (rest, n, keep) = without x ys m in
      (
        y ∷ rest,
        omega arith,
        λ z k. elim (List.Memᴰ.cases_cons k) [
          | inl f ↦ inr (Memᴰ.head f)
          | inr l ↦ elim (keep z l) [ inl f ↦ inl f | inr o ↦ inr (Memᴰ.tail o) ]
        ],
      )

  -- Different elements of a list are no more than it has.
  pub Distinct-le :
      (xs ys : List A) → Distinct xs → ((z : A) → Memᴰ z xs → Memᴰ z ys) → length xs ≤ length ys
  Distinct-le [] ys d sub = omega arith
  Distinct-le (x ∷ xs) ys d sub =
      let (rest, n, keep) = without x ys (sub x (Memᴰ.head refl)) in
      let fits = Distinct-le xs rest d.1 (λ z m. elim (keep z (sub z (Memᴰ.tail m))) [
        | inl e ↦ absurd (d.0 (subst (λ w. Memᴰ w xs) e m))
        | inr k ↦ k
      ]) in
      omega arith

  pub Distinct-append :
      (xs ys : List A)
      → Distinct xs
      → Distinct ys
      → ((z : A) → Memᴰ z xs → Memᴰ z ys → ⊥)
      → Distinct (xs ++ ys)
  Distinct-append [] ys d e apart = e
  Distinct-append (x ∷ xs) ys d e apart = (
    λ m. elim (List.Memᴰ.append_cases xs m) [ inl k ↦ d.0 k | inr k ↦ apart x (Memᴰ.head refl) k ],
    Distinct-append xs ys d.1 e (λ z k l. apart z (Memᴰ.tail k) l),
  )

-- A node that is on both lists.
abbrev pub Common : List Str → List Str → Type 0
Common xs ys = (id : Str) × Memᴰ id xs × Memᴰ id ys

meet-or-apart : (xs ys : List Str) → Common xs ys ⊎ ((id : Str) → Memᴰ id xs → Memᴰ id ys → ⊥)
meet-or-apart [] ys = inr (λ id m k. elim m [ ])
meet-or-apart (x ∷ xs) ys = elim (Bool-cases (contains x ys)) [
  | inl e ↦ inl (x, Memᴰ.head refl, contains-mem x ys e)
  | inr e ↦ elim (meet-or-apart xs ys) [
    | inl (id, m, k) ↦ inl (id, Memᴰ.tail m, k)
    | inr apart ↦ inr (λ id m k. elim (List.Memᴰ.cases_cons m) [
      | inl f ↦ true≢false (sym (mem-contains x ys (subst (λ w. Memᴰ w ys) f k)) ∙ e)
      | inr l ↦ apart id l k
    ])
  ]
]

-- Two sets of nodes of a list that have more members together than the list have one in common.
pub quorums-meet :
    (listed xs ys : List Str)
    → Distinct xs
    → Distinct ys
    → ((id : Str) → Memᴰ id xs → Memᴰ id listed)
    → ((id : Str) → Memᴰ id ys → Memᴰ id listed)
    → length listed < length xs + length ys
    → Common xs ys
quorums-meet listed xs ys d e in_xs in_ys more = elim (meet-or-apart xs ys) [
  | inl common ↦ common
  | inr apart ↦
      let fits =
        Distinct-le (xs ++ ys) listed (Distinct-append xs ys d e apart) (λ id m.
          elim (List.Memᴰ.append_cases xs m) [ inl k ↦ in_xs id k | inr k ↦ in_ys id k ]) in
      let both = length-append xs ys in absurd (omega arith)
]

module _ {V : Type 0} where
  -- The peers whose result is a response.
  unfoldable pub answerers : List (FetchResult V) → List Str
  answerers [] = []
  answerers (res ∷ results) = elim res.answer [
    | none ↦ answerers results
    | some _ ↦ res.peer_id ∷ answerers results
  ]

  abbrev pub ids_of : List (FetchResult V) → List Str
  ids_of results = map (λ (res : FetchResult V). res.peer_id) results

  pub length-answerers :
      (results : List (FetchResult V)) → length (answerers results) ≡ responses_in results
  unfolding answerers responses_in
  length-answerers [] = refl
  length-answerers (res ∷ results) = ground (arith, length-answerers results)

  -- One of the results is a response of this peer.
  pub record Response (results : List (FetchResult V)) (id : Str) : Type 0 where
    pub by : FetchResult V
    pub items : List (DataItem V)
    pub mem : Memᴰ by results
    pub answered : by.answer ≡ some items
    pub exact : by.peer_id ≡ id

  answerers-cons :
      (res : FetchResult V) (results : List (FetchResult V)) (id : Str)
      → Memᴰ id (answerers (res ∷ results))
      → (Response (res ∷ results) id) ⊎ Memᴰ id (answerers results)
  unfolding answerers
  answerers-cons res results id m = elim (Option-cases res.answer) [
    | inl failed ↦ inr (
        subst
          (λ a.
            Memᴰ id
              (elim a [ none ↦ answerers results | some _ ↦ res.peer_id ∷ answerers results ]))
          failed m)
    | inr (items, got) ↦
        elim (List.Memᴰ.cases_cons (
          subst
            (λ a.
              Memᴰ id
                (elim a [ none ↦ answerers results | some _ ↦ res.peer_id ∷ answerers results ]))
            got m)) [
              | inl e ↦ inl (record {
                by = res;
                items = items;
                mem = Memᴰ.head refl;
                answered = got;
                exact = sym e;
              })
              | inr k ↦ inr k
            ]
  ]

  pub answerers-Response :
      (results : List (FetchResult V)) (id : Str)
      → Memᴰ id (answerers results)
      → Response results id
  unfolding answerers
  answerers-Response [] id m = elim m [ ]
  answerers-Response (res ∷ results) id m = elim (answerers-cons res results id m) [
    | inl r ↦ r
    | inr k ↦
        let r = answerers-Response results id k in
        record {
          by = r.by;
          items = r.items;
          mem = Memᴰ.tail r.mem;
          answered = r.answered;
          exact = r.exact;
        }
  ]

  pub Response-id :
      (results : List (FetchResult V)) (id : Str) → Response results id → Memᴰ id (ids_of results)
  Response-id results id r =
      subst (λ i. Memᴰ i (ids_of results)) r.exact
        (List.Memᴰ.map (λ (res : FetchResult V). res.peer_id) r.mem)

  pub answerers-Distinct :
      (results : List (FetchResult V)) → Distinct (ids_of results) → Distinct (answerers results)
  unfolding answerers
  answerers-Distinct [] d = tt
  answerers-Distinct (res ∷ results) d = elim (Option-cases res.answer) [
    | inl failed ↦ rw (failed, answerers) (answerers-Distinct results d.1)
    | inr (items, got) ↦
        rw (got, answerers)
          (
            λ m. d.0 (Response-id results res.peer_id (answerers-Response results res.peer_id m)),
            answerers-Distinct results d.1,
          )
  ]

  pub take-results :
      (n : ℕ) (results : List (FetchResult V)) (id : Str)
      → Response (take n results) id
      → Response results id
  take-results zero results id r = elim r.mem [ ]
  take-results (suc n) [] id r = elim r.mem [ ]
  take-results (suc n) (res ∷ results) id r = elim (List.Memᴰ.cases_cons r.mem) [
    | inl e ↦ record {
      by = r.by;
      items = r.items;
      mem = Memᴰ.head e;
      answered = r.answered;
      exact = r.exact;
    }
    | inr m ↦
        let s = take-results n results id (record {
          by = r.by;
          items = r.items;
          mem = m;
          answered = r.answered;
          exact = r.exact;
        }) in
        record {
          by = s.by;
          items = s.items;
          mem = Memᴰ.tail s.mem;
          answered = s.answered;
          exact = s.exact;
        }
  ]
