-- ===== src/Coordinator/Read.antt =====
-- The read quorum: which answers a successful Get has merged, and that the early exits lose none.
use distributed_kv_data_stor.Prelude.{
  ℕ, zero, suc, ◌+◌, ◌≤◌, ◌<◌, ◌≡◌, refl, sym, ap, ◌∙◌, subst, Bool, true, false, none, some, List,
  [], ◌∷◌, map, leb, length, take, arith, Bool-cases, Option-cases, inl, inr, ◌⊎◌, ◌↔◌, Memᴰ,
}
use mathlib.Core.List
use mathlib.Core.Option.{some-ne-none, some-injective}
use distributed_kv_data_stor.VectorClock.{Snapshot}
use distributed_kv_data_stor.Model.{DataItem}
use distributed_kv_data_stor.Versioning.{merge_siblings}
use distributed_kv_data_stor.Versioning.Cover.{CoveredBy, merge_siblings-CoveredBy}
use distributed_kv_data_stor.Coordinator.{Select, arrives}
use distributed_kv_data_stor.Coordinator.Gather.{
  FetchResult, ReadOutcome, read_ok, ReadProgress, take_in, collect_reads,
}

module _ {V : Type 0} where
  -- How many of the results are responses.
  unfoldable pub responses_in : List (FetchResult V) → ℕ
  responses_in [] = 0
  responses_in (res ∷ results) = elim res.answer [
    | none ↦ responses_in results
    | some _ ↦ suc (responses_in results)
  ]

  -- One of the results is a response that covers the clock.
  pub record AnsweredBy (results : List (FetchResult V)) (c : Snapshot) : Type 0 where
    pub by : FetchResult V
    pub items : List (DataItem V)
    pub mem : Memᴰ by results
    pub answered : by.answer ≡ some items
    pub covers : CoveredBy items c

  abbrev pub all_fetched : List (FetchResult V) → List (Select (FetchResult V))
  all_fetched results = map arrives results

  abbrev pub is_ok : ReadOutcome V → Bool
  is_ok (read_ok _) = true
  is_ok _ = false

  responses_in-le : (results : List (FetchResult V)) → responses_in results ≤ length results
  unfolding responses_in
  responses_in-le [] = omega arith
  responses_in-le (res ∷ results) = ground (arith, responses_in-le results)

  -- When every peer answers, the loop succeeds exactly if there are R responses in all.
  pub collect_reads-all :
      (needed total : ℕ) (results : List (FetchResult V)) (p : ReadProgress V)
      → p.responses < needed
      → total ≡ p.responses + p.failures + length results
      → is_ok (collect_reads needed total (length results) (all_fetched results) p)
        ≡ leb needed (p.responses + responses_in results)
  unfolding collect_reads responses_in take_in
  collect_reads-all needed total [] p lt e = ground arith
  collect_reads-all needed total (res ∷ results) p lt e =
      ground
        (arith, responses_in-le results, collect_reads-all needed total results (take_in res p))

  -- `merged` covers what `p` and the first answers cover, and no more; with those the read has its R
  -- responses.
  pub record Gathered (needed : ℕ) (results : List (FetchResult V)) (p : ReadProgress V)
      (merged : List (DataItem V)) : Type 0 where
    pub taken : ℕ
    pub enough : needed ≤ p.responses + responses_in (take taken results)
    pub covers :
        (c : Snapshot)
        → CoveredBy merged c ↔ (CoveredBy p.merged c ⊎ AnsweredBy (take taken results) c)

  AnsweredBy-cons :
      (res : FetchResult V) (results : List (FetchResult V)) (c : Snapshot)
      → AnsweredBy results c
      → AnsweredBy (res ∷ results) c
  AnsweredBy-cons res results c a = record {
    by = a.by;
    items = a.items;
    mem = Memᴰ.tail a.mem;
    answered = a.answered;
    covers = a.covers;
  }

  none-answers : (c : Snapshot) → AnsweredBy [] c → ⊥
  none-answers c a = elim a.mem [ ]

  take_in-none :
      (res : FetchResult V) (p : ReadProgress V)
      → res.answer ≡ none
      → (take_in res p).merged ≡ p.merged
  unfolding take_in
  take_in-none res p e = ground arith

  take_in-some :
      (res : FetchResult V) (p : ReadProgress V) (items : List (DataItem V))
      → res.answer ≡ some items
      → (take_in res p).merged ≡ merge_siblings p.merged items
  unfolding take_in
  take_in-some res p items e = ground arith

  -- One more answer taken in.
  take_in-covers :
      (res : FetchResult V) (results : List (FetchResult V)) (p : ReadProgress V) (c : Snapshot)
      → (CoveredBy (take_in res p).merged c ⊎ AnsweredBy results c)
        ↔ (CoveredBy p.merged c ⊎ AnsweredBy (res ∷ results) c)
  take_in-covers res results p c = elim (Option-cases res.answer) [
    | inl failed ↦ rw (take_in-none res p failed) (
      λ s. elim s [ inl w ↦ inl w | inr a ↦ inr (AnsweredBy-cons res results c a) ],
      λ s. elim s [
        | inl w ↦ inl w
        | inr a ↦ elim (List.Memᴰ.cases_cons a.mem) [
          | inl e ↦ absurd (
              some-ne-none a.items
                (sym a.answered ∙ ap (λ (r : FetchResult V). r.answer) e ∙ failed))
          | inr n ↦ inr (record {
            by = a.by;
            items = a.items;
            mem = n;
            answered = a.answered;
            covers = a.covers;
          })
        ]
      ],
    )
    | inr (items, got) ↦ rw (take_in-some res p items got) (
      λ s. elim s [
        | inl w ↦ elim ((merge_siblings-CoveredBy p.merged items c).0 w) [
          | inl v ↦ inl v
          | inr v ↦
              inr (record {
                by = res;
                items = items;
                mem = Memᴰ.head refl;
                answered = got;
                covers = v;
              })
        ]
        | inr a ↦ inr (AnsweredBy-cons res results c a)
      ],
      λ s. elim s [
        | inl w ↦ inl ((merge_siblings-CoveredBy p.merged items c).1 (inl w))
        | inr a ↦ elim (List.Memᴰ.cases_cons a.mem) [
          | inl e ↦
              let same : a.items ≡ items =
                some-injective a.items items
                  (sym a.answered ∙ ap (λ (r : FetchResult V). r.answer) e ∙ got) in
              inl (
                (merge_siblings-CoveredBy p.merged items c).1
                  (inr (subst (λ l. CoveredBy l c) same a.covers)))
          | inr n ↦ inr (record {
            by = a.by;
            items = a.items;
            mem = n;
            answered = a.answered;
            covers = a.covers;
          })
        ]
      ],
    )
  ]

  take_in-responses :
      (res : FetchResult V) (results : List (FetchResult V)) (p : ReadProgress V)
      → (take_in res p).responses + responses_in results
        ≡ p.responses + responses_in (res ∷ results)
  unfolding take_in responses_in
  take_in-responses res results p = ground arith

  Gathered-next :
      (needed : ℕ) (res : FetchResult V) (results : List (FetchResult V)) (p : ReadProgress V)
      (merged : List (DataItem V))
      → Gathered needed results (take_in res p) merged
      → Gathered needed (res ∷ results) p merged
  Gathered-next needed res results p merged g = record {
    taken = suc g.taken;
    enough = rw (← take_in-responses res (take g.taken results) p) g.enough;
    covers = λ c. (
      λ w. (take_in-covers res (take g.taken results) p c).0 ((g.covers c).0 w),
      λ s. (g.covers c).1 ((take_in-covers res (take g.taken results) p c).1 s),
    );
  }

  pub Gathered-now :
      (needed : ℕ) (results : List (FetchResult V)) (p : ReadProgress V)
      → needed ≤ p.responses
      → Gathered needed results p p.merged
  unfolding responses_in
  Gathered-now needed results p h = record {
    taken = 0;
    enough = omega arith;
    covers = λ c. (inl, λ s. elim s [ inl w ↦ w | inr a ↦ absurd (none-answers c a) ]);
  }

  pub collect_reads-Gathered :
      (needed total left : ℕ) (results : List (FetchResult V)) (p : ReadProgress V)
      (merged : List (DataItem V))
      → collect_reads needed total left (all_fetched results) p ≡ read_ok merged
      → Gathered needed results p merged
  unfolding collect_reads
  collect_reads-Gathered needed total zero results p merged h = absurd (ground arith)
  collect_reads-Gathered needed total (suc left) [] p merged h = absurd (ground arith)
  collect_reads-Gathered needed total (suc left) (res ∷ results) p merged h =
      Gathered-next needed res results p merged
        (elim (Bool-cases (leb needed (take_in res p).responses)) [
          | inl e ↦
              let same : (take_in res p).merged ≡ merged = ground arith in
              subst (Gathered needed results (take_in res p)) same
                (Gathered-now needed results (take_in res p) (ground arith))
          | inr e ↦
              collect_reads-Gathered needed total left results (take_in res p) merged (ground arith)
        ])
