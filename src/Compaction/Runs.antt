-- ===== src/Compaction/Runs.antt =====
-- What SelectTierForCompaction selects: a run of adjacent tables of one tier, none longer.
use distributed_kv_data_stor.Prelude.{
  ℕ, zero, suc, ◌≤◌, ◌≡◌, ◌≢◌, refl, sym, ap, subst, ◌∙◌, ◌&&◌, List, [], ◌∷◌, ◌++◌, append_assoc,
  leb, ltb, ◌==◌, length, length-append, arith, Bool-cases, inl, inr, ◌⊎◌, All,
}
use distributed_kv_data_stor.Compaction.{
  min_tier_size, tier_of, extend, better, select_from, select_tier_for_compaction,
}

module _ {A : Type 0} (size : A → ℕ) where
  -- All the tables are of this tier.
  abbrev pub OfTier : ℕ → List A → Type 0
  OfTier tier tables = All (λ t. tier_of (size t) ≡ tier) tables

  -- The list does not start with a table of this tier.
  abbrev pub EndsTier : ℕ → List A → Type 0
  EndsTier tier [] = Unit
  EndsTier tier (t ∷ ts) = tier_of (size t) ≢ tier

  extend_lem :
      (tier : ℕ) (ts : List A)
      → ((extend size tier ts).0 ++ (extend size tier ts).1 ≡ ts)
        × OfTier tier (extend size tier ts).0
        × EndsTier tier (extend size tier ts).1
  unfolding extend
  extend_lem tier [] = (refl, tt, tt)
  extend_lem tier (t ∷ ts) = elim (Bool-cases (tier_of (size t) == tier)) [
    | inl e ↦
        let (split, all, ends) = extend_lem tier ts in
        rw (e, extend) (ap (λ l. t ∷ l) split, (ground arith, all), ends)
    | inr e ↦ rw (e, extend) (refl, tt, λ same. ground arith)
  ]

  -- A part of the list that is adjacent in it and of one tier.
  pub record Run (tables run : List A) : Type 0 where
    pub before : List A
    pub after : List A
    pub adjacent : tables ≡ before ++ (run ++ after)
    pub tier : ℕ
    pub same_tier : OfTier tier run

  abbrev tail_of : List A → List A
  tail_of [] = []
  tail_of (_ ∷ ts) = ts

  abbrev head_tier : ℕ → List A → ℕ
  head_tier d [] = d
  head_tier d (t ∷ _) = tier_of (size t)

  -- A run that starts a list does not go on past the tables of its tier.
  starts_within :
      (tier : ℕ) (run after first rest : List A)
      → run ++ after ≡ first ++ rest
      → OfTier tier run
      → EndsTier tier rest
      → length run ≤ length first
  starts_within tier [] after first rest e all ends = omega arith
  starts_within tier (t ∷ run) after [] [] e all ends = absurd (cc)
  starts_within tier (t ∷ run) after [] (u ∷ rest) e all ends =
      absurd (ends (sym (ap (head_tier 0) e) ∙ all.0))
  starts_within tier (t ∷ run) after (u ∷ first) rest e all ends =
      let shorter = starts_within tier run after first rest (ap tail_of e) all.1 ends in omega arith

  -- A run of `first ++ rest`, where `first` is all the tables of its tier, is no longer than `first`
  -- or a run of `rest`.
  first-or-rest :
      (first rest before run after : List A) (first_tier tier : ℕ)
      → first ++ rest ≡ before ++ (run ++ after)
      → OfTier first_tier first
      → EndsTier first_tier rest
      → OfTier tier run
      → (length run ≤ length first) ⊎ Run rest run
  first-or-rest [] rest before run after first_tier tier e all ends same =
      inr (record { before = before; after = after; adjacent = e; tier = tier; same_tier = same })
  first-or-rest (x ∷ first) rest [] [] after first_tier tier e all ends same = inl (omega arith)
  first-or-rest (x ∷ first) rest [] (t ∷ run) after first_tier tier e all ends same =
      let one : first_tier ≡ tier = sym all.0 ∙ ap (head_tier 0) e ∙ same.0 in
      inl (
        starts_within tier (t ∷ run) after (x ∷ first) rest (sym e) same
          (subst (λ k. EndsTier k rest) one ends))
  first-or-rest (x ∷ first) rest (b ∷ before) run after first_tier tier e all ends same =
      elim (first-or-rest first rest before run after first_tier tier (ap tail_of e) all.1 ends
        same) [ inl h ↦ inl (omega arith) | inr r ↦ inr r ]

  -- What may be selected: nothing, or a run of four tables at least.
  abbrev Selectable : List A → List A → Type 0
  Selectable tables best = (length best ≡ 0) ⊎ (Run tables best × (min_tier_size ≤ length best))

  better_lem :
      (tables run best : List A)
      → Run tables run
      → Selectable tables best
      → Selectable tables (better size run best)
        × (length best ≤ length (better size run best))
        × (min_tier_size ≤ length run → length run ≤ length (better size run best))
  better_lem tables run best r s =
      elim (Bool-cases (leb min_tier_size (length run) && ltb (length best) (length run))) [
        | inl e ↦ rw e (inr (r, ground arith), ground arith, λ h. omega arith)
        | inr e ↦ rw e (s, omega arith, λ h. ground arith)
      ]

  no-Run : (run : List A) → Run [] run → length run ≡ 0
  no-Run run r =
      let whole = ap (λ (l : List A). length l) r.adjacent in
      let outer = length-append r.before (run ++ r.after) in
      let inner = length-append run r.after in omega arith

  select_from_lem :
      (fuel : ℕ) (all done tables best : List A)
      → all ≡ done ++ tables
      → length tables ≤ fuel
      → Selectable all best
      → Selectable all (select_from size fuel tables best)
        × (length best ≤ length (select_from size fuel tables best))
        × ((run : List A)
            → Run tables run
            → min_tier_size ≤ length run
            → length run ≤ length (select_from size fuel tables best))
  unfolding select_from
  select_from_lem zero all done [] best e h s =
      (s, omega arith, λ run r long. let none_there = no-Run run r in omega arith)
  select_from_lem zero all done (t ∷ ts) best e h s = absurd (omega arith)
  select_from_lem (suc fuel) all done [] best e h s =
      (s, omega arith, λ run r long. let none_there = no-Run run r in omega arith)
  select_from_lem (suc fuel) all done (t ∷ ts) best e h s =
      let tier = tier_of (size t) in
      let run1 = t ∷ (extend size tier ts).0 in
      let rest = (extend size tier ts).1 in
      let (split, same, ends) = extend_lem tier ts in
      let whole : t ∷ ts ≡ run1 ++ rest = ap (λ l. t ∷ l) (sym split) in
      let r1 : Run all run1 = record {
        before = done;
        after = rest;
        adjacent = e ∙ ap (λ l. done ++ l) whole;
        tier = tier;
        same_tier = (refl, same);
      } in
      let (s1, grows, long1) = better_lem all run1 best r1 s in
      let counted = ap (λ (l : List A). length l) whole in
      let parts = length-append (extend size tier ts).0 rest in
      let (s2, more, others) =
        select_from_lem fuel all (done ++ run1) rest (better size run1 best)
          (e ∙ ap (λ l. done ++ l) whole ∙ sym (append_assoc done run1 rest)) (omega arith) s1 in
      (
        s2,
        omega arith,
        λ run r long.
            elim (first-or-rest run1 rest r.before run r.after tier r.tier (sym whole ∙ r.adjacent)
              (refl, same) ends r.same_tier) [
                | inl h1 ↦ let first_long = long1 (omega arith) in omega arith
                | inr q ↦ others run q long
              ],
      )

  -- Nothing, or an adjacent run of four tables at least, all of one tier; no such run is longer.
  pub record IsLongestRun (tables selected : List A) : Type 0 where
    pub selectable :
        (length selected ≡ 0) ⊎ (Run tables selected × (min_tier_size ≤ length selected))
    pub longest :
        (run : List A) → Run tables run → min_tier_size ≤ length run → length run ≤ length selected

  -- SelectTierForCompaction returns such a run: nothing exactly if no four adjacent tables share a
  -- tier, and otherwise a longest adjacent run of one tier.
  pub select_tier_for_compaction-IsLongestRun :
      (tables : List A) → IsLongestRun tables (select_tier_for_compaction size tables)
  unfolding select_tier_for_compaction
  select_tier_for_compaction-IsLongestRun tables =
      let (s, _, others) =
        select_from_lem (length tables) tables [] tables [] refl (omega arith) (inl refl) in
      record { selectable = s; longest = others }
