-- ===== src/Engine/Replacing.antt =====
-- A compaction changes no history.
use distributed_kv_data_stor.Prelude.{
  iff_trans, Str, ◌≡◌, refl, sym, ap, ap₂, subst, ◌∙◌, Bool, true, false, Option, none, some, List,
  [], ◌∷◌, ◌++◌, arith, Bool-cases, Option-cases, Result-cases, inl, inr, ◌⊎◌, ◌↔◌, ok,
}
use mathlib.Core.Option.{some-injective}
use distributed_kv_data_stor.VectorClock.{Snapshot}
use distributed_kv_data_stor.Versioning.Cover.{CoveredBy}
use distributed_kv_data_stor.Compaction.{Entry, select_tier_for_compaction, merge}
use distributed_kv_data_stor.Compaction.Merging.{
  EnteredBy, EnteredBy-append, read_all, merge-EnteredBy,
}
use distributed_kv_data_stor.Persister.{StorageError, Found}
use distributed_kv_data_stor.Engine.{Parts, StorageEngine, get_all}
use distributed_kv_data_stor.Engine.Compacting.{
  strip_run, replace_run, CompactWrites, swap_run, register_merged, compact_run, count_compaction,
  compact,
}
use distributed_kv_data_stor.Engine.Reads.{
  FoundCovers, TablesCover, LayersCover, get_all-LayersCover,
}
use distributed_kv_data_stor.Engine.Flushes.{HoldsEntries}

-- Pointers that are equal point to one table.
abbrev pub IsTableTest : {T : Type 0} → (T → T → Bool) → Type 0
IsTableTest same = (s t : _) → same s t ≡ true → s ≡ t

strip_run-eq :
    {T : Type 0} (same : T → T → Bool)
    → IsTableTest same
    → (run sstables rest : List T) → strip_run same run sstables ≡ some rest
    → sstables ≡ run ++ rest
unfolding strip_run
strip_run-eq same test [] sstables rest h = some-injective sstables rest h
strip_run-eq same test (src ∷ run) [] rest h = absurd (ground arith)
strip_run-eq same test (src ∷ run) (t ∷ sstables) rest h = elim (Bool-cases (same t src)) [
  | inr e ↦ absurd (ground (arith, e))
  | inl e ↦
      ap₂ (λ a l. a ∷ l) (test t src e)
        (strip_run-eq same test run sstables rest (ground (arith, e)))
]

-- The run stands somewhere in the list, and the merged table stands there instead.
pub record ReplacedRun {T : Type 0} (sstables run : List T) (merged : T) (out : List T)
    : Type 0 where
  pub newer : List T
  pub older : List T
  pub had : sstables ≡ newer ++ (run ++ older)
  pub has : out ≡ newer ++ merged ∷ older

pub replace_run-ReplacedRun :
    {T : Type 0} (same : T → T → Bool)
    → IsTableTest same
    → (sstables : List T) (first : T) (run : List T) (merged : T) (out : List T)
    → replace_run same sstables first run merged ≡ some out
    → ReplacedRun sstables (first ∷ run) merged out
unfolding replace_run
replace_run-ReplacedRun same test [] first run merged out h = absurd (ground arith)
replace_run-ReplacedRun same test (t ∷ sstables) first run merged out h =
    elim (Bool-cases (same t first)) [
      | inl e ↦ elim (Option-cases (strip_run same run sstables)) [
        | inl k ↦ absurd (ground (arith, e, k))
        | inr (rest, k) ↦
            let found : merged ∷ rest ≡ out = ground (arith, e, k) in
            record {
              newer = [];
              older = rest;
              had =
                  ap₂ (λ a l. a ∷ l) (test t first e) (strip_run-eq same test run sstables rest k);
              has = sym found;
            }
      ]
      | inr e ↦ elim (Option-cases (replace_run same sstables first run merged)) [
        | inl k ↦ absurd (ground (arith, e, k))
        | inr (later, k) ↦
            let found : t ∷ later ≡ out = ground (arith, e, k) in
            let rest = replace_run-ReplacedRun same test sstables first run merged later k in
            record {
              newer = t ∷ rest.newer;
              older = rest.older;
              had = ap (λ l. t ∷ l) rest.had;
              has = sym found ∙ ap (λ l. t ∷ l) rest.has;
            }
      ]
    ]

module _ {V R : Type 0} (P : Parts V R) where
  TablesCover-append :
      (key : Str) (xs ys : List P.tables.Table) (c : Snapshot)
      → TablesCover P key (xs ++ ys) c ↔ (TablesCover P key xs c ⊎ TablesCover P key ys c)
  TablesCover-append key [] ys c = (inr, λ s. elim s [ inl f ↦ absurd f | inr w ↦ w ])
  TablesCover-append key (x ∷ xs) ys c =
      let rest = TablesCover-append key xs ys c in
      (
        λ w. elim w [
          | inl v ↦ inl (inl v)
          | inr v ↦ elim (rest.0 v) [ inl u ↦ inl (inr u) | inr u ↦ inr u ]
        ],
        λ s. elim s [
          | inl v ↦ elim v [ inl u ↦ inl u | inr u ↦ inr (rest.1 (inl u)) ]
          | inr v ↦ inr (rest.1 (inr v))
        ],
      )

  replaced_covers :
      (key : Str) (c : Snapshot) (newer older : List P.tables.Table) (first : P.tables.Table)
      (run : List P.tables.Table) (merged : P.tables.Table)
      → FoundCovers (P.tables.get_all key merged) c ↔ TablesCover P key (first ∷ run) c
      → TablesCover P key (newer ++ merged ∷ older) c
        ↔ TablesCover P key (newer ++ ((first ∷ run) ++ older)) c
  replaced_covers key c newer older first run merged same =
      let left = TablesCover-append key newer (merged ∷ older) c in
      let right = TablesCover-append key newer ((first ∷ run) ++ older) c in
      let inside = TablesCover-append key (first ∷ run) older c in
      (
        λ w. right.1 (elim (left.0 w) [
          | inl v ↦ inl v
          | inr v ↦ inr (inside.1 (elim v [ inl u ↦ inl (same.0 u) | inr u ↦ inr u ]))
        ]),
        λ w. left.1 (elim (right.0 w) [
          | inl v ↦ inl v
          | inr v ↦ inr (elim (inside.0 v) [ inl u ↦ inl (same.1 u) | inr u ↦ inr u ])
        ]),
      )

  -- A table reads back the entries that it lists.
  abbrev pub TablesListed : Type 0
  TablesListed =
      (t : P.tables.Table) (entries : List (Entry V))
      → P.tables.all t ≡ ok entries
      → HoldsEntries P t entries

  read_all-TablesCover :
      TablesListed
      → (sources : List P.tables.Table) (entries : List (Entry V)) (key : Str) (c : Snapshot)
      → read_all P.tables.all sources ≡ ok entries
      → TablesCover P key sources c ↔ EnteredBy entries key c
  unfolding read_all
  read_all-TablesCover listed [] entries key c h =
      let empty : [] ≡ entries = ground arith in
      subst (λ l. ⊥ ↔ EnteredBy l key c) empty ((λ f. absurd f), (λ w. elim w.mem [ ]))
  read_all-TablesCover listed (src ∷ sources) entries key c h =
      elim (Result-cases (P.tables.all src)) [
        | inr (x, e) ↦ absurd (ground (arith, e))
        | inl (front, e) ↦ elim (Result-cases (read_all P.tables.all sources)) [
          | inr (x, f) ↦ absurd (ground (arith, e, f))
          | inl (back, f) ↦
              let whole : front ++ back ≡ entries = ground (arith, e, f) in
              let first = listed src front e key c in
              let rest = read_all-TablesCover listed sources back key c f in
              let parts = EnteredBy-append front back key c in
              subst (λ l. TablesCover P key (src ∷ sources) c ↔ EnteredBy l key c) whole
                (
                  λ w. parts.1 (elim w [ inl v ↦ inl (first.0 v) | inr v ↦ inr (rest.0 v) ]),
                  λ w. elim (parts.0 w) [ inl v ↦ inl (first.1 v) | inr v ↦ inr (rest.1 v) ],
                )
        ]
      ]

  -- The engine with another list of tables that covers the same.
  pub record KeptTables (e e' : StorageEngine P) : Type 0 where
    pub active : e'.active ≡ e.active
    pub flushing : e'.flushing ≡ e.flushing
    pub tables :
        (key : Str) (c : Snapshot)
        → TablesCover P key e'.sstables c ↔ TablesCover P key e.sstables c

  unchanged-KeptTables : (e : StorageEngine P) → KeptTables e e
  unchanged-KeptTables e = record {
    active = refl;
    flushing = refl;
    tables = λ key c. ((λ w. w), (λ w. w));
  }

  KeptTables-LayersCover :
      (e e' : StorageEngine P) (key : Str) (c : Snapshot)
      → KeptTables e e'
      → LayersCover P key e' c ↔ LayersCover P key e c
  KeptTables-LayersCover e e' key c h =
      subst (λ a. LayersCover P key (record e' { active = a }) c ↔ LayersCover P key e c)
        (sym h.active)
        (subst
          (λ f.
            LayersCover P key (record e' { active = e.active; flushing = f }) c
            ↔ LayersCover P key e c)
          (sym h.flushing)
          (
            λ w. elim w [
              | inl a ↦ inl a
              | inr q ↦ elim q [ inl f ↦ inr (inl f) | inr t ↦ inr (inr ((h.tables key c).0 t)) ]
            ],
            λ w. elim w [
              | inl a ↦ inl a
              | inr q ↦ elim q [ inl f ↦ inr (inl f) | inr t ↦ inr (inr ((h.tables key c).1 t)) ]
            ],
          ))

  -- The merged table in place of a run that covers the same.
  swap_run-KeptTables :
      IsTableTest P.tables.same_table
      → (first : P.tables.Table) (run : List P.tables.Table) (merged : P.tables.Table)
        (e e' : StorageEngine P)
      → swap_run P first run merged e ≡ ok e'
      → ((key : Str) (c : Snapshot)
          → FoundCovers (P.tables.get_all key merged) c ↔ TablesCover P key (first ∷ run) c)
      → KeptTables e e'
  unfolding swap_run
  swap_run-KeptTables test first run merged e e' h same =
      elim (Option-cases (replace_run P.tables.same_table e.sstables first run merged)) [
        | inl k ↦ absurd (ground (arith, k))
        | inr (swapped, k) ↦
            let r =
              replace_run-ReplacedRun P.tables.same_table test e.sstables first run merged swapped
                k in
            let found : record e { sstables = swapped } ≡ e' = ground (arith, k) in
            subst (KeptTables e) found (record {
              active = refl;
              flushing = refl;
              tables = λ key c.
                  subst (λ l. TablesCover P key swapped c ↔ TablesCover P key l c) (sym r.had)
                    (subst
                      (λ l.
                        TablesCover P key l c
                        ↔ TablesCover P key (r.newer ++ ((first ∷ run) ++ r.older)) c)
                      (sym r.has)
                      (replaced_covers key c r.newer r.older first run merged (same key c)));
            })
      ]

  pub compact_run-KeptTables :
      TablesListed
      → IsTableTest P.tables.same_table
      → (writes : CompactWrites P)
      → ((entries : List (Entry V)) (merged : P.tables.Table)
          → writes.write_table entries ≡ ok merged
          → HoldsEntries P merged entries)
      → (first : P.tables.Table) (run : List P.tables.Table) (e e' : StorageEngine P)
      → compact_run P writes first run e ≡ ok e'
      → KeptTables e e'
  unfolding compact_run register_merged
  compact_run-KeptTables listed test writes written first run e e' h =
      elim (Result-cases (merge P.tables.all (first ∷ run))) [
        | inr (x, k) ↦ absurd (ground (arith, k))
        | inl (entries, k) ↦ elim (Result-cases (writes.write_table entries)) [
          | inr (x, l) ↦ absurd (ground (arith, k, l))
          | inl (merged, l) ↦ elim (Option-cases writes.added) [
            | inr (x, a) ↦ absurd (ground (arith, k, l, a))
            | inl a ↦ elim (Option-cases writes.removed) [
              | inr (x, b) ↦ absurd (ground (arith, k, l, a, b))
              | inl b ↦
                  let (all, whole, same) = merge-EnteredBy P.tables.all (first ∷ run) entries k in
                  swap_run-KeptTables test first run merged e e' (ground (arith, k, l, a, b))
                    (λ key c.
                      let table = written entries merged l key c in
                      let sources = read_all-TablesCover listed (first ∷ run) all key c whole in
                      let between = same key c in
                      (
                        λ w. sources.1 (between.0 (table.0 w)),
                        λ w. table.1 (between.1 (sources.0 w)),
                      ))
            ]
          ]
        ]
      ]

  compact-KeptTables :
      TablesListed
      → IsTableTest P.tables.same_table
      → (closed : Bool) (writes : CompactWrites P) (current : List P.tables.Table)
        (e : StorageEngine P)
      → ((entries : List (Entry V)) (merged : P.tables.Table)
          → writes.write_table entries ≡ ok merged
          → HoldsEntries P merged entries)
      → KeptTables e (compact P closed writes current e).1
  unfolding compact count_compaction
  compact-KeptTables listed test true writes current e written = unchanged-KeptTables e
  compact-KeptTables listed test false writes current e written =
      go (select_tier_for_compaction P.tables.size current)
    where
      go :
          (run : List P.tables.Table)
          → KeptTables e
              (elim run as (λ _. Option StorageError × StorageEngine P) [
                | [] ↦ (none, e)
                | first ∷ rest ↦ count_compaction P e (compact_run P writes first rest e)
              ]).1
      go [] = unchanged-KeptTables e
      go (first ∷ rest) = elim (Result-cases (compact_run P writes first rest e)) [
        | inr (x, k) ↦
            rw (k, count_compaction)
              (record { active = refl; flushing = refl; tables = λ key c. ((λ w. w), (λ w. w)) })
        | inl (e', k) ↦
            let kept = compact_run-KeptTables listed test writes written first rest e e' k in
            rw (k, count_compaction)
              (record { active = kept.active; flushing = kept.flushing; tables = kept.tables })
      ]

  -- Whatever a compaction does - there is nothing to merge, a step fails, or a run is replaced - a
  -- read after it covers exactly what a read before it does. It relies on tables that read back the
  -- entries written to them, and on equal pointers pointing to one table.
  pub compact-keeps :
      TablesListed
      → IsTableTest P.tables.same_table
      → (closed : Bool) (writes : CompactWrites P) (current : List P.tables.Table)
        (e : StorageEngine P)
      → ((entries : List (Entry V)) (merged : P.tables.Table)
          → writes.write_table entries ≡ ok merged
          → HoldsEntries P merged entries)
      → (key : Str) (r r' : Found V) → get_all P key e ≡ ok r
      → get_all P key (compact P closed writes current e).1 ≡ ok r'
      → (c : Snapshot) → CoveredBy r'.items c ↔ CoveredBy r.items c
  compact-keeps listed test closed writes current e written key r r' h k c =
      let before = get_all-LayersCover P key e r c h in
      let after = get_all-LayersCover P key (compact P closed writes current e).1 r' c k in
      let kept = compact-KeptTables listed test closed writes current e written in
      let layers = KeptTables-LayersCover e (compact P closed writes current e).1 key c kept in
      iff_trans after (iff_trans layers ((λ w. before.1 w), (λ w. before.0 w)))
