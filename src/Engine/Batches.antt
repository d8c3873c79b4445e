-- ===== src/Engine/Batches.antt =====
-- How the committer of write.go cuts the queue of requests into batches. `size` is the length of a
-- request's record.
use distributed_kv_data_stor.Prelude.{
  ℕ, zero, suc, ◌+◌, ◌-◌, ◌≤◌, ◌≡◌, refl, sym, ap, ◌∙◌, Option, none, some, List, [], ◌∷◌, ◌++◌,
  length, length-append, ltb, if◌then◌else◌, arith, Bool-cases, inl, inr, ◌⊎◌, All,
}

abbrev pub max_batch_records : ℕ
max_batch_records = 1000

abbrev pub max_batch_bytes : ℕ
max_batch_bytes = 1048576

-- What a round of the committer leaves: the batch, the request carried over, and the queue.
pub record Round (A : Type 0) : Type 0 where
  pub batch : List A
  pub carried : Option A
  pub queue : List A

module _ {A : Type 0} (size : A → ℕ) where
  -- The fill loop, with the room left in the batch and its bytes so far, over what is queued.
  unfoldable pub fill : ℕ → ℕ → List A → Round A
  fill zero bytes queue = record { batch = []; carried = none; queue = queue }
  fill (suc room) bytes [] = record { batch = []; carried = none; queue = [] }
  fill (suc room) bytes (req ∷ queue) =
      let rest = fill room (bytes + size req) queue in
      if ltb max_batch_bytes (bytes + size req)
      then record { batch = []; carried = some req; queue = queue }
      else record rest { batch = req ∷ rest.batch }

  -- The batch that starts with a request.
  unfoldable pub start_batch : A → List A → Round A
  unfolding fill
  start_batch first queue =
      let rest = fill (max_batch_records - 1) (size first) queue in
      record rest { batch = first ∷ rest.batch }

  -- The rounds until the queue is empty; each takes a request at least, so as many rounds as
  -- requests are enough.
  unfoldable pub batches : ℕ → Option A → List A → List (List A)
  unfolding start_batch
  batches zero carried queue = []
  batches (suc fuel) (some first) queue =
      let r = start_batch first queue in r.batch ∷ batches fuel r.carried r.queue
  batches (suc fuel) none [] = []
  batches (suc fuel) none (first ∷ queue) =
      let r = start_batch first queue in r.batch ∷ batches fuel r.carried r.queue

  abbrev pub total : List A → ℕ
  total [] = 0
  total (req ∷ batch) = size req + total batch

  abbrev pub waiting : Option A → List A → List A
  waiting none queue = queue
  waiting (some req) queue = req ∷ queue

  -- A batch within the bounds: at most 1000 records, and a record of its own or at most 1 MB.
  pub record IsBounded (batch : List A) : Type 0 where
    pub records : length batch ≤ max_batch_records
    pub bytes : (length batch ≡ 1) ⊎ (total batch ≤ max_batch_bytes)

  record Filled (room bytes : ℕ) (queue : List A) (r : Round A) : Type 0 where
    in_order : r.batch ++ waiting r.carried r.queue ≡ queue
    records : length r.batch ≤ room
    within : (r.batch ≡ []) ⊎ (bytes + total r.batch ≤ max_batch_bytes)

  fill-Filled : (room bytes : ℕ) (queue : List A) → Filled room bytes queue (fill room bytes queue)
  unfolding fill
  fill-Filled zero bytes queue = record {
    in_order = refl;
    records = omega arith;
    within = inl refl;
  }
  fill-Filled (suc room) bytes [] = record {
    in_order = refl;
    records = omega arith;
    within = inl refl;
  }
  fill-Filled (suc room) bytes (req ∷ queue) =
      let rest = fill-Filled room (bytes + size req) queue in
      let fits_rest = rest.records in
      elim (Bool-cases (ltb max_batch_bytes (bytes + size req))) [
        | inl e ↦
            rw (e, fill) (record { in_order = refl; records = omega arith; within = inl refl })
        | inr e ↦
            rw (e, fill)
              (record {
                in_order = ap (λ l. req ∷ l) rest.in_order;
                records = omega (arith, fits_rest);
                within = inr (elim rest.within [
                  | inl none_more ↦
                      let empty : total (fill room (bytes + size req) queue).batch ≡ 0 =
                        ap total none_more in
                      ground (arith, e, empty)
                  | inr fits ↦ ground (arith, fits)
                ]);
              })
      ]

  -- A batch in bounds, with what it leaves in order.
  record BatchStarted (first : A) (queue : List A) (r : Round A) : Type 0 where
    in_order : r.batch ++ waiting r.carried r.queue ≡ first ∷ queue
    bounded : IsBounded r.batch
    fewer : length (waiting r.carried r.queue) ≤ length queue

  start_batch-BatchStarted :
      (first : A) (queue : List A) → BatchStarted first queue (start_batch first queue)
  unfolding start_batch
  start_batch-BatchStarted first queue =
      let rest = fill-Filled (max_batch_records - 1) (size first) queue in
      let records = rest.records in
      let count : length (fill (max_batch_records - 1) (size first) queue).batch
            + length (
                waiting (fill (max_batch_records - 1) (size first) queue).carried
                  (fill (max_batch_records - 1) (size first) queue).queue)
          ≡ length queue =
        sym (
          length-append (fill (max_batch_records - 1) (size first) queue).batch (
            waiting (fill (max_batch_records - 1) (size first) queue).carried
              (fill (max_batch_records - 1) (size first) queue).queue))
        ∙ ap length rest.in_order in
      record {
        in_order = ap (λ l. first ∷ l) rest.in_order;
        bounded = record {
          records = omega (arith, records);
          bytes = elim rest.within [
            | inl alone ↦ inl (ap (λ l. suc (length l)) alone)
            | inr fits ↦ inr fits
          ];
        };
        fewer = omega (arith, count);
      }

  abbrev pub joined : List (List A) → List A
  joined [] = []
  joined (batch ∷ rest) = batch ++ joined rest

  -- The batches of the committer.
  pub record CutWell (requests : List A) (cut : List (List A)) : Type 0 where
    pub each_once : joined cut ≡ requests
    pub each_bounded : All IsBounded cut

  step-CutWell :
      (first : A) (queue : List A) (rest : List (List A))
      → CutWell (waiting (start_batch first queue).carried (start_batch first queue).queue) rest
      → CutWell (first ∷ queue) ((start_batch first queue).batch ∷ rest)
  step-CutWell first queue rest h =
      let started = start_batch-BatchStarted first queue in
      record {
        each_once = ap (λ l. (start_batch first queue).batch ++ l) h.each_once ∙ started.in_order;
        each_bounded = (started.bounded, h.each_bounded);
      }

  -- With a round for each request: every request that is queued, or carried over, goes into exactly
  -- one batch, in the order of the queue, and each batch has at most 1000 records, and at most 1 MB
  -- unless it is one record.
  pub batches-CutWell :
      (fuel : ℕ) (carried : Option A) (queue : List A)
      → length (waiting carried queue) ≤ fuel
      → CutWell (waiting carried queue) (batches fuel carried queue)
  unfolding batches
  batches-CutWell zero none [] h = record { each_once = refl; each_bounded = tt }
  batches-CutWell zero none (first ∷ queue) h = absurd (omega arith)
  batches-CutWell zero (some first) queue h = absurd (omega arith)
  batches-CutWell (suc fuel) none [] h = record { each_once = refl; each_bounded = tt }
  batches-CutWell (suc fuel) none (first ∷ queue) h =
      let r = start_batch first queue in
      let fewer = (start_batch-BatchStarted first queue).fewer in
      step-CutWell first queue (batches fuel r.carried r.queue)
        (batches-CutWell fuel r.carried r.queue (omega (arith, fewer)))
  batches-CutWell (suc fuel) (some first) queue h =
      let r = start_batch first queue in
      let fewer = (start_batch-BatchStarted first queue).fewer in
      step-CutWell first queue (batches fuel r.carried r.queue)
        (batches-CutWell fuel r.carried r.queue (omega (arith, fewer)))
