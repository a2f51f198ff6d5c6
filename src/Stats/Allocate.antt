-- ===== src/Stats/Allocate.antt =====
-- stats.rs: `allocate_slots`. `clock i` is the clock at the i-th call of `elapsed`: one per tenant
-- for the guaranteed ones, then one per tenant for the others.
use rocksqueue.Base.{
  ℕ, suc, ◌+◌, ◌-◌, ◌*◌, ◌%◌, ◌^◌, ◌==◌, Bool, true, false, not, ◌||◌, some, List, [], ◌∷◌, ◌++◌,
  map, length, if◌then◌else◌, ltb, min, Ordering,
}
use rocksqueue.Bytes.{Bytes, beq}
use rocksqueue.Float.{F64}
use rocksqueue.Stats.{TenantStats, Collector, min_guarantee_slots}

-- `find(id).map(|e| e.1 += n)`
unfoldable pub add_to : Bytes → ℕ → List (Bytes × ℕ) → List (Bytes × ℕ)
add_to id n [] = []
add_to id n ((j, m) ∷ l) =
    let rest = add_to id n l in if beq j id then (j, (m + n) % 2 ^ 64) ∷ l else (j, m) ∷ rest

unfoldable pub retain_some : List (Bytes × ℕ) → List (Bytes × ℕ)
retain_some [] = []
retain_some ((id, n) ∷ l) = let rest = retain_some l in if ltb 0 n then (id, n) ∷ rest else rest

module _ (f : F64) where
  abbrev Scored : Type 0
  Scored = TenantStats f × f.Num

  -- `last_enqueue_at.elapsed().as_secs_f64() > 30.0`
  unfoldable pub is_dormant : (now : ℕ) → TenantStats f → Bool
  is_dormant now s = f.gt (f.secs (now - s.last_enqueue_at)) (f.of_nat 30)

  -- The tenants whose test `is_new || dormant` has the result `wanted`.
  unfoldable pub select :
      (wanted : Bool) (clock : ℕ → ℕ) (i : ℕ) → List (TenantStats f) → List (TenantStats f)
  select wanted clock i [] = []
  select wanted clock i (s ∷ l) =
      let rest = select wanted clock (suc i) l in
      let guaranteed = s.is_new || is_dormant (clock i) s in
      if (if wanted then guaranteed else not guaranteed) then s ∷ rest else rest

  -- The score of a tenant; 2.0 is the burst penalty.
  unfoldable pub score : TenantStats f → f.Num
  score s =
      let backlog_pressure = f.add (f.of_nat 1) s.backlog_ratio in
      let burst_damp = f.add (f.of_nat 1) (f.mul (f.of_nat 2) (f.sqrt s.burst_score)) in
      f.div (f.mul s.arrival_rate backlog_pressure) burst_damp

  unfoldable pub sum_scores : f.Num → List Scored → f.Num
  sum_scores acc [] = acc
  sum_scores acc ((s, x) ∷ l) = sum_scores (f.add acc x) l

  unfoldable pub shares :
      (total_score : f.Num) (budget leftover : ℕ) → List Scored → List (Bytes × ℕ) × ℕ
  shares total_score budget leftover [] = ([], leftover)
  shares total_score budget leftover ((s, x) ∷ l) =
      let slots = f.floor (f.mul (f.of_nat budget) (f.div x total_score)) in
      let r = shares total_score budget (leftover - slots) l in ((s.tenant_id, slots) ∷ r.0, r.1)

  unfoldable pub insert_scored : Scored → List Scored → List Scored
  insert_scored c [] = c ∷ []
  insert_scored c (d ∷ ds) = elim (f.partial_cmp d.0.backlog_ratio c.0.backlog_ratio) [
    | some Ordering.gt ↦ d ∷ insert_scored c ds
    | _ ↦ c ∷ d ∷ ds
  ]

  -- The stable sort by decreasing backlog; incomparable numbers count as equal.
  unfoldable pub sort_scored : List Scored → List Scored
  sort_scored [] = []
  sort_scored (c ∷ cs) = insert_scored c (sort_scored cs)

  unfoldable pub give_leftover : List Scored → ℕ → List (Bytes × ℕ) → List (Bytes × ℕ)
  give_leftover [] leftover l = l
  give_leftover ((s, x) ∷ rest) leftover l =
      if ltb 0 leftover then add_to s.tenant_id leftover l else l

  unfoldable pub allocate_slots : (clock : ℕ → ℕ) (total_slots : ℕ) → Collector f → List (Bytes × ℕ)
  allocate_slots clock total_slots c =
      let all = map (λ e. e.1.stats) c in
      let guaranteed = select true clock 0 all in
      let scored = map (λ s. (s, score s)) (select false clock (length all) all) in
      let guaranteed_budget = min (min_guarantee_slots * length guaranteed % 2 ^ 64) total_slots in
      let normal_budget = total_slots - guaranteed_budget in
      let total_score = sum_scores (f.of_nat 0) scored in
      let shared =
        if f.gt total_score (f.of_nat 0)
        then shares total_score normal_budget normal_budget scored
        else ([], normal_budget) in
      let given = give_leftover (sort_scored scored) shared.1 shared.0 in
      if total_slots == 0
      then []
      else retain_some (given ++ map (λ s. (s.tenant_id, min_guarantee_slots)) guaranteed)
