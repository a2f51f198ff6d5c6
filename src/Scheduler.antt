-- ===== src/Scheduler.antt =====
-- scheduler.rs: the weighted fair queueing scheduler. `clock i` is the reading of the i-th call
-- of `Instant::now` in the method, in nanoseconds.
pub mod Slots
use rocksqueue.Base.{
  ℕ, suc, ◌+◌, ◌-◌, ◌%◌, ◌^◌, ◌==◌, Bool, true, false, not, ◌&&◌, ◌||◌, Option, none, some, List,
  [], ◌∷◌, ◌++◌, map, if◌then◌else◌, ltb, leb, min, max, Ordering,
}
use rocksqueue.Bytes.{Bytes}
use rocksqueue.Dash.{Dash, get, insert, remove, alter}
use rocksqueue.Float.{F64}

pub record TenantPolicy : Type 0 where
  pub tenant_id : Bytes
  pub weight : ℕ
  pub max_inflight : ℕ
  pub burst_tokens : ℕ
  pub rate_per_sec : ℕ

unfoldable pub wfq_standard : Bytes → TenantPolicy
wfq_standard id = record {
  tenant_id = id;
  weight = 10;
  max_inflight = 500;
  burst_tokens = 100;
  rate_per_sec = 100;
}

unfoldable pub wfq_premium : Bytes → TenantPolicy
wfq_premium id = record {
  tenant_id = id;
  weight = 50;
  max_inflight = 5000;
  burst_tokens = 1000;
  rate_per_sec = 1000;
}

module _ (f : F64) where
  pub record TenantState : Type 0 where
    pub policy : TenantPolicy
    pub tokens : f.Num
    pub inflight : ℕ
    pub paused : Bool
    pub virtual_finish_time : f.Num
    pub last_refill : ℕ
    pub created_at : ℕ

  pub record WfqScheduler : Type 0 where
    pub tenants : Dash TenantState
    pub virtual_time : ℕ

  -- One entry of `candidates`.
  pub record Candidate : Type 0 where
    pub id : Bytes
    pub vft : f.Num
    pub weight : ℕ
    pub tokens : f.Num

  -- The local variables of the loop over the candidates, and the tenants that it changes.
  pub record Assigned : Type 0 where
    pub tenants : Dash TenantState
    pub allocations : List (Bytes × ℕ)
    pub remaining : ℕ

module _ {f : F64} where
  unfoldable pub new_tenant : (clock : ℕ → ℕ) → TenantPolicy → TenantState f
  new_tenant clock policy = record {
    policy = policy;
    tokens = f.of_nat policy.burst_tokens;
    inflight = 0;
    paused = false;
    virtual_finish_time = f.of_nat 0;
    last_refill = clock 0;
    created_at = clock 1;
  }

  unfoldable pub refill : (now : ℕ) → TenantState f → TenantState f
  refill now state =
      let elapsed = f.secs (now - state.last_refill) in
      let amount = f.mul elapsed (f.of_nat state.policy.rate_per_sec) in
      record state {
        tokens = f.min (f.add state.tokens amount) (f.of_nat state.policy.burst_tokens);
        last_refill = now;
      }

  unfoldable pub register : (clock : ℕ → ℕ) → TenantPolicy → WfqScheduler f → WfqScheduler f
  register clock policy s = record s {
    tenants = insert policy.tenant_id (new_tenant clock policy) s.tenants;
  }

  unfoldable pub deregister : Bytes → WfqScheduler f → WfqScheduler f
  deregister id s = record s { tenants = remove id s.tenants }

  unfoldable pub update_policy : (clock : ℕ → ℕ) → TenantPolicy → WfqScheduler f → WfqScheduler f
  update_policy clock policy s = elim (get policy.tenant_id s.tenants) [
    | some state ↦ record s {
      tenants = alter policy.tenant_id (λ x. record x { policy = policy }) s.tenants;
    }
    | none ↦ register clock policy s
  ]

  unfoldable pub set_paused : Bytes → Bool → WfqScheduler f → WfqScheduler f
  set_paused id paused s = record s {
    tenants = alter id (λ x. record x { paused = paused }) s.tenants;
  }

  unfoldable pub release : Bytes → ℕ → WfqScheduler f → WfqScheduler f
  release id n s = record s {
    tenants = alter id (λ x. record x { inflight = x.inflight - n }) s.tenants;
  }

  unfoldable pub policy : Bytes → WfqScheduler f → Option TenantPolicy
  policy id s = elim (get id s.tenants) [ none ↦ none | some state ↦ some state.policy ]

  -- `!paused && inflight < max_inflight`
  unfoldable pub is_eligible : TenantState f → Bool
  is_eligible state = not state.paused && ltb state.inflight state.policy.max_inflight

  -- The sum of `u32` weights.
  unfoldable pub total_weight : Dash (TenantState f) → ℕ
  total_weight [] = 0
  total_weight ((id, state) ∷ m) =
      let rest = total_weight m in
      if is_eligible state then (state.policy.weight + rest) % 2 ^ 32 else rest

  -- The loop that refills the eligible tenants and lists them.
  unfoldable pub collect :
      (clock : ℕ → ℕ) (i : ℕ) → Dash (TenantState f) → Dash (TenantState f) × List (Candidate f)
  collect clock i [] = ([], [])
  collect clock i ((id, state) ∷ m) = elim (is_eligible state) [
    | false ↦ let r = collect clock i m in ((id, state) ∷ r.0, r.1)
    | true ↦
        let state' = refill (clock i) state in
        let r = collect clock (suc i) m in
        let c : Candidate f = record {
          id = state'.policy.tenant_id;
          vft = state'.virtual_finish_time;
          weight = state'.policy.weight;
          tokens = state'.tokens;
        } in
        ((id, state') ∷ r.0, c ∷ r.1)
  ]

  unfoldable pub insert_candidate : Candidate f → List (Candidate f) → List (Candidate f)
  insert_candidate c [] = c ∷ []
  insert_candidate c (d ∷ ds) = elim (f.partial_cmp c.vft d.vft) [
    | some Ordering.gt ↦ d ∷ insert_candidate c ds
    | _ ↦ c ∷ d ∷ ds
  ]

  -- The stable `sort_by`; incomparable numbers count as equal.
  unfoldable pub sort_candidates : List (Candidate f) → List (Candidate f)
  sort_candidates [] = []
  sort_candidates (c ∷ cs) = insert_candidate c (sort_candidates cs)

  unfoldable pub slots_of : (total_slots weights remaining : ℕ) → Candidate f → ℕ
  slots_of total_slots weights remaining c =
      let fraction = f.div (f.of_nat c.weight) (f.of_nat weights) in
      let raw_slots = f.floor (f.mul (f.of_nat total_slots) fraction) in
      min (min raw_slots (f.floor c.tokens)) remaining

  -- What a tenant's state becomes when it is given slots.
  unfoldable pub charge : (vt : f.Num) (slots : ℕ) → Candidate f → TenantState f → TenantState f
  charge vt slots c state = record state {
    tokens = f.sub state.tokens (f.of_nat slots);
    virtual_finish_time =
        f.add (f.max vt state.virtual_finish_time)
          (f.div (f.of_nat slots) (f.of_nat (max c.weight 1)));
    inflight = (state.inflight + slots) % 2 ^ 64;
  }

  unfoldable pub assign :
      (vt : f.Num) (total_slots weights : ℕ) → List (Candidate f) → Assigned f → Assigned f
  assign vt total_slots weights [] acc = acc
  assign vt total_slots weights (c ∷ cs) acc = elim (acc.remaining == 0) [
    | true ↦ acc
    | false ↦
        let slots = slots_of total_slots weights acc.remaining c in
        elim (slots == 0) [
          | true ↦ assign vt total_slots weights cs acc
          | false ↦ assign vt total_slots weights cs (record {
            tenants = alter c.id (charge vt slots c) acc.tenants;
            allocations = acc.allocations ++ (c.id, slots) ∷ [];
            remaining = acc.remaining - slots;
          })
        ]
  ]

  -- What is left goes to the first of the allocations.
  unfoldable pub leftover_to : List (Bytes × ℕ) → Assigned f → Assigned f
  leftover_to [] acc = acc
  leftover_to ((id, n) ∷ rest) acc =
      if ltb 0 acc.remaining
      then record acc {
        allocations = (id, (n + acc.remaining) % 2 ^ 64) ∷ rest;
        tenants =
            alter id (λ x. record x { inflight = (x.inflight + acc.remaining) % 2 ^ 64 })
              acc.tenants;
      }
      else acc

  unfoldable pub give_leftover : Assigned f → Assigned f
  give_leftover acc = leftover_to acc.allocations acc

  unfoldable pub schedule :
      (clock : ℕ → ℕ) (total_slots : ℕ) → WfqScheduler f → List (Bytes × ℕ) × WfqScheduler f
  schedule clock total_slots s =
      let vt = f.of_nat s.virtual_time in
      let weights = total_weight s.tenants in
      let listed = collect clock 0 s.tenants in
      let acc = give_leftover (
        assign vt total_slots weights (sort_candidates listed.1)
          (record { tenants = listed.0; allocations = []; remaining = total_slots })) in
      if total_slots == 0 then ([], s) else if weights == 0 then ([], s) else (
        acc.allocations,
        record s { tenants = acc.tenants; virtual_time = f.truncate (f.add vt (f.of_nat 1)) },
      )
