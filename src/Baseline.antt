-- ===== src/Baseline.antt =====
-- baseline.rs: the arrival-rate baseline of a tenant, its drift detection and its promotions.
-- `now` is the reading of the clock in milliseconds.
pub mod Promotions
use rocksqueue.Base.{
  ℕ, ◌+◌, ◌-◌, ◌%◌, ◌^◌, Bool, true, false, Option, none, some, List, [], ◌∷◌, ◌++◌, length,
  if◌then◌else◌, ltb, leb,
}
use rocksqueue.Bytes.{Bytes}
use rocksqueue.Dash.{Dash, get, remove, alter}
use rocksqueue.Float.{F64}

module _ (f : F64) where
  pub record CusumState : Type 0 where
    pub cusum : f.Num
    pub h_threshold : f.Num
    pub k_slack : f.Num
    pub consecutive_calm : ℕ

  pub record BaselinePromotion : Type 0 where
    pub tenant_id : Bytes
    pub old_threshold : f.Num
    pub new_threshold : f.Num
    pub new_baseline : f.Num
    pub promoted_at_ms : ℕ

  pub record TenantBaseline : Type 0 where
    pub tenant_id : Bytes
    pub short_ema : f.Num
    pub long_ema : f.Num
    pub rolling_peak : f.Num
    pub spike_threshold : f.Num
    pub cusum : CusumState
    pub promotions : List BaselinePromotion
    pub last_updated_ms : ℕ
    pub peak_window : List (ℕ × f.Num)

  -- The number `a / b`.
  abbrev pub ratio : ℕ → ℕ → f.Num
  ratio a b = f.div (f.of_nat a) (f.of_nat b)

  unfoldable pub new_cusum : (baseline : f.Num) → CusumState
  new_cusum baseline = record {
    cusum = f.of_nat 0;
    h_threshold = f.of_nat 50;
    k_slack = f.mul baseline (ratio 3 10);
    consecutive_calm = 0;
  }

  -- Whether drift is confirmed, and the state afterwards.
  unfoldable pub update_cusum : (x mu : f.Num) → CusumState → Bool × CusumState
  update_cusum x mu c =
      let s = f.sub (f.sub x mu) c.k_slack in
      let sum = f.max (f.add c.cusum s) (f.of_nat 0) in
      if f.gt sum c.h_threshold then (true, record c { cusum = sum }) else (
        false,
        record c {
          cusum = f.mul sum (ratio 9 10);
          consecutive_calm = (c.consecutive_calm + 1) % 2 ^ 32;
        },
      )

  unfoldable pub reset_cusum : (new_baseline : f.Num) → CusumState → CusumState
  reset_cusum new_baseline c = record c {
    cusum = f.of_nat 0;
    k_slack = f.mul new_baseline (ratio 3 10);
    consecutive_calm = 0;
  }

  unfoldable pub new_baseline_of : (now : ℕ) → Bytes → (initial_rate : f.Num) → TenantBaseline
  new_baseline_of now id initial_rate = record {
    tenant_id = id;
    short_ema = initial_rate;
    long_ema = initial_rate;
    rolling_peak = initial_rate;
    spike_threshold = f.max (f.mul initial_rate (f.of_nat 3)) (f.of_nat 10);
    cusum = new_cusum initial_rate;
    promotions = [];
    last_updated_ms = now;
    peak_window = [];
  }

  -- `alpha * rate + (1.0 - alpha) * old`
  unfoldable pub blend : (alpha rate old : f.Num) → f.Num
  blend alpha rate old = f.add (f.mul alpha rate) (f.mul (f.sub (f.of_nat 1) alpha) old)

  unfoldable pub retain_from : (cutoff : ℕ) → List (ℕ × f.Num) → List (ℕ × f.Num)
  retain_from cutoff [] = []
  retain_from cutoff ((ts, r) ∷ l) =
      let rest = retain_from cutoff l in if leb cutoff ts then (ts, r) ∷ rest else rest

  unfoldable pub peak : f.Num → List (ℕ × f.Num) → f.Num
  peak acc [] = acc
  peak acc ((ts, r) ∷ l) = peak (f.max acc r) l

  -- The steps 1 to 3 of an update: the averages and the rolling peak.
  unfoldable pub observe :
      (now : ℕ) (arrival_rate short_alpha long_alpha : f.Num) → TenantBaseline → TenantBaseline
  observe now arrival_rate short_alpha long_alpha b =
      let window = retain_from (now - 300_000) (b.peak_window ++ (now, arrival_rate) ∷ []) in
      record b {
        short_ema = blend short_alpha arrival_rate b.short_ema;
        long_ema = blend long_alpha arrival_rate b.long_ema;
        peak_window = window;
        rolling_peak = f.max (peak f.neg_infinity window) (f.of_nat 0);
      }

  -- `push`, then `remove(0)` beyond 20.
  unfoldable pub push_promotion :
      BaselinePromotion → List BaselinePromotion → List BaselinePromotion
  push_promotion p [] = p ∷ []
  push_promotion p (q ∷ l) =
      if ltb 20 (length ((q ∷ l) ++ p ∷ [])) then l ++ p ∷ [] else (q ∷ l) ++ p ∷ []

  unfoldable pub promote :
      (now : ℕ) (new_baseline new_threshold : f.Num)
      → TenantBaseline
      → Option BaselinePromotion × TenantBaseline
  promote now new_baseline new_threshold b =
      let p : BaselinePromotion = record {
        tenant_id = b.tenant_id;
        old_threshold = b.spike_threshold;
        new_threshold = new_threshold;
        new_baseline = new_baseline;
        promoted_at_ms = now;
      } in
      (
        some p,
        record b {
          spike_threshold = new_threshold;
          long_ema = new_baseline;
          cusum = reset_cusum new_baseline b.cusum;
          promotions = push_promotion p b.promotions;
        },
      )

  -- The steps 4 and 5. A promotion returns before `last_updated_ms` is set.
  unfoldable pub decide :
      (now : ℕ) (spike_factor : f.Num) → TenantBaseline → Option BaselinePromotion × TenantBaseline
  decide now spike_factor b =
      let fed = update_cusum b.short_ema b.long_ema b.cusum in
      let new_baseline = f.mul b.rolling_peak (ratio 8 10) in
      let new_threshold = f.mul new_baseline spike_factor in
      let fed_b = record b { cusum = fed.1 } in
      if fed.0
      then (if f.gt new_threshold (f.mul b.spike_threshold (ratio 105 100))
          then promote now new_baseline new_threshold fed_b
          else (none, record b { cusum = reset_cusum b.long_ema fed.1; last_updated_ms = now }))
      else (none, record fed_b { last_updated_ms = now })

  unfoldable pub update :
      (now : ℕ) (arrival_rate short_alpha long_alpha spike_factor : f.Num)
      → TenantBaseline
      → Option BaselinePromotion × TenantBaseline
  update now arrival_rate short_alpha long_alpha spike_factor b =
      decide now spike_factor (observe now arrival_rate short_alpha long_alpha b)

  unfoldable pub is_spike : Bytes → (rate : f.Num) → Dash TenantBaseline → Bool
  is_spike id rate m = elim (get id m) [ none ↦ false | some b ↦ f.gt rate b.spike_threshold ]

  unfoldable pub spike_threshold_of : Bytes → Dash TenantBaseline → Option f.Num
  spike_threshold_of id m = elim (get id m) [ none ↦ none | some b ↦ some b.spike_threshold ]
