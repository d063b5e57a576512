-- ===== src/Job/Repeat.antt =====
-- job/repeat.rs: the repeat policies of a job.
use mathlib.Core.Option
use kiomq.Prelude.{ℕ, Bool, false, Option, none, some, if◌then◌else◌, leb}
use kiomq.Env.{Env}
use kiomq.Job.Backoff.{BackOff, BackOffJobOptions, normalize, lookup_strategy}

pub data Repeat (E : Env) : Type 0 where
  with_cron : E.Cron → Repeat E
  with_back_off : BackOffJobOptions → Repeat E
  -- The delay between runs, and the greatest number of them.
  every : ℕ → Option ℕ → Repeat E
  immediately : ℕ → Repeat E

abbrev exhausted : ℕ → Option ℕ → Bool
exhausted attempts none = false
exhausted attempts (some max_ts) = leb max_ts attempts

module _ (E : Env) where
  after : ℕ → E.Dt → Option (Option ℕ)
  after ms now = Option.map (λ next_dt. some (E.timestamp_millis next_dt)) (E.add_ms now ms)

module _ {E : Env} where
  -- The moment of the next run, `some none` once the policy is exhausted, and `none` for the panic of
  -- a date out of range; 0 stands for "at once".
  unfoldable pub next_occurrence : Repeat E → BackOff E → ℕ → E.Dt → Option (Option ℕ)
  unfolding after
  next_occurrence (with_cron cron) backoff attempts now =
      some (Option.map E.timestamp_millis (E.find_next_occurrence cron now))
  next_occurrence (with_back_off o) backoff attempts now = elim (normalize (some o)) [
    | none ↦ some none
    | some opts ↦ elim (lookup_strategy backoff opts none) [
      | none ↦ some none
      | some delay_fn ↦ after E (delay_fn attempts) now
    ]
  ]
  next_occurrence (every delay_ms max_attempts) backoff attempts now =
      if exhausted attempts max_attempts then some none else after E delay_ms now
  next_occurrence (immediately max_attempts) backoff attempts now =
      if leb max_attempts attempts then some none else some (some 0)
