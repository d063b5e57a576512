-- ===== src/Job/Delay.antt =====
-- job/delay.rs: when a job becomes eligible to run.
use mathlib.Core.Option
use kiomq.Prelude.{ℕ, Option, none, some, ◌||◌, if◌then◌else◌, ◌==◌}
use kiomq.Words.{is_negative}
use kiomq.Env.{Env}

-- `time_milis` holds an `i64`.
pub data JobDelay (E : Env) : Type 0 where
  time_milis : ℕ → JobDelay E
  from_cron : E.Cron → JobDelay E

module _ {E : Env} where
  -- The moment of the next run, `some none` for a job that runs at once, and `none` for the panic of
  -- a date out of range. `now` is the clock's reading.
  unfoldable pub next_occurrance_timestamp_ms : JobDelay E → E.Dt → Option (Option ℕ)
  next_occurrance_timestamp_ms (time_milis ms) now =
      if is_negative ms || ms == 0
      then some none
      else Option.map (λ next. some (E.timestamp_millis next)) (E.add_ms now ms)
  next_occurrance_timestamp_ms (from_cron cron) now =
      some (Option.map E.timestamp_millis (E.find_next_occurrence cron now))

  -- The delay from `dt` on, an `i64`. `none` is the panic of `expect`.
  unfoldable pub as_diff_ms : JobDelay E → E.Dt → Option ℕ
  as_diff_ms (time_milis ms) dt = some ms
  as_diff_ms (from_cron cron) dt =
      Option.map (λ next_dt. E.diff_ms next_dt dt) (E.find_next_occurrence cron dt)
