-- ===== src/Env.antt =====
-- What the program takes from elsewhere: the three payload types, the crates chrono and croner, and
-- the ordered map of crossbeam_skiplist. A time in milliseconds or microseconds is an `i64`.
use kiomq.Prelude.{ℕ, Option}
use kiomq.SkipMap.{SkipMap}
use kiomq.SkipMap.Keyed.{Keyed}

pub record Env : Type 1 where
  -- `D`, `R` and `P`.
  pub Input : Type 0
  pub Output : Type 0
  pub Progress : Type 0
  -- `chrono::DateTime<Utc>`.
  pub Dt : Type 0
  pub epoch : Dt
  pub timestamp_millis : Dt → ℕ
  pub timestamp_micros : Dt → ℕ
  pub from_timestamp_micros : ℕ → Option Dt
  -- `t + TimeDelta::milliseconds(ms)`, where `none` is the panic of a date out of chrono's range.
  pub add_ms : Dt → ℕ → Option Dt
  -- `(t - u).num_milliseconds()`.
  pub diff_ms : Dt → Dt → ℕ
  -- `(t - u).to_std().unwrap_or_default()`, in nanoseconds.
  pub elapsed : Dt → Dt → ℕ
  -- `croner::Cron`, with `find_next_occurrence(&t, false).ok()`.
  pub Cron : Type 0
  pub find_next_occurrence : Cron → Dt → Option Dt
  -- Ordered maps with keys of type `u64` or `i64`, and with names as keys.
  pub maps : SkipMap
  pub names : Keyed
