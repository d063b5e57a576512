-- ===== src/Job/Backoff.antt =====
-- job/backoff.rs: the registry of backoff strategies.
pub mod Laws
use text.Mathlib.Text.{◌==◌ as str_eq}
use mathlib.Core.Option
use kiomq.Prelude.{ℕ, ◌+◌, ◌^◌, Bool, Option, none, some, String, if◌then◌else◌, ◌==◌, ltb, is_some}
use kiomq.Words.{wrapping_mul}
use kiomq.Env.{Env}

-- Receives the attempt count, and returns a delay in milliseconds; both are `i64`s.
abbrev pub StoredFn : Type 0
StoredFn = ℕ → ℕ

abbrev pub BackoffFn : Type 0
BackoffFn = ℕ → StoredFn

pub record BackOffOptions : Type 0 where
  pub type_ : Option String
  pub delay : Option ℕ

pub data BackOffJobOptions : Type 0 where
  number : ℕ → BackOffJobOptions
  opts : BackOffOptions → BackOffJobOptions

-- `u32::try_from(atempts).unwrap_or(u32::MAX)`: a negative count has a large bit pattern.
abbrev pub to_exponent : ℕ → ℕ
to_exponent atempts = if ltb atempts 0x100000000 then atempts else 0xffffffff

-- `2_i64.pow(n)`, which wraps: from 2^64 on nothing is left of the one bit.
abbrev pub pow_two : ℕ → ℕ
pow_two n = if ltb n 64 then 2 ^ n else 0

unfoldable pub exponential : BackoffFn
exponential delay atempts = wrapping_mul (pow_two (to_exponent atempts)) delay

unfoldable pub fixed : BackoffFn
fixed delay attempts = delay

-- A numeric delay is the strategy `fixed`, and no delay is no strategy.
unfoldable pub normalize : Option BackOffJobOptions → Option BackOffOptions
normalize none = none
normalize (some (number num)) =
    if num == 0 then none else some (record { type_ = some "fixed"; delay = some num })
normalize (some (opts o)) = some o

-- The `if let` over the pair of a registered strategy and a given delay.
found : Option BackoffFn → Option ℕ → Option StoredFn
found (some strategy) (some delay) = some (strategy delay)
found none _ = none
found (some strategy) none = none

pub record BackOff (E : Env) : Type 0 where
  pub builtin_strategies : E.names.Map BackoffFn

module _ {E : Env} where
  unfoldable pub register : BackOff E → String → BackoffFn → BackOff E
  register b name strategy = record {
    builtin_strategies = E.names.insert b.builtin_strategies name strategy;
  }

  unfoldable pub new : BackOff E
  unfolding register
  new =
      register (register (record { builtin_strategies = E.names.new }) "exponential" exponential)
        "fixed" fixed

  unfoldable pub has_strategy : BackOff E → String → Bool
  has_strategy b key = is_some (E.names.get b.builtin_strategies key)

  named : BackOff E → Option String → Option ℕ → Option StoredFn
  unfolding found
  named b none delay = none
  named b (some t) delay = found (E.names.get b.builtin_strategies t) delay

  unfoldable pub lookup_strategy : BackOff E → BackOffOptions → Option StoredFn → Option StoredFn
  unfolding named
  lookup_strategy b backoff custom_strategy = elim (named b backoff.type_ backoff.delay) [
    | some strategy ↦ some strategy
    | none ↦ custom_strategy
  ]

  unfoldable pub calculate : BackOff E → Option BackOffOptions → ℕ → Option StoredFn → Option ℕ
  unfolding lookup_strategy
  calculate b none attempts custom_strategy = none
  calculate b (some o) attempts custom_strategy =
      Option.map (λ (strategy : StoredFn). strategy attempts) (lookup_strategy b o custom_strategy)
