-- ===== src/Job/Backoff/Laws.antt =====
-- The delays that the registry of job/backoff.rs computes.
use text.Mathlib.Text.{◌==◌ as str_eq}
use kiomq.Prelude.{
  ℕ, inl, inr, Bool-cases, Option-cases, ◌*◌, ◌^◌, ◌<◌, ◌≤◌, ◌≡◌, Option, none, some, String,
  if◌then◌else◌, ◌==◌, arith,
}
use kiomq.Words.{i64_min}
use kiomq.Env.{Env}
use kiomq.Job.Backoff.{
  StoredFn, BackoffFn, BackOffOptions, number, exponential, fixed, normalize, BackOff, register,
  new, named, lookup_strategy, calculate,
}

abbrev pub strategy_named : String → ℕ → BackOffOptions
strategy_named t d = record { type_ = some t; delay = some d }

module _ {E : Env} where
  -- A registered strategy answers to its own name, in place of any older one, and to no other.
  pub lookup-register :
      (b : BackOff E) (name : String) (strategy : BackoffFn) (t : String) (d : ℕ)
      (custom : Option StoredFn)
      → lookup_strategy (register b name strategy) (strategy_named t d) custom ≡ (
          if str_eq name t
          then some (strategy d)
          else lookup_strategy b (strategy_named t d) custom)
  unfolding lookup_strategy register
  lookup-register b name strategy t d custom =
      rw (E.names.get-insert b.builtin_strategies name strategy t, lookup_strategy, named)
        (elim (Bool-cases (str_eq name t)) [ inl e ↦ rw e | inr e ↦ rw e ])

lookup-empty :
    (E : Env) (o : BackOffOptions) (custom : Option StoredFn)
    → lookup_strategy {E = E} (record { builtin_strategies = E.names.new }) o custom ≡ custom
unfolding lookup_strategy
lookup-empty E o custom = elim (Option-cases o.type_) [
  | inl e ↦ rw (e, lookup_strategy)
  | inr (t, e) ↦ rw (e, E.names.get-new t, lookup_strategy, named)
]

-- In a new registry `fixed` and `exponential` are registered, and any other name falls back on the
-- strategy that the caller brings.
pub lookup-new :
    (E : Env) (t : String) (d : ℕ) (custom : Option StoredFn)
    → lookup_strategy (new {E = E}) (strategy_named t d) custom ≡ (
        if str_eq "fixed" t
        then some (fixed d)
        else if str_eq "exponential" t
        then some (exponential d)
        else custom)
unfolding new
lookup-new E t d custom = rw (
  lookup-register _ "fixed" fixed t d custom,
  lookup-register _ "exponential" exponential t d custom,
  lookup-empty E (strategy_named t d) custom,
)

-- The `exponential` strategy doubles the base delay with each attempt, as long as the product is a
-- positive `i64`; the caller's own strategy does not matter.
pub exponential_exact :
    (E : Env) (d a : ℕ) (custom : Option StoredFn)
    → a < 64
    → 2 ^ a * d < i64_min
    → calculate (new {E = E}) (some (strategy_named "exponential" d)) a custom ≡ some (2 ^ a * d)
unfolding calculate exponential
exponential_exact E d a custom h fits = rw (lookup-new E "exponential" d custom) (ground arith)

-- From 64 attempts on the `exponential` strategy asks for no delay at all, whatever the base delay.
pub exponential_collapse :
    (E : Env) (d a : ℕ) (custom : Option StoredFn)
    → 64 ≤ a
    → calculate (new {E = E}) (some (strategy_named "exponential" d)) a custom ≡ some 0
unfolding calculate exponential
exponential_collapse E d a custom h = rw (lookup-new E "exponential" d custom) (ground arith)

-- A numeric policy waits the same time after every attempt; zero asks for no retry.
pub number_constant :
    (E : Env) (num a : ℕ) (custom : Option StoredFn)
    → calculate (new {E = E}) (normalize (some (number num))) a custom
      ≡ (if num == 0 then none else some num)
unfolding normalize calculate fixed
number_constant E num a custom = elim (Bool-cases (num == 0)) [
  | inl e ↦ rw e
  | inr e ↦ rw (e, lookup-new E "fixed" num custom)
]
