-- ===== src/SkipMap.antt =====
-- `crossbeam_skiplist::SkipMap`, an ordered map that is not part of this repository: an interface
-- over what an iteration yields. Keys are numbers; every law is documented behaviour of the crate.
-- Calls are whole steps here, so an entry that was found is still there when it is removed.
pub mod Sorted
pub mod Keyed
pub mod Sweep
pub mod Lookups
pub mod Listed
use kiomq.Prelude.{ℕ, ◌≡◌, Bool, Option, List, [], filter}
use Sorted
use Sorted.{IsSorted, lookup, first?, last?}

pub record SkipMap : Type 1 where
  pub Map : Type 0 → Type 0
  pub new : {V : Type 0} → Map V
  pub insert : {V : Type 0} → Map V → ℕ → V → Map V
  pub remove : {V : Type 0} → Map V → ℕ → Option V × Map V
  pub clear : {V : Type 0} → Map V → Map V
  pub get : {V : Type 0} → Map V → ℕ → Option V
  pub front : {V : Type 0} → Map V → Option (ℕ × V)
  pub back : {V : Type 0} → Map V → Option (ℕ × V)
  pub iter : {V : Type 0} → Map V → List (ℕ × V)
  -- A `RangeBounds` is its test `contains`.
  pub range : {V : Type 0} → Map V → (ℕ → Bool) → List (ℕ × V)
  -- An iteration goes up the keys.
  pub iter-IsSorted : {V : Type 0} (m : Map V) → IsSorted (iter m)
  pub iter-new : {V : Type 0} → iter (new {V = V}) ≡ []
  pub iter-clear : {V : Type 0} (m : Map V) → iter (clear m) ≡ []
  -- An insertion replaces the entry of the same key.
  pub iter-insert :
      {V : Type 0} (m : Map V) (k : ℕ) (v : V) → iter (insert m k v) ≡ Sorted.insert k v (iter m)
  -- A removal returns the entry that it takes off.
  pub remove-lookup : {V : Type 0} (m : Map V) (k : ℕ) → (remove m k).0 ≡ lookup k (iter m)
  pub iter-remove : {V : Type 0} (m : Map V) (k : ℕ) → iter (remove m k).1 ≡ Sorted.erase k (iter m)
  pub get-lookup : {V : Type 0} (m : Map V) (k : ℕ) → get m k ≡ lookup k (iter m)
  pub front-first? : {V : Type 0} (m : Map V) → front m ≡ first? (iter m)
  pub back-last? : {V : Type 0} (m : Map V) → back m ≡ last? (iter m)
  pub range-filter :
      {V : Type 0} (m : Map V) (r : ℕ → Bool) → range m r ≡ filter (λ e. r e.0) (iter m)
