-- ===== src/SkipMap/Keyed.antt =====
-- `crossbeam_skiplist::SkipMap` with names as keys, where only lookups are made.
use kiomq.Prelude.{String, ◌≡◌, refl, Option, none, some, if◌then◌else◌}
use text.Mathlib.Text.{◌==◌}

pub record Keyed : Type 1 where
  pub Map : Type 0 → Type 0
  pub new : {V : Type 0} → Map V
  pub insert : {V : Type 0} → Map V → String → V → Map V
  pub get : {V : Type 0} → Map V → String → Option V
  pub get-new : {V : Type 0} (k : String) → get (new {V = V}) k ≡ none
  pub get-insert :
      {V : Type 0} (m : Map V) (k : String) (v : V) (j : String)
      → get (insert m k v) j ≡ (if k == j then some v else get m j)

-- A function from names meets the interface.
abbrev pub functions : Keyed
functions = record {
  Map = λ V. String → Option V;
  new = λ k. none;
  insert = λ m k v j. if k == j then some v else m j;
  get = λ m k. m k;
  get-new = λ k. refl;
  get-insert = λ m k v j. refl;
}
