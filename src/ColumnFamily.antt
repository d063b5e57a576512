-- ===== src/ColumnFamily.antt =====
-- The rocksdb crate, which is not part of this repository: a column family, as an interface over
-- what a lookup returns. A key is the number whose eight bytes it is. Calls of the database succeed
-- here; `may_exist` may be wrong about a key that is not there, and about no other.
use kiomq.Prelude.{ℕ, ◌≡◌, refl, Bool, true, Option, none, some, if◌then◌else◌, ◌==◌, is_some, ap}

pub record ColumnFamily : Type 1 where
  pub Map : Type 0 → Type 0
  pub new : {V : Type 0} → Map V
  pub put : {V : Type 0} → Map V → ℕ → V → Map V
  pub delete : {V : Type 0} → Map V → ℕ → Map V
  pub get : {V : Type 0} → Map V → ℕ → Option V
  pub may_exist : {V : Type 0} → Map V → ℕ → Bool
  pub get-new : {V : Type 0} (k : ℕ) → get (new {V = V}) k ≡ none
  pub get-put :
      {V : Type 0} (m : Map V) (k : ℕ) (v : V) (j : ℕ)
      → get (put m k v) j ≡ (if j == k then some v else get m j)
  pub get-delete :
      {V : Type 0} (m : Map V) (k j : ℕ) → get (delete m k) j ≡ (if j == k then none else get m j)
  pub may_exist-get :
      {V : Type 0} (m : Map V) (k : ℕ) (v : V) → get m k ≡ some v → may_exist m k ≡ true

-- A function from keys meets the interface.
abbrev pub functions : ColumnFamily
functions = record {
  Map = λ V. ℕ → Option V;
  new = λ k. none;
  put = λ m k v j. if j == k then some v else m j;
  delete = λ m k j. if j == k then none else m j;
  get = λ m k. m k;
  may_exist = λ m k. is_some (m k);
  get-new = λ k. refl;
  get-put = λ m k v j. refl;
  get-delete = λ m k j. refl;
  may_exist-get = λ m k v e. ap is_some e;
}
