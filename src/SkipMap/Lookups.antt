-- ===== src/SkipMap/Lookups.antt =====
-- What a lookup returns after each change of an ordered map.
use kiomq.Prelude.{ℕ, ◌≤◌, ◌≡◌, refl, none, some, List, [], ◌∷◌, arith, ◌==◌, if◌then◌else◌}
use kiomq.SkipMap.{SkipMap}
use kiomq.SkipMap.Sorted.{Above, IsSorted, insert, erase, lookup}

module _ {V : Type 0} where
  lookup-insert :
      (j k : ℕ) (v : V) (m : List (ℕ × V))
      → lookup j (insert k v m) ≡ (if j == k then some v else lookup j m)
  unfolding lookup insert
  lookup-insert j k v [] = refl
  lookup-insert j k v ((i, w) ∷ m) = ground (arith, lookup-insert j k v m)

  lookup_below : (j b : ℕ) (m : List (ℕ × V)) → Above b m → j ≤ b → lookup j m ≡ none
  unfolding lookup
  lookup_below j b [] s h = refl
  lookup_below j b ((i, w) ∷ m) s h = ground (arith, lookup_below j i m s.1)

  lookup-erase-Above :
      (b j k : ℕ) (m : List (ℕ × V))
      → Above b m
      → lookup j (erase k m) ≡ (if j == k then none else lookup j m)
  unfolding lookup erase
  lookup-erase-Above b j k [] s = ground arith
  lookup-erase-Above b j k ((i, w) ∷ m) s =
      ground (arith, lookup-erase-Above i j k m s.1, lookup_below j i m s.1)

  lookup-erase :
      (j k : ℕ) (m : List (ℕ × V))
      → IsSorted m
      → lookup j (erase k m) ≡ (if j == k then none else lookup j m)
  unfolding lookup erase
  lookup-erase j k [] s = ground arith
  lookup-erase j k ((i, w) ∷ m) s =
      ground (arith, lookup-erase-Above i j k m s, lookup_below j i m s)

module _ (S : SkipMap) {V : Type 0} where
  pub get-insert :
      (m : S.Map V) (k j : ℕ) (v : V)
      → S.get (S.insert m k v) j ≡ (if j == k then some v else S.get m j)
  get-insert m k j v =
      rw (S.get-lookup (S.insert m k v) j, S.iter-insert m k v, S.get-lookup m j)
        (lookup-insert j k v (S.iter m))

  pub get-remove :
      (m : S.Map V) (k j : ℕ) → S.get (S.remove m k).1 j ≡ (if j == k then none else S.get m j)
  get-remove m k j =
      rw (S.get-lookup (S.remove m k).1 j, S.iter-remove m k, S.get-lookup m j)
        (lookup-erase j k (S.iter m) (S.iter-IsSorted m))

  pub get-clear : (m : S.Map V) (j : ℕ) → S.get (S.clear m) j ≡ none
  unfolding lookup
  get-clear m j = rw (S.get-lookup (S.clear m) j, S.iter-clear m)
