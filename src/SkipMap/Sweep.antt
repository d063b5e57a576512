-- ===== src/SkipMap/Sweep.antt =====
-- `map.iter().filter(test).for_each(|entry| entry.remove())`: one pass that removes entries by a test.
use mathlib.Core.List.{append_assoc}
use kiomq.Prelude.{
  ℕ, ◌<◌, ◌≡◌, refl, sym, subst, ◌∙◌, Bool, true, not, List, [], ◌∷◌, ◌++◌, if◌then◌else◌, arith,
  filter, Bool-cases, inl, inr,
}
use kiomq.SkipMap.{SkipMap}
use kiomq.SkipMap.Sorted.{Above, IsSorted, erase}

module _ {V : Type 0} where
  Above-mid : (b : ℕ) (pre m : List (ℕ × V)) (k : ℕ) (v : V) → Above b (pre ++ (k, v) ∷ m) → b < k
  Above-mid b [] m k v s = s.0
  Above-mid b ((j, w) ∷ pre) m k v s = omega (arith, Above-mid j pre m k v s.1)

  erase-append-Above :
      (b : ℕ) (pre m : List (ℕ × V)) (k : ℕ) (v : V)
      → Above b (pre ++ (k, v) ∷ m)
      → erase k (pre ++ (k, v) ∷ m) ≡ pre ++ m
  unfolding erase
  erase-append-Above b [] m k v s = ground arith
  erase-append-Above b ((j, w) ∷ pre) m k v s =
      ground (arith, Above-mid j pre m k v s.1, erase-append-Above j pre m k v s.1)

  erase-append :
      (pre m : List (ℕ × V)) (k : ℕ) (v : V)
      → IsSorted (pre ++ (k, v) ∷ m)
      → erase k (pre ++ (k, v) ∷ m) ≡ pre ++ m
  unfolding erase
  erase-append [] m k v s = ground arith
  erase-append ((j, w) ∷ pre) m k v s =
      ground (arith, Above-mid j pre m k v s, erase-append-Above j pre m k v s)

module _ (S : SkipMap) {V : Type 0} (test : ℕ × V → Bool) where
  unfoldable pub sweep : S.Map V → List (ℕ × V) → S.Map V
  sweep m [] = m
  sweep m (e ∷ rest) = sweep (if test e then (S.remove m e.0).1 else m) rest

  sweep_from :
      (m : S.Map V) (pre rest : List (ℕ × V))
      → S.iter m ≡ pre ++ rest
      → S.iter (sweep m rest) ≡ pre ++ filter (λ e. not (test e)) rest
  unfolding sweep
  sweep_from m pre [] e = e
  sweep_from m pre ((k, v) ∷ rest) e = elim (Bool-cases (test (k, v))) [
    | inl hit ↦ rw hit (
        sweep_from (S.remove m k).1 pre rest (
          rw (S.iter-remove m k, e)
            (erase-append pre rest k v (subst IsSorted e (S.iter-IsSorted m)))))
    | inr miss ↦ rw miss (
        sweep_from m (pre ++ (k, v) ∷ []) rest (e ∙ sym (append_assoc pre ((k, v) ∷ []) rest))
        ∙ append_assoc pre ((k, v) ∷ []) (filter (λ e. not (test e)) rest))
  ]

  -- The pass leaves exactly the entries that fail the test.
  pub iter-sweep :
      (m : S.Map V) → S.iter (sweep m (S.iter m)) ≡ filter (λ e. not (test e)) (S.iter m)
  iter-sweep m = sweep_from m [] (S.iter m) refl

module _ (S : SkipMap) {V : Type 0} (test : ℕ × V → Bool) where
  sweep_all_from :
      (m : S.Map V) (pre rest : List (ℕ × V))
      → S.iter m ≡ pre ++ rest
      → S.iter (sweep S (λ _. true) m (filter test rest)) ≡ pre ++ filter (λ e. not (test e)) rest
  unfolding sweep
  sweep_all_from m pre [] e = e
  sweep_all_from m pre ((k, v) ∷ rest) e = elim (Bool-cases (test (k, v))) [
    | inl hit ↦ rw hit (
        sweep_all_from (S.remove m k).1 pre rest (
          rw (S.iter-remove m k, e)
            (erase-append pre rest k v (subst IsSorted e (S.iter-IsSorted m)))))
    | inr miss ↦ rw miss (
        sweep_all_from m (pre ++ (k, v) ∷ []) rest (e ∙ sym (append_assoc pre ((k, v) ∷ []) rest))
        ∙ append_assoc pre ((k, v) ∷ []) (filter (λ e. not (test e)) rest))
  ]

  -- Removing what passes the test leaves what fails it.
  pub iter-sweep_all :
      (m : S.Map V)
      → S.iter (sweep S (λ _. true) m (filter test (S.iter m)))
        ≡ filter (λ e. not (test e)) (S.iter m)
  iter-sweep_all m = sweep_all_from m [] (S.iter m) refl
