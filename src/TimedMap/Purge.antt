-- ===== src/TimedMap/Purge.antt =====
-- What a purge of timers/concurrent_timed_map.rs leaves.
use kiomq.Prelude.{
  ℕ, ◌≡◌, refl, sym, ap, Bool, true, false, not, List, [], ◌∷◌, filter, ◌||◌, if◌then◌else◌,
}
use kiomq.SkipMap.{SkipMap}
use kiomq.SkipMap.Sweep.{sweep, iter-sweep}
use kiomq.TimedMap.{is_expired, TimedMap, purge_expired, iter}

filter-true : {A : Type 0} (xs : List A) → filter (λ _. true) xs ≡ xs
filter-true [] = refl
filter-true (x ∷ xs) = ap (◌∷◌ x) (filter-true xs)

module _ {S : SkipMap} {V : Type 0} where
  purged :
      (m : TimedMap S V) (now : ℕ) (disabled : Bool)
      → S.iter
          (if disabled then m else record m {
            inner = sweep S (λ e. is_expired e.1 now) m.inner (S.iter m.inner);
          }).inner
        ≡ filter (λ e. disabled || not (is_expired e.1 now)) (S.iter m.inner)
  purged m now true = sym (filter-true (S.iter m.inner))
  purged m now false = iter-sweep S (λ e. is_expired e.1 now) m.inner

  -- A purge takes out exactly the entries whose deadline is past, and none while expiration is
  -- disabled. An iteration takes them out in either case.
  pub entries-purge :
      (m : TimedMap S V) (now : ℕ)
      → (S.iter (purge_expired m now).inner
          ≡ filter (λ e. m.disable_expiration || not (is_expired e.1 now)) (S.iter m.inner))
        × (S.iter (iter m now).1.inner ≡ filter (λ e. not (is_expired e.1 now)) (S.iter m.inner))
  unfolding purge_expired iter
  entries-purge m now =
      (purged m now m.disable_expiration, iter-sweep S (λ e. is_expired e.1 now) m.inner)
