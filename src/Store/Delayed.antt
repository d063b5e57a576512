-- ===== src/Store/Delayed.antt =====
-- stores/inmemory_store.rs: `get_delayed_at`, which takes the due and the missed jobs out of the
-- delayed set.
use kiomq.Prelude.{
  ℕ, ◌≡◌, ◌<◌, ◌≤◌, ◌-◌, refl, ap, ◌∙◌, Bool, true, not, ◌&&◌, ◌||◌, ◌==◌, List, [], ◌∷◌, map,
  filter, leb, ltb, arith, Bool-cases, inl, inr,
}
use kiomq.Words.{u64_size, wrapping_sub}
use kiomq.Env.{Env}
use kiomq.SkipMap.{SkipMap}
use kiomq.SkipMap.Sweep.{sweep, iter-sweep_all}
use kiomq.Store.{Store}
use kiomq.Store.Items.{get_delayed_at}

module _ {A : Type 0} where
  pub filter_cong :
      (p q : A → Bool) → ((a : A) → p a ≡ q a) → (xs : List A) → filter p xs ≡ filter q xs
  filter_cong p q h [] = refl
  filter_cong p q h (x ∷ xs) = rw (h x, filter_cong p q h xs)

  pub filter-filter :
      (p q : A → Bool) (xs : List A) → filter p (filter q xs) ≡ filter (λ a. q a && p a) xs
  filter-filter p q [] = refl
  filter-filter p q (x ∷ xs) = elim (Bool-cases (q x)) [
    | inl e ↦ rw (e, filter-filter p q xs)
    | inr e ↦ rw (e, filter-filter p q xs)
  ]

module _ (S : SkipMap) {V : Type 0} (m : S.Map V) (p : ℕ → Bool) where
  -- The map without a range of it.
  abbrev outside : S.Map V
  outside = sweep S (λ _. true) m (S.range m p)

  iter-outside : S.iter outside ≡ filter (λ e. not (p e.0)) (S.iter m)
  iter-outside = rw (S.range-filter m p) (iter-sweep_all S (λ e. p e.0) m)

  range-outside : (r : ℕ → Bool) → S.range outside r ≡ filter (λ e. not (p e.0) && r e.0) (S.iter m)
  range-outside r =
      rw (S.range-filter outside r, iter-outside)
        (filter-filter (λ e. r e.0) (λ e. not (p e.0)) (S.iter m))

module _ {E : Env} where
  -- Between two moments `start ≤ stop`, with `start` above 0: the due jobs are those with a moment
  -- from `start` to just before `stop`, the missed ones those before `start - 1`, each in the order
  -- of their moments, and exactly the others stay: those from `stop` on, and any at `start - 1`. The
  -- documentation promises those at `stop` and at `start - 1` too.
  pub get_delayed_at-splits :
      (s : Store E) (start stop : ℕ)
      → 0 < start
      → start < u64_size
      → start ≤ stop
      → ((get_delayed_at start stop s).0.0
          ≡ map (λ e. e.1) (filter (λ e. leb start e.0 && ltb e.0 stop) (E.maps.iter s.delayed)))
        × ((get_delayed_at start stop s).0.1
            ≡ map (λ e. e.1) (filter (λ e. ltb e.0 (start - 1)) (E.maps.iter s.delayed)))
        × (E.maps.iter (get_delayed_at start stop s).1.delayed
            ≡ filter (λ e. leb stop e.0 || (e.0 == start - 1)) (E.maps.iter s.delayed))
  unfolding get_delayed_at
  get_delayed_at-splits s start stop pos fits h =
      let S = E.maps in
      let d = s.delayed in
      let due = λ (k : ℕ). leb start k && ltb k stop in
      (
        ap (map (λ e. e.1)) (S.range-filter d due),
        ap (map (λ e. e.1)) (
            range-outside S d due _
            ∙ filter_cong _ (λ e. ltb e.0 (start - 1)) (λ a. ground arith) (S.iter d)),
        iter-outside S (outside S d due) _
            ∙ ap (filter _) (iter-outside S d due)
            ∙ filter-filter (λ e. not (ltb e.0 (wrapping_sub start 1))) (λ e. not (due e.0))
                (S.iter d)
            ∙ filter_cong _ (λ e. leb stop e.0 || (e.0 == start - 1)) (λ a. ground arith)
                (S.iter d),
      )
