-- ===== src/Deque/Refine.antt =====
-- The deque of utils/concurrent_structures.rs against a plain list.
use mathlib.Core.List.{map-append}
use kiomq.Prelude.{
  ℕ, ◌+◌, ◌<◌, ◌≤◌, ◌≡◌, refl, Option, none, some, List, [], ◌∷◌, ◌++◌, arith, map, ap, subst,
  split_last, split_last-map,
}
use kiomq.Words.{u64_size, i64_max}
use kiomq.SkipMap.{SkipMap}
use kiomq.SkipMap.Sorted.{
  Above, Below, IsSorted, first?, last?, erase, lookup, insert_first, insert_last, erase_first,
  erase_last, lookup_last, Below-mono, Above-append, Below-append, erase-Above, erase-Below,
}
use kiomq.Deque.{Deque, new, push_front, push_back, pop_at, pop_front, pop_back, clear, iter}

abbrev pub firsts : List ℕ → Option ℕ × List ℕ
firsts [] = (none, [])
firsts (x ∷ xs) = (some x, xs)

abbrev pub lasts : List ℕ → Option ℕ × List ℕ
lasts [] = (none, [])
lasts (x ∷ xs) = (some (split_last x xs).1, (split_last x xs).0)

module _ {S : SkipMap} where
  -- Every stored index stands strictly between the two next ones, which are `i64`s.
  pub record IsDeque (d : Deque S) : Type 0 where
    pub above : Above d.head_idx (S.iter d.entries)
    pub below : Below d.tail_idx (S.iter d.entries)
    pub apart : d.head_idx < d.tail_idx
    pub fits : d.tail_idx < u64_size

  pub clear-IsDeque : (d : Deque S) → IsDeque (clear d)
  unfolding clear
  clear-IsDeque d = record {
    above = rw (S.iter-clear d.entries) tt;
    below = rw (S.iter-clear d.entries) tt;
    apart = omega arith;
    fits = omega arith;
  }

  pub push_front-IsDeque :
      (d : Deque S) (x : ℕ) → IsDeque d → 0 < d.head_idx → IsDeque (push_front d x)
  unfolding push_front
  push_front-IsDeque d x v room = record {
    above =
        rw (S.iter-insert d.entries d.head_idx x, insert_first d.head_idx x _ v.above)
          (omega (arith, v.apart, v.fits), v.above);
    below =
        rw (S.iter-insert d.entries d.head_idx x, insert_first d.head_idx x _ v.above)
          (v.apart, v.below);
    apart = omega (arith, v.apart, v.fits);
    fits = v.fits;
  }

  pub iter-push_front : (d : Deque S) (x : ℕ) → IsDeque d → iter (push_front d x) ≡ x ∷ iter d
  unfolding push_front iter
  iter-push_front d x v =
      rw (S.iter-insert d.entries d.head_idx x, insert_first d.head_idx x _ v.above)

  pub iter-push_back : (d : Deque S) (x : ℕ) → IsDeque d → iter (push_back d x) ≡ iter d ++ x ∷ []
  unfolding push_back iter
  iter-push_back d x v =
      rw (S.iter-insert d.entries d.tail_idx x, insert_last d.tail_idx x _ v.below)
        (map-append _ _ _)

  pub push_back-IsDeque :
      (d : Deque S) (x : ℕ) → IsDeque d → d.tail_idx + 1 < u64_size → IsDeque (push_back d x)
  unfolding push_back
  push_back-IsDeque d x v room = record {
    above =
        rw (S.iter-insert d.entries d.tail_idx x, insert_last d.tail_idx x _ v.below)
          (Above-append d.head_idx d.tail_idx x _ v.above v.below v.apart);
    below =
        rw (S.iter-insert d.entries d.tail_idx x, insert_last d.tail_idx x _ v.below)
          (Below-append _ d.tail_idx x _ (Below-mono d.tail_idx _ _ (omega arith) v.below)
            (omega arith));
    apart = omega (arith, v.apart, v.fits);
    fits = omega (arith, v.fits);
  }

  pop_at-IsDeque : (d : Deque S) (o : Option (ℕ × ℕ)) → IsDeque d → IsDeque (pop_at d o).1
  unfolding pop_at
  pop_at-IsDeque d none v = v
  pop_at-IsDeque d (some (k, x)) v = record {
    above = rw (S.iter-remove d.entries k) (erase-Above d.head_idx k _ v.above);
    below = rw (S.iter-remove d.entries k) (erase-Below d.tail_idx k _ v.below);
    apart = v.apart;
    fits = v.fits;
  }

  pop_at_first :
      (d : Deque S) (m : List (ℕ × ℕ))
      → S.iter d.entries ≡ m
      → ((pop_at d (first? m)).0 ≡ (firsts (map (λ e. e.1) m)).0)
        × (iter (pop_at d (first? m)).1 ≡ (firsts (map (λ e. e.1) m)).1)
  unfolding pop_at iter erase lookup
  pop_at_first d [] e = (refl, ap (map _) e)
  pop_at_first d ((k, x) ∷ m) e = (
    rw (S.remove-lookup d.entries k, e) (ground arith),
    rw (S.iter-remove d.entries k, e, erase_first k x m) refl,
  )

  pub pop_front_lem :
      (d : Deque S)
      → ((pop_front d).0 ≡ (firsts (iter d)).0) × (iter (pop_front d).1 ≡ (firsts (iter d)).1)
  unfolding pop_front iter
  pop_front_lem d = rw (S.front-first? d.entries) (pop_at_first d _ refl)

  pop_at_last :
      (d : Deque S) (m : List (ℕ × ℕ))
      → S.iter d.entries ≡ m
      → ((pop_at d (last? m)).0 ≡ (lasts (map (λ e. e.1) m)).0)
        × (iter (pop_at d (last? m)).1 ≡ (lasts (map (λ e. e.1) m)).1)
  unfolding pop_at iter
  pop_at_last d [] e = (refl, ap (map _) e)
  pop_at_last d (a ∷ m) e =
      let sorted = subst IsSorted e (S.iter-IsSorted d.entries) in
      (
        rw (S.remove-lookup d.entries (split_last a m).1.0, e, split_last-map (λ e. e.1) a m)
            (lookup_last a m sorted),
        rw (S.iter-remove d.entries (split_last a m).1.0, e, split_last-map (λ e. e.1) a m)
            (ap (map _) (erase_last a m sorted)),
      )

  pub pop_back_lem :
      (d : Deque S)
      → ((pop_back d).0 ≡ (lasts (iter d)).0) × (iter (pop_back d).1 ≡ (lasts (iter d)).1)
  unfolding pop_back iter
  pop_back_lem d = rw (S.back-last? d.entries) (pop_at_last d _ refl)

  pub iter-clear : (d : Deque S) → iter (clear d) ≡ []
  unfolding clear iter
  iter-clear d = rw (S.iter-clear d.entries)

  -- No pop moves the indices or breaks the order.
  pub pop_front-IsDeque : (d : Deque S) → IsDeque d → IsDeque (pop_front d).1
  unfolding pop_front
  pop_front-IsDeque d v = pop_at-IsDeque d (S.front d.entries) v

  pub pop_back-IsDeque : (d : Deque S) → IsDeque d → IsDeque (pop_back d).1
  unfolding pop_back
  pop_back-IsDeque d v = pop_at-IsDeque d (S.back d.entries) v

  -- The indices have room for `k` more pushes on either side.
  abbrev pub Room : ℕ → Deque S → Type 0
  Room k d = (k ≤ d.head_idx) × (d.tail_idx + k < u64_size)

  pub pop_at-indices :
      (d : Deque S) (o : Option (ℕ × ℕ))
      → ((pop_at d o).1.head_idx ≡ d.head_idx) × ((pop_at d o).1.tail_idx ≡ d.tail_idx)
  unfolding pop_at
  pop_at-indices d none = (refl, refl)
  pop_at-indices d (some (k, x)) = (refl, refl)

pub iter-new : (S : SkipMap) → iter (new {S = S}) ≡ []
unfolding new iter
iter-new S = rw S.iter-new

pub new-IsDeque : (S : SkipMap) → IsDeque (new {S = S})
unfolding new
new-IsDeque S = record {
  above = rw S.iter-new tt;
  below = rw S.iter-new tt;
  apart = omega arith;
  fits = omega arith;
}

pub new-Room : (S : SkipMap) (k : ℕ) → k < i64_max → Room k (new {S = S})
unfolding new
new-Room S k h = omega arith
