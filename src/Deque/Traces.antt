-- ===== src/Deque/Traces.antt =====
-- Whole histories of a deque of utils/concurrent_structures.rs against a plain list.
use kiomq.Prelude.{ℕ, suc, ◌<◌, ◌≤◌, ◌≡◌, refl, Option, none, List, [], ◌∷◌, ◌++◌, arith, length}
use kiomq.Words.{i64_max}
use kiomq.SkipMap.{SkipMap}
use kiomq.Deque
use kiomq.Deque.{Deque, pop_at}
use kiomq.Deque.Refine.{
  firsts, lasts, IsDeque, Room, new-IsDeque, clear-IsDeque, push_front-IsDeque, push_back-IsDeque,
  pop_front-IsDeque, pop_back-IsDeque, iter-new, iter-clear, iter-push_front, iter-push_back,
  pop_front_lem, pop_back_lem, pop_at-indices, new-Room,
}

-- The operations as data.
pub data Op : Type 0 where
  push_front push_back : ℕ → Op
  pop_front pop_back clear : Op

-- On a list whose head is the front.
abbrev pub spec : Op → List ℕ → Option ℕ × List ℕ
spec (push_front x) xs = (none, x ∷ xs)
spec (push_back x) xs = (none, xs ++ x ∷ [])
spec pop_front xs = firsts xs
spec pop_back xs = lasts xs
spec clear xs = (none, [])

abbrev pub run_spec : List Op → List ℕ → List (Option ℕ) × List ℕ
run_spec [] xs = ([], xs)
run_spec (o ∷ os) xs = let rest = run_spec os (spec o xs).1 in ((spec o xs).0 ∷ rest.0, rest.1)

module _ {S : SkipMap} where
  unfoldable pub apply : Op → Deque S → Option ℕ × Deque S
  apply (push_front x) d = (none, Deque.push_front d x)
  apply (push_back x) d = (none, Deque.push_back d x)
  apply pop_front d = Deque.pop_front d
  apply pop_back d = Deque.pop_back d
  apply clear d = (none, Deque.clear d)

  unfoldable pub run : List Op → Deque S → List (Option ℕ) × Deque S
  run [] d = ([], d)
  run (o ∷ os) d = let rest = run os (apply o d).1 in ((apply o d).0 ∷ rest.0, rest.1)

  pub apply-IsDeque :
      (k : ℕ) (o : Op) (d : Deque S)
      → k < i64_max
      → Room (suc k) d
      → IsDeque d
      → IsDeque (apply o d).1
  unfolding apply
  apply-IsDeque k (push_front x) d h r v = push_front-IsDeque d x v (omega arith)
  apply-IsDeque k (push_back x) d h r v = push_back-IsDeque d x v (omega arith)
  apply-IsDeque k pop_front d h r v = pop_front-IsDeque d v
  apply-IsDeque k pop_back d h r v = pop_back-IsDeque d v
  apply-IsDeque k clear d h r v = clear-IsDeque d

  pub apply-Room :
      (k : ℕ) (o : Op) (d : Deque S)
      → k < i64_max
      → Room (suc k) d
      → IsDeque d
      → Room k (apply o d).1
  unfolding apply Deque.push_front Deque.push_back Deque.pop_front Deque.pop_back Deque.clear
  apply-Room k (push_front x) d h r v = omega (arith, v.apart, v.fits)
  apply-Room k (push_back x) d h r v = omega (arith, v.apart, v.fits)
  apply-Room k pop_front d h r v = omega (arith, pop_at-indices d (S.front d.entries))
  apply-Room k pop_back d h r v = omega (arith, pop_at-indices d (S.back d.entries))
  apply-Room k clear d h r v = omega arith

  -- One step returns what the list returns, and leaves what the list leaves.
  apply-spec :
      (o : Op) (d : Deque S)
      → IsDeque d
      → ((apply o d).0 ≡ (spec o (Deque.iter d)).0)
        × (Deque.iter (apply o d).1 ≡ (spec o (Deque.iter d)).1)
  unfolding apply
  apply-spec (push_front x) d v = (refl, iter-push_front d x v)
  apply-spec (push_back x) d v = (refl, iter-push_back d x v)
  apply-spec pop_front d v = pop_front_lem d
  apply-spec pop_back d v = pop_back_lem d
  apply-spec clear d v = (refl, iter-clear d)

  run-spec :
      (os : List Op) (d : Deque S)
      → length os ≤ i64_max
      → Room (length os) d
      → IsDeque d
      → ((run os d).0 ≡ (run_spec os (Deque.iter d)).0)
        × (Deque.iter (run os d).1 ≡ (run_spec os (Deque.iter d)).1)
  unfolding run
  run-spec [] d h r v = (refl, refl)
  run-spec (o ∷ os) d h r v =
      let (out, left) = apply-spec o d v in
      let (outs, end) =
        run-spec os (apply o d).1 (omega arith) (apply-Room (length os) o d h r v)
          (apply-IsDeque (length os) o d h r v) in
      (rw (outs, out, left) refl, rw (end, left) refl)

-- A deque that starts empty answers any history of fewer than 2^63 - 1 operations as a list does:
-- every call returns the same value, and the content left is the same from front to back.
pub run-new :
    (S : SkipMap) (os : List Op)
    → length os < i64_max
    → ((run os (Deque.new {S = S})).0 ≡ (run_spec os []).0)
      × (Deque.iter (run os (Deque.new {S = S})).1 ≡ (run_spec os []).1)
run-new S os h =
    rw (iter-new S) at
      (run-spec os (Deque.new {S = S}) (omega arith) (new-Room S _ h) (new-IsDeque S))
