-- ===== src/Queue/Moves/Priority.antt =====
-- queue/mod.rs: which prioritized job becomes active.
use kiomq.Prelude.{ℕ, ◌≡◌, refl, ap, ◌∙◌, subst, true, some, List, [], ◌∷◌}
use kiomq.Env.{Env}
use kiomq.SkipMap.{SkipMap}
use kiomq.SkipMap.Sorted.{erase, erase_first, Above, IsSorted}
use kiomq.Deque.{push_front}
use kiomq.Result.{ok}
use kiomq.Store.Items.{popped, pop_set, add_item}
use kiomq.Queue.{Queue}
use kiomq.Queue.Moves.{move_job_from_priorty_to_active}

module _ (S : SkipMap) where
  popped_first :
      (m : S.Map ℕ) (score id : ℕ) (rest : List (ℕ × ℕ))
      → S.iter m ≡ (score, id) ∷ rest
      → popped S m true ≡ ((id, score) ∷ [], (S.remove m score).1)
  unfolding popped
  popped_first m score id rest e = rw (S.front-first? m, e, popped) refl

module _ {E : Env} where
  -- The prioritized job with the least score is taken out of its set and put at the front of the
  -- active list, and the others stay, all with a greater score.
  pub move_job_from_priorty_to_active-least :
      (q : Queue E) (score id : ℕ) (rest : List (ℕ × ℕ))
      → E.maps.iter q.store.prioritized ≡ (score, id) ∷ rest
      → let r = move_job_from_priorty_to_active q in
        (r.0 ≡ ok (some id))
        × (E.maps.iter r.1.store.prioritized ≡ rest)
        × Above score rest
        × (r.1.store.active ≡ push_front q.store.active id)
  unfolding move_job_from_priorty_to_active add_item pop_set
  move_job_from_priorty_to_active-least q score id rest e =
      let left =
        E.maps.iter-remove q.store.prioritized score
        ∙ ap (erase score) e
        ∙ erase_first score id rest in
      rw (popped_first E.maps q.store.prioritized score id rest e)
        (refl, left, subst IsSorted e (E.maps.iter-IsSorted q.store.prioritized), refl)
