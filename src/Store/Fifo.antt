-- ===== src/Store/Fifo.antt =====
-- stores/inmemory_store.rs: `add_item` and `pop_back_push_front` serve the waiting jobs in their order.
use mathlib.Core.List.{append_assoc}
use kiomq.Prelude.{
  ℕ, zero, suc, ◌+◌, ◌<◌, ◌≤◌, ◌≡◌, refl, ap, ◌∙◌, sym, true, Option, none, some, List, [], ◌∷◌,
  ◌++◌, arith, length, split_last, map, subst, append_nil,
}
use kiomq.Env.{Env}
use kiomq.SkipMap.{SkipMap}
use kiomq.Deque.{Deque, push_front, iter, pop_back}
use kiomq.Deque.Refine.{IsDeque, lasts, pop_back_lem, push_front-IsDeque, iter-push_front}
use kiomq.Suffix.{CollectionSuffix}
use kiomq.Store.{Store}
use kiomq.Store.Items.{add_item, moved, pop_back_push_front}

-- The newest first.
abbrev pub newest_first : List ℕ → List ℕ
newest_first [] = []
newest_first (x ∷ xs) = newest_first xs ++ x ∷ []

split_last-append : (y x : ℕ) (ys : List ℕ) → split_last y (ys ++ x ∷ []) ≡ (y ∷ ys, x)
split_last-append y x [] = refl
split_last-append y x (z ∷ ys) = rw (split_last-append z x ys)

lasts-append : (xs : List ℕ) (x : ℕ) → lasts (xs ++ x ∷ []) ≡ (some x, xs)
lasts-append [] x = refl
lasts-append (y ∷ ys) x = rw (split_last-append y x ys)

push_front-head_idx :
    {S : SkipMap} (d : Deque S) (x : ℕ)
    → IsDeque d
    → 0 < d.head_idx
    → (push_front d x).head_idx + 1 ≡ d.head_idx
unfolding push_front
push_front-head_idx d x v h = omega (arith, v.apart, v.fits)

module _ {E : Env} where
  -- The jobs come in, in the order of the list, as `insert` puts them on the waiting list.
  unfoldable pub enqueue : List ℕ → Store E → Store E
  enqueue [] s = s
  enqueue (x ∷ xs) s = enqueue xs (add_item CollectionSuffix.wait x none true s)

  -- As many calls of `pop_back_push_front`, and what they return.
  unfoldable pub serve : ℕ → Store E → List (Option ℕ) × Store E
  serve zero s = ([], s)
  serve (suc n) s =
      let (found, s') = pop_back_push_front CollectionSuffix.wait CollectionSuffix.active s in
      let (rest, s'') = serve n s' in (found ∷ rest, s'')

  -- One call on a list that is not empty.
  abbrev pub Served : List ℕ → ℕ → Store E → Option ℕ × Store E → Type 0
  Served xs x s r =
      (r.0 ≡ some x)
      × (iter r.1.waiting ≡ xs)
      × (iter r.1.active ≡ x ∷ iter s.active)
      × IsDeque r.1.active
      × (r.1.active.head_idx + 1 ≡ s.active.head_idx)

  pub served :
      (s : Store E) (xs : List ℕ) (x : ℕ)
      → iter s.waiting ≡ xs ++ x ∷ []
      → IsDeque s.active
      → 0 < s.active.head_idx
      → Served xs x s (pop_back_push_front CollectionSuffix.wait CollectionSuffix.active s)
  unfolding pop_back_push_front moved
  served s xs x e v room =
      let (out, left) = pop_back_lem s.waiting in
      rw (out ∙ ap (λ l. (lasts l).0) e ∙ ap (λ p. p.0) (lasts-append xs x), moved)
        (
          refl,
          left ∙ ap (λ l. (lasts l).1) e ∙ ap (λ p. p.1) (lasts-append xs x),
          iter-push_front s.active x v,
          push_front-IsDeque s.active x v room,
          push_front-head_idx s.active x v room,
        )

  serve_all :
      (ids : List ℕ) (s : Store E)
      → iter s.waiting ≡ newest_first ids
      → IsDeque s.active
      → length ids ≤ s.active.head_idx
      → ((serve (length ids) s).0 ≡ map some ids)
        × (iter (serve (length ids) s).1.waiting ≡ [])
        × (iter (serve (length ids) s).1.active ≡ newest_first ids ++ iter s.active)
  unfolding serve
  serve_all [] s e v room = (refl, e, refl)
  serve_all (x ∷ ids) s e v room =
      let (out, left, taken, v', less) = served s (newest_first ids) x e v (omega (arith, room)) in
      let s' = (pop_back_push_front CollectionSuffix.wait CollectionSuffix.active s).1 in
      let (outs, none_left, all) = serve_all ids s' left v' (omega (arith, room, less)) in
      (
        rw (out, outs) refl,
        none_left,
        all
            ∙ ap (λ l. newest_first ids ++ l) taken
            ∙ sym (append_assoc (newest_first ids) (x ∷ []) (iter s.active)),
      )

  -- The additions put the newest first.
  enqueue-waiting :
      (ids : List ℕ) (s : Store E)
      → IsDeque s.waiting
      → length ids ≤ s.waiting.head_idx
      → (iter (enqueue ids s).waiting ≡ newest_first ids ++ iter s.waiting)
        × ((enqueue ids s).active ≡ s.active)
  unfolding enqueue add_item
  enqueue-waiting [] s v room = (refl, refl)
  enqueue-waiting (x ∷ ids) s v room =
      let h = push_front-head_idx s.waiting x v (omega (arith, room)) in
      let (all, same) =
        enqueue-waiting ids (add_item CollectionSuffix.wait x none true s)
          (push_front-IsDeque s.waiting x v (omega (arith, room))) (omega (arith, room, h)) in
      (
        all
            ∙ ap (λ l. newest_first ids ++ l) (iter-push_front s.waiting x v)
            ∙ sym (append_assoc (newest_first ids) (x ∷ []) (iter s.waiting)),
        same,
      )

  -- Jobs that come in while none waits are handed out in the order in which they came, one per
  -- call, and stand on the active list with the last one taken first, before those that were
  -- active: if the lists are well-formed and their indices have room for the jobs.
  pub serve-enqueue :
      (ids : List ℕ) (s : Store E)
      → IsDeque s.waiting
      → IsDeque s.active
      → iter s.waiting ≡ []
      → length ids ≤ s.waiting.head_idx
      → length ids ≤ s.active.head_idx
      → ((serve (length ids) (enqueue ids s)).0 ≡ map some ids)
        × (iter (serve (length ids) (enqueue ids s)).1.waiting ≡ [])
        × (iter (serve (length ids) (enqueue ids s)).1.active ≡ newest_first ids ++ iter s.active)
  serve-enqueue ids s v w e room room' =
      let (all, same) = enqueue-waiting ids s v room in
      let (outs, none_left, taken) =
        serve_all ids (enqueue ids s)
          (all ∙ ap (λ l. newest_first ids ++ l) e ∙ append_nil (newest_first ids))
          (subst IsDeque (sym same) w)
          (omega (arith, room', ap (λ (d : Deque E.maps). d.head_idx) same)) in
      (outs, none_left, taken ∙ ap (λ d. newest_first ids ++ iter d) same)

  moved-frame :
      (p : Option ℕ × Deque E.maps) (s : Store E)
      → ((moved p s).1.jobs ≡ s.jobs)
        × ((moved p s).1.locks ≡ s.locks)
        × ((moved p s).1.stored_metrics ≡ s.stored_metrics)
        × ((moved p s).1.processing ≡ s.processing)
        × ((moved p s).1.completed ≡ s.completed)
  unfolding moved
  moved-frame (none, d) s = (refl, refl, refl, refl, refl)
  moved-frame (some x, d) s = (refl, refl, refl, refl, refl)

  -- The move between the two lists touches nothing else.
  pub pop_back_push_front-frame :
      (s : Store E)
      → let r = pop_back_push_front CollectionSuffix.wait CollectionSuffix.active s in
        (r.1.jobs ≡ s.jobs)
        × (r.1.locks ≡ s.locks)
        × (r.1.stored_metrics ≡ s.stored_metrics)
        × (r.1.processing ≡ s.processing)
        × (r.1.completed ≡ s.completed)
  unfolding pop_back_push_front
  pop_back_push_front-frame s = moved-frame (pop_back s.waiting) s
