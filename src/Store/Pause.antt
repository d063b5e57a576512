-- ===== src/Store/Pause.antt =====
-- stores/inmemory_store.rs: `pause`, on the contents of the waiting and the paused list.
use mathlib.Core.List.{append_assoc}
use kiomq.Prelude.{
  ℕ, zero, suc, ◌+◌, ◌<◌, ◌≡◌, refl, ap, ◌∙◌, append_nil, sym, true, false, none, some, List, [],
  ◌∷◌, ◌++◌, arith, length,
}
use kiomq.Words.{u64_size}
use kiomq.Env.{Env}
use kiomq.SkipMap.{SkipMap}
use kiomq.Deque.{Deque, pop_front, push_back, iter, len}
use kiomq.Deque.Refine.{
  IsDeque, firsts, pop_front_lem, pop_front-IsDeque, push_back-IsDeque, iter-push_back,
  pop_at-indices,
}
use kiomq.Store.{Store}
use kiomq.Store.Items.{drain, pause}

module _ {S : SkipMap} where
  pop_front-tail_idx : (d : Deque S) → (pop_front d).1.tail_idx ≡ d.tail_idx
  unfolding pop_front
  pop_front-tail_idx d = (pop_at-indices d (S.front d.entries)).1

  drain-none :
      (rounds : ℕ) (src dst : Deque S)
      → (pop_front src).0 ≡ none
      → drain (suc rounds) src dst ≡ ((pop_front src).1, dst)
  unfolding drain
  drain-none rounds src dst e = rw (drain, e)

  drain-some :
      (rounds : ℕ) (src dst : Deque S) (x : ℕ)
      → (pop_front src).0 ≡ some x
      → drain (suc rounds) src dst ≡ drain rounds (pop_front src).1 (push_back dst x)
  unfolding drain
  drain-some rounds src dst x e = rw (drain, e)

  push_back-tail_idx :
      (d : Deque S) (x : ℕ) → d.tail_idx + 1 < u64_size → (push_back d x).tail_idx ≡ d.tail_idx + 1
  unfolding push_back
  push_back-tail_idx d x h = omega arith

  -- What the loop leaves of the two lists, and that both stay well-formed.
  abbrev pub Drained : ℕ → List ℕ → Deque S → Deque S → Type 0
  Drained rounds l src dst =
      (iter (drain rounds src dst).0 ≡ [])
      × (iter (drain rounds src dst).1 ≡ iter dst ++ l)
      × IsDeque (drain rounds src dst).0
      × IsDeque (drain rounds src dst).1
      × ((drain rounds src dst).0.tail_idx ≡ src.tail_idx)

  pub drain_by :
      (rounds : ℕ) (l : List ℕ) (src dst : Deque S)
      → iter src ≡ l
      → length l < rounds
      → IsDeque src
      → IsDeque dst
      → dst.tail_idx + length l < u64_size
      → Drained rounds l src dst
  drain_by zero l src dst e h v w room = absurd (omega (arith, h))
  drain_by (suc rounds) [] src dst e h v w room =
      let (out, left) = pop_front_lem src in
      rw (drain-none rounds src dst (out ∙ ap (λ l. (firsts l).0) e)) (
        left ∙ ap (λ l. (firsts l).1) e,
        sym (append_nil (iter dst)),
        pop_front-IsDeque src v,
        w,
        pop_front-tail_idx src,
      )
  drain_by (suc rounds) (x ∷ l) src dst e h v w room =
      let (out, left) = pop_front_lem src in
      let (empty, all, v', w', tail) =
        drain_by rounds l (pop_front src).1 (push_back dst x) (left ∙ ap (λ l. (firsts l).1) e)
          (omega (arith, h)) (pop_front-IsDeque src v)
          (push_back-IsDeque dst x w (omega (arith, room)))
          (omega (arith, room, push_back-tail_idx dst x (omega (arith, room)))) in
      rw (drain-some rounds src dst x (out ∙ ap (λ l. (firsts l).0) e)) (
        empty,
        all ∙ ap (λ m. m ++ l) (iter-push_back dst x w) ∙ append_assoc (iter dst) (x ∷ []) l,
        v',
        w',
        tail ∙ pop_front-tail_idx src,
      )

module _ {E : Env} where
  -- Pausing moves every waiting job behind the paused ones, in the order of the waiting list, and
  -- sets the flag, if the paused list's indices have room for them.
  pub pause-moves :
      (s : Store E)
      → IsDeque s.waiting
      → IsDeque s.paused
      → s.paused.tail_idx + len s.waiting < u64_size
      → (iter (pause true s).waiting ≡ [])
        × (iter (pause true s).paused ≡ iter s.paused ++ iter s.waiting)
        × ((pause true s).is_paused ≡ true)
        × IsDeque (pause true s).waiting
        × IsDeque (pause true s).paused
  unfolding pause len
  pause-moves s v w room =
      let (empty, all, v', w', tail) =
        drain_by (suc (len s.waiting)) (iter s.waiting) s.waiting s.paused refl (omega arith) v w
          room in
      (empty, all, refl, v', w')

  -- Pausing and then resuming gives the waiting list back in its order, if nothing was paused
  -- before and the indices of both lists have room for the jobs that are moved.
  pub pause-resume :
      (s : Store E)
      → IsDeque s.waiting
      → IsDeque s.paused
      → iter s.paused ≡ []
      → s.paused.tail_idx + len s.waiting < u64_size
      → s.waiting.tail_idx + len s.waiting < u64_size
      → (iter (pause false (pause true s)).waiting ≡ iter s.waiting)
        × (iter (pause false (pause true s)).paused ≡ [])
        × ((pause false (pause true s)).is_paused ≡ false)
  unfolding pause len
  pause-resume s v w none_paused room back =
      let (empty, all, v', w', tail) =
        drain_by (suc (len s.waiting)) (iter s.waiting) s.waiting s.paused refl (omega arith) v w
          room in
      let s' = pause true s in
      let all' = all ∙ ap (λ m. m ++ iter s.waiting) none_paused in
      let (empty', back', _, _, _) =
        drain_by (suc (len s'.paused)) (iter s.waiting) s'.paused s'.waiting all'
          (omega (arith, ap length all')) w' v' (omega (arith, back, tail)) in
      (back' ∙ ap (λ m. m ++ iter s.waiting) empty, empty', refl)

  -- Resuming moves every paused job behind the waiting ones, in the order of the paused list, and
  -- resets the flag, if the waiting list's indices have room for them.
  pub resume-moves :
      (s : Store E)
      → IsDeque s.waiting
      → IsDeque s.paused
      → s.waiting.tail_idx + len s.paused < u64_size
      → (iter (pause false s).paused ≡ [])
        × (iter (pause false s).waiting ≡ iter s.waiting ++ iter s.paused)
        × ((pause false s).is_paused ≡ false)
        × IsDeque (pause false s).waiting
        × IsDeque (pause false s).paused
  unfolding pause len
  resume-moves s v w room =
      let (empty, all, w', v', tail) =
        drain_by (suc (len s.paused)) (iter s.paused) s.paused s.waiting refl (omega arith) w v
          room in
      (empty, all, refl, v', w')
