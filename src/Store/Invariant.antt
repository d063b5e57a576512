-- ===== src/Store/Invariant.antt =====
-- stores/inmemory_store.rs: the three lists of ids stay well-formed through the store's operations.
pub mod Kept
pub mod Steps
use kiomq.Prelude.{
  ℕ, ◌+◌, ◌<◌, ◌≡◌, refl, sym, ap, subst, Bool, true, false, not, Option, none, some, List, [], ◌∷◌,
  ◌++◌, arith, filter, if◌then◌else◌, Bool-cases, inl, inr, String, ◌==◌,
}
use kiomq.Words.{u64_size}
use kiomq.Env.{Env}
use kiomq.SkipMap.{SkipMap}
use kiomq.SkipMap.Sorted.{Above, Above-mono, Below}
use kiomq.SkipMap.Sweep.{sweep, iter-sweep}
use kiomq.Deque.{Deque, push_front, push_back, pop_back, len, iter}
use kiomq.Deque.Refine.{
  IsDeque, push_front-IsDeque, push_back-IsDeque, pop_back-IsDeque, clear-IsDeque, new-IsDeque,
}
use kiomq.Suffix.{CollectionSuffix}
use kiomq.Store.{Store, new}
use kiomq.Store.Items.{
  add_item, moved, pop_back_push_front, remove_item, remove, clear_collections, pause,
}
use kiomq.Store.Pause.{pause-moves, resume-moves}

module _ {V : Type 0} where
  filter-Above : (p : ℕ × V → Bool) (b : ℕ) (m : List (ℕ × V)) → Above b m → Above b (filter p m)
  filter-Above p b [] s = tt
  filter-Above p b ((k, v) ∷ m) s = elim (Bool-cases (p (k, v))) [
    | inl e ↦ rw e (s.0, filter-Above p k m s.1)
    | inr e ↦ rw e (filter-Above p b m (Above-mono b k m (omega (arith, s.0)) s.1))
  ]

  filter-Below : (p : ℕ × V → Bool) (b : ℕ) (m : List (ℕ × V)) → Below b m → Below b (filter p m)
  filter-Below p b [] s = tt
  filter-Below p b ((k, v) ∷ m) s = elim (Bool-cases (p (k, v))) [
    | inl e ↦ rw e (s.0, filter-Below p b m s.1)
    | inr e ↦ rw e (filter-Below p b m s.1)
  ]

module _ {S : SkipMap} where
  -- Taking entries out of a deque by a test.
  pub swept-IsDeque :
      (test : ℕ × ℕ → Bool) (d : Deque S)
      → IsDeque d
      → IsDeque (record d { entries = sweep S test d.entries (S.iter d.entries) })
  swept-IsDeque test d v = record {
    above =
        rw (iter-sweep S test d.entries) (filter-Above (λ e. not (test e)) d.head_idx _ v.above);
    below =
        rw (iter-sweep S test d.entries) (filter-Below (λ e. not (test e)) d.tail_idx _ v.below);
    apart = v.apart;
    fits = v.fits;
  }

  -- One more element fits at either end.
  abbrev pub HasRoom : Deque S → Type 0
  HasRoom d = (0 < d.head_idx) × (d.tail_idx + 1 < u64_size)

  end-IsDeque :
      (append : Bool) (d : Deque S) (item : ℕ)
      → IsDeque d
      → HasRoom d
      → IsDeque (if append then push_front d item else push_back d item)
  end-IsDeque true d item v room = push_front-IsDeque d item v room.0
  end-IsDeque false d item v room = push_back-IsDeque d item v room.1

module _ {E : Env} where
  pub record IsStore (s : Store E) : Type 0 where
    pub active : IsDeque s.active
    pub waiting : IsDeque s.waiting
    pub paused : IsDeque s.paused

  abbrev pub Roomy : Store E → Type 0
  Roomy s = HasRoom s.active × HasRoom s.waiting × HasRoom s.paused

  pub new-IsStore : (prefix : Option String) (name : String) → IsStore (new {E = E} prefix name)
  unfolding new
  new-IsStore prefix name = record {
    active = new-IsDeque E.maps;
    waiting = new-IsDeque E.maps;
    paused = new-IsDeque E.maps;
  }

  pub add_item-IsStore :
      (c : CollectionSuffix) (item : ℕ) (score : Option ℕ) (append : Bool) (s : Store E)
      → IsStore s
      → Roomy s
      → IsStore (add_item c item score append s)
  unfolding add_item
  add_item-IsStore CollectionSuffix.active item score append s v room = record {
    active = end-IsDeque append s.active item v.active room.0;
    waiting = v.waiting;
    paused = v.paused;
  }
  add_item-IsStore CollectionSuffix.wait item score append s v room = record {
    active = v.active;
    waiting = end-IsDeque append s.waiting item v.waiting room.1;
    paused = v.paused;
  }
  add_item-IsStore CollectionSuffix.paused item score append s v room = record {
    active = v.active;
    waiting = v.waiting;
    paused = end-IsDeque append s.paused item v.paused room.2;
  }
  add_item-IsStore _ item score append s v room = record {
    active = v.active;
    waiting = v.waiting;
    paused = v.paused;
  }

  moved-IsStore :
      (p : Option ℕ × Deque E.maps) (s : Store E)
      → IsStore s
      → HasRoom s.active
      → IsDeque p.1
      → IsStore (moved p s).1
  unfolding moved
  moved-IsStore (none, d) s v room w = record { active = v.active; waiting = w; paused = v.paused }
  moved-IsStore (some x, d) s v room w = record {
    active = push_front-IsDeque s.active x v.active room.0;
    waiting = w;
    paused = v.paused;
  }

  pub pop_back_push_front-IsStore :
      (s : Store E)
      → IsStore s
      → Roomy s
      → IsStore (pop_back_push_front CollectionSuffix.wait CollectionSuffix.active s).1
  unfolding pop_back_push_front
  pop_back_push_front-IsStore s v room =
      moved-IsStore (pop_back s.waiting) s v room.0 (pop_back-IsDeque s.waiting v.waiting)

  pub remove_item-IsStore :
      (c : CollectionSuffix) (item : ℕ) (s : Store E) → IsStore s → IsStore (remove_item c item s)
  unfolding remove_item
  remove_item-IsStore CollectionSuffix.active item s v = record {
    active = swept-IsDeque (λ e. e.1 == item) s.active v.active;
    waiting = v.waiting;
    paused = v.paused;
  }
  remove_item-IsStore CollectionSuffix.wait item s v = record {
    active = v.active;
    waiting = swept-IsDeque (λ e. e.1 == item) s.waiting v.waiting;
    paused = v.paused;
  }
  remove_item-IsStore CollectionSuffix.paused item s v = record {
    active = v.active;
    waiting = v.waiting;
    paused = swept-IsDeque (λ e. e.1 == item) s.paused v.paused;
  }
  remove_item-IsStore _ item s v = record {
    active = v.active;
    waiting = v.waiting;
    paused = v.paused;
  }

  pub remove-IsStore : (c : CollectionSuffix) (s : Store E) → IsStore s → IsStore (remove c s)
  unfolding remove
  remove-IsStore CollectionSuffix.active s v = record {
    active = clear-IsDeque s.active;
    waiting = v.waiting;
    paused = v.paused;
  }
  remove-IsStore CollectionSuffix.completed s v = record {
    active = clear-IsDeque s.active;
    waiting = v.waiting;
    paused = v.paused;
  }
  remove-IsStore CollectionSuffix.wait s v = record {
    active = v.active;
    waiting = clear-IsDeque s.waiting;
    paused = v.paused;
  }
  remove-IsStore CollectionSuffix.paused s v = record {
    active = v.active;
    waiting = v.waiting;
    paused = clear-IsDeque s.paused;
  }
  remove-IsStore _ s v = record { active = v.active; waiting = v.waiting; paused = v.paused }

  pub clear_collections-IsStore : (s : Store E) → IsStore (clear_collections s)
  unfolding clear_collections
  clear_collections-IsStore s = record {
    active = clear-IsDeque s.active;
    waiting = clear-IsDeque s.waiting;
    paused = clear-IsDeque s.paused;
  }

  -- Pausing needs room for all jobs that it moves.
  abbrev pub RoomToPause : Bool → Store E → Type 0
  RoomToPause true s = s.paused.tail_idx + len s.waiting < u64_size
  RoomToPause false s = s.waiting.tail_idx + len s.paused < u64_size

  pause-active : (stop : Bool) (s : Store E) → (pause stop s).active ≡ s.active
  unfolding pause
  pause-active true s = refl
  pause-active false s = refl

  pub pause-IsStore :
      (stop : Bool) (s : Store E) → IsStore s → RoomToPause stop s → IsStore (pause stop s)
  pause-IsStore true s v room =
      let (_, _, _, w, p) = pause-moves s v.waiting v.paused room in
      record {
        active = subst IsDeque (sym (pause-active true s)) v.active;
        waiting = w;
        paused = p;
      }
  pause-IsStore false s v room =
      let (_, _, _, w, p) = resume-moves s v.waiting v.paused room in
      record {
        active = subst IsDeque (sym (pause-active false s)) v.active;
        waiting = w;
        paused = p;
      }

  -- What only the three lists decide.
  pub same-IsStore :
      (s t : Store E)
      → t.active ≡ s.active
      → t.waiting ≡ s.waiting
      → t.paused ≡ s.paused
      → IsStore s
      → IsStore t
  same-IsStore s t a w p v = record {
    active = subst IsDeque (sym a) v.active;
    waiting = subst IsDeque (sym w) v.waiting;
    paused = subst IsDeque (sym p) v.paused;
  }
