-- ===== src/Store/Items/Removal.antt =====
-- stores/inmemory_store.rs: what `remove_item` takes out of a collection.
use kiomq.Prelude.{
  ℕ, ◌≡◌, refl, ap, ◌∙◌, not, none, some, List, [], ◌∷◌, map, filter, ◌==◌, Bool-cases, inl, inr,
}
use kiomq.Env.{Env}
use kiomq.SkipMap.{SkipMap}
use kiomq.SkipMap.Sorted.{erase}
use kiomq.SkipMap.Sweep.{iter-sweep}
use kiomq.Deque.{iter}
use kiomq.Suffix.{CollectionSuffix}
use kiomq.Store.{Store}
use kiomq.Store.Items.{remove_item, without, without_scored}

-- The ids but one.
abbrev pub but : ℕ → List ℕ → List ℕ
but item = filter (λ v. not (v == item))

map-filter :
    (item : ℕ) (m : List (ℕ × ℕ))
    → map (λ e. e.1) (filter (λ e. not (e.1 == item)) m) ≡ but item (map (λ e. e.1) m)
map-filter item [] = refl
map-filter item ((k, v) ∷ m) = elim (Bool-cases (v == item)) [
  | inl e ↦ rw (e, map-filter item m)
  | inr e ↦ rw (e, map-filter item m)
]

module _ (S : SkipMap) where
  iter-without :
      (m : S.Map ℕ) (item : ℕ)
      → map (λ e. e.1) (S.iter (without S m item)) ≡ but item (map (λ e. e.1) (S.iter m))
  iter-without m item =
      ap (map (λ e. e.1)) (iter-sweep S (λ e. e.1 == item) m) ∙ map-filter item (S.iter m)

  pub iter-without_scored :
      (m : S.Map ℕ) (item : ℕ)
      → S.get m item ≡ none
      → map (λ e. e.1) (S.iter (without_scored S m item)) ≡ but item (map (λ e. e.1) (S.iter m))
  iter-without_scored m item e = rw e (iter-without m item)

  -- The ids of a sorted set, by their scores.
  abbrev pub ids : S.Map ℕ → List ℕ
  ids m = map (λ e. e.1) (S.iter m)

module _ {E : Env} where
  -- Removing an id from the active, the waiting or the paused list takes out every copy of it and
  -- keeps the others in their order.
  pub remove_item-lists :
      (item : ℕ) (s : Store E)
      → (iter (remove_item CollectionSuffix.active item s).active ≡ but item (iter s.active))
        × (iter (remove_item CollectionSuffix.wait item s).waiting ≡ but item (iter s.waiting))
        × (iter (remove_item CollectionSuffix.paused item s).paused ≡ but item (iter s.paused))
  unfolding remove_item iter
  remove_item-lists item s = (
    iter-without E.maps s.active.entries item,
    iter-without E.maps s.waiting.entries item,
    iter-without E.maps s.paused.entries item,
  )

  -- Removing an id from the delayed set takes out every copy of it and keeps the others in their
  -- order, if no entry of the set has the id's number as its moment.
  pub remove_item-delayed :
      (item : ℕ) (s : Store E)
      → E.maps.get s.delayed item ≡ none
      → ids E.maps (remove_item CollectionSuffix.delayed item s).delayed
        ≡ but item (ids E.maps s.delayed)
  unfolding remove_item
  remove_item-delayed item s e = iter-without_scored E.maps s.delayed item e

  -- If an entry of the delayed set has the id's number as its moment, that entry is taken out,
  -- whatever its own id is, and no other.
  pub remove_item-delayed_clash :
      (item other : ℕ) (s : Store E)
      → E.maps.get s.delayed item ≡ some other
      → E.maps.iter (remove_item CollectionSuffix.delayed item s).delayed
        ≡ erase item (E.maps.iter s.delayed)
  unfolding remove_item
  remove_item-delayed_clash item other s e = rw e (E.maps.iter-remove s.delayed item)
