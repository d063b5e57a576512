-- ===== src/SkipMap/Sorted.antt =====
-- Association lists sorted by key: what an ordered map yields when it is iterated.
use kiomq.Prelude.{
  ℕ, ◌<◌, ◌≤◌, ◌≡◌, refl, Option, none, some, List, [], ◌∷◌, ◌++◌, arith, ltb, ◌==◌, if◌then◌else◌,
  split_last,
}

module _ {V : Type 0} where
  unfoldable pub insert : ℕ → V → List (ℕ × V) → List (ℕ × V)
  insert k v [] = (k, v) ∷ []
  insert k v ((j, w) ∷ m) =
      let rest = insert k v m in
      if ltb k j then (k, v) ∷ (j, w) ∷ m else if k == j then (k, v) ∷ m else (j, w) ∷ rest

  unfoldable pub erase : ℕ → List (ℕ × V) → List (ℕ × V)
  erase k [] = []
  erase k ((j, w) ∷ m) = if k == j then m else (j, w) ∷ erase k m

  unfoldable pub lookup : ℕ → List (ℕ × V) → Option V
  lookup k [] = none
  lookup k ((j, w) ∷ m) = if k == j then some w else lookup k m

  abbrev pub first? : List (ℕ × V) → Option (ℕ × V)
  first? [] = none
  first? (e ∷ m) = some e

  abbrev pub last? : List (ℕ × V) → Option (ℕ × V)
  last? [] = none
  last? (e ∷ m) = some (split_last e m).1

  -- The keys rise, from above `b`.
  abbrev pub Above : ℕ → List (ℕ × V) → Type 0
  Above b [] = Unit {0}
  Above b ((k, v) ∷ m) = (b < k) × Above k m

  abbrev pub IsSorted : List (ℕ × V) → Type 0
  IsSorted [] = Unit {0}
  IsSorted ((k, v) ∷ m) = Above k m

  pub insert-Above :
      (b k : ℕ) (v : V) (m : List (ℕ × V)) → b < k → Above b m → Above b (insert k v m)
  unfolding insert
  insert-Above b k v [] h s = (h, tt)
  insert-Above b k v ((j, w) ∷ m) h s = ground (arith, insert-Above j k v m)

  pub Above-mono : (a b : ℕ) (m : List (ℕ × V)) → a ≤ b → Above b m → Above a m
  Above-mono a b [] h s = tt
  Above-mono a b ((k, v) ∷ m) h s = (omega arith, s.1)

  pub erase-Above : (b k : ℕ) (m : List (ℕ × V)) → Above b m → Above b (erase k m)
  unfolding erase
  erase-Above b k [] s = tt
  erase-Above b k ((j, w) ∷ m) s = ground (arith, erase-Above j k m, Above-mono b j m)

  pub insert-IsSorted : (k : ℕ) (v : V) (m : List (ℕ × V)) → IsSorted m → IsSorted (insert k v m)
  unfolding insert
  insert-IsSorted k v [] s = tt
  insert-IsSorted k v ((j, w) ∷ m) s = ground (arith, insert-Above j k v m)

  IsSorted-Above : (b : ℕ) (m : List (ℕ × V)) → Above b m → IsSorted m
  IsSorted-Above b [] s = tt
  IsSorted-Above b ((k, v) ∷ m) s = s.1

  pub erase-IsSorted : (k : ℕ) (m : List (ℕ × V)) → IsSorted m → IsSorted (erase k m)
  unfolding erase
  erase-IsSorted k [] s = tt
  erase-IsSorted k ((j, w) ∷ m) s = ground (arith, IsSorted-Above j m, erase-Above j k m)

  -- All keys are below `b`.
  abbrev pub Below : ℕ → List (ℕ × V) → Type 0
  Below b [] = Unit {0}
  Below b ((k, v) ∷ m) = (k < b) × Below b m

  pub Below-mono : (a b : ℕ) (m : List (ℕ × V)) → a ≤ b → Below a m → Below b m
  Below-mono a b [] h s = tt
  Below-mono a b ((k, v) ∷ m) h s = (omega arith, Below-mono a b m h s.1)

  -- A key beyond both ends goes to that end.
  pub insert_first : (k : ℕ) (v : V) (m : List (ℕ × V)) → Above k m → insert k v m ≡ (k, v) ∷ m
  unfolding insert
  insert_first k v [] s = refl
  insert_first k v ((j, w) ∷ m) s = ground arith

  pub insert_last : (k : ℕ) (v : V) (m : List (ℕ × V)) → Below k m → insert k v m ≡ m ++ (k, v) ∷ []
  unfolding insert
  insert_last k v [] s = refl
  insert_last k v ((j, w) ∷ m) s = ground (arith, insert_last k v m s.1)

  pub erase_first : (k : ℕ) (v : V) (m : List (ℕ × V)) → erase k ((k, v) ∷ m) ≡ m
  unfolding erase
  erase_first k v m = ground arith

  last-Above : (b : ℕ) (e : ℕ × V) (m : List (ℕ × V)) → Above b (e ∷ m) → b < (split_last e m).1.0
  last-Above b (j, w) [] s = s.0
  last-Above b (j, w) (d ∷ m) s = omega (arith, last-Above j d m s.1)

  -- Erasing the greatest key takes the last entry off.
  pub erase_last :
      (e : ℕ × V) (m : List (ℕ × V))
      → IsSorted (e ∷ m)
      → erase (split_last e m).1.0 (e ∷ m) ≡ (split_last e m).0
  unfolding erase
  erase_last (k, v) [] s = ground arith
  erase_last (k, v) ((j, w) ∷ m) s =
      ground (arith, erase_last (j, w) m s.1, last-Above k (j, w) m s)

  pub lookup_last :
      (e : ℕ × V) (m : List (ℕ × V))
      → IsSorted (e ∷ m)
      → lookup (split_last e m).1.0 (e ∷ m) ≡ some (split_last e m).1.1
  unfolding lookup
  lookup_last (k, v) [] s = ground arith
  lookup_last (k, v) ((j, w) ∷ m) s =
      ground (arith, lookup_last (j, w) m s.1, last-Above k (j, w) m s)

  pub split_last-append :
      (e : ℕ × V) (m : List (ℕ × V)) → (split_last e m).0 ++ (split_last e m).1 ∷ [] ≡ e ∷ m
  split_last-append e [] = refl
  split_last-append e (d ∷ m) = rw (split_last-append d m)

  pub Above-append :
      (a b : ℕ) (v : V) (m : List (ℕ × V))
      → Above a m
      → Below b m
      → a < b
      → Above a (m ++ (b, v) ∷ [])
  Above-append a b v [] s t h = (h, tt)
  Above-append a b v ((j, w) ∷ m) s t h = (s.0, Above-append j b v m s.1 t.1 t.0)

  pub Below-append :
      (b k : ℕ) (v : V) (m : List (ℕ × V)) → Below b m → k < b → Below b (m ++ (k, v) ∷ [])
  Below-append b k v [] t h = (h, tt)
  Below-append b k v ((j, w) ∷ m) t h = (t.0, Below-append b k v m t.1 h)

  pub erase-Below : (b k : ℕ) (m : List (ℕ × V)) → Below b m → Below b (erase k m)
  unfolding erase
  erase-Below b k [] t = tt
  erase-Below b k ((j, w) ∷ m) t = ground (arith, erase-Below b k m)
