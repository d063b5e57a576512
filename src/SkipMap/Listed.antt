-- ===== src/SkipMap/Listed.antt =====
-- The interface of the ordered map can be met: by the sorted list itself.
use kiomq.Prelude.{ℕ, refl, List, [], filter}
use kiomq.SkipMap.{SkipMap}
use kiomq.SkipMap.Sorted.{
  IsSorted, insert, erase, lookup, first?, last?, insert-IsSorted, erase-IsSorted,
}

abbrev pub listed : SkipMap
listed = record {
  Map = λ V. (m : List (ℕ × V)) × IsSorted m;
  new = ([], tt);
  insert = λ m k v. (insert k v m.0, insert-IsSorted k v m.0 m.1);
  remove = λ m k. (lookup k m.0, (erase k m.0, erase-IsSorted k m.0 m.1));
  clear = λ m. ([], tt);
  get = λ m k. lookup k m.0;
  front = λ m. first? m.0;
  back = λ m. last? m.0;
  iter = λ m. m.0;
  range = λ m r. filter (λ e. r e.0) m.0;
  iter-IsSorted = λ m. m.1;
  iter-new = refl;
  iter-clear = λ m. refl;
  iter-insert = λ m k v. refl;
  remove-lookup = λ m k. refl;
  iter-remove = λ m k. refl;
  get-lookup = λ m k. refl;
  front-first? = λ m. refl;
  back-last? = λ m. refl;
  range-filter = λ m r. refl;
}
