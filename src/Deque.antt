-- ===== src/Deque.antt =====
-- utils/concurrent_structures.rs: `ConcurrentDeque`, a double-ended queue kept in an ordered map.
-- An index (`i64`) is held in offset form, its value plus 2^63, so that the order of the map's keys
-- is that of the signed indices; `fetch_sub` and `fetch_add` wrap as the atomic cells do.
pub mod Refine
pub mod Traces
use kiomq.Prelude.{ℕ, ◌+◌, Bool, Option, none, some, List, map, length, any, ◌==◌}
use kiomq.Words.{i64_min, wrapping_add, wrapping_sub}
use kiomq.SkipMap.{SkipMap}

pub record Deque (S : SkipMap) : Type 0 where
  pub entries : S.Map ℕ
  pub head_idx : ℕ
  pub tail_idx : ℕ

module _ {S : SkipMap} where
  unfoldable pub new : Deque S
  new = record { entries = S.new; head_idx = i64_min; tail_idx = i64_min + 1 }

  unfoldable pub push_front : Deque S → ℕ → Deque S
  push_front d value = record d {
    entries = S.insert d.entries d.head_idx value;
    head_idx = wrapping_sub d.head_idx 1;
  }

  unfoldable pub push_back : Deque S → ℕ → Deque S
  push_back d value = record d {
    entries = S.insert d.entries d.tail_idx value;
    tail_idx = wrapping_add d.tail_idx 1;
  }

  unfoldable pub clear : Deque S → Deque S
  clear d = record { entries = S.clear d.entries; head_idx = i64_min; tail_idx = i64_min + 1 }

  -- What `pop_front` and `pop_back` do with the entry at their end.
  pub pop_at : Deque S → Option (ℕ × ℕ) → Option ℕ × Deque S
  pop_at d none = (none, d)
  pop_at d (some (key, _)) =
      let (value, entries) = S.remove d.entries key in (value, record d { entries = entries })

  unfoldable pub pop_front : Deque S → Option ℕ × Deque S
  unfolding pop_at
  pop_front d = pop_at d (S.front d.entries)

  unfoldable pub pop_back : Deque S → Option ℕ × Deque S
  unfolding pop_at
  pop_back d = pop_at d (S.back d.entries)

  -- The values from front to back.
  unfoldable pub iter : Deque S → List ℕ
  iter d = map (λ e. e.1) (S.iter d.entries)

  unfoldable pub len : Deque S → ℕ
  unfolding iter
  len d = length (iter d)

  unfoldable pub contains_value : Deque S → ℕ → Bool
  unfolding iter
  contains_value d value = any (λ v. v == value) (iter d)
