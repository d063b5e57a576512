-- ===== src/Store/Insert/Score.antt =====
-- utils/mod.rs: the order of the priority scores.
use kiomq.Prelude.{ℕ, ◌+◌, ◌<◌, ◌≡◌, ◌⊎◌, ◌↔◌, arith}
use kiomq.Store.Insert.{calculate_next_priority_score}

-- While both the priority and the counter are below 2^32, scores are ordered by priority, the
-- lesser first, and jobs of the same priority by the counter.
pub score_lexicographic :
    (priority other pc later : ℕ)
    → priority < 0x100000000
    → other < 0x100000000
    → pc < 0x100000000
    → later < 0x100000000
    → (calculate_next_priority_score priority pc < calculate_next_priority_score other later)
      ↔ ((priority < other) ⊎ ((priority ≡ other) × (pc < later)))
unfolding calculate_next_priority_score
score_lexicographic priority other pc later p o c l = ground arith

-- From 2^32 on the counter runs into the priority: 2^32 more on the counter is one more on the
-- priority.
pub score_overflow :
    (priority pc : ℕ)
    → priority + 1 < 0x100000000
    → pc < 0x100000000
    → calculate_next_priority_score priority (pc + 0x100000000)
      ≡ calculate_next_priority_score (priority + 1) pc
unfolding calculate_next_priority_score
score_overflow priority pc p c = omega arith
