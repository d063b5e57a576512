-- ===== src/Store/Insert/Batch.antt =====
-- stores/inmemory_store.rs: the ids of a batch of jobs.
use kiomq.Prelude.{ℕ, zero, suc, ◌+◌, ◌≤◌, ◌≡◌, Option, List, [], ◌∷◌, String, unwrap_or, ◌⊎◌}
use kiomq.Env.{Env}
use kiomq.Job.{Job}
use kiomq.Job.Delay.{time_milis}
use kiomq.Job.Options.{JobOptions, default_options}
use kiomq.Store.{Store, Now}
use kiomq.Store.Insert.{min_delay_ms_limit}
use kiomq.Store.Insert.Placed.{Timely}

-- As many numbers, from one on.
abbrev pub from : ℕ → ℕ → List ℕ
from n zero = []
from n (suc k) = n ∷ from (n + 1) k

module _ {E : Env} where
  -- A job of a batch, with the delay in milliseconds that it asks for and the date to which it leads.
  abbrev pub Allowed : Now E → String × Option (JobOptions E) × E.Input → Type 0
  Allowed now (name, opts, input) =
      (ms : ℕ) × (at : E.Dt) × ((unwrap_or opts default_options).delay ≡ time_milis ms)
      × Timely ms now at
      × ((ms ≡ 0) ⊎ (min_delay_ms_limit ≤ ms))
