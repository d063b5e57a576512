-- ===== src/Suffix.antt =====
-- queue/options.rs: `CollectionSuffix`, the collections of a store, and their `u64` keys.
pub mod RoundTrip
use kiomq.Prelude.{ℕ, ◌+◌, ◌*◌, ◌/◌, ◌%◌, Option, none, some, if◌then◌else◌, ◌==◌}
use kiomq.Job.{JobState}
use kiomq.Job

pub data CollectionSuffix : Type 0 where
  active completed delayed stalled prioritized priority_counter id meta events wait paused failed :
      CollectionSuffix
  marker : CollectionSuffix
  job : ℕ → CollectionSuffix
  prefix : CollectionSuffix
  lock : ℕ → CollectionSuffix
  stalled_check worker_metrics process_metrics : CollectionSuffix

unfoldable pub discriminant : CollectionSuffix → ℕ
discriminant active = 1
discriminant completed = 2
discriminant delayed = 3
discriminant stalled = 4
discriminant prioritized = 5
discriminant priority_counter = 6
discriminant id = 7
discriminant meta = 8
discriminant events = 9
discriminant wait = 10
discriminant paused = 11
discriminant failed = 12
discriminant marker = 13
discriminant (job _) = 14
discriminant prefix = 15
discriminant (lock _) = 16
discriminant stalled_check = 17
discriminant worker_metrics = 18
discriminant process_metrics = 19

-- 2^56: the discriminant stands in the eight bits above the payload.
abbrev pub payload_size : ℕ
payload_size = 0x100000000000000

-- The bits of `id & 0x00FF_FFFF_FFFF_FFFF`; the other variants carry nothing.
abbrev payload : CollectionSuffix → ℕ
payload (job i) = i % payload_size
payload (lock i) = i % payload_size
payload _ = 0

-- The two parts share no bit, so that `|` is a sum.
unfoldable pub tag : CollectionSuffix → ℕ
unfolding discriminant
tag c = discriminant c * payload_size + payload c

of_parts : ℕ → ℕ → Option CollectionSuffix
of_parts disc payload =
    if disc == 1
    then some active
    else if disc == 2
    then some completed
    else if disc == 3
    then some delayed
    else if disc == 4
    then some stalled
    else if disc == 5
    then some prioritized
    else if disc == 6
    then some priority_counter
    else if disc == 7
    then some id
    else if disc == 8
    then some meta
    else if disc == 9
    then some events
    else if disc == 10
    then some wait
    else if disc == 11
    then some paused
    else if disc == 12
    then some failed
    else if disc == 13
    then some marker
    else if disc == 14
    then some (job payload)
    else if disc == 15
    then some prefix
    else if disc == 16
    then some (lock payload)
    else if disc == 17
    then some stalled_check
    else none

unfoldable pub from_tag : ℕ → Option CollectionSuffix
unfolding of_parts
from_tag t = of_parts (t / payload_size % 256) (t % payload_size)

-- `From<JobState>`: the collection in which a job of that state is kept.
unfoldable pub from_state : JobState → CollectionSuffix
from_state JobState.wait = wait
from_state JobState.stalled = paused
from_state JobState.paused = paused
from_state JobState.active = active
from_state JobState.resumed = active
from_state JobState.completed = completed
from_state JobState.failed = failed
from_state JobState.delayed = delayed
from_state JobState.progress = prefix
from_state JobState.prioritized = prioritized
from_state JobState.processing = meta
from_state JobState.obliterated = events
