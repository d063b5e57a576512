-- ===== src/Suffix/RoundTrip.antt =====
-- The keys of queue/options.rs read back.
use mathlib.Core.Path.{ap₂}
use native.Mathlib.Nat.{mod-eq_of_lt}
use kiomq.Prelude.{
  ℕ, ◌+◌, ◌*◌, ◌/◌, ◌%◌, ◌<◌, ◌≡◌, refl, none, some, arith, unwrap_or, if◌then◌else◌, ◌==◌, sym,
  ◌∙◌, Bool, true, false,
}
use kiomq.Suffix.{
  CollectionSuffix, job, lock, worker_metrics, process_metrics, payload_size, payload, discriminant,
  of_parts, tag, from_tag,
}

-- An id fits into the 56 bits that a key has for it.
abbrev pub Fits : CollectionSuffix → Type 0
Fits (job i) = i < payload_size
Fits (lock i) = i < payload_size
Fits _ = Unit {0}

-- The collections of metrics.
abbrev pub is_metrics : CollectionSuffix → Bool
is_metrics worker_metrics = true
is_metrics process_metrics = true
is_metrics _ = false

parts :
    (k i : ℕ)
    → k < 256
    → i < payload_size
    → ((k * payload_size + i % payload_size) / payload_size % 256 ≡ k)
      × ((k * payload_size + i % payload_size) % payload_size ≡ i)
parts k i h f = (omega arith, omega arith)

-- `from_tag` reads back the key of every collection whose id fits, the two metrics excepted.
pub from_tag-tag :
    (c : CollectionSuffix) → Fits c → is_metrics c ≡ false → from_tag (tag c) ≡ some c
unfolding from_tag tag
from_tag-tag (job i) f m = let (d, p) = parts 14 i (omega arith) f in rw (d, p)
from_tag-tag (lock i) f m = let (d, p) = parts 16 i (omega arith) f in rw (d, p)
from_tag-tag worker_metrics f m = cc
from_tag-tag process_metrics f m = cc
from_tag-tag _ f m = refl

-- The two metrics share the fate of unknown keys.
pub from_tag-metrics : (c : CollectionSuffix) → is_metrics c ≡ true → from_tag (tag c) ≡ none
unfolding from_tag tag
from_tag-metrics worker_metrics m = refl
from_tag-metrics process_metrics m = refl
from_tag-metrics _ m = cc

rebuild : ℕ → ℕ → CollectionSuffix
unfolding of_parts
rebuild k p = unwrap_or (of_parts k p) (if k == 18 then worker_metrics else process_metrics)

rebuild-parts : (c : CollectionSuffix) → Fits c → rebuild (discriminant c) (payload c) ≡ c
unfolding rebuild discriminant
rebuild-parts (job i) f = rw (mod-eq_of_lt f)
rebuild-parts (lock i) f = rw (mod-eq_of_lt f)
rebuild-parts _ f = refl

payload-lt : (c : CollectionSuffix) → payload c < payload_size
payload-lt (job i) = omega arith
payload-lt (lock i) = omega arith
payload-lt _ = omega arith

-- Different collections have different keys.
pub tag-injective : (c d : CollectionSuffix) → Fits c → Fits d → tag c ≡ tag d → c ≡ d
unfolding tag
tag-injective c d f g e =
    sym (rebuild-parts c f)
    ∙ ap₂ rebuild (omega (arith, e, payload-lt c, payload-lt d))
        (omega (arith, e, payload-lt c, payload-lt d))
    ∙ rebuild-parts d g
