-- ===== src/Examples/Small.antt =====
-- The timed map, the collections' keys, the backoff registry, the repeat policies and the metrics.
use kiomq.Prelude.{ℕ, ◌≡◌, refl, not, ◌||◌, none, some, arith, filter}
use kiomq.SkipMap.Listed.{listed}
use kiomq.TimedMap.{
  TimedMap, new, insert_constant, insert_expirable, get, purge_expired, iter, is_expired,
}
use kiomq.TimedMap.Expiry.{get-insert_expirable}
use kiomq.TimedMap.Purge.{entries-purge}
use kiomq.Suffix.{CollectionSuffix, tag, from_tag}
use kiomq.Suffix.RoundTrip.{from_tag-tag}

abbrev no_entries : TimedMap listed ℕ
no_entries = new

-- Key 1 is kept, and key 2 expires at 150.
abbrev entries : TimedMap listed ℕ
entries = insert_expirable (insert_constant new 1 11) 2 22 50 100

get-insert_expirable_example : (get (insert_expirable no_entries 2 22 50 100) 2 150).0 ≡ none
unfolding new
get-insert_expirable_example = get-insert_expirable no_entries 2 2 22 50 100 150

entries-purge_example :
    (listed.iter (purge_expired entries 200).inner
      ≡ filter
          (λ e. entries.disable_expiration || not (is_expired e.1 200))
          (listed.iter entries.inner))
    × (listed.iter (iter entries 200).1.inner
        ≡ filter (λ e. not (is_expired e.1 200)) (listed.iter entries.inner))
entries-purge_example = entries-purge entries 200

from_tag-tag_example : from_tag (tag (CollectionSuffix.job 77)) ≡ some (CollectionSuffix.job 77)
from_tag-tag_example = from_tag-tag (CollectionSuffix.job 77) (omega arith) refl
