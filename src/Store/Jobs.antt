-- ===== src/Store/Jobs.antt =====
-- stores/inmemory_store.rs: the operations on job records, locks and counters.
pub mod Held
use Prim.Native.Char.{code}
use mathlib.Core.Option
use text.Mathlib.Text.{◌==◌ as str_eq}
use kiomq.Prelude.{
  ℕ, ◌+◌, ◌-◌, ◌*◌, Bool, true, false, ◌||◌, ◌&&◌, Option, none, some, List, [], ◌∷◌, ◌++◌, String,
  ◌==◌, leb, ltb, if◌then◌else◌,
}
use kiomq.Words.{u64_size, is_negative, is_positive, wrapping_add, wrapping_sub}
use kiomq.Env.{Env}
use kiomq.TimedMap.{TimedMap}
use kiomq.TimedMap
use kiomq.Job.{Job, JobState, JobToken}
use kiomq.Job.Fields.{JobField, ProcessedResult}
use kiomq.Job.Fields
use kiomq.Suffix.{CollectionSuffix, tag}
use kiomq.Store.{Store, Now, Lock}
use kiomq.Store

-- `unsigned_abs` of an `i64`.
abbrev pub unsigned_abs : ℕ → ℕ
unsigned_abs x = if is_negative x then u64_size - x else x

-- `handle_counter`: the new value of a counter.
abbrev handle_counter : ℕ → ℕ → ℕ
handle_counter counter delta =
    if is_positive delta
    then wrapping_add counter (unsigned_abs delta)
    else wrapping_sub counter (unsigned_abs delta)

-- `(n.cast_signed() + delta).max(0).cast_unsigned()`.
abbrev pub bumped : ℕ → ℕ → ℕ
bumped n delta = let sum = wrapping_add n delta in if is_negative sum then 0 else sum

-- The letters of a text in lower case, as far as they can be those of a field's name.
abbrev pub lower : ℕ → ℕ
lower c = if leb b'A' c && leb c b'Z' then c + 32 else c

abbrev is_lowercase_of : String → String → Bool
is_lowercase_of String.[] String.[] = true
is_lowercase_of String.[] (String.◌∷◌ d t) = false
is_lowercase_of (String.◌∷◌ c s) String.[] = false
is_lowercase_of (String.◌∷◌ c s) (String.◌∷◌ d t) = lower (code c) == code d && is_lowercase_of s t

unfoldable pub token_of : Option Lock → Option JobToken
token_of none = none
token_of (some (Lock.token t)) = some t
token_of (some Lock.stall_check) = none

unfoldable pub lock_of : Option JobToken → Lock
lock_of none = Lock.stall_check
lock_of (some t) = Lock.token t

module _ {E : Env} where
  -- Which counter of a job a field's name means, and what `update_job` makes of it.
  bump_job : String → ℕ → Job E → ℕ × Job E
  bump_job field delta job =
      if str_eq field "attempts_made" || str_eq field "attemptsMade"
      then (
        bumped job.attempts_made delta,
        record job { attempts_made = bumped job.attempts_made delta },
      )
      else if str_eq field "stalled_counter" || str_eq field "stalledCounter"
      then (
        bumped job.stalled_counter delta,
        record job { stalled_counter = bumped job.stalled_counter delta },
      )
      else (0, job)

  job_counter : String → Job E → Option ℕ
  job_counter field job =
      if is_lowercase_of field "stalled_counter" || is_lowercase_of field "stalledcounter"
      then some job.stalled_counter
      else if is_lowercase_of field "attempts_made" || is_lowercase_of field "attemptsmade"
      then some job.attempts_made
      else none

  unfoldable pub get_job : ℕ → Now E → Store E → Option (Job E) × Store E
  get_job id now s =
      let (found, jobs) = TimedMap.get s.jobs (tag (CollectionSuffix.job id)) now.instant in
      (found, record s { jobs = jobs })

  unfoldable pub get_state : ℕ → Now E → Store E → Option JobState × Store E
  unfolding get_job
  get_state id now s =
      let (found, s') = get_job id now s in (Option.map (λ (job : Job E). job.state) found, s')

  unfoldable pub get_token : ℕ → Now E → Store E → Option JobToken × Store E
  unfolding token_of
  get_token id now s =
      let (found, locks) = TimedMap.get s.locks (tag (CollectionSuffix.lock id)) now.instant in
      (token_of found, record s { locks = locks })

  unfoldable pub set_lock : CollectionSuffix → Option JobToken → ℕ → Now E → Store E → Store E
  unfolding lock_of
  set_lock col token lock_duration now s = record s {
    locks = TimedMap.insert_expirable s.locks (tag col) (lock_of token) lock_duration now.instant;
  }

  unfoldable pub set_field : JobField E → Job E → Job E
  set_field (Fields.token t) job = record job { token = some t }
  set_field (Fields.payload (Fields.failed d)) job = record job { failed_reason = some d }
  set_field (Fields.payload (Fields.success r _)) job = record job { returned_value = some r }
  set_field (Fields.processed_on ts) job = record job { processed_on = E.from_timestamp_micros ts }
  set_field (Fields.finished_on ts) job = record job { finished_on = E.from_timestamp_micros ts }
  set_field (Fields.state st) job = record job { state = st }
  set_field (Fields.back_trace t) job = record job { stack_trace = job.stack_trace ++ t ∷ [] }

  unfoldable pub apply_fields : List (JobField E) → Job E → Job E
  unfolding set_field
  apply_fields [] job = job
  apply_fields (f ∷ fs) job = apply_fields fs (set_field f job)

  unfoldable pub set_fields : ℕ → List (JobField E) → Now E → Store E → Store E
  unfolding apply_fields
  set_fields job_id fields now s = record s {
    jobs =
        TimedMap.modify s.jobs (tag (CollectionSuffix.job job_id)) (apply_fields fields)
          now.instant;
  }

  -- The result and the record with the counter set, of the job that was found.
  incr_job : ℕ → String → ℕ → Now E → Store E → ℕ × Store E
  unfolding bump_job get_job
  incr_job id field delta now s =
      let (found, s') = get_job id now s in
      (
        elim found [ none ↦ 0 | some job ↦ (bump_job field delta job).0 ],
        record s' {
          jobs =
              TimedMap.modify s'.jobs (tag (CollectionSuffix.job id))
                (λ job. (bump_job field delta job).1) now.instant;
        },
      )

  unfoldable pub incr : CollectionSuffix → ℕ → Option String → Now E → Store E → ℕ × Store E
  unfolding incr_job
  incr CollectionSuffix.id delta hash_key now s =
      let next = handle_counter s.id_counter delta in (next, record s { id_counter = next })
  incr CollectionSuffix.priority_counter delta hash_key now s =
      let next = handle_counter s.priority_counter delta in
      (next, record s { priority_counter = next })
  incr CollectionSuffix.meta delta hash_key now s =
      let next = handle_counter s.processing delta in (next, record s { processing = next })
  incr (CollectionSuffix.job id) delta (some field) now s = incr_job id field delta now s
  incr (CollectionSuffix.job id) delta none now s = (0, s)
  incr _ delta hash_key now s = (0, s)

  unfoldable pub get_counter :
      CollectionSuffix → Option String → Now E → Store E → Option ℕ × Store E
  unfolding job_counter get_job
  get_counter CollectionSuffix.id hash_key now s = (some s.id_counter, s)
  get_counter CollectionSuffix.priority_counter hash_key now s = (some s.priority_counter, s)
  get_counter CollectionSuffix.meta hash_key now s = (some s.processing, s)
  get_counter (CollectionSuffix.job id) (some field) now s =
      let (found, s') = get_job id now s in (Option.bind found (job_counter field), s')
  get_counter (CollectionSuffix.job id) none now s = (none, s)
  get_counter _ hash_key now s = (none, s)

  -- The time is in seconds.
  unfoldable pub expire : CollectionSuffix → ℕ → Now E → Store E → Store E
  expire (CollectionSuffix.lock id) secs now s = record s {
    locks =
        (TimedMap.update_expiration_status s.locks (tag (CollectionSuffix.lock id))
          (unsigned_abs secs * 1000) now.instant).1;
  }
  expire CollectionSuffix.stalled_check secs now s = record s {
    locks =
        (TimedMap.update_expiration_status s.locks (tag CollectionSuffix.stalled_check)
          (unsigned_abs secs * 1000) now.instant).1;
  }
  expire (CollectionSuffix.job id) secs now s = record s {
    jobs =
        (TimedMap.update_expiration_status s.jobs (tag (CollectionSuffix.job id))
          (unsigned_abs secs * 1000) now.instant).1;
  }
  expire _ secs now s = s

  unfoldable pub clear_jobs : ℕ → Store E → Store E
  clear_jobs last_id s = record s { jobs = TimedMap.clear s.jobs }

  unfoldable pub job_exists : ℕ → Now E → Store E → Bool × Store E
  job_exists id now s =
      let (found, jobs) =
        TimedMap.contains_key s.jobs (tag (CollectionSuffix.job id)) now.instant in
      (found, record s { jobs = jobs })

  -- The metrics' maps are not part of the model.
  unfoldable pub purge_expired : Now E → Store E → Store E
  purge_expired now s = record s {
    jobs =
        if ltb 0 (TimedMap.len_expired s.jobs)
        then TimedMap.purge_expired s.jobs now.instant
        else s.jobs;
    locks =
        if ltb 0 (TimedMap.len_expired s.locks)
        then TimedMap.purge_expired s.locks now.instant
        else s.locks;
  }

  -- The records of those ids that are still there.
  unfoldable pub fetch_jobs : List ℕ → Now E → Store E → List (Job E) × Store E
  unfolding get_job
  fetch_jobs [] now s = ([], s)
  fetch_jobs (id ∷ ids) now s =
      let (found, s') = get_job id now s in
      let (rest, s'') = fetch_jobs ids now s' in
      (elim found [ none ↦ rest | some job ↦ job ∷ rest ], s'')

  -- The progress goes to the stored record, if there is one, and to the caller's copy.
  unfoldable pub update_job_progress : Job E → E.Progress → Now E → Store E → Job E × Store E
  update_job_progress job value now s = elim job.id [
    | none ↦ (job, s)
    | some id ↦ (
      record job { progress = some value },
      record s {
        jobs =
            TimedMap.modify s.jobs (tag (CollectionSuffix.job id))
              (λ stored. record stored { progress = some value }) now.instant;
      },
    )
  ]
