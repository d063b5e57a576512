-- ===== src/Store/Insert/Placed.antt =====
-- stores/inmemory_store.rs: what `insert` answers, and where it leaves the new job.
use kiomq.Prelude.{
  ℕ, ◌≤◌, ◌≡◌, refl, ap, sym, subst, ◌∙◌, Bool, true, false, ◌&&◌, Option, some, String, ltb,
  if◌then◌else◌, arith, inl, inr, ◌==◌, ◌⊎◌, none, ◌||◌, Bool-cases,
}
use kiomq.Words.{is_positive, is_negative}
use kiomq.Env.{Env}
use kiomq.TimedMap
use kiomq.TimedMap.Expiry.{get-insert_constant}
use kiomq.Job.{Job, JobState, add_opts}
use kiomq.Job.Delay.{time_milis, next_occurrance_timestamp_ms, as_diff_ms}
use kiomq.Job.Options.{JobOptions}
use kiomq.Suffix.{CollectionSuffix, tag}
use kiomq.Events.{EventParameters, from_queue_event, default_event}
use kiomq.Result.{ok, err, delay_below_allowed_limit, panicked}
use kiomq.Store.{Store, Now}
use kiomq.Store.Items.{add_item}
use kiomq.Store.Jobs.{get_job}
use kiomq.Store.Publish.Frame.{own, publish-own, publish-ok}
use kiomq.Store.Insert.{min_delay_ms_limit, place, event_of, insert_at, insert}

abbrev Announced : JobState → Type 0
Announced event =
    (event ≡ JobState.wait)
    ⊎ (event ≡ JobState.paused)
    ⊎ (event ≡ JobState.delayed)
    ⊎ (event ≡ JobState.prioritized)

module _ (E : Env) where
  -- The moment of a delay by which the date is `at`.
  abbrev pub moment : ℕ → E.Dt → Option ℕ
  moment ms at = if is_positive ms then some (E.timestamp_millis at) else none

module _ {E : Env} where
  -- The four kinds of event that a new job can cause are all well-formed.
  Announced-ok :
      (event : JobState) (id delay priority : ℕ) (name : String) (now : Now E)
      → Announced event
      → (p : EventParameters E) × (from_queue_event (event_of event id delay priority name now)
          ≡ some p)
  unfolding event_of from_queue_event default_event
  Announced-ok event id delay priority name now h =
      let Fits = λ (e : JobState).
        (p : EventParameters E) × (from_queue_event (event_of e id delay priority name now)
          ≡ some p) in
      elim h [
        | inl e ↦ subst Fits (sym e) (_, refl)
        | inr (inl e) ↦ subst Fits (sym e) (_, refl)
        | inr (inr (inl e)) ↦ subst Fits (sym e) (_, refl)
        | inr (inr (inr e)) ↦ subst Fits (sym e) (_, refl)
      ]

  place-event :
      (job : Job E) (priority pc id : ℕ) (is_paused : Bool) (expected : Option ℕ) (delay : ℕ)
      (s : Store E)
      → Announced (place job priority pc id is_paused expected delay s).1
  unfolding place
  place-event job priority pc id is_paused expected delay s = ground arith

  -- What `insert_at` leaves: the placed store with the record of the job, but for the shared cells.
  abbrev pub recorded : ℕ → (Store E × Job E) × JobState → Store E × Job E
  recorded id ((s', job'), event) =
      let stored = record job' { id = some id } in
      (
        record s' {
          jobs = TimedMap.insert_constant s'.jobs (tag (CollectionSuffix.job id)) stored;
        },
        stored,
      )

  pub insert_at-recorded :
      (job : Job E) (priority pc id : ℕ) (name : String) (is_paused : Bool) (expected : Option ℕ)
      (delay : ℕ) (now : Now E) (s : Store E)
      → let p = recorded id (place job priority pc id is_paused expected delay s) in
        ((insert_at job priority pc id name is_paused expected delay now s).0 ≡ ok p.1)
        × (own (insert_at job priority pc id name is_paused expected delay now s).1 ≡ own p.0)
  unfolding insert_at
  insert_at-recorded job priority pc id name is_paused expected delay now s =
      let placed = place job priority pc id is_paused expected delay s in
      let event = event_of placed.1 id delay priority name now in
      let (p, e) =
        Announced-ok placed.1 id delay priority name now
          (place-event job priority pc id is_paused expected delay s) in
      rw (publish-ok event p (recorded id placed).0 e)
        (refl, publish-own event (recorded id placed).0)

  -- The record of a job with its options.
  abbrev pub optioned : Job E → JobOptions E → ℕ → Job E
  optioned job opts ms = record job { priority = opts.priority; delay = ms; opts = opts }

  -- A delay that is a positive number of milliseconds leads to a date in chrono's range.
  abbrev pub Timely : ℕ → Now E → E.Dt → Type 0
  Timely ms now at = (is_positive ms ≡ false) ⊎ (E.add_ms now.utc ms ≡ some at)

  next_occurrance-moment :
      (ms : ℕ) (now : Now E) (at : E.Dt)
      → Timely ms now at
      → next_occurrance_timestamp_ms {E = E} (time_milis ms) now.utc ≡ some (moment E ms at)
  unfolding next_occurrance_timestamp_ms
  next_occurrance-moment ms now at (inl h) =
      let none_due : (is_negative ms || ms == 0) ≡ true = ground (arith, h) in rw (none_due, h) refl
  next_occurrance-moment ms now at (inr h) = elim (Bool-cases (is_positive ms)) [
    | inl e ↦
        let due : (is_negative ms || ms == 0) ≡ false = ground (arith, e) in rw (due, h, e) refl
    | inr e ↦
        let none_due : (is_negative ms || ms == 0) ≡ true = ground (arith, e) in
        rw (none_due, e) refl
  ]

  pub insert_millis :
      (job : Job E) (opts : JobOptions E) (ms pc id : ℕ) (name : String) (is_paused : Bool)
      (now : Now E) (at : E.Dt) (s : Store E)
      → opts.delay ≡ time_milis ms
      → Timely ms now at
      → insert job opts pc id name is_paused now s
        ≡ (if ltb 0 ms && ltb ms min_delay_ms_limit
              then (λ (t : Store E). (err (delay_below_allowed_limit min_delay_ms_limit ms), t))
              else insert_at
                  (optioned job opts ms)
                  opts.priority
                  pc
                  id
                  name
                  is_paused
                  (moment E ms at)
                  ms
                  now)
            s
  unfolding insert as_diff_ms add_opts
  insert_millis job opts ms pc id name is_paused now at s e timely =
      rw (e, next_occurrance-moment ms now at timely) refl

  pub insert_allowed :
      (job : Job E) (opts : JobOptions E) (ms pc id : ℕ) (name : String) (is_paused : Bool)
      (now : Now E) (at : E.Dt) (s : Store E)
      → opts.delay ≡ time_milis ms
      → Timely ms now at
      → (ms ≡ 0) ⊎ (min_delay_ms_limit ≤ ms)
      → insert job opts pc id name is_paused now s
        ≡ insert_at
            (optioned job opts ms)
            opts.priority
            pc
            id
            name
            is_paused
            (moment E ms at)
            ms
            now
            s
  insert_allowed job opts ms pc id name is_paused now at s e timely ok_delay =
      let h : (ltb 0 ms && ltb ms min_delay_ms_limit) ≡ false = ground arith in
      insert_millis job opts ms pc id name is_paused now at s e timely ∙ rw h refl

  -- A date out of range panics, whatever else the options say, and nothing is changed.
  pub insert-panics :
      (job : Job E) (opts : JobOptions E) (ms pc id : ℕ) (name : String) (is_paused : Bool)
      (now : Now E) (s : Store E)
      → opts.delay ≡ time_milis ms
      → is_positive ms ≡ true
      → E.add_ms now.utc ms ≡ none
      → insert job opts pc id name is_paused now s ≡ (err panicked, s)
  unfolding insert next_occurrance_timestamp_ms
  insert-panics job opts ms pc id name is_paused now s e pos out =
      let due : (is_negative ms || ms == 0) ≡ false = ground (arith, pos) in
      rw (e, next_occurrance_timestamp_ms, due, out) refl

  place-jobs :
      (job : Job E) (priority pc id : ℕ) (is_paused : Bool) (expected : Option ℕ) (delay : ℕ)
      (s : Store E)
      → (place job priority pc id is_paused expected delay s).0.0.jobs ≡ s.jobs
  unfolding place add_item
  place-jobs job priority pc id is_paused expected delay s = ground arith

  -- With a delay of zero or of at least 50 milliseconds that leads to a date in chrono's range, `insert`
  -- returns the job under the id that
  -- it was given, and a later lookup of that id finds this very record. The records of jobs with
  -- another key are as before.
  pub insert-stored :
      (job : Job E) (opts : JobOptions E) (ms pc id : ℕ) (name : String) (is_paused : Bool)
      (now : Now E) (at : E.Dt) (s : Store E)
      → opts.delay ≡ time_milis ms
      → Timely ms now at
      → (ms ≡ 0) ⊎ (min_delay_ms_limit ≤ ms)
      → (stored : Job E) × ((insert job opts pc id name is_paused now s).0 ≡ ok stored)
        × (stored.id ≡ some id)
        × ((other : ℕ) (later : Now E)
            → (get_job other later (insert job opts pc id name is_paused now s).1).0 ≡ (
                if tag (CollectionSuffix.job other) == tag (CollectionSuffix.job id)
                then some stored
                else (get_job other later s).0))
  unfolding get_job
  insert-stored job opts ms pc id name is_paused now at s e timely ok_delay =
      let placed =
        place (optioned job opts ms) opts.priority pc id is_paused (moment E ms at) ms s in
      let (answer, left) =
        insert_at-recorded (optioned job opts ms) opts.priority pc id name is_paused
          (moment E ms at) ms now s in
      let same =
        place-jobs (optioned job opts ms) opts.priority pc id is_paused (moment E ms at) ms s in
      rw (insert_allowed job opts ms pc id name is_paused now at s e timely ok_delay) (
        (recorded id placed).1,
        answer,
        refl,
        λ other later.
            ap
              (λ (t : Store E).
                (TimedMap.get t.jobs (tag (CollectionSuffix.job other)) later.instant).0)
              left
            ∙ get-insert_constant placed.0.0.jobs (tag (CollectionSuffix.job id))
                (tag (CollectionSuffix.job other)) (recorded id placed).1 later.instant
            ∙ rw same refl,
      )

  place-id_counter :
      (job : Job E) (priority pc id : ℕ) (is_paused : Bool) (expected : Option ℕ) (delay : ℕ)
      (s : Store E)
      → (place job priority pc id is_paused expected delay s).0.0.id_counter ≡ s.id_counter
  unfolding place add_item
  place-id_counter job priority pc id is_paused expected delay s = ground arith

  pub insert-id_counter :
      (job : Job E) (opts : JobOptions E) (ms pc id : ℕ) (name : String) (is_paused : Bool)
      (now : Now E) (at : E.Dt) (s : Store E)
      → opts.delay ≡ time_milis ms
      → Timely ms now at
      → (ms ≡ 0) ⊎ (min_delay_ms_limit ≤ ms)
      → (insert job opts pc id name is_paused now s).1.id_counter ≡ s.id_counter
  insert-id_counter job opts ms pc id name is_paused now at s e timely ok_delay =
      let (answer, left) =
        insert_at-recorded (optioned job opts ms) opts.priority pc id name is_paused
          (moment E ms at) ms now s in
      rw (insert_allowed job opts ms pc id name is_paused now at s e timely ok_delay) (
        ap (λ (t : Store E). t.id_counter) left
        ∙ place-id_counter (optioned job opts ms) opts.priority pc id is_paused (moment E ms at) ms
            s)
