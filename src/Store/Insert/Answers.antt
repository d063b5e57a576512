-- ===== src/Store/Insert/Answers.antt =====
-- stores/inmemory_store.rs: how `insert` ends, for every delay in milliseconds.
use kiomq.Prelude.{
  ℕ, ◌≤◌, ◌≡◌, ◌∙◌, refl, Bool, not, ◌&&◌, some, String, ltb, if◌then◌else◌, arith, inl, inr, ◌⊎◌,
  is_some, Bool-cases, Option-cases,
}
use kiomq.Words.{is_positive}
use kiomq.Env.{Env}
use kiomq.Job.{Job}
use kiomq.Job.Delay.{time_milis}
use kiomq.Job.Options.{JobOptions}
use kiomq.Result.{Result, ok, err, delay_below_allowed_limit, panicked}
use kiomq.Store.{Store, Now}
use kiomq.Store.Insert.{min_delay_ms_limit, insert}
use kiomq.Store.Insert.Placed.{Timely, insert_millis, insert-panics, insert-stored}

module _ {E : Env} where
  abbrev Stored : ℕ → Result (Job E) × Store E → Type 0
  Stored id r = (stored : Job E) × (r.0 ≡ ok stored) × (stored.id ≡ some id)

  abbrev InRange : ℕ → ℕ → Store E → Result (Job E) × Store E → Type 0
  InRange ms id s r =
      if ltb 0 ms && ltb ms min_delay_ms_limit
      then r ≡ (err (delay_below_allowed_limit min_delay_ms_limit ms), s)
      else Stored id r

  abbrev pub Answered : ℕ → ℕ → Now E → Store E → Result (Job E) × Store E → Type 0
  Answered ms id now s r =
      if is_positive ms && not (is_some (E.add_ms now.utc ms))
      then r ≡ (err panicked, s)
      else InRange ms id s r

  insert-InRange :
      (job : Job E) (opts : JobOptions E) (ms pc id : ℕ) (name : String) (is_paused : Bool)
      (now : Now E) (at : E.Dt) (s : Store E)
      → opts.delay ≡ time_milis ms
      → Timely ms now at
      → InRange ms id s (insert job opts pc id name is_paused now s)
  insert-InRange job opts ms pc id name is_paused now at s e timely =
      elim (Bool-cases (ltb 0 ms && ltb ms min_delay_ms_limit)) [
        | inl h ↦
            rw h (insert_millis job opts ms pc id name is_paused now at s e timely ∙ rw h refl)
        | inr h ↦
            let allowed : (ms ≡ 0) ⊎ (min_delay_ms_limit ≤ ms) = ground (arith, h) in
            let (stored, fine, known, _) =
              insert-stored job opts ms pc id name is_paused now at s e timely allowed in
            rw h (stored, fine, known)
      ]

  -- Inserting a job with a delay in milliseconds ends in one of three ways. A positive delay that leads
  -- to a date out of chrono's range panics; else a delay below 50 that is not zero is refused, with the
  -- limit and the delay; and in both cases the store is as before. Any other delay is taken, and the
  -- job is returned under the id that it was given.
  pub insert-answers :
      (job : Job E) (opts : JobOptions E) (ms pc id : ℕ) (name : String) (is_paused : Bool)
      (now : Now E) (s : Store E)
      → opts.delay ≡ time_milis ms
      → Answered ms id now s (insert job opts pc id name is_paused now s)
  insert-answers job opts ms pc id name is_paused now s e = elim (Bool-cases (is_positive ms)) [
    | inr n ↦ rw n (insert-InRange job opts ms pc id name is_paused now E.epoch s e (inl n))
    | inl p ↦ elim (Option-cases (E.add_ms now.utc ms)) [
      | inl out ↦ rw (p, out) (insert-panics job opts ms pc id name is_paused now s e p out)
      | inr (at, there) ↦
          rw (p, there) (insert-InRange job opts ms pc id name is_paused now at s e (inr there))
    ]
  ]
