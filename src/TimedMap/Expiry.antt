-- ===== src/TimedMap/Expiry.antt =====
-- When an entry of timers/concurrent_timed_map.rs is there.
use kiomq.Prelude.{
  ℕ, ◌+◌, ◌≡◌, refl, Bool, true, false, Option, none, some, arith, ◌==◌, if◌then◌else◌, ltb, inl,
  inr, Bool-cases, ◌||◌, leb, ◌<◌,
}
use kiomq.SkipMap.{SkipMap}
use kiomq.SkipMap.Lookups.{get-insert, get-remove, get-clear}
use kiomq.TimedMap.{
  ExpiryValue, constant, expirable, is_expired, TimedMap, insert_constant, insert_expirable, get,
  got, clear, contains_key, remove, modify, changed, update_expiration_status, renewed,
  toggle_expiration,
}

-- What an entry still holds at `now`.
abbrev pub fresh : {V : Type 0} → Option (ExpiryValue V) → ℕ → Option V
fresh none now = none
fresh (some (constant v)) now = some v
fresh (some (expirable v expires_at)) now = if ltb now expires_at then some v else none

module _ {S : SkipMap} {V : Type 0} where
  got-fresh :
      (m : TimedMap S V) (key : ℕ) (o : Option (ExpiryValue V)) (now : ℕ)
      → (got m key o now).0 ≡ fresh o now
  unfolding got
  got-fresh m key none now = refl
  got-fresh m key (some (constant v)) now = refl
  got-fresh m key (some (expirable v t)) now = ground arith

  pub get-fresh :
      (m : TimedMap S V) (key now : ℕ) → (get m key now).0 ≡ fresh (S.get m.inner key) now
  unfolding get
  get-fresh m key now = got-fresh m key (S.get m.inner key) now

  -- An entry without a timeout is found at any time, and other keys are as before.
  pub get-insert_constant :
      (m : TimedMap S V) (key other : ℕ) (val : V) (later : ℕ)
      → (get (insert_constant m key val) other later).0
        ≡ (if other == key then some val else (get m other later).0)
  unfolding insert_constant
  get-insert_constant m key other val later =
      rw
        (
          get-fresh (insert_constant m key val) other later,
          get-fresh m other later,
          get-insert S m.inner key other (constant val),
        )
        (elim (Bool-cases (other == key)) [ inl e ↦ rw e | inr e ↦ rw e ])

  -- The insertion by whether expiration is disabled.
  get-inserted :
      (m : TimedMap S V) (key other : ℕ) (val : V) (timeout now later : ℕ) (disabled : Bool)
      → (get
          (if disabled
            then insert_constant m key val
            else record m { inner = S.insert m.inner key (expirable val (now + timeout)) })
          other
          later).0
        ≡ (if other == key
            then (if disabled || ltb later (now + timeout) then some val else none)
            else (get m other later).0)
  get-inserted m key other val timeout now later true = get-insert_constant m key other val later
  get-inserted m key other val timeout now later false =
      rw
        (
          get-fresh (record m { inner = S.insert m.inner key (expirable val (now + timeout)) })
              other later,
          get-fresh m other later,
          get-insert S m.inner key other (expirable val (now + timeout)),
        )
        (elim (Bool-cases (other == key)) [ inl e ↦ rw e | inr e ↦ rw e ])

  -- An entry with a timeout is found for that long after its insertion and never from then on,
  -- unless expiration was disabled when it came in: then it is found at any time. Other keys are as
  -- before.
  pub get-insert_expirable :
      (m : TimedMap S V) (key other : ℕ) (val : V) (timeout now later : ℕ)
      → (get (insert_expirable m key val timeout now) other later).0 ≡ (
          if other == key
          then (if m.disable_expiration || ltb later (now + timeout) then some val else none)
          else (get m other later).0)
  unfolding insert_expirable
  get-insert_expirable m key other val timeout now later =
      get-inserted m key other val timeout now later m.disable_expiration

  -- A removed key is found no more.
  pub get-remove_lem :
      (m : TimedMap S V) (key other now : ℕ)
      → (get (remove m key) other now).0 ≡ (if other == key then none else (get m other now).0)
  unfolding remove
  get-remove_lem m key other now =
      rw (get-fresh (remove m key) other now, get-fresh m other now, get-remove S m.inner key other)
        (elim (Bool-cases (other == key)) [ inl e ↦ rw e | inr e ↦ rw e ])

  -- Disabling expiration does not bring an old deadline to an end: whatever the flag says, an entry
  -- is gone once its own deadline is past.
  pub get-toggle :
      (m : TimedMap S V) (key now : ℕ) → (get (toggle_expiration m) key now).0 ≡ (get m key now).0
  unfolding toggle_expiration
  get-toggle m key now = rw (get-fresh (toggle_expiration m) key now, get-fresh m key now)

  renewed-fresh :
      (m : TimedMap S V) (key : ℕ) (v : V) (o : Option (ExpiryValue V)) (next_instant : ℕ)
      → o ≡ some (constant v)
      → renewed m key o next_instant ≡ (none, m)
  unfolding renewed
  renewed-fresh m key v o next_instant e = rw (e, renewed)

  -- An entry without a timeout cannot be given one: nothing changes.
  pub expire_constant :
      (m : TimedMap S V) (key : ℕ) (v : V) (duration now : ℕ)
      → S.get m.inner key ≡ some (constant v)
      → update_expiration_status m key duration now ≡ (none, m)
  unfolding update_expiration_status
  expire_constant m key v duration now e =
      renewed-fresh m key v (S.get m.inner key) (now + duration) e

  got-flag :
      (m : TimedMap S V) (key : ℕ) (o : Option (ExpiryValue V)) (now : ℕ)
      → (got m key o now).1.disable_expiration ≡ m.disable_expiration
  unfolding got remove
  got-flag m key none now = refl
  got-flag m key (some found) now = elim (Bool-cases (is_expired found now)) [
    | inl e ↦ rw (e, got) refl
    | inr e ↦ rw (e, got) refl
  ]

  pub get-flag :
      (m : TimedMap S V) (key now : ℕ) → (get m key now).1.disable_expiration ≡ m.disable_expiration
  unfolding get
  get-flag m key now = got-flag m key (S.get m.inner key) now

  -- An entry without a timeout stays in place when it is read, and is changed in place.
  pub get_constant :
      (m : TimedMap S V) (key : ℕ) (v : V) (now : ℕ)
      → S.get m.inner key ≡ some (constant v)
      → get m key now ≡ (some v, m)
  unfolding get got
  get_constant m key v now e = rw (e, got) refl

  pub modify_constant :
      (m : TimedMap S V) (key : ℕ) (v : V) (f : V → V) (now : ℕ)
      → S.get m.inner key ≡ some (constant v)
      → modify m key f now ≡ insert_constant m key (f v)
  unfolding modify changed insert_constant
  modify_constant m key v f now e = rw (e, changed) refl

  pub held-insert_constant :
      (m : TimedMap S V) (key : ℕ) (v : V)
      → S.get (insert_constant m key v).inner key ≡ some (constant v)
  unfolding insert_constant
  held-insert_constant m key v = rw (get-insert S m.inner key key (constant v)) (ground arith)

  pub get-clear_lem : (m : TimedMap S V) (key now : ℕ) → (get (clear m) key now).0 ≡ none
  unfolding clear
  get-clear_lem m key now = rw (get-fresh (clear m) key now, get-clear S m.inner key) refl

  pub contains_key_constant :
      (m : TimedMap S V) (key : ℕ) (v : V) (now : ℕ)
      → S.get m.inner key ≡ some (constant v)
      → contains_key m key now ≡ (true, m)
  unfolding contains_key
  contains_key_constant m key v now e = rw e refl

  -- Nor does looking for an entry change anything before its deadline.
  pub contains_key_expirable :
      (m : TimedMap S V) (key : ℕ) (v : V) (t now : ℕ)
      → S.get m.inner key ≡ some (expirable v t)
      → now < t
      → contains_key m key now ≡ (true, m)
  unfolding contains_key get is_expired
  contains_key_expirable m key v t now e h =
      let live : leb t now ≡ false = ground arith in
      rw (e, contains_key, get, got, is_expired, live) refl
