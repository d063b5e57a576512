-- ===== src/TimedMap.antt =====
-- timers/concurrent_timed_map.rs: a map whose entries may expire. An `Instant` and a `Duration` are
-- numbers of milliseconds, and `now` is the clock's reading. Changing a value through the shared
-- lock that `get` hands out is `modify`.
pub mod Expiry
pub mod Purge
use kiomq.Prelude.{
  ℕ, map, ◌+◌, Bool, true, false, not, Option, none, some, List, [], ◌∷◌, if◌then◌else◌, leb,
  length, filter, is_some,
}
use kiomq.SkipMap.{SkipMap}
use kiomq.SkipMap.Sweep.{sweep}

pub data ExpiryValue (V : Type 0) : Type 0 where
  constant : V → ExpiryValue V
  -- The value, and the instant from which on it is expired.
  expirable : V → ℕ → ExpiryValue V

module _ {V : Type 0} where
  unfoldable pub is_expired : ExpiryValue V → ℕ → Bool
  is_expired (constant _) now = false
  is_expired (expirable _ expires_at) now = leb expires_at now

  unfoldable pub is_expirable : ExpiryValue V → Bool
  is_expirable (constant _) = false
  is_expirable (expirable _ _) = true

  unfoldable pub value_of : ExpiryValue V → V
  value_of (constant inner) = inner
  value_of (expirable value _) = value

  -- The entry with its value changed in place.
  unfoldable pub with_value : ExpiryValue V → (V → V) → ExpiryValue V
  with_value (constant inner) f = constant (f inner)
  with_value (expirable value expires_at) f = expirable (f value) expires_at

pub record TimedMap (S : SkipMap) (V : Type 0) : Type 0 where
  pub inner : S.Map (ExpiryValue V)
  pub disable_expiration : Bool

module _ {S : SkipMap} {V : Type 0} where
  unfoldable pub new : TimedMap S V
  new = record { inner = S.new; disable_expiration = false }

  unfoldable pub toggle_expiration : TimedMap S V → TimedMap S V
  toggle_expiration m = record m { disable_expiration = not m.disable_expiration }

  unfoldable pub insert_constant : TimedMap S V → ℕ → V → TimedMap S V
  insert_constant m key val = record m { inner = S.insert m.inner key (constant val) }

  unfoldable pub insert_expirable : TimedMap S V → ℕ → V → ℕ → ℕ → TimedMap S V
  unfolding insert_constant
  insert_expirable m key val timeout now =
      if m.disable_expiration
      then insert_constant m key val
      else record m { inner = S.insert m.inner key (expirable val (now + timeout)) }

  unfoldable pub remove : TimedMap S V → ℕ → TimedMap S V
  remove m key = record m { inner = (S.remove m.inner key).1 }

  -- What `get` does with the entry that it finds: an expired one is taken out of the map.
  got : TimedMap S V → ℕ → Option (ExpiryValue V) → ℕ → Option V × TimedMap S V
  unfolding remove is_expired value_of
  got m key none now = (none, m)
  got m key (some found) now =
      if is_expired found now then (none, remove m key) else (some (value_of found), m)

  unfoldable pub get : TimedMap S V → ℕ → ℕ → Option V × TimedMap S V
  unfolding got
  get m key now = got m key (S.get m.inner key) now

  changed : TimedMap S V → ℕ → Option (ExpiryValue V) → (V → V) → ℕ → TimedMap S V
  unfolding remove is_expired with_value
  changed m key none f now = m
  changed m key (some found) f now =
      if is_expired found now
      then remove m key
      else record m { inner = S.insert m.inner key (with_value found f) }

  -- `if let Some(value) = map.get(&key) { value.lock()... }`
  unfoldable pub modify : TimedMap S V → ℕ → (V → V) → ℕ → TimedMap S V
  unfolding changed
  modify m key f now = changed m key (S.get m.inner key) f now

  unfoldable pub contains_key : TimedMap S V → ℕ → ℕ → Bool × TimedMap S V
  unfolding get
  contains_key m key now =
      if is_some (S.get m.inner key)
      then (is_some (get m key now).0, (get m key now).1)
      else (false, m)

  unfoldable pub len_expired : TimedMap S V → ℕ
  unfolding is_expirable
  len_expired m = length (filter (λ e. is_expirable e.1) (S.iter m.inner))

  renewed : TimedMap S V → ℕ → Option (ExpiryValue V) → ℕ → Option ℕ × TimedMap S V
  renewed m key none next_instant = (none, m)
  renewed m key (some (constant _)) next_instant = (none, m)
  renewed m key (some (expirable value _)) next_instant =
      (some next_instant, record m { inner = S.insert m.inner key (expirable value next_instant) })

  unfoldable pub update_expiration_status : TimedMap S V → ℕ → ℕ → ℕ → Option ℕ × TimedMap S V
  unfolding renewed
  update_expiration_status m key duration now = renewed m key (S.get m.inner key) (now + duration)

  unfoldable pub clear : TimedMap S V → TimedMap S V
  clear m = record m { inner = S.clear m.inner }

  unfoldable pub purge_expired : TimedMap S V → ℕ → TimedMap S V
  unfolding is_expired
  purge_expired m now =
      if m.disable_expiration
      then m
      else record m { inner = sweep S (λ e. is_expired e.1 now) m.inner (S.iter m.inner) }

  -- The entries that an iteration yields; it takes the expired ones out as it goes, even where
  -- expiration is disabled.
  unfoldable pub iter : TimedMap S V → ℕ → List (ℕ × V) × TimedMap S V
  unfolding is_expired value_of
  iter m now = (
    map (λ e. (e.0, value_of e.1)) (filter (λ e. not (is_expired e.1 now)) (S.iter m.inner)),
    record m { inner = sweep S (λ e. is_expired e.1 now) m.inner (S.iter m.inner) },
  )
