-- ===== src/Timer/Stopped.antt =====
-- timers/mod.rs: what a stopped timer still does.
use kiomq.Prelude.{
  ℕ, ◌+◌, ◌≤◌, ◌≡◌, refl, ap, Bool, true, false, List, [], ◌∷◌, ◌++◌, ◌&&◌, if◌then◌else◌, arith,
  Bool-cases, inl, inr,
}
use kiomq.Timer.{
  Timer, Phase, first_tick, ready, ticking, waiting, woken, over, step, at_head, Step, stepped,
  Steps, here, next, stop, run, is_running, is_paused, stopped, active, should_skip_first_tick,
  exchanged,
}

-- How many tasks are notified in their wait.
abbrev is_woken : Phase → ℕ
is_woken woken = 1
is_woken _ = 0

abbrev pub woken_count : List Phase → ℕ
woken_count [] = 0
woken_count (p ∷ ps) = is_woken p + woken_count ps

woken_count-append : (ps qs : List Phase) → woken_count (ps ++ qs) ≡ woken_count ps + woken_count qs
woken_count-append [] qs = omega arith
woken_count-append (p ∷ ps) qs = omega (arith, woken_count-append ps qs)

abbrev IsSpent : Timer → Timer → Type 0
IsSpent t u = (u.cancelled ≡ true) × (u.calls + woken_count u.tasks ≤ t.calls + woken_count t.tasks)

by_flag :
    (c q : Bool) (t : Timer)
    → t.cancelled ≡ true
    → c ≡ true
    → let r : Phase × Timer =
        if c
        then (over, t)
        else if q
        then (waiting, t)
        else (ticking, record t { calls = t.calls + 1 }) in
      (r.1.cancelled ≡ true) × (r.1.calls + is_woken r.0 ≤ t.calls + 0)
by_flag true q t h e = (h, omega arith)
by_flag false q t h e = cc

by_wait :
    (c : Bool) (t : Timer)
    → t.cancelled ≡ true
    → c ≡ true
    → let r : Phase × Timer = if c then (over, record t { state = stopped }) else (waiting, t) in
      (r.1.cancelled ≡ true) × (r.1.calls + is_woken r.0 ≤ t.calls + 0)
by_wait true t h e = (h, omega arith)
by_wait false t h e = cc

by_choice :
    (b : Bool) (t : Timer)
    → t.cancelled ≡ true
    → let r : Phase × Timer =
        if b
        then (over, record t { state = stopped })
        else (ticking, record t { state = active; calls = t.calls + 1 }) in
      (r.1.cancelled ≡ true) × (r.1.calls + is_woken r.0 ≤ t.calls + 1)
by_choice true t h = (h, omega arith)
by_choice false t h = (h, omega arith)

step-calls :
    (cancel : Bool) (p : Phase) (t : Timer)
    → t.cancelled ≡ true
    → let r = step cancel p t in
      (r.1.cancelled ≡ true) × (r.1.calls + is_woken r.0 ≤ t.calls + is_woken p)
unfolding step at_head
step-calls cancel first_tick t h = (h, omega arith)
step-calls cancel ready t h = by_flag t.cancelled (is_paused t.state) t h h
step-calls cancel ticking t h = (h, omega arith)
step-calls cancel waiting t h = by_wait t.cancelled t h h
step-calls cancel woken t h = by_choice (cancel && t.cancelled) t h
step-calls cancel over t h = (h, omega arith)

Step-IsSpent : {t u : Timer} → Step t u → t.cancelled ≡ true → IsSpent t u
Step-IsSpent {t} (stepped cancel before p after e) h =
    let r = step cancel p t in
    let (kept, fewer) = step-calls cancel p t h in
    (
      kept,
      omega (
        arith,
        fewer,
        ap woken_count e,
        woken_count-append before (p ∷ after),
        woken_count-append before (r.0 ∷ after),
      ),
    )

Steps-IsSpent : {t u : Timer} → t.cancelled ≡ true → Steps t u → IsSpent t u
Steps-IsSpent h here = (h, omega arith)
Steps-IsSpent h (next steps s) =
    let (kept, before) = Steps-IsSpent h steps in
    let (still, after) = Step-IsSpent s kept in (still, omega (arith, before, after))

spawned_calls :
    (b : Bool) (calls : ℕ) (tasks : List Phase) (n m : ℕ)
    → n + m ≤ calls + woken_count ((if b then ready else first_tick) ∷ tasks)
    → n ≤ calls + woken_count tasks
spawned_calls true calls tasks n m h = omega (arith, h)
spawned_calls false calls tasks n m h = omega (arith, h)

-- A timer that was stopped, and however its tasks go on: it stays cancelled, and the callback is
-- called at most once more for each task that was notified in the wait of a paused timer and had
-- not yet gone on. Running it after the stop spawns a task and makes it report that it is running,
-- and yet adds nothing to that number of calls.
pub stop-calls :
    (t u v : Timer)
    → Steps (stop t) u
    → Steps (run (stop t)).1 v
    → (u.cancelled ≡ true)
      × (u.calls ≤ t.calls + woken_count t.tasks)
      × ((run (stop t)).0 ≡ true)
      × (is_running (run (stop t)).1 ≡ true)
      × (v.calls ≤ t.calls + woken_count t.tasks)
unfolding stop run is_running
stop-calls t u v steps more =
    let (kept, spent) = Steps-IsSpent refl steps in
    let (_, again) = Steps-IsSpent refl more in
    (
      kept,
      omega (arith, spent),
      refl,
      refl,
      spawned_calls t.skip_first_tick t.calls t.tasks v.calls (woken_count v.tasks) again,
    )

-- Asking to skip the first tick answers `false` at every call, the first one included, and from
-- then on the flag is set.
pub should_skip_first_tick-false :
    (t : Timer)
    → ((should_skip_first_tick t).0 ≡ false) × ((should_skip_first_tick t).1.skip_first_tick ≡ true)
unfolding should_skip_first_tick exchanged
should_skip_first_tick-false t =
    (elim (Bool-cases t.skip_first_tick) [ inl e ↦ rw e refl | inr e ↦ rw e refl ], refl)
