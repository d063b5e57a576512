-- ===== src/Timer.antt =====
-- timers/mod.rs: a repeating timer. Each call of `run` spawns a task; a task rests where it awaits a
-- tick or a notification, and what it does up to its next rest is one step.
pub mod Stopped
use kiomq.Prelude.{
  ℕ, ◌+◌, ◌≡◌, ◌&&◌, Bool, true, false, not, Option, none, some, List, [], ◌∷◌, ◌++◌, map,
  if◌then◌else◌,
}

pub data TimerState : Type 0 where
  stopped active paused : TimerState

abbrev pub is_active : TimerState → Bool
is_active active = true
is_active _ = false

abbrev pub is_paused : TimerState → Bool
is_paused paused = true
is_paused _ = false

pub data Phase : Type 0 where
  -- Before the first tick, at the head of the loop, before the next tick.
  first_tick ready ticking : Phase
  -- In the wait of a paused timer, notified in it, and over.
  waiting woken over : Phase

pub record Timer : Type 0 where
  pub interval : ℕ
  pub state : TimerState
  pub skip_first_tick : Bool
  pub cancelled : Bool
  pub tasks : List Phase
  -- How often the callback was called.
  pub calls : ℕ

unfoldable pub new : ℕ → Timer
new delay_ms = record {
  interval = delay_ms;
  state = stopped;
  skip_first_tick = false;
  cancelled = false;
  tasks = [];
  calls = 0;
}

-- The value that an exchange from `false` to `true` returns: the old one, or the default on failure.
unfoldable pub exchanged : Bool → Bool
exchanged false = false
exchanged true = false

unfoldable pub should_skip_first_tick : Timer → Bool × Timer
unfolding exchanged
should_skip_first_tick t = (exchanged t.skip_first_tick, record t { skip_first_tick = true })

unfoldable pub pause : Timer → Timer
pause t = if is_paused t.state then t else record t { state = paused }

unfoldable pub is_running : Timer → Bool
is_running t = is_active t.state

-- Whether a task was spawned. The state is set after that.
unfoldable pub run : Timer → Bool × Timer
unfolding is_running
run t = if is_running t then (false, t) else (
  true,
  record t { tasks = (if t.skip_first_tick then ready else first_tick) ∷ t.tasks; state = active },
)

unfoldable pub stop : Timer → Timer
stop t = record t { cancelled = true; state = stopped }

-- `notify_waiters` reaches the tasks that wait at this moment.
wake : Phase → Phase
wake waiting = woken
wake p = p

unfoldable pub resume : Timer → Timer
unfolding wake
resume t = if is_paused t.state then record t { tasks = map wake t.tasks } else t

-- The next step of a task, with the timer that it leaves. A wait that is both notified and
-- cancelled can end either way, by the flag.
at_head : Timer → Phase × Timer
at_head t =
    if t.cancelled
    then (over, t)
    else if is_paused t.state
    then (waiting, t)
    else (ticking, record t { calls = t.calls + 1 })

unfoldable pub step : Bool → Phase → Timer → Phase × Timer
unfolding at_head
step cancel first_tick t = (ready, t)
step cancel ready t = at_head t
step cancel ticking t = (ready, t)
step cancel waiting t = if t.cancelled then (over, record t { state = stopped }) else (waiting, t)
step cancel woken t =
    if cancel && t.cancelled
    then (over, record t { state = stopped })
    else (ticking, record t { state = active; calls = t.calls + 1 })
step cancel over t = (over, t)

-- The timer with one of its tasks a step further.
pub data Step : Timer → Timer → Type 0 where
  stepped :
      {t : Timer} (cancel : Bool) (before : List Phase) (p : Phase) (after : List Phase)
      → t.tasks ≡ before ++ p ∷ after
      → Step t (let (q, u) = step cancel p t in record u { tasks = before ++ q ∷ after })

pub data Steps (t : Timer) : Timer → Type 0 where
  here : Steps t t
  next : {u v : Timer} → Steps t u → Step u v → Steps t v
