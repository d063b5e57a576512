-- ===== src/Worker/Timed/Promoted.antt =====
-- utils/mod.rs, metrics/process_metrics.rs and timers/delay_queue_timer.rs: the way of a delayed job
-- whose time has come into the waiting list.
use kiomq.Prelude.{ℕ, ◌-◌, ◌≡◌, ◌&&◌, List, [], ◌∷◌, map, filter, leb, ltb}
use kiomq.Env.{Env}
use kiomq.Store.{Store, Now}
use kiomq.Store.Items.{get_delayed_at}
use kiomq.Timers.{promoted_delayed, send_all, schedule}
use kiomq.Worker.{Crew}
use kiomq.Worker.Timed.{fail_all}

module _ {E : Env} where
  -- The crew by what the delayed set gave.
  abbrev by_moment : E.Dt → Now E → (List ℕ × List ℕ) → Store E → Crew E → Crew E
  by_moment date_time now (jobs, missed) s c = record c {
    collector = send_all c.queue_id (map (λ id. promoted_delayed id c.queue_id) jobs) c.collector;
    queue = fail_all date_time now missed (record c.queue { store = s });
  }

  -- The delayed jobs of a queue at a moment, the first of which is promoted.
  abbrev only_first : E.Dt → E.Dt → ℕ → Crew E → Crew E
  only_first date_time stop_date id c = record c {
    collector = schedule c.queue_id (promoted_delayed id c.queue_id) c.collector;
    queue = record c.queue {
      store =
          (get_delayed_at (E.timestamp_millis date_time) (E.timestamp_millis stop_date)
            c.queue.store).1;
    };
  }

  -- Jobs that are due, and none that was missed.
  abbrev pub Due : ℕ → ℕ → Store E → ℕ → List ℕ → Type 0
  Due start stop s id ids =
      (map (λ e. e.1) (filter (λ e. leb start e.0 && ltb e.0 stop) (E.maps.iter s.delayed))
        ≡ id ∷ ids)
      × (filter (λ e. ltb e.0 (start - 1)) (E.maps.iter s.delayed) ≡ [])
