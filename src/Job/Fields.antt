-- ===== src/Job/Fields.antt =====
-- queue/options.rs: the result of a processor, and the fields of a job that a store can set.
use kiomq.Prelude.{ℕ}
use kiomq.Env.{Env}
use kiomq.Job.{JobState, JobToken, JobMetrics, FailedDetails, Trace}

pub data ProcessedResult (E : Env) : Type 0 where
  failed : FailedDetails → ProcessedResult E
  success : E.Output → JobMetrics → ProcessedResult E

-- Times are in microseconds.
pub data JobField (E : Env) : Type 0 where
  token : JobToken → JobField E
  payload : ProcessedResult E → JobField E
  processed_on finished_on : ℕ → JobField E
  state : JobState → JobField E
  back_trace : Trace → JobField E
