-- ===== src/Examples/Disk.antt =====
-- The store in the database at work, beside the one in memory.
use kiomq.Prelude.{◌≡◌, refl, true, false, none, some, [], ◌∷◌, List, arith}
use kiomq.ColumnFamily.{functions}
use kiomq.Job.{Job, JobState}
use kiomq.Suffix.{CollectionSuffix, tag, discriminant}
use kiomq.Result.{ok}
use kiomq.Store.{Store, new}
use kiomq.Store.Items as Memory
use kiomq.Rocks.{RocksDbStore, array, object, job, put, fetch, initial_collections}
use kiomq.Rocks.Items as Disk
use kiomq.Rocks.Jobs.{get_job, get_token, set_lock}
use kiomq.Rocks.Records.{fetch-put_same}
use kiomq.Rocks.Alike.{Call, enter, postpone, claim, leave, memory, disk, run, IsAlike}
use kiomq.Rocks.Alike.Traces.{run-fresh}
use kiomq.Rocks.Alike.Delayed.{get_delayed_at-same}
use kiomq.SkipMap.Sorted
use kiomq.Rocks.Insert.{Batch, submit_changes}
use kiomq.Rocks.Insert.Submitted.{submit_changes-writes}
use kiomq.Rocks.Counted.{attempted, attempted-doubles}
use kiomq.Rocks.Lost.{pause-replaces, get_token-set_lock, get_job_ids_in_state-stalled}
use kiomq.Examples.{sample, worker_token}
use kiomq.Examples as Examples

abbrev fresh : RocksDbStore functions sample
fresh = initial_collections none "mail"

-- Two jobs wait, one is delayed; one is taken and finished; then the other is taken.
abbrev calls : List Call
calls = enter 1 true ∷ enter 2 true ∷ postpone 3 500 ∷ claim ∷ leave 1 ∷ claim ∷ []

run-fresh_example :
    ((run (memory {E = sample}) calls (new none "mail")).0 ≡ (run disk calls fresh).0)
    × IsAlike (run (memory {E = sample}) calls (new none "mail")).1 (run disk calls fresh).1
run-fresh_example = run-fresh calls none "mail" (omega arith)

abbrev after : RocksDbStore functions sample
after = (run disk calls fresh).1

abbrev after_in_memory : Store sample
after_in_memory = (run (memory {E = sample}) calls (new none "mail")).1

get_delayed_at-same_example :
    ((Disk.get_delayed_at 400 600 after).0 ≡ ok (Memory.get_delayed_at 400 600 after_in_memory).0)
    × IsAlike
        (Memory.get_delayed_at 400 600 after_in_memory).1
        (Disk.get_delayed_at 400 600 after).1
get_delayed_at-same_example =
    get_delayed_at-same after_in_memory after 400 600 (run-fresh calls none "mail" (omega arith)).1
      (omega arith) (omega arith) (omega arith)

abbrev stored : Job sample
stored = record Examples.job { id = some 1; attempts_made = 1 }

abbrev with_job : RocksDbStore functions sample
with_job = put (CollectionSuffix.job 1) (job stored) fresh

-- From one attempt, three more make fifteen.
attempted-doubles_example :
    get_job 1 (attempted 1 3 with_job) ≡ some (record stored { attempts_made = 15 })
attempted-doubles_example =
    attempted-doubles 3 1 stored with_job
      (fetch-put_same (CollectionSuffix.job 1) (job stored) fresh) (omega arith)

-- Job 1 waits and job 2 is on the paused list.
abbrev both : RocksDbStore functions sample
both =
    put CollectionSuffix.paused (array (2 ∷ [])) (put CollectionSuffix.wait (array (1 ∷ [])) fresh)

pause-replaces_example :
    (fetch CollectionSuffix.paused (Disk.pause true both) ≡ some (array (1 ∷ [])))
    × (fetch CollectionSuffix.wait (Disk.pause true both) ≡ none)
    × (fetch CollectionSuffix.wait (Disk.pause false both) ≡ some (array (2 ∷ [])))
    × (fetch CollectionSuffix.paused (Disk.pause false both) ≡ none)
unfolding fetch put initial_collections tag discriminant
pause-replaces_example = pause-replaces (array (1 ∷ [])) (array (2 ∷ [])) both refl refl

get_token-set_lock_example :
    (Disk.exists_in
        (CollectionSuffix.lock 1)
        0
        (set_lock (CollectionSuffix.lock 1) (some worker_token) 30000 100 fresh)
      ≡ true)
    × (get_token 1 (set_lock (CollectionSuffix.lock 1) (some worker_token) 30000 100 fresh) ≡ none)
unfolding fetch initial_collections tag discriminant
get_token-set_lock_example = get_token-set_lock 1 30000 100 worker_token fresh refl

get_job_ids_in_state-stalled_example :
    Disk.get_job_ids_in_state JobState.stalled none none
      (Disk.add_item CollectionSuffix.stalled 1 (some 5) true both)
    ≡ Disk.get_job_ids_in_state JobState.stalled none none both
get_job_ids_in_state-stalled_example = get_job_ids_in_state-stalled 1 (some 5) true none none both

-- Job 4 enters in front of job 1, and job 5 is delayed to 700.
abbrev batch : Batch
batch = record { list = 4 ∷ []; priorized = []; delayed = (700, 5) ∷ [] }

abbrev late : Job sample
late = record Examples.job { id = some 5; state = JobState.delayed }

abbrev collected : RocksDbStore functions sample
collected = record (put CollectionSuffix.wait (array (1 ∷ [])) fresh) {
  job_batch = (4, stored) ∷ (5, late) ∷ [];
}

submit_changes-writes_example :
    let r = submit_changes false batch collected in
    (fetch CollectionSuffix.wait r ≡ some (array (4 ∷ 1 ∷ [])))
    × (fetch CollectionSuffix.delayed r ≡ some (object ((700, 5) ∷ [])))
    × (fetch CollectionSuffix.prioritized r ≡ some (object []))
    × (fetch CollectionSuffix.paused r ≡ fetch CollectionSuffix.paused collected)
    × (fetch CollectionSuffix.active r ≡ fetch CollectionSuffix.active collected)
    × (fetch (CollectionSuffix.job 4) r ≡ some (job stored))
unfolding fetch put initial_collections tag discriminant Sorted.insert
submit_changes-writes_example =
    submit_changes-writes batch (1 ∷ []) [] [] collected [] ((5, late) ∷ []) 4 stored refl refl refl
      refl (refl, tt)
