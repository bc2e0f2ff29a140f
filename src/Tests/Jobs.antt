-- ===== src/Tests/Jobs.antt =====
-- Claims, the recovery and the life of sample jobs.
use pack_verse.Base.{
  ℕ, ◌+◌, ◌-◌, ◌*◌, ◌^◌, ◌≤◌, ◌≡◌, ◌≢◌, ◌⊎◌, refl, Bool, true, false, none, some, List, [], ◌∷◌, ok,
  leb, arith,
}
use mathlib.Core.List.{Memᴰ}
use pack_verse.Enums.{JobStatus}
use pack_verse.Json.{end}
use pack_verse.Jobs.Row.{Job}
use pack_verse.Jobs.Machine.{validate_job_transition}
use pack_verse.Jobs.Queue.{mark_failed_or_retry}
use pack_verse.Jobs.Claim.{claimable, eligible, claim_next_job}
use pack_verse.Jobs.Claim.Outcome.{IsClaim, claim_next_job_outcome, claim_next_job_exclusive}
use pack_verse.Jobs.Recover.{recover_stale_jobs}
use pack_verse.Jobs.Recover.Pass.{Recovered, recover_stale_jobs-Recovered, recover_stale_jobs_again}
use pack_verse.Jobs.Lifecycle.{
  Event, claim, heartbeat, complete, fail_or_retry, recover, perform, perform_all, new_job,
}
use pack_verse.Jobs.Lifecycle.Invariant.{IsConsistent, perform-transition}
use pack_verse.Jobs.Lifecycle.Attempts.{claims, new_job_history, retry_waits}
use pack_verse.Tests.Samples.{sample_job}

abbrev free : ℕ → Bool
free id = false

-- two waiting jobs, the second one older, and a running one whose lease ends at 50
abbrev table : List Job
table =
    sample_job 1 JobStatus.queued 40
    ∷ sample_job 2 JobStatus.retrying 30
    ∷ sample_job 3 JobStatus.running 10
    ∷ []

abbrev second_claimed : Job
second_claimed = record (sample_job 2 JobStatus.running 30) {
  attempt_count = 2;
  worker_id = some "w2";
  lease_expires_at = some 90;
  heartbeat_at = some 60;
}

abbrev first_claimed : Job
first_claimed = record (sample_job 1 JobStatus.running 40) {
  attempt_count = 2;
  worker_id = some "w3";
  lease_expires_at = some 95;
  heartbeat_at = some 65;
}

abbrev table_after : List Job
table_after =
    sample_job 1 JobStatus.queued 40 ∷ second_claimed ∷ sample_job 3 JobStatus.running 10 ∷ []

claim_of_second : claim_next_job free 60 "w2" 30 table ≡ ok (some second_claimed, table_after)
unfolding claim_next_job
claim_of_second = refl

claim_of_first :
    claim_next_job free 65 "w3" 30 table_after
    ≡ ok (
      some first_claimed,
      first_claimed ∷ second_claimed ∷ sample_job 3 JobStatus.running 10 ∷ [],
    )
unfolding claim_next_job
claim_of_first = refl

claim_next_job_exclusive_example : second_claimed.id ≢ first_claimed.id
claim_next_job_exclusive_example =
    claim_next_job_exclusive free free 60 65 "w2" "w3" 30 30 table table_after
      (first_claimed ∷ second_claimed ∷ sample_job 3 JobStatus.running 10 ∷ []) second_claimed
      first_claimed claim_of_second claim_of_first

claim_next_job_outcome_example :
    ((claim_next_job free 60 "w2" 30 table ≡ ok (none, table))
      × ((k : Job) → Memᴰ k table → claimable free 60 k ≢ true))
    ⊎ ((old : Job) × (job : Job) × (jobs' : List Job) × (claim_next_job free 60 "w2" 30 table
          ≡ ok (some job, jobs'))
        × IsClaim free 60 "w2" 30 table old job jobs')
claim_next_job_outcome_example = claim_next_job_outcome free 60 "w2" 30 table

recover_stale_jobs-Recovered_example :
    let (n, jobs') = recover_stale_jobs free 60 5 table in Recovered free 60 5 table n jobs'
recover_stale_jobs-Recovered_example = recover_stale_jobs-Recovered free 60 5 table (ground arith)

recover_stale_jobs_again_example :
    let jobs' = (recover_stale_jobs free 60 5 table).1 in
    recover_stale_jobs free 60 5 jobs' ≡ (0, jobs')
recover_stale_jobs_again_example = recover_stale_jobs_again free 60 5 table (ground arith)

abbrev history : List Event
history =
    claim 10 "w1" 30
    ∷ heartbeat 20 30
    ∷ recover 60 5
    ∷ claim 70 "w2" 30
    ∷ fail_or_retry 80 "E" "text" 5
    ∷ claim 200 "w2" 30
    ∷ complete 210
    ∷ []

new_job_history_example :
    let j = new_job 1 "agent_run" 7 end 3 5 in
    IsConsistent (perform_all history j)
    × ((perform_all history j).attempt_count ≡ claims history j)
    × (claims history j ≤ 3)
new_job_history_example = new_job_history history 1 "agent_run" 7 end 3 5 (omega arith)

perform-transition_example :
    ((perform (complete 5) (sample_job 3 JobStatus.running 10)).status ≡ JobStatus.running)
    ⊎ (validate_job_transition JobStatus.running
          (perform (complete 5) (sample_job 3 JobStatus.running 10)).status
        ≡ ok tt)
perform-transition_example = perform-transition (complete 5) (sample_job 3 JobStatus.running 10)

retry_waits_example :
    (j' : Job) × (mark_failed_or_retry 60 "E" "text" 5 (sample_job 3 JobStatus.running 10)
      ≡ ok (JobStatus.retrying, j'))
    × (eligible 70 j' ≡ leb (60 + 5 * 2 ^ (1 - 1)) 70)
retry_waits_example =
    retry_waits 60 5 70 "E" "text" (sample_job 3 JobStatus.running 10) refl (omega arith)
