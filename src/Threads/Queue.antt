-- ===== src/Threads/Queue.antt =====
-- src/afb-thread.c: the queue of jobs. The pointer to a group is a number, and NULL is `none`.
use app_framework_binder.Base.{
  ℕ, Bool, false, ◌||◌, Option, none, some, List, [], ◌∷◌, ◌++◌, ◌==◌, if◌then◌else◌,
}

-- struct job. Its place in the list is the link to the next job.
pub record Job : Type 0 where
  pub callback : ℕ
  pub req : ℕ
  pub timeout : ℕ
  pub blocked : Bool
  pub group : Option ℕ

-- Whether a job has a group. In job_add the group NULL of the new job is replaced by the address of
-- that job, which is no group of a queued job.
abbrev pub has_group : ℕ → Job → Bool
has_group g job = elim job.group [ none ↦ false | some h ↦ g == h ]

-- The test of the loop of job_add, over the queue.
unfoldable pub any_of_group : Option ℕ → List Job → Bool
any_of_group none queue = false
any_of_group (some g) [] = false
any_of_group (some g) (job ∷ jobs) = has_group g job || any_of_group (some g) jobs

unfoldable pub job_add : Job → List Job → List Job
job_add job queue =
    queue ++ (record job { blocked = job.blocked || any_of_group job.group queue } ∷ [])

-- job_get: the first job that is not blocked, and the queue without it.
unfoldable pub job_get : List Job → Option (Job × List Job)
job_get [] = none
job_get (job ∷ jobs) =
    let later = job_get jobs in
    if job.blocked
    then elim later [ none ↦ none | some found ↦ some (found.0, job ∷ found.1) ]
    else some (job, jobs)

-- job_unblock: the first job of the group.
unfoldable pub job_unblock : ℕ → List Job → List Job
job_unblock g [] = []
job_unblock g (job ∷ jobs) =
    let later = job_unblock g jobs in
    if has_group g job then record job { blocked = false } ∷ jobs else job ∷ later
