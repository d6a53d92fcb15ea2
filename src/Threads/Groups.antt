-- ===== src/Threads/Groups.antt =====
-- The first job of a group in the queue, and whether it is blocked.
use app_framework_binder.Base.{
  ℕ, zero, suc, ◌<◌, ◌≡◌, ◌⊎◌, inl, inr, refl, ap, Bool, true, false, ◌&&◌, ◌||◌, not, Option, none,
  some, List, [], ◌∷◌, ◌++◌, ◌==◌, if◌then◌else◌, get_elem?, set, arith, Bool-cases, Option-cases,
}
use app_framework_binder.Threads.Queue.{Job, has_group, any_of_group, job_add, job_get, job_unblock}
use app_framework_binder.Threads.Pool.{Thread, new_thread, stop_all}
use app_framework_binder.Threads.Places.{count_works}

unfoldable pub first_blocked : ℕ → List Job → Bool
first_blocked g [] = false
first_blocked g (job ∷ jobs) = if has_group g job then job.blocked else first_blocked g jobs

-- No job without a group is blocked.
abbrev pub is_free : Job → Bool
is_free job = elim job.group [ none ↦ not job.blocked | some g ↦ true ]

unfoldable pub all_free : List Job → Bool
all_free [] = true
all_free (job ∷ jobs) = is_free job && all_free jobs

first_blocked_behind :
    (g : ℕ) (queue : List Job) (job : Job)
    → (first_blocked g (queue ++ (job ∷ [])) ≡ (
        if any_of_group (some g) queue
        then first_blocked g queue
        else (if has_group g job then job.blocked else false)))
      × (any_of_group (some g) queue ≡ false → first_blocked g queue ≡ false)
unfolding first_blocked any_of_group
first_blocked_behind g [] job = (refl, λ _. refl)
first_blocked_behind g (first ∷ queue) job =
    let behind = first_blocked_behind g queue job in
    (ground (arith, behind.0), λ h. ground (arith, behind.1, h))

-- A new job leaves it as it is for the first job of each group.
pub first_blocked-job_add :
    (g : ℕ) (job : Job) (queue : List Job)
    → job.blocked ≡ false
    → first_blocked g (job_add job queue) ≡ first_blocked g queue
unfolding job_add
first_blocked-job_add g job queue fresh =
    let added = record job { blocked = job.blocked || any_of_group job.group queue } in
    let behind = first_blocked_behind g queue added in
    elim (Bool-cases (has_group g job)) [
      | inl same ↦
          let group : job.group ≡ some g = ground (arith, same) in
          let known : any_of_group job.group queue ≡ any_of_group (some g) queue =
            ap (λ o. any_of_group o queue) group in
          ground (arith, behind, fresh, same, known)
      | inr other ↦ ground (arith, behind, fresh, other)
    ]

-- The job that is taken out may be the first of its group.
pub first_blocked-job_get :
    (g : ℕ) (queue : List Job) (job : Job) (left : List Job)
    → job_get queue ≡ some (job, left)
    → first_blocked g left ≡ true
    → (first_blocked g queue ≡ true) ⊎ (job.group ≡ some g)
unfolding first_blocked job_get
first_blocked-job_get g [] job left e h = ground (arith, e)
first_blocked-job_get g (first ∷ queue) job left e h = elim (Option-cases (job_get queue)) [
  | inl nothing ↦ ground (arith, nothing)
  | inr ((job', left'), found) ↦
      ground (arith, found, first_blocked-job_get g queue job' left' found)
]

pub first_blocked-job_unblock :
    (g h : ℕ) (queue : List Job)
    → first_blocked g (job_unblock h queue) ≡ (if g == h then false else first_blocked g queue)
unfolding first_blocked job_unblock
first_blocked-job_unblock g h [] = ground arith
first_blocked-job_unblock g h (job ∷ queue) = ground (arith, first_blocked-job_unblock g h queue)

-- Some thread runs a job of the group.
unfoldable pub works_on : ℕ → List Thread → Bool
works_on g [] = false
works_on g (t ∷ ts) = elim t.job [ none ↦ false | some job ↦ has_group g job ] || works_on g ts

abbrev pub busy_on : ℕ → Option Job → Bool
busy_on g none = false
busy_on g (some job) = has_group g job

-- A thread that turns to another job.
pub works_on-set :
    (g : ℕ) (threads : List Thread) (i : ℕ) (t t' : Thread)
    → get_elem? threads i ≡ some t
    → (works_on g threads ≡ true
        → (works_on g (set threads i t') ≡ true) ⊎ (busy_on g t.job ≡ true))
      × (busy_on g t'.job ≡ true → works_on g (set threads i t') ≡ true)
unfolding works_on
works_on-set g [] i t t' at = ground (arith, at)
works_on-set g (x ∷ xs) zero t t' at = (λ h. ground (arith, at, h), λ h. ground (arith, h))
works_on-set g (x ∷ xs) (suc i) t t' at =
    let later = works_on-set g xs i t t' at in
    (λ h. ground (arith, h, later.0), λ h. ground (arith, h, later.1))

pub works_on_started :
    (g : ℕ) (threads : List Thread)
    → works_on g threads ≡ true
    → works_on g (threads ++ (new_thread ∷ [])) ≡ true
unfolding works_on
works_on_started g [] h = ground (arith, h)
works_on_started g (t ∷ ts) h = ground (arith, works_on_started g ts)

pub works_on-stop_all :
    (g : ℕ) (threads : List Thread) → works_on g (stop_all threads) ≡ works_on g threads
unfolding works_on stop_all
works_on-stop_all g [] = refl
works_on-stop_all g (t ∷ ts) = ground (arith, works_on-stop_all g ts)

all_free-append :
    (queue : List Job) (job : Job)
    → all_free queue ≡ true
    → is_free job ≡ true
    → all_free (queue ++ (job ∷ [])) ≡ true
unfolding all_free
all_free-append [] job all free = ground (arith, free)
all_free-append (first ∷ queue) job all free = ground (arith, all, all_free-append queue job)

pub all_free-job_add :
    (job : Job) (queue : List Job)
    → job.blocked ≡ false
    → all_free queue ≡ true
    → all_free (job_add job queue) ≡ true
unfolding job_add any_of_group
all_free-job_add job queue fresh all =
    all_free-append queue (record job { blocked = job.blocked || any_of_group job.group queue }) all
      (elim (Option-cases job.group) [
        | inl alone ↦ ground (arith, fresh, alone)
        | inr (g, grouped) ↦ ground (arith, grouped)
      ])

pub all_free-job_get :
    (queue : List Job) (job : Job) (left : List Job)
    → job_get queue ≡ some (job, left)
    → all_free queue ≡ true
    → all_free left ≡ true
unfolding all_free job_get
all_free-job_get [] job left e all = ground (arith, e)
all_free-job_get (first ∷ queue) job left e all = elim (Option-cases (job_get queue)) [
  | inl nothing ↦ ground (arith, nothing)
  | inr ((job', left'), found) ↦ ground (arith, found, all_free-job_get queue job' left' found)
]

pub all_free-job_unblock :
    (g : ℕ) (queue : List Job) → all_free queue ≡ true → all_free (job_unblock g queue) ≡ true
unfolding all_free job_unblock
all_free-job_unblock g [] all = refl
all_free-job_unblock g (job ∷ queue) all = ground (arith, all, all_free-job_unblock g queue)

-- If the first job of the queue is blocked, it is the first of its group.
pub first_blocked_head :
    (job : Job) (queue : List Job)
    → is_free job ≡ true
    → job.blocked ≡ true
    → (g : ℕ) × (first_blocked g (job ∷ queue) ≡ true)
unfolding first_blocked
first_blocked_head job queue free blocked = elim (Option-cases job.group) [
  | inl alone ↦ absurd (ground (arith, free, blocked, alone))
  | inr (g, grouped) ↦ (g, ground (arith, blocked, grouped))
]

pub count_works_pos :
    (g : ℕ) (threads : List Thread) → works_on g threads ≡ true → 0 < count_works threads
unfolding works_on count_works
count_works_pos g [] h = ground (arith, h)
count_works_pos g (t ∷ threads) h = ground (arith, h, count_works_pos g threads)
