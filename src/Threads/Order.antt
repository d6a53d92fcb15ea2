-- ===== src/Threads/Order.antt =====
-- The jobs of a group leave the queue in the order in which they came.
use app_framework_binder.Base.{
  ℕ, ◌≡◌, inl, inr, refl, ap, Bool, true, false, ◌&&◌, ◌||◌, not, some, List, [], ◌∷◌, ◌++◌, ◌==◌,
  if◌then◌else◌, arith, Bool-cases, Option-cases,
}
use app_framework_binder.Threads.Queue.{Job, has_group, any_of_group, job_add, job_get, job_unblock}

-- The jobs of a group, in the order of the queue.
unfoldable pub of_group : ℕ → List Job → List Job
of_group g [] = []
of_group g (job ∷ queue) =
    let later = of_group g queue in if has_group g job then job ∷ later else later

-- The jobs of a group behind the first one are blocked.
unfoldable pub all_blocked : ℕ → List Job → Bool
all_blocked g [] = true
all_blocked g (job ∷ queue) = (not (has_group g job) || job.blocked) && all_blocked g queue

unfoldable pub waits : ℕ → List Job → Bool
waits g [] = true
waits g (job ∷ queue) =
    let later = waits g queue in if has_group g job then all_blocked g queue else later

all_blocked-append :
    (g : ℕ) (queue : List Job) (job : Job)
    → all_blocked g queue ≡ true
    → (has_group g job ≡ true → job.blocked ≡ true)
    → all_blocked g (queue ++ (job ∷ [])) ≡ true
unfolding all_blocked
all_blocked-append g [] job all last = ground (arith, last)
all_blocked-append g (first ∷ queue) job all last =
    ground (arith, all, all_blocked-append g queue job, last)

waits-append :
    (g : ℕ) (queue : List Job) (job : Job)
    → waits g queue ≡ true
    → (any_of_group (some g) queue ≡ true → has_group g job ≡ true → job.blocked ≡ true)
    → waits g (queue ++ (job ∷ [])) ≡ true
unfolding waits all_blocked any_of_group
waits-append g [] job all last = ground arith
waits-append g (first ∷ queue) job all last = elim (Bool-cases (has_group g first)) [
  | inl same ↦
      let behind : all_blocked g queue ≡ true = ground (arith, all, same) in
      let known : any_of_group (some g) (first ∷ queue) ≡ true = ground (arith, same) in
      rw same (all_blocked-append g queue job behind (last known))
  | inr other ↦
      let later : waits g queue ≡ true = ground (arith, all, other) in
      rw other (waits-append g queue job later (λ known. last (ground (arith, other, known))))
]

pub waits-job_add :
    (g : ℕ) (job : Job) (queue : List Job)
    → waits g queue ≡ true
    → waits g (job_add job queue) ≡ true
unfolding job_add
waits-job_add g job queue all =
    let added = record job { blocked = job.blocked || any_of_group job.group queue } in
    waits-append g queue added all (λ known same.
      let group : job.group ≡ some g = ground (arith, same) in
      let here : any_of_group job.group queue ≡ any_of_group (some g) queue =
        ap (λ o. any_of_group o queue) group in
      ground (arith, known, here))

all_blocked-job_get :
    (g : ℕ) (queue : List Job) (job : Job) (left : List Job)
    → job_get queue ≡ some (job, left)
    → all_blocked g queue ≡ true
    → (all_blocked g left ≡ true) × (has_group g job ≡ false) × (of_group g queue ≡ of_group g left)
unfolding all_blocked of_group job_get
all_blocked-job_get g [] job left e all = ground (arith, e)
all_blocked-job_get g (first ∷ queue) job left e all = elim (Option-cases (job_get queue)) [
  | inl nothing ↦ ground (arith, nothing)
  | inr ((job', left'), found) ↦ ground (arith, found, all_blocked-job_get g queue job' left' found)
]

waits_of_all_blocked :
    (g : ℕ) (queue : List Job) → all_blocked g queue ≡ true → waits g queue ≡ true
unfolding waits all_blocked
waits_of_all_blocked g [] all = refl
waits_of_all_blocked g (job ∷ queue) all = ground (arith, all, waits_of_all_blocked g queue)

-- What is taken out of the queue is the first job of its group.
pub waits-job_get :
    (g : ℕ) (queue : List Job) (job : Job) (left : List Job)
    → job_get queue ≡ some (job, left)
    → waits g queue ≡ true
    → (waits g left ≡ true)
      × (of_group g queue ≡ (if has_group g job then job ∷ of_group g left else of_group g left))
unfolding waits of_group job_get
waits-job_get g [] job left e all = ground (arith, e)
waits-job_get g (first ∷ queue) job left e all = elim (Option-cases (job_get queue)) [
  | inl nothing ↦ ground (arith, nothing, waits_of_all_blocked g queue)
  | inr ((job', left'), found) ↦ ground (
    arith,
    found,
    waits-job_get g queue job' left' found,
    all_blocked-job_get g queue job' left' found,
    waits_of_all_blocked g queue,
  )
]

all_blocked-job_unblock :
    (g h : ℕ) (queue : List Job)
    → (g == h) ≡ false
    → all_blocked g (job_unblock h queue) ≡ all_blocked g queue
unfolding all_blocked job_unblock
all_blocked-job_unblock g h [] other = refl
all_blocked-job_unblock g h (job ∷ queue) other =
    ground (arith, other, all_blocked-job_unblock g h queue)

pub waits-job_unblock :
    (g h : ℕ) (queue : List Job) → waits g queue ≡ true → waits g (job_unblock h queue) ≡ true
unfolding waits job_unblock
waits-job_unblock g h [] all = refl
waits-job_unblock g h (job ∷ queue) all = elim (Bool-cases (g == h)) [
  | inl same ↦ ground (arith, all, same, waits-job_unblock g h queue)
  | inr other ↦
      ground (arith, all, other, waits-job_unblock g h queue, all_blocked-job_unblock g h queue)
]
