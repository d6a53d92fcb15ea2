-- ===== src/Threads/Places.antt =====
-- Where the requests are: in the queue, with a thread, or ended.
use app_framework_binder.Base.{
  ℕ, zero, suc, ◌+◌, ◌≡◌, inl, inr, refl, Bool, ◌||◌, Option, none, some, List, [], ◌∷◌, ◌++◌, ◌==◌,
  if◌then◌else◌, get_elem?, set, length, length-append, arith, Option-cases,
}
use app_framework_binder.Threads.Queue.{Job, any_of_group, job_add, job_get, job_unblock}
use app_framework_binder.Threads.Pool.{Thread, End, ran, failed, new_thread, stop_all, cancel}

abbrev pub one : Bool → ℕ
one b = if b then 1 else 0

abbrev pub req_is : ℕ → Job → ℕ
req_is r job = one (job.req == r)

-- How often a request is given, in the queue, with a thread, and ended.
unfoldable pub asked : ℕ → List ℕ → ℕ
asked r [] = 0
asked r (req ∷ given) = one (req == r) + asked r given

unfoldable pub pending : ℕ → List Job → ℕ
pending r [] = 0
pending r (job ∷ queue) = req_is r job + pending r queue

abbrev pub held_by : ℕ → Option Job → ℕ
held_by r none = 0
held_by r (some job) = req_is r job

unfoldable pub held : ℕ → List Thread → ℕ
held r [] = 0
held r (t ∷ threads) = held_by r t.job + held r threads

unfoldable pub end_is : ℕ → End → ℕ
end_is r (ran req) = one (req == r)
end_is r (failed req) = one (req == r)

unfoldable pub ended_times : ℕ → List End → ℕ
ended_times r [] = 0
ended_times r (end ∷ ends) = end_is r end + ended_times r ends

-- The threads that run a job.
abbrev pub works : Option Job → ℕ
works none = 0
works (some job) = 1

unfoldable pub count_works : List Thread → ℕ
count_works [] = 0
count_works (t ∷ threads) = works t.job + count_works threads

pending-append :
    (r : ℕ) (queue : List Job) (job : Job)
    → pending r (queue ++ (job ∷ [])) ≡ pending r queue + req_is r job
unfolding pending
pending-append r [] job = omega arith
pending-append r (first ∷ queue) job = omega (arith, pending-append r queue job)

pub pending-job_add :
    (r : ℕ) (job : Job) (queue : List Job)
    → (pending r (job_add job queue) ≡ pending r queue + req_is r job)
      × (length (job_add job queue) ≡ length queue + 1)
unfolding job_add
pending-job_add r job queue =
    let added = record job { blocked = job.blocked || any_of_group job.group queue } in
    (pending-append r queue added, omega (arith, length-append queue (added ∷ [])))

pub pending-job_get :
    (r : ℕ) (queue : List Job) (job : Job) (left : List Job)
    → job_get queue ≡ some (job, left)
    → (pending r queue ≡ pending r left + req_is r job) × (length queue ≡ length left + 1)
unfolding pending job_get
pending-job_get r [] job left e = ground (arith, e)
pending-job_get r (first ∷ queue) job left e = elim (Option-cases (job_get queue)) [
  | inl nothing ↦ ground (arith, nothing)
  | inr ((job', left'), found) ↦ ground (arith, found, pending-job_get r queue job' left' found)
]

pub pending-job_unblock :
    (r g : ℕ) (queue : List Job)
    → (pending r (job_unblock g queue) ≡ pending r queue)
      × (length (job_unblock g queue) ≡ length queue)
unfolding pending job_unblock
pending-job_unblock r g [] = (refl, refl)
pending-job_unblock r g (job ∷ queue) = ground (arith, pending-job_unblock r g queue)

pub ended_times-cancel :
    (r : ℕ) (queue : List Job) (ends : List End)
    → ended_times r (cancel queue ends) ≡ ended_times r ends + pending r queue
unfolding ended_times pending cancel end_is
ended_times-cancel r [] ends = omega arith
ended_times-cancel r (job ∷ queue) ends =
    omega (arith, ended_times-cancel r queue (failed job.req ∷ ends))

-- A thread that turns to another job.
pub held-set :
    (r : ℕ) (threads : List Thread) (i : ℕ) (t t' : Thread)
    → get_elem? threads i ≡ some t
    → (held r (set threads i t') + held_by r t.job ≡ held r threads + held_by r t'.job)
      × (count_works (set threads i t') + works t.job ≡ count_works threads + works t'.job)
unfolding held count_works
held-set r [] i t t' at = ground (arith, at)
held-set r (x ∷ xs) zero t t' at = ground (arith, at)
held-set r (x ∷ xs) (suc i) t t' at = ground (arith, held-set r xs i t t' at)

pub held_started :
    (r : ℕ) (threads : List Thread)
    → (held r (threads ++ (new_thread ∷ [])) ≡ held r threads)
      × (count_works (threads ++ (new_thread ∷ [])) ≡ count_works threads)
      × (length (threads ++ (new_thread ∷ [])) ≡ length threads + 1)
unfolding held count_works
held_started r [] = (refl, refl, refl)
held_started r (t ∷ threads) = ground (arith, held_started r threads)

pub held-stop_all :
    (r : ℕ) (threads : List Thread)
    → (held r (stop_all threads) ≡ held r threads)
      × (count_works (stop_all threads) ≡ count_works threads)
      × (length (stop_all threads) ≡ length threads)
unfolding held count_works stop_all
held-stop_all r [] = (refl, refl, refl)
held-stop_all r (t ∷ threads) = ground (arith, held-stop_all r threads)
