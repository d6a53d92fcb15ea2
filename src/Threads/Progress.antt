-- ===== src/Threads/Progress.antt =====
-- What the pool of threads promises to those who hand it requests.
use app_framework_binder.Base.{
  ℕ, ◌+◌, ◌-◌, ◌≤◌, ◌≡◌, ◌⊎◌, Bool, true, false, some, List, [], ◌∷◌, set, length, arith,
}
use app_framework_binder.Threads.Queue.{Job, job_get}
use app_framework_binder.Threads.Pool.{Thread, Pool, thread_turn, next_job, thread_init, Reach}
use app_framework_binder.Threads.Order.{of_group, waits-job_get}
use app_framework_binder.Threads.Places.{asked, pending, held, ended_times, count_works}
use app_framework_binder.Threads.Invariant.{
  IsValid, Reach-IsValid, thread_init-IsValid, head_is_free,
}

count_works-le : (threads : List Thread) → count_works threads ≤ length threads
unfolding count_works
count_works-le [] = omega arith
count_works-le (t ∷ threads) = ground (arith, count_works-le threads)

-- A pool that thread_init has set up, and what has become of it.
module _ (allocated all : Bool) (room start_count most : ℕ) (results : List Bool) {start p : Pool}
    {given : List ℕ} (fits : start_count ≤ room)
    (set_up : thread_init allocated room start_count most results ≡ some (start, all))
    (run : Reach start p given) where
  valid : IsValid most room p given
  valid =
      Reach-IsValid
        (thread_init-IsValid allocated room start_count most results start all fits set_up) run

  -- The queue never has more jobs than the count of waiters, there are never more threads than the
  -- array holds, and `running` is at most their number. Until the end, `remains` is the room in the
  -- queue, so that a request is refused for it only if the queue is full.
  pub pool_bounds :
      (length p.queue ≤ most)
      × (length p.threads ≤ room)
      × (p.running ≤ length p.threads)
      × ((p.freed ≡ true) ⊎ (p.remains ≡ most - length p.queue))
  pool_bounds = let v = valid 0 0 in ground (arith, v, count_works-le p.threads)

  -- No request is lost or handled twice: as often as it was given, it waits in the queue, runs in a
  -- thread, or has ended, by its callback or by a failure.
  pub requests_kept :
      (req : ℕ)
      → asked req given ≡ pending req p.queue + held req p.threads + ended_times req p.ends
  requests_kept req = (valid req 0).placed

  -- While no job runs, a thread that has none and is not to stop takes the first job of the queue as
  -- its next: the queue is never blocked, and the error "threads are blocked" is never reported.
  pub never_blocked :
      (i : ℕ) (me : Thread) (job : Job) (queue : List Job)
      → me.stop ≡ false
      → p.running ≡ 0
      → p.queue ≡ job ∷ queue
      → thread_turn i me p ≡ record p {
        queue = queue;
        remains = p.remains + 1;
        running = 1;
        threads = set p.threads i (record me { job = some job });
      }
  unfolding thread_turn next_job job_get
  never_blocked i me job queue going rests e =
      ground (arith, e, rests, going, head_is_free p given job queue valid rests e)

  -- The jobs of a group are taken in the order in which they were queued.
  pub group_order :
      (g : ℕ) (job : Job) (left : List Job)
      → job_get p.queue ≡ some (job, left)
      → job.group ≡ some g
      → of_group g p.queue ≡ job ∷ of_group g left
  group_order g job left found grouped =
      ground (arith, grouped, waits-job_get g p.queue job left found (valid 0 g).order)
