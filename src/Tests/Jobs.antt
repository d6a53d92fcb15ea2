-- ===== src/Tests/Jobs.antt =====
use app_framework_binder.Base.{
  ℕ, ◌+◌, ◌-◌, ◌≤◌, ◌≡◌, ◌⊎◌, refl, true, false, some, [], ◌∷◌, length, arith,
}
use app_framework_binder.Threads.Queue.{Job, job_add, job_get, any_of_group}
use app_framework_binder.Threads.Pool.{
  new_thread, Pool, start_one_thread, ensure_thread, queue_job, thread_call, thread_turn,
  thread_init, start_threads, empty_pool, call, turn, Reach, here, next,
}
use app_framework_binder.Threads.Order.{of_group}
use app_framework_binder.Threads.Places.{asked, pending, held, ended_times}
use app_framework_binder.Threads.Progress.{pool_bounds, requests_kept, never_blocked, group_order}

abbrev job_of : ℕ → Job
job_of req = record { callback = 1; req = req; timeout = 20; blocked = false; group = some 5 }

-- One thread of two is started, and two jobs may wait.
abbrev set_up : Pool
set_up = record (empty_pool 2 2) { started = 1; threads = new_thread ∷ [] }

set_up_run : thread_init true 2 1 2 (true ∷ []) ≡ some (set_up, true)
unfolding thread_init start_threads start_one_thread
set_up_run = refl

-- Two jobs of one group are queued: the second is blocked.
abbrev queued : Pool
queued = record set_up { remains = 0; queue = job_of 7 ∷ record (job_of 8) { blocked = true } ∷ [] }

queued-Reach : Reach set_up queued (8 ∷ 7 ∷ [])
unfolding thread_call ensure_thread start_one_thread queue_job job_add any_of_group
queued-Reach =
    next (next here (call _ _ true true (job_of 7) refl)) (call _ _ true true (job_of 8) refl)

pool_bounds_example :
    (length queued.queue ≤ 2)
    × (length queued.threads ≤ 2)
    × (queued.running ≤ length queued.threads)
    × ((queued.freed ≡ true) ⊎ (queued.remains ≡ 2 - length queued.queue))
pool_bounds_example = pool_bounds true true 2 1 2 (true ∷ []) (omega arith) set_up_run queued-Reach

requests_kept_example :
    asked 8 (8 ∷ 7 ∷ [])
    ≡ pending 8 queued.queue + held 8 queued.threads + ended_times 8 queued.ends
requests_kept_example =
    requests_kept true true 2 1 2 (true ∷ []) (omega arith) set_up_run queued-Reach 8

never_blocked_example : thread_turn 0 new_thread queued ≡ record queued {
  queue = record (job_of 8) { blocked = true } ∷ [];
  remains = 1;
  running = 1;
  threads = record new_thread { job = some (job_of 7) } ∷ [];
}
never_blocked_example =
    never_blocked true true 2 1 2 (true ∷ []) (omega arith) set_up_run queued-Reach 0 new_thread
      (job_of 7) (record (job_of 8) { blocked = true } ∷ []) refl refl refl

job_get_run : job_get queued.queue ≡ some (job_of 7, record (job_of 8) { blocked = true } ∷ [])
unfolding job_get
job_get_run = refl

group_order_example :
    of_group 5 queued.queue ≡ job_of 7 ∷ of_group 5 (record (job_of 8) { blocked = true } ∷ [])
group_order_example =
    group_order true true 2 1 2 (true ∷ []) (omega arith) set_up_run queued-Reach 5 (job_of 7)
      (record (job_of 8) { blocked = true } ∷ []) job_get_run refl

-- A job is queued while another one of its group runs: it is not blocked, and a second thread, started
-- for it, runs it at the same time.
abbrev together : Pool
together = record set_up {
  started = 2;
  running = 2;
  remains = 2;
  threads =
      record new_thread { job = some (job_of 7) }
      ∷ record new_thread { job = some (job_of 8) }
      ∷ [];
}

together-Reach : Reach set_up together (8 ∷ 7 ∷ [])
unfolding thread_call ensure_thread start_one_thread queue_job job_add any_of_group thread_turn
    job_get
together-Reach =
    next
      (next
        (next (next here (call _ _ true true (job_of 7) refl))
          (turn _ _ 0 new_thread refl refl refl))
        (call _ _ true true (job_of 8) refl))
      (turn _ _ 1 new_thread refl refl refl)
