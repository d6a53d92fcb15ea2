-- ===== src/Threads/Pool.antt =====
-- src/afb-thread.c: what the threads and their clients do, each in one section under the mutex.
use app_framework_binder.Base.{
  ℕ, zero, suc, ◌+◌, ◌-◌, ◌≡◌, Bool, true, false, ◌&&◌, ◌||◌, not, Option, none, some, List, [],
  ◌∷◌, ◌++◌, ltb, ◌==◌, if◌then◌else◌, get_elem?, set,
}
use app_framework_binder.Threads.Queue.{Job, job_add, job_get, job_unblock}

-- struct thread. `job` is the copy of the job that the thread runs, and is there when `works` is 1;
-- `joined` stands for a `tid` that is 0.
pub record Thread : Type 0 where
  pub stop : Bool
  pub ended : Bool
  pub joined : Bool
  pub job : Option Job

abbrev pub new_thread : Thread
new_thread = record { stop = false; ended = false; joined = false; job = none }

-- The end of a request: its callback was run, or it was failed.
pub data End : Type 0 where
  ran failed : ℕ → End

-- The variables of the file. `threads` has the threads that were ever started. `ends` is what became
-- of the requests, and `freed` is set once the array of threads is freed.
pub record Pool : Type 0 where
  pub allowed : ℕ
  pub started : ℕ
  pub running : ℕ
  pub remains : ℕ
  pub threads : List Thread
  pub queue : List Job
  pub ends : List End
  pub freed : Bool

-- start_one_thread, with the result of pthread_create: whether it was 0, and the pool.
unfoldable pub start_one_thread : Bool → Pool → Bool × Pool
start_one_thread created p =
    if created
    then (true, record p { started = p.started + 1; threads = p.threads ++ (new_thread ∷ []) })
    else (false, p)

-- The start of a thread in afb_thread_call, if it is needed: `false` when no thread can be started.
unfoldable pub ensure_thread : Bool → Pool → Bool × Pool
unfolding start_one_thread
ensure_thread created p =
    if (p.started == p.running) && ltb p.started p.allowed
    then (let tried = start_one_thread created p in
        (tried.0 || not (tried.1.started == 0), tried.1))
    else (true, p)

unfoldable pub fail_request : ℕ → Pool → Pool
fail_request req p = record p { ends = failed req ∷ p.ends }

unfoldable pub queue_job : Job → Pool → Pool
queue_job job p = record p { queue = job_add job p.queue; remains = p.remains - 1 }

-- afb_thread_call, with the results of malloc and of pthread_create.
unfoldable pub thread_call : Bool → Bool → Job → Pool → Pool
unfolding ensure_thread fail_request queue_job
thread_call allocated created job p =
    if not allocated
    then fail_request job.req p
    else if p.remains == 0
    then fail_request job.req p
    else (let ready = ensure_thread created p in
        if ready.0 then queue_job job ready.1 else fail_request job.req ready.1)

-- What a thread does when no job can be got while none runs.
unfoldable pub first_job : Pool → Option (Job × Pool)
first_job p =
    if p.running == 0
    then elim p.queue [ [] ↦ none | job ∷ jobs ↦ some (job, record p { queue = jobs }) ]
    else none

unfoldable pub next_job : Pool → Option (Job × Pool)
next_job p = elim (job_get p.queue) [
  | none ↦ first_job p
  | some found ↦ some (found.0, record p { queue = found.1; remains = p.remains + 1 })
]

-- A turn of the loop of thread_main_loop up to the run of the job, for the thread of an index. With
-- no job it waits for the condition.
unfoldable pub thread_turn : ℕ → Thread → Pool → Pool
unfolding next_job first_job
thread_turn i me p =
    if me.stop
    then record p { threads = set p.threads i (record me { ended = true }) }
    else elim (next_job p) [
      | none ↦ p
      | some next ↦ record (next.1) {
        running = next.1.running + 1;
        threads = set p.threads i (record me { job = some next.0 });
      }
    ]

-- The end of a turn, once the callback has returned.
unfoldable pub thread_finish : ℕ → Thread → Job → Pool → Pool
thread_finish i me job p = record p {
  queue = elim job.group [ none ↦ p.queue | some g ↦ job_unblock g p.queue ];
  running = p.running - 1;
  threads = set p.threads i (record me { job = none });
  ends = ran job.req ∷ p.ends;
}

-- afb_thread_init, with the results of calloc and of each pthread_create. The loop stops at the first
-- thread that cannot be started; `none` when nothing is allocated. The result is whether all started.
unfoldable pub start_threads : ℕ → List Bool → Pool → Pool
start_threads zero results p = p
start_threads (suc n) [] p = p
start_threads (suc n) (created ∷ results) p =
    let tried = start_one_thread created p in
    let rest = start_threads n results tried.1 in if tried.0 then rest else tried.1

abbrev pub empty_pool : ℕ → ℕ → Pool
empty_pool allowed_count waiter_count = record {
  allowed = allowed_count;
  started = 0;
  running = 0;
  remains = waiter_count;
  threads = [];
  queue = [];
  ends = [];
  freed = false;
}

unfoldable pub thread_init : Bool → ℕ → ℕ → ℕ → List Bool → Option (Pool × Bool)
thread_init allocated allowed_count start_count waiter_count results =
    let p = start_threads start_count results (empty_pool allowed_count waiter_count) in
    if allocated then some (p, p.started == start_count) else none

-- afb_thread_terminate: the request to stop, the end of one thread, and the end of the function, once
-- no thread is left.
unfoldable pub stop_all : List Thread → List Thread
stop_all [] = []
stop_all (t ∷ ts) = record t { stop = true } ∷ stop_all ts

unfoldable pub ask_stop : Pool → Pool
ask_stop p = record p { allowed = 0; threads = stop_all p.threads }

unfoldable pub join_thread : ℕ → Thread → Pool → Pool
join_thread i t p =
    if not t.joined && t.ended
    then record p {
      started = p.started - 1;
      threads = set p.threads i (record t { joined = true });
    }
    else p

unfoldable pub cancel : List Job → List End → List End
cancel [] ends = ends
cancel (job ∷ jobs) ends = cancel jobs (failed job.req ∷ ends)

unfoldable pub cancel_pending : Pool → Pool
cancel_pending p = record p { queue = []; ends = cancel p.queue p.ends; freed = true }

-- The steps of the pool, with the list of the requests that were given to afb_thread_call. What a
-- thread does stands between two locks of the mutex.
pub data Step : Pool → List ℕ → Pool → List ℕ → Type 0 where
  call :
      (p : Pool) (given : List ℕ) (allocated created : Bool) (job : Job)
      → job.blocked ≡ false
      → Step p given (thread_call allocated created job p) (job.req ∷ given)
  turn :
      (p : Pool) (given : List ℕ) (i : ℕ) (me : Thread)
      → get_elem? p.threads i ≡ some me
      → me.job ≡ none
      → me.ended ≡ false
      → Step p given (thread_turn i me p) given
  finish :
      (p : Pool) (given : List ℕ) (i : ℕ) (me : Thread) (job : Job)
      → get_elem? p.threads i ≡ some me
      → me.job ≡ some job
      → Step p given (thread_finish i me job p) given
  terminate : (p : Pool) (given : List ℕ) → Step p given (ask_stop p) given
  join :
      (p : Pool) (given : List ℕ) (i : ℕ) (t : Thread)
      → p.allowed ≡ 0
      → get_elem? p.threads i ≡ some t
      → Step p given (join_thread i t p) given
  finally :
      (p : Pool) (given : List ℕ)
      → p.allowed ≡ 0
      → p.started ≡ 0
      → Step p given (cancel_pending p) given

pub data Reach (start : Pool) : Pool → List ℕ → Type 0 where
  here : Reach start start []
  next :
      {p q : Pool} {given more : List ℕ}
      → Reach start p given
      → Step p given q more
      → Reach start q more
