-- ===== src/Threads/Invariant.antt =====
-- What holds of the pool of threads in every state that can be reached.
use app_framework_binder.Base.{
  ℕ, zero, suc, ◌+◌, ◌≤◌, ◌≡◌, ◌⊎◌, inl, inr, refl, ap, ◌∙◌, Bool, true, false, none, some, List,
  [], ◌∷◌, ◌++◌, ◌==◌, get_elem?, length, length-set, arith, Bool-cases, Option-cases,
}
use app_framework_binder.Threads.Queue.{Job, job_get}
use app_framework_binder.Threads.Pool.{
  Thread, Pool, new_thread, start_one_thread, ensure_thread, fail_request, queue_job, thread_call,
  first_job, next_job, thread_turn, thread_finish, ask_stop, join_thread, cancel_pending, Step,
  call, turn, finish, terminate, join, finally, Reach, here, next, start_threads, empty_pool,
  thread_init,
}
use app_framework_binder.Threads.Groups.{
  first_blocked, all_free, first_blocked-job_add, first_blocked-job_get, first_blocked-job_unblock,
  works_on, works_on-set, works_on_started, works_on-stop_all, all_free-job_add, all_free-job_get,
  all_free-job_unblock, first_blocked_head, count_works_pos,
}
use app_framework_binder.Threads.Order.{waits, waits-job_add, waits-job_get, waits-job_unblock}
use app_framework_binder.Threads.Places.{
  asked, pending, held, ended_times, end_is, count_works, pending-job_add, pending-job_get,
  pending-job_unblock, ended_times-cancel, held-set, held_started, held-stop_all,
}

-- At a request `r` and a group `g`, for a queue of at most `most` jobs and an array of `room` threads.
pub record Holds (most room r g : ℕ) (p : Pool) (given : List ℕ) : Type 0 where
  -- `running` counts the threads that run a job.
  pub working : p.running ≡ count_works p.threads
  -- Until the end `remains` is the room that is left in the queue.
  pub bounded : p.remains + length p.queue ≤ most
  pub exact : p.freed ≡ false → p.remains + length p.queue ≡ most
  -- A request that was given is in one place.
  pub placed : asked r given ≡ pending r p.queue + held r p.threads + ended_times r p.ends
  -- If the first job of a group is blocked, a thread runs a job of the group.
  pub heads : first_blocked g p.queue ≡ true → works_on g p.threads ≡ true
  pub free : all_free p.queue ≡ true
  -- The jobs of a group behind its first are blocked.
  pub order : waits g p.queue ≡ true
  pub fits : length p.threads ≤ room
  pub starts : (p.allowed ≡ 0) ⊎ ((p.allowed ≡ room) × (p.started ≡ length p.threads))

abbrev pub IsValid : ℕ → ℕ → Pool → List ℕ → Type 0
IsValid most room p given = (r g : ℕ) → Holds most room r g p given

module _ {most room r g : ℕ} where
  ensure_thread-Holds :
      (created : Bool) (p : Pool) (given : List ℕ)
      → Holds most room r g p given
      → Holds most room r g (ensure_thread created p).1 given
        × ((ensure_thread created p).1.remains ≡ p.remains)
        × ((ensure_thread created p).1.queue ≡ p.queue)
  unfolding ensure_thread start_one_thread
  ensure_thread-Holds created p given v =
      ground (arith, held_started r p.threads, works_on_started g p.threads)

  thread_call-Holds :
      (allocated created : Bool) (job : Job) (p : Pool) (given : List ℕ)
      → job.blocked ≡ false
      → Holds most room r g p given
      → Holds most room r g (thread_call allocated created job p) (job.req ∷ given)
  unfolding thread_call fail_request queue_job asked ended_times end_is
  thread_call-Holds allocated created job p given fresh v =
      let ready = ensure_thread-Holds created p given v in
      let q = (ensure_thread created p).1.queue in
      ground (
        arith,
        ready,
        pending-job_add r job q,
        first_blocked-job_add g job q fresh,
        all_free-job_add job q fresh,
        waits-job_add g job q,
      )

  thread_finish-Holds :
      (i : ℕ) (me : Thread) (job : Job) (p : Pool) (given : List ℕ)
      → get_elem? p.threads i ≡ some me
      → me.job ≡ some job
      → Holds most room r g p given
      → Holds most room r g (thread_finish i me job p) given
  unfolding thread_finish ended_times end_is
  thread_finish-Holds i me job p given at runs v =
      let idle = record me { job = none } in
      let counts = held-set r p.threads i me idle at in
      let groups = works_on-set g p.threads i me idle at in
      let room_kept = length-set p.threads i idle in
      elim (Option-cases job.group) [
        | inl alone ↦ ground (arith, counts, groups, room_kept, alone)
        | inr (h, grouped) ↦ ground (
          arith,
          counts,
          groups,
          room_kept,
          grouped,
          pending-job_unblock r h p.queue,
          first_blocked-job_unblock g h p.queue,
          all_free-job_unblock h p.queue,
          waits-job_unblock g h p.queue,
        )
      ]

  ask_stop-Holds :
      (p : Pool) (given : List ℕ)
      → Holds most room r g p given
      → Holds most room r g (ask_stop p) given
  unfolding ask_stop
  ask_stop-Holds p given v =
      ground (arith, held-stop_all r p.threads, works_on-stop_all g p.threads)

  join_thread-Holds :
      (i : ℕ) (t : Thread) (p : Pool) (given : List ℕ)
      → p.allowed ≡ 0
      → get_elem? p.threads i ≡ some t
      → Holds most room r g p given
      → Holds most room r g (join_thread i t p) given
  unfolding join_thread
  join_thread-Holds i t p given stopping at v =
      let joined = record t { joined = true } in
      ground (
        arith,
        held-set r p.threads i t joined at,
        works_on-set g p.threads i t joined at,
        length-set p.threads i joined,
      )

  cancel_pending-Holds :
      (p : Pool) (given : List ℕ)
      → Holds most room r g p given
      → Holds most room r g (cancel_pending p) given
  unfolding cancel_pending first_blocked all_free pending waits
  cancel_pending-Holds p given v = ground (arith, ended_times-cancel r p.queue p.ends)

module _ {most room : ℕ} where
  -- If no job runs, the first job of the queue is not blocked.
  pub head_is_free :
      (p : Pool) (given : List ℕ) (job : Job) (queue : List Job)
      → IsValid most room p given
      → p.running ≡ 0
      → p.queue ≡ job ∷ queue
      → job.blocked ≡ false
  unfolding all_free
  head_is_free p given job queue v rests e = elim (Bool-cases job.blocked) [
    | inr free ↦ free
    | inl blocked ↦
        let all = (v 0 0).free in
        let (g, first) = first_blocked_head job queue (ground (arith, e, all)) blocked in
        let busy = (v 0 g).heads (ap (first_blocked g) e ∙ first) in
        absurd (omega (arith, rests, (v 0 g).working, count_works_pos g p.threads busy))
  ]

  first_job_never :
      (p : Pool) (given : List ℕ) (queue : List Job)
      → IsValid most room p given
      → p.queue ≡ queue
      → job_get queue ≡ none
      → first_job p ≡ none
  unfolding first_job job_get
  first_job_never p given [] v e nothing = ground (arith, e)
  first_job_never p given (job ∷ queue) v e nothing = elim (Bool-cases (p.running == 0)) [
    | inl rests ↦
        let free = head_is_free p given job queue v (ground (arith, rests)) e in
        ground (arith, e, nothing, free)
    | inr runs ↦ ground (arith, e, runs)
  ]

  thread_turn-IsValid :
      (i : ℕ) (me : Thread) (p : Pool) (given : List ℕ)
      → get_elem? p.threads i ≡ some me
      → me.job ≡ none
      → IsValid most room p given
      → IsValid most room (thread_turn i me p) given
  unfolding thread_turn next_job
  thread_turn-IsValid i me p given at idle v r g =
      let here = v r g in
      let ended = record me { ended = true } in
      let counts = held-set r p.threads i me ended at in
      let groups = works_on-set g p.threads i me ended at in
      let room_kept = length-set p.threads i ended in
      elim (Option-cases (job_get p.queue)) [
        | inl nothing ↦ ground (
          arith,
          here,
          counts,
          groups,
          room_kept,
          nothing,
          first_job_never p given p.queue v refl nothing,
        )
        | inr ((job, left), found) ↦
            let busy = record me { job = some job } in
            ground (
              arith,
              here,
              counts,
              groups,
              room_kept,
              found,
              idle,
              held-set r p.threads i me busy at,
              works_on-set g p.threads i me busy at,
              length-set p.threads i busy,
              pending-job_get r p.queue job left found,
              first_blocked-job_get g p.queue job left found,
              all_free-job_get p.queue job left found,
              waits-job_get g p.queue job left found,
            )
      ]

  Step-IsValid :
      {p q : Pool} {given more : List ℕ}
      → Step p given q more
      → IsValid most room p given
      → IsValid most room q more
  Step-IsValid (call p given allocated created job fresh) v r g =
      thread_call-Holds allocated created job p given fresh (v r g)
  Step-IsValid (turn p given i me at idle going) v r g =
      thread_turn-IsValid i me p given at idle v r g
  Step-IsValid (finish p given i me job at runs) v r g =
      thread_finish-Holds i me job p given at runs (v r g)
  Step-IsValid (terminate p given) v r g = ask_stop-Holds p given (v r g)
  Step-IsValid (join p given i t stopping at) v r g =
      join_thread-Holds i t p given stopping at (v r g)
  Step-IsValid (finally p given stopping none_left) v r g = cancel_pending-Holds p given (v r g)

  pub Reach-IsValid :
      {p q : Pool} {given : List ℕ}
      → IsValid most room p []
      → Reach p q given
      → IsValid most room q given
  Reach-IsValid v here = v
  Reach-IsValid v (next r st) = Step-IsValid st (Reach-IsValid v r)

start_threads-Holds :
    (room most r g n : ℕ) (results : List Bool) (p : Pool)
    → length p.threads + n ≤ room
    → Holds most room r g p []
    → Holds most room r g (start_threads n results p) []
unfolding start_threads start_one_thread
start_threads-Holds room most r g zero results p fits v = v
start_threads-Holds room most r g (suc n) [] p fits v = v
start_threads-Holds room most r g (suc n) (created ∷ results) p fits v =
    let p' = record p { started = p.started + 1; threads = p.threads ++ (new_thread ∷ []) } in
    let grown = held_started r p.threads in
    let v' : Holds most room r g p' [] = ground (arith, grown, works_on_started g p.threads) in
    ground
      (arith, v, start_threads-Holds room most r g n results p' (omega (arith, grown.2, fits)) v')

empty_pool-Holds : (room most r g : ℕ) → Holds most room r g (empty_pool room most) []
unfolding count_works asked pending held ended_times first_blocked all_free waits
empty_pool-Holds room most r g = ground arith

-- A pool that thread_init has set up.
pub thread_init-IsValid :
    (allocated : Bool) (room start_count most : ℕ) (results : List Bool) (p : Pool) (all : Bool)
    → start_count ≤ room
    → thread_init allocated room start_count most results ≡ some (p, all)
    → IsValid most room p []
unfolding thread_init
thread_init-IsValid allocated room start_count most results p all fits e r g =
    let started =
      start_threads-Holds room most r g start_count results (empty_pool room most) (omega arith)
        (empty_pool-Holds room most r g) in
    ground (arith, e, started)
