-- ===== src/Threads/Timer.antt =====
-- src/afb-thread.c: the timer of a thread. The results of timer_create and timer_settime are given.
use app_framework_binder.Base.{ℕ, Bool, true, false, if◌then◌else◌}

-- The thread's thread_timer_set, and the seconds that its timer is armed for.
pub record Timer : Type 0 where
  pub is_set : Bool
  pub armed : ℕ

-- afb_thread_timer_create, whose result is 0 always.
unfoldable pub timer_create : Bool → Timer → ℕ × Timer
timer_create made t = if t.is_set then (0, t) else (0, record t { is_set = made })

-- afb_thread_timer_arm: `false` for an error of timer_settime.
unfoldable pub timer_arm : Bool → Bool → ℕ → Timer → Bool × Timer
unfolding timer_create
timer_arm made settable timeout t =
    let ready = (timer_create made t).1 in
    if settable then (true, record ready { armed = timeout }) else (false, ready)

unfoldable pub timer_disarm : Bool → Bool → Timer → Timer
timer_disarm made settable t = if t.is_set then (timer_arm made settable 0 t).1 else t

unfoldable pub timer_delete : Timer → Timer
timer_delete t = if t.is_set then record t { is_set = false } else t
