-- ===== src/Events/Choosing.antt =====
-- The number of a new event: the search ends, and no other event has what it finds.
use app_framework_binder.Base.{
  ℕ, zero, suc, ◌+◌, ◌-◌, ◌≤◌, ◌<◌, ◌≡◌, refl, sym, ap, Bool, true, false, ◌&&◌, some, List, [],
  ◌∷◌, ◌==◌, inl, inr, arith, Bool-cases,
}
use app_framework_binder.Events.Store.{Evt}
use app_framework_binder.Events.Watching.{next_id, has_id, choose_id}
use app_framework_binder.Events.Ids.{int_limit, IsBelow, IsNumbered}

IsBelow-mono : (a b : ℕ) (events : List (ℕ × Evt)) → a ≤ b → IsBelow a events → IsBelow b events
unfolding IsBelow
IsBelow-mono a b [] more below = tt
IsBelow-mono a b ((p, evt) ∷ events) more (positive, small, below) =
    (positive, omega (arith, more, small), IsBelow-mono a b events more below)

IsBelow-above :
    (limit id : ℕ) (events : List (ℕ × Evt))
    → limit < id
    → IsBelow limit events
    → has_id id events ≡ false
unfolding IsBelow has_id
IsBelow-above limit id [] above below = refl
IsBelow-above limit id ((p, evt) ∷ events) above (positive, small, below) =
    ground (arith, above, small, IsBelow-above limit id events above below)

-- One turn: the counter goes on.
next_id-IsNumbered :
    (counter : ℕ) (wrapped : Bool) (events : List (ℕ × Evt))
    → IsNumbered counter wrapped events
    → IsNumbered (next_id counter wrapped).0 (next_id counter wrapped).1 events
next_id-IsNumbered counter false events (small, unique, below) =
    elim (Bool-cases (counter + 1 == int_limit)) [
      | inl over ↦ rw over (
        omega arith,
        unique,
        IsBelow-mono counter (int_limit - 1) events (omega (arith, small)) below,
      )
      | inr room ↦ rw room (
        ground (arith, small, room),
        unique,
        IsBelow-mono counter (counter + 1) events (omega arith) below,
      )
    ]
next_id-IsNumbered counter true events (small, unique, below) =
    elim (Bool-cases (counter + 1 == int_limit)) [
      | inl over ↦ rw over (omega arith, unique, below)
      | inr room ↦ rw room (ground (arith, small, room), unique, below)
    ]

-- The number that a turn tries is free if the counter has not wrapped.
next_id_free :
    (counter : ℕ) (wrapped : Bool) (events : List (ℕ × Evt))
    → IsNumbered counter wrapped events
    → (next_id counter wrapped).1 ≡ false
    → has_id (next_id counter wrapped).0 events ≡ false
next_id_free counter false events (small, unique, below) new =
    elim (Bool-cases (counter + 1 == int_limit)) [
      | inl over ↦ absurd (ground (arith, new, over))
      | inr room ↦ rw room (IsBelow-above counter (counter + 1) events (omega arith) below)
    ]
next_id_free counter true events (small, unique, below) new =
    elim (Bool-cases (counter + 1 == int_limit)) [
      | inl over ↦ absurd (ground (arith, new, over))
      | inr room ↦ absurd (ground (arith, new, room))
    ]

next_id_positive : (counter : ℕ) (wrapped : Bool) → 1 ≤ (next_id counter wrapped).0
next_id_positive counter wrapped = ground arith

pub choose_id-IsNumbered :
    (fuel counter : ℕ) (wrapped : Bool) (events : List (ℕ × Evt)) (id : ℕ) (now : Bool)
    → choose_id fuel counter wrapped events ≡ some (id, now)
    → IsNumbered counter wrapped events
    → IsNumbered id now events × (has_id id events ≡ false) × (1 ≤ id)
unfolding choose_id
choose_id-IsNumbered zero counter wrapped events id now e numbered = ground (arith, e)
choose_id-IsNumbered (suc fuel) counter wrapped events id now e numbered =
    let next = next_id counter wrapped in
    let numbered' = next_id-IsNumbered counter wrapped events numbered in
    elim (Bool-cases (next.1 && has_id next.0 events)) [
      | inl taken ↦
          choose_id-IsNumbered fuel next.0 next.1 events id now (ground (arith, e, taken)) numbered'
      | inr free ↦
          let is : next ≡ (id, now) = ground (arith, e, free) in
          let absent : has_id next.0 events ≡ false =
            ground (arith, free, next_id_free counter wrapped events numbered) in
          rw (sym (ap (λ x. x.0) is), sym (ap (λ x. x.1) is))
            (numbered', absent, next_id_positive counter wrapped)
    ]
