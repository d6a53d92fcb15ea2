-- ===== src/Events/Searching.antt =====
-- The search for the number of an event comes to an end: so many numbers are not all taken.
use app_framework_binder.Base.{
  ℕ, zero, suc, ◌+◌, ◌-◌, ◌≤◌, ◌<◌, ◌≡◌, refl, sym, ap, ◌∙◌, Bool, true, false, ◌&&◌, none, some,
  List, [], ◌∷◌, ltb, ◌==◌, if◌then◌else◌, length, inl, inr, arith, Bool-cases, Option-cases,
}
use app_framework_binder.Events.Store.{Evt}
use app_framework_binder.Events.Watching.{next_id, has_id, choose_id}
use app_framework_binder.Events.Ids.{int_limit}

-- The number that stands so many turns behind a counter.
abbrev nth_id : ℕ → ℕ → ℕ
nth_id counter k =
    if ltb (counter + k) int_limit then counter + k else 1024 + (counter + k - int_limit)

unfoldable without_id : ℕ → List (ℕ × Evt) → List (ℕ × Evt)
without_id id [] = []
without_id id ((p, evt) ∷ events) =
    let rest = without_id id events in if evt.id == id then events else (p, evt) ∷ rest

has_id-without_id :
    (id other : ℕ) (events : List (ℕ × Evt))
    → (other == id) ≡ false
    → has_id other (without_id id events) ≡ has_id other events
unfolding has_id without_id
has_id-without_id id other [] apart = refl
has_id-without_id id other ((p, evt) ∷ events) apart =
    ground (arith, apart, has_id-without_id id other events)

length-without_id :
    (id : ℕ) (events : List (ℕ × Evt))
    → has_id id events ≡ true
    → length (without_id id events) + 1 ≡ length events
unfolding has_id without_id
length-without_id id [] known = ground (arith, known)
length-without_id id ((p, evt) ∷ events) known = ground (arith, known, length-without_id id events)

Taken : ℕ → ℕ → List (ℕ × Evt) → Type 0
Taken n counter events = (k : ℕ) → k < n → has_id (nth_id counter (suc k)) events ≡ true

-- The numbers of as many turns as there are numbers from 1024 on are not the same.
nth_id_apart :
    (counter j k : ℕ)
    → counter < int_limit
    → j < k
    → k < int_limit - 1024
    → (nth_id counter j == nth_id counter k) ≡ false
nth_id_apart counter j k small less few = ground (arith, small, less, few)

Taken-needs :
    (n counter : ℕ) (events : List (ℕ × Evt))
    → counter < int_limit
    → n < int_limit - 1024
    → Taken n counter events
    → n ≤ length events
unfolding Taken
Taken-needs zero counter events small few taken = omega arith
Taken-needs (suc n) counter events small few taken =
    let last = nth_id counter (suc n) in
    let shorter = length-without_id last events (taken n (omega arith)) in
    let rest = Taken-needs n counter (without_id last events) small (omega (arith, few)) (λ k h.
      has_id-without_id last (nth_id counter (suc k)) events
        (nth_id_apart counter (suc k) (suc n) small (omega (arith, h)) few)
      ∙ taken k (omega (arith, h))) in
    omega (arith, shorter, rest)

nth_id_next :
    (counter k : ℕ) (wrapped : Bool)
    → counter < int_limit
    → k < int_limit - 1024
    → nth_id (next_id counter wrapped).0 k ≡ nth_id counter (suc k)
nth_id_next counter k wrapped small few = ground (arith, small, few)

next_id_small :
    (counter : ℕ) (wrapped : Bool) → counter < int_limit → (next_id counter wrapped).0 < int_limit
next_id_small counter wrapped small = ground (arith, small)

choose_id-Taken :
    (fuel counter : ℕ) (wrapped : Bool) (events : List (ℕ × Evt))
    → counter < int_limit
    → fuel < int_limit - 1024
    → choose_id fuel counter wrapped events ≡ none
    → Taken fuel counter events
unfolding Taken choose_id
choose_id-Taken zero counter wrapped events small few e k h = absurd (omega (arith, h))
choose_id-Taken (suc fuel) counter wrapped events small few e zero h =
    let next = next_id counter wrapped in
    let first : next.0 ≡ nth_id counter 1 = ground (arith, small) in
    elim (Bool-cases (next.1 && has_id next.0 events)) [
      | inl taken ↦ rw (sym first) (ground (arith, taken))
      | inr free ↦ absurd (ground (arith, e, free))
    ]
choose_id-Taken (suc fuel) counter wrapped events small few e (suc k) h =
    let next = next_id counter wrapped in
    elim (Bool-cases (next.1 && has_id next.0 events)) [
      | inl taken ↦
          let later : choose_id fuel next.0 next.1 events ≡ none = ground (arith, e, taken) in
          let same = nth_id_next counter (suc k) wrapped small (omega (arith, h, few)) in
          ap (λ id. has_id id events) (sym same)
          ∙ choose_id-Taken fuel next.0 next.1 events (next_id_small counter wrapped small)
              (omega (arith, few)) later k (omega (arith, h))
      | inr free ↦ absurd (ground (arith, e, free))
    ]

-- With fewer events than there are numbers from 1024 on, less two, the search finds a number with the
-- fuel that it is given.
pub choose_id_ends :
    (counter : ℕ) (wrapped : Bool) (events : List (ℕ × Evt))
    → counter < int_limit
    → length events + 2 < int_limit - 1024
    → (id : ℕ) × (now : Bool) × (choose_id (length events + 1) counter wrapped events
        ≡ some (id, now))
choose_id_ends counter wrapped events small few =
    elim (Option-cases (choose_id (length events + 1) counter wrapped events)) [
      | inl stuck ↦
          let taken =
            choose_id-Taken (length events + 1) counter wrapped events small (omega (arith, few))
              stuck in
          absurd (
            omega (
              arith,
              Taken-needs (length events + 1) counter events small (omega (arith, few)) taken,
            ))
      | inr ((id, now), e) ↦ (id, now, e)
    ]
