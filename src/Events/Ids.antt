-- ===== src/Events/Ids.antt =====
-- The numbers of the events: each is positive, fits an int, and is that of one event.
use app_framework_binder.Base.{
  ℕ, ◌-◌, ◌^◌, ◌≤◌, ◌<◌, ◌≡◌, refl, sym, ap, ◌∙◌, Bool, false, some, List, [], ◌∷◌, ◌==◌,
  if◌then◌else◌, inl, inr, arith, Bool-cases,
}
use app_framework_binder.Events.Structs.{at, write, free}
use app_framework_binder.Events.Store.{Evt}
use app_framework_binder.Events.Watching.{has_id}

abbrev pub int_limit : ℕ
int_limit = 2 ^ 31

unfoldable pub HasUniqueIds : List (ℕ × Evt) → Type 0
HasUniqueIds [] = Unit
HasUniqueIds ((p, evt) ∷ events) = (has_id evt.id events ≡ false) × HasUniqueIds events

unfoldable pub IsBelow : ℕ → List (ℕ × Evt) → Type 0
IsBelow limit [] = Unit
IsBelow limit ((p, evt) ∷ events) = (1 ≤ evt.id) × (evt.id ≤ limit) × IsBelow limit events

abbrev pub highest : ℕ → Bool → ℕ
highest counter wrapped = if wrapped then int_limit - 1 else counter

-- What holds of the numbers, with the counter and whether it has wrapped.
abbrev pub IsNumbered : ℕ → Bool → List (ℕ × Evt) → Type 0
IsNumbered counter wrapped events =
    (counter < int_limit) × HasUniqueIds events × IsBelow (highest counter wrapped) events

has_id-write :
    (e id : ℕ) (v evt : Evt) (events : List (ℕ × Evt))
    → at e events ≡ some evt
    → v.id ≡ evt.id
    → has_id id (write e v events) ≡ has_id id events
unfolding at write has_id
has_id-write e id v evt [] here same = refl
has_id-write e id v evt ((p, first) ∷ events) here same =
    ground (arith, here, same, has_id-write e id v evt events)

has_id-free :
    (e id : ℕ) (events : List (ℕ × Evt))
    → has_id id events ≡ false
    → has_id id (free e events) ≡ false
unfolding free has_id
has_id-free e id [] absent = refl
has_id-free e id ((p, first) ∷ events) absent = ground (arith, absent, has_id-free e id events)

write-HasUniqueIds :
    (e : ℕ) (v evt : Evt) (events : List (ℕ × Evt))
    → at e events ≡ some evt
    → v.id ≡ evt.id
    → HasUniqueIds events
    → HasUniqueIds (write e v events)
unfolding at write HasUniqueIds
write-HasUniqueIds e v evt [] here same unique = tt
write-HasUniqueIds e v evt ((p, first) ∷ events) here same (alone, unique) =
    elim (Bool-cases (p == e)) [
      | inl it ↦ rw it (ground (arith, here, it, same, alone), unique)
      | inr other ↦
          let later : at e events ≡ some evt = ground (arith, here, other) in
          rw other (
            has_id-write e first.id v evt events later same ∙ alone,
            write-HasUniqueIds e v evt events later same unique,
          )
    ]

write-IsBelow :
    (e limit : ℕ) (v evt : Evt) (events : List (ℕ × Evt))
    → at e events ≡ some evt
    → v.id ≡ evt.id
    → IsBelow limit events
    → IsBelow limit (write e v events)
unfolding at write IsBelow
write-IsBelow e limit v evt [] here same below = tt
write-IsBelow e limit v evt ((p, first) ∷ events) here same (positive, small, below) =
    elim (Bool-cases (p == e)) [
      | inl it ↦
          let is : first ≡ evt = ground (arith, here, it) in
          let id : first.id ≡ v.id = ap (λ x. x.id) is ∙ sym same in
          rw it (omega (arith, id, positive), omega (arith, id, small), below)
      | inr other ↦ rw other (
        positive,
        small,
        write-IsBelow e limit v evt events (ground (arith, here, other)) same below,
      )
    ]

free-HasUniqueIds :
    (e : ℕ) (events : List (ℕ × Evt)) → HasUniqueIds events → HasUniqueIds (free e events)
unfolding free HasUniqueIds
free-HasUniqueIds e [] unique = tt
free-HasUniqueIds e ((p, first) ∷ events) (alone, unique) = elim (Bool-cases (p == e)) [
  | inl it ↦ rw it unique
  | inr other ↦ rw other (has_id-free e first.id events alone, free-HasUniqueIds e events unique)
]

free-IsBelow :
    (e limit : ℕ) (events : List (ℕ × Evt)) → IsBelow limit events → IsBelow limit (free e events)
unfolding free IsBelow
free-IsBelow e limit [] below = tt
free-IsBelow e limit ((p, first) ∷ events) (positive, small, below) = elim (Bool-cases (p == e)) [
  | inl it ↦ rw it below
  | inr other ↦ rw other (positive, small, free-IsBelow e limit events below)
]

pub write-IsNumbered :
    (e counter : ℕ) (wrapped : Bool) (v evt : Evt) (events : List (ℕ × Evt))
    → at e events ≡ some evt
    → v.id ≡ evt.id
    → IsNumbered counter wrapped events
    → IsNumbered counter wrapped (write e v events)
write-IsNumbered e counter wrapped v evt events here same (small, unique, below) = (
  small,
  write-HasUniqueIds e v evt events here same unique,
  write-IsBelow e (highest counter wrapped) v evt events here same below,
)

pub free-IsNumbered :
    (e counter : ℕ) (wrapped : Bool) (events : List (ℕ × Evt))
    → IsNumbered counter wrapped events
    → IsNumbered counter wrapped (free e events)
free-IsNumbered e counter wrapped events (small, unique, below) = (
  small,
  free-HasUniqueIds e events unique,
  free-IsBelow e (highest counter wrapped) events below,
)
