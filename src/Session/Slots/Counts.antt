-- ===== src/Session/Slots/Counts.antt =====
-- How often a session stands in the array of slots, and what `del` and `add` do to that.
use app_framework_binder.Base.{
  ℕ, zero, suc, ◌+◌, ◌≤◌, ◌<◌, ◌≡◌, ◌≢◌, refl, ap, true, false, Option, none, some, List, [], ◌∷◌,
  ◌==◌, if◌then◌else◌, length, get_elem?, replicate, arith, Bool-cases, ==_iff, inl, inr,
}
use app_framework_binder.Session.Slots.{has, del, has_room, add}

pub occurs : ℕ → List (Option ℕ) → ℕ
occurs p [] = 0
occurs p (none ∷ slots) = occurs p slots
occurs p (some q ∷ slots) = (if q == p then 1 else 0) + occurs p slots

-- The slots in use.
pub used : List (Option ℕ) → ℕ
used [] = 0
used (none ∷ slots) = used slots
used (some q ∷ slots) = suc (used slots)

pub has_of_occurs : (p : ℕ) (xs : List (Option ℕ)) → 0 < occurs p xs → has p xs ≡ true
unfolding occurs has
has_of_occurs p [] h = absurd (omega arith)
has_of_occurs p (none ∷ xs) h = has_of_occurs p xs h
has_of_occurs p (some q ∷ xs) h = ground (arith, has_of_occurs p xs)

pub occurs-del :
    (q p : ℕ) (xs : List (Option ℕ))
    → has p xs ≡ true
    → occurs q (del p xs) + (if q == p then 1 else 0) ≡ occurs q xs
unfolding occurs has del
occurs-del q p [] h = cc
occurs-del q p (none ∷ xs) h = occurs-del q p xs h
occurs-del q p (some r ∷ xs) h = ground (arith, occurs-del q p xs)

pub used-del : (p : ℕ) (xs : List (Option ℕ)) → has p xs ≡ true → suc (used (del p xs)) ≡ used xs
unfolding used has del
used-del p [] h = cc
used-del p (none ∷ xs) h = used-del p xs h
used-del p (some r ∷ xs) h = ground (arith, used-del p xs)

pub length-del : (p : ℕ) (xs : List (Option ℕ)) → length (del p xs) ≡ length xs
unfolding del
length-del p [] = refl
length-del p (none ∷ xs) = ap suc (length-del p xs)
length-del p (some r ∷ xs) = ground (arith, length-del p xs)

pub occurs-add :
    (q p : ℕ) (xs : List (Option ℕ))
    → has_room xs ≡ true
    → occurs q (add p xs) ≡ occurs q xs + (if q == p then 1 else 0)
unfolding occurs has_room add
occurs-add q p [] h = cc
occurs-add q p (none ∷ xs) h = ground arith
occurs-add q p (some r ∷ xs) h = ground (arith, occurs-add q p xs)

pub used-add : (p : ℕ) (xs : List (Option ℕ)) → has_room xs ≡ true → used (add p xs) ≡ suc (used xs)
unfolding used has_room add
used-add p [] h = cc
used-add p (none ∷ xs) h = refl
used-add p (some r ∷ xs) h = ground (arith, used-add p xs)

pub length-add : (p : ℕ) (xs : List (Option ℕ)) → length (add p xs) ≡ length xs
unfolding add
length-add p [] = refl
length-add p (none ∷ xs) = refl
length-add p (some r ∷ xs) = ap suc (length-add p xs)

-- There is no room exactly when every slot is in use.
pub used_full : (xs : List (Option ℕ)) → has_room xs ≡ false → used xs ≡ length xs
unfolding used has_room
used_full [] h = refl
used_full (none ∷ xs) h = cc
used_full (some r ∷ xs) h = ap suc (used_full xs h)

pub used-le-length : (xs : List (Option ℕ)) → used xs ≤ length xs
unfolding used
used-le-length [] = omega arith
used-le-length (none ∷ xs) = omega (arith, used-le-length xs)
used-le-length (some r ∷ xs) = omega (arith, used-le-length xs)

-- A session that occurs stands in some slot.
pub slot_of :
    (p : ℕ) (xs : List (Option ℕ)) → 0 < occurs p xs → (i : ℕ) × (get_elem? xs i ≡ some (some p))
unfolding occurs
slot_of p [] h = absurd (omega arith)
slot_of p (none ∷ xs) h = let (i, e) = slot_of p xs h in (suc i, e)
slot_of p (some q ∷ xs) h =
    let later = slot_of p xs in
    elim (Bool-cases (q == p)) [
      | inl hit ↦ (0, ap some (ap some ((==_iff q p).0 hit)))
      | inr miss ↦ let (i, e) = later (ground arith) in (suc i, e)
    ]

pub get_elem?-del :
    (p q i : ℕ) (xs : List (Option ℕ))
    → get_elem? xs i ≡ some (some q)
    → q ≢ p
    → get_elem? (del p xs) i ≡ some (some q)
unfolding del
get_elem?-del p q i [] e h = cc
get_elem?-del p q zero (none ∷ xs) e h = cc
get_elem?-del p q (suc i) (none ∷ xs) e h = get_elem?-del p q i xs e h
get_elem?-del p q zero (some r ∷ xs) e h = ground arith
get_elem?-del p q (suc i) (some r ∷ xs) e h = ground (arith, get_elem?-del p q i xs e h)

pub get_elem?_bound :
    (xs : List (Option ℕ)) (i : ℕ) {o : Option ℕ} → get_elem? xs i ≡ some o → i < length xs
get_elem?_bound [] i e = cc
get_elem?_bound (x ∷ xs) zero e = omega arith
get_elem?_bound (x ∷ xs) (suc i) e = omega (arith, get_elem?_bound xs i e)

pub occurs_slot :
    (p i : ℕ) (xs : List (Option ℕ)) → get_elem? xs i ≡ some (some p) → 0 < occurs p xs
unfolding occurs
occurs_slot p i [] e = cc
occurs_slot p zero (none ∷ xs) e = cc
occurs_slot p (suc i) (none ∷ xs) e = occurs_slot p i xs e
occurs_slot p zero (some q ∷ xs) e = ground arith
occurs_slot p (suc i) (some q ∷ xs) e = ground (arith, occurs_slot p i xs e)

pub occurs-replicate : (p n : ℕ) → occurs p (replicate n none) ≡ 0
unfolding occurs
occurs-replicate p zero = refl
occurs-replicate p (suc n) = occurs-replicate p n

pub used-replicate : (n : ℕ) → used (replicate n none) ≡ 0
unfolding used
used-replicate zero = refl
used-replicate (suc n) = used-replicate n
