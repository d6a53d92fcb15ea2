-- ===== src/Session/Slots.antt =====
-- The array `sessions.store` of src/session.c, and the loops of ctxStoreDel and ctxStoreAdd over it.
-- A slot is NULL (`none`) or the address of a session.
pub mod Counts
use app_framework_binder.Base.{
  ℕ, ◌+◌, Bool, true, false, ◌||◌, Option, none, some, List, [], ◌∷◌, ◌==◌, if◌then◌else◌, ◌≡◌,
  refl, length, arith,
}

-- Is some slot the given session?
unfoldable pub has : ℕ → List (Option ℕ) → Bool
has p [] = false
has p (none ∷ slots) = has p slots
has p (some q ∷ slots) = (q == p) || has p slots

-- Empties the first slot that is the given session.
unfoldable pub del : ℕ → List (Option ℕ) → List (Option ℕ)
del p [] = []
del p (none ∷ slots) = none ∷ del p slots
del p (some q ∷ slots) = if q == p then none ∷ slots else some q ∷ del p slots

unfoldable pub has_room : List (Option ℕ) → Bool
has_room [] = false
has_room (none ∷ slots) = true
has_room (some q ∷ slots) = has_room slots

-- Puts the session into the first empty slot.
unfoldable pub add : ℕ → List (Option ℕ) → List (Option ℕ)
add p [] = []
add p (none ∷ slots) = some p ∷ slots
add p (some q ∷ slots) = some q ∷ add p slots
