-- ===== src/Http/Subpaths.antt =====
-- validsubpath lets through the paths that never climb above their start.
use app_framework_binder.Base.{
  ℕ, zero, suc, ◌+◌, ◌≤◌, ◌≡◌, Bool, true, false, ◌||◌, Option, none, some, List, [], ◌∷◌, ◌==◌,
  if◌then◌else◌, length,
}
use app_framework_binder.Base.Text.{Str, str_eq, is_empty}

abbrev extend : ℕ → List Str → List Str
extend c [] = (c ∷ []) ∷ []
extend c (name ∷ names) = (c ∷ name) ∷ names

-- The names between the slashes of a path.
unfoldable pub names : Str → List Str
names [] = [] ∷ []
names (c ∷ cs) = if c == 47 then [] ∷ names cs else extend c (names cs)

-- A walk from a depth stays at or below the start: "" and "." stay, ".." climbs.
unfoldable pub stays_below : ℕ → List Str → Bool
stays_below l [] = true
stays_below l (name ∷ rest) =
    let climbs : Bool = elim l [ zero ↦ false | suc l' ↦ stays_below l' rest ] in
    if is_empty name || str_eq name (46 ∷ [])
    then stays_below l rest
    else if str_eq name (46 ∷ 46 ∷ [])
    then climbs
    else stays_below (l + 1) rest

-- The first name of a path, and the names after it.
unfoldable first_name : Str → Str
first_name [] = []
first_name (c ∷ cs) = if c == 47 then [] else c ∷ first_name cs

unfoldable names_after : Str → List Str
names_after [] = []
names_after (c ∷ cs) = names cs

-- What one turn of the loop does to a walk.
abbrev IsTurn : ℕ → ℕ → Str → Option (ℕ × Str) → Type 0
IsTurn l c cs turned = elim turned [
  | none ↦ stays_below l (names (c ∷ cs)) ≡ false
  | some next ↦
      (stays_below l (names (c ∷ cs)) ≡ stays_below next.0 (names next.1))
      × (length next.1 ≤ length cs)
]
