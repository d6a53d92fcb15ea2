-- ===== src/Http/Parts.antt =====
-- The parts of the body of a post have different keys.
use mathlib.Core.Path.{subst}
use app_framework_binder.Base.{
  ℕ, zero, suc, ◌≡◌, ◌⊎◌, inl, inr, refl, sym, Bool, true, false, ◌&&◌, Option, none, some, List,
  [], ◌∷◌, get_elem?, arith, Bool-cases, Option-cases,
}
use app_framework_binder.Base.Text.{Str, strcase_eq, strcase_eq_self}
use app_framework_binder.Http.Request.{Part, find_part, get_data}

unfoldable pub HasDistinctKeys : List Part → Type 0
HasDistinctKeys [] = Unit
HasDistinctKeys (part ∷ parts) = (find_part parts part.key ≡ none) × HasDistinctKeys parts

find_part_lem :
    (parts : List Part) (key : Str) (i : ℕ)
    → find_part parts key ≡ some i
    → (part : Part) × (get_elem? parts i ≡ some part) × (strcase_eq part.key key ≡ true)
unfolding find_part
find_part_lem [] key i e = ground (arith, e)
find_part_lem (part ∷ parts) key zero e = (part, refl, ground (arith, e))
find_part_lem (part ∷ parts) key (suc i) e =
    let deeper : find_part parts key ≡ some i = ground (arith, e) in
    find_part_lem parts key i deeper

get_data_new :
    (part_allocated key_allocated : Bool) (parts : List Part) (key : Str) (create : Bool)
    → find_part parts key ≡ none
    → (create && part_allocated && key_allocated) ≡ true
    → get_data part_allocated key_allocated parts key create
      ≡ (record { key = key; value = [] } ∷ parts, some 0)
unfolding get_data
get_data_new part_allocated key_allocated parts key create missing made =
    ground (arith, missing, made)

get_data_nothing :
    (part_allocated key_allocated : Bool) (parts : List Part) (key : Str) (create : Bool)
    → find_part parts key ≡ none
    → (create && part_allocated && key_allocated) ≡ false
    → get_data part_allocated key_allocated parts key create ≡ (parts, none)
unfolding get_data
get_data_nothing part_allocated key_allocated parts key create missing kept =
    ground (arith, missing, kept)

get_data_old :
    (part_allocated key_allocated : Bool) (parts : List Part) (key : Str) (create : Bool) (i : ℕ)
    → find_part parts key ≡ some i
    → get_data part_allocated key_allocated parts key create ≡ (parts, some i)
unfolding get_data
get_data_old part_allocated key_allocated parts key create i there = ground (arith, there)

-- The parts have different keys. Either nothing is found, as a part may not or cannot be made, and the
-- parts are as before; or what is found is a part with the key.
abbrev pub Gives : List Part → Str → Bool → List Part × Option ℕ → Type 0
Gives parts key makes (parts', found) =
    HasDistinctKeys parts'
    × (((found ≡ none) × (parts' ≡ parts) × (makes ≡ false))
        ⊎ ((i : ℕ) × (part : Part) × (found ≡ some i)
            × (get_elem? parts' i ≡ some part)
            × (strcase_eq part.key key ≡ true)))

-- get_data keeps the keys of the parts different, up to the case of their letters, and what it gives
-- is a part with the key that it is asked for. It gives one whenever it may create one and the
-- allocations succeed.
pub get_data_lem :
    (part_allocated key_allocated : Bool) (parts : List Part) (key : Str) (create : Bool)
    → HasDistinctKeys parts
    → Gives parts key
        (create && part_allocated && key_allocated)
        (get_data part_allocated key_allocated parts key create)
unfolding HasDistinctKeys
get_data_lem part_allocated key_allocated parts key create distinct =
    let makes = create && part_allocated && key_allocated in
    elim (Option-cases (find_part parts key)) [
      | inl missing ↦ elim (Bool-cases makes) [
        | inl made ↦
            subst (Gives parts key makes)
              (sym (get_data_new part_allocated key_allocated parts key create missing made))
              (
                (missing, distinct),
                inr (0, record { key = key; value = [] }, refl, refl, strcase_eq_self key),
              )
        | inr kept ↦
            subst (Gives parts key makes)
              (sym (get_data_nothing part_allocated key_allocated parts key create missing kept))
              (distinct, inl (refl, refl, kept))
      ]
      | inr (i, there) ↦
          let (part, at, same) = find_part_lem parts key i there in
          subst (Gives parts key makes)
            (sym (get_data_old part_allocated key_allocated parts key create i there))
            (distinct, inr (i, part, refl, at, same))
    ]
