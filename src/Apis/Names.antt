-- ===== src/Apis/Names.antt =====
-- What the names of APIs are, without regard to how the code tests them.
use app_framework_binder.Base.{
  ℕ, zero, suc, ◌≤◌, ◌<◌, ◌≡◌, ◌≢◌, ◌⊎◌, ◌↔◌, inl, inr, refl, ap, ◌∙◌, true, false, some, List, [],
  ◌∷◌, All, get_elem?, arith,
}
use app_framework_binder.Base.Text.{Str, to_lower, strcase_eq}
use app_framework_binder.Apis.{ApiDesc, is_forbidden, all_allowed, is_valid_api_name, is_known}

-- A name in lower case.
unfoldable pub lowered : Str → Str
lowered [] = []
lowered (c ∷ cs) = to_lower c ∷ lowered cs

-- The marks that no name has, and DEL.
abbrev pub marks : Str
marks = b'"' ∷ b'#' ∷ b'%' ∷ b'&' ∷ b'/' ∷ b'?' ∷ b'`' ∷ 39 ∷ 92 ∷ 127 ∷ []

-- A byte beyond ASCII, or one behind the space that is no such mark.
abbrev pub IsNameByte : ℕ → Type 0
IsNameByte c = (128 ≤ c) ⊎ ((32 < c) × All (λ m. c ≢ m) marks)

abbrev pub IsName : Str → Type 0
IsName name = (name ≢ []) × All IsNameByte name

-- No API has the name, in any case.
abbrev pub NoneNamed : List ApiDesc → Str → Type 0
NoneNamed apis name =
    (i : ℕ) (a : ApiDesc) → get_elem? apis i ≡ some a → lowered a.name ≢ lowered name

-- Two APIs of one name, in any case, are the same.
abbrev pub HasDistinctNames : List ApiDesc → Type 0
HasDistinctNames apis =
    (i j : ℕ) (a b : ApiDesc)
    → get_elem? apis i ≡ some a
    → get_elem? apis j ≡ some b
    → lowered a.name ≡ lowered b.name
    → i ≡ j

pub strcase_eq-lowered : (a b : Str) → (strcase_eq a b ≡ true) ↔ (lowered a ≡ lowered b)
unfolding strcase_eq lowered
strcase_eq-lowered [] [] = ((λ h. refl), (λ h. refl))
strcase_eq-lowered [] (b ∷ bs) = ((λ h. cc), (λ h. cc))
strcase_eq-lowered (a ∷ as') [] = ((λ h. cc), (λ h. cc))
strcase_eq-lowered (a ∷ as') (b ∷ bs) =
    let (to, from) = strcase_eq-lowered as' bs in
    ((λ h. ground (arith, h, to)), (λ h. ground (arith, h, from)))

is_forbidden-IsNameByte : (c : ℕ) → (is_forbidden c ≡ false) ↔ IsNameByte c
unfolding is_forbidden
is_forbidden-IsNameByte c = (to, from)
  where
    to : is_forbidden c ≡ false → IsNameByte c
    to h = ground arith

    from : IsNameByte c → is_forbidden c ≡ false
    from (inl beyond) = ground arith
    from (inr (behind, apart)) = ground arith

all_allowed-IsNameByte : (name : Str) → (all_allowed name ≡ true) ↔ All IsNameByte name
unfolding all_allowed
all_allowed-IsNameByte [] = ((λ h. tt), (λ h. refl))
all_allowed-IsNameByte (c ∷ cs) =
    let (to, from) = is_forbidden-IsNameByte c in
    let (all_to, all_from) = all_allowed-IsNameByte cs in
    (
      (λ h. (to (ground (arith, h)), all_to (ground (arith, h)))),
      (λ (first, rest). ground (arith, from first, all_from rest)),
    )

pub is_valid_api_name-IsName : (name : Str) → (is_valid_api_name name ≡ true) ↔ IsName name
unfolding is_valid_api_name
is_valid_api_name-IsName [] = ((λ h. cc), (λ (filled, all). absurd (filled refl)))
is_valid_api_name-IsName (c ∷ cs) =
    let (to, from) = all_allowed-IsNameByte (c ∷ cs) in
    ((λ h. ((λ e. cc), to h)), (λ (filled, all). from all))

pub is_known-NoneNamed :
    (apis : List ApiDesc) (name : Str) → (is_known apis name ≡ false) ↔ NoneNamed apis name
unfolding is_known
is_known-NoneNamed [] name = ((λ h i a at. cc), (λ h. refl))
is_known-NoneNamed (first ∷ rest) name =
    let (to, from) = is_known-NoneNamed rest name in
    let (same_to, same_from) = strcase_eq-lowered first.name name in
    (
      (λ h. known_to (ground (arith, h)) (to (ground (arith, h)))),
      (λ none_named.
          ground
            (arith, same_to, from (λ i a at. none_named (suc i) a at), none_named 0 first refl)),
    )
  where
    known_to :
        strcase_eq first.name name ≡ false → NoneNamed rest name → NoneNamed (first ∷ rest) name
    known_to apart others zero a at same =
        let is : first ≡ a = ground (arith, at) in
        absurd (
          ground (
            arith,
            apart,
            (strcase_eq-lowered first.name name).1 (ap (λ x. lowered x.name) is ∙ same),
          ))
    known_to apart others (suc i) a at same = others i a at same
