-- ===== src/Apis/Registry.antt =====
-- Names are unique in the table of APIs, and a call reaches the API of its name.
use native.Mathlib.Nat.{zero-add}
use app_framework_binder.Base.{
  ℕ, zero, suc, ◌+◌, ◌≤◌, ◌≡◌, ◌↔◌, inl, inr, refl, ap, ◌∙◌, true, false, ◌&&◌, some, List, [], ◌∷◌,
  ◌==◌, length, take, get_elem?, arith, Bool-cases,
}
use app_framework_binder.Base.Text.{Str, strcase_eq, strncase_eq, strcase_eq_symm, strcase_eq_trans}
use app_framework_binder.Apis.{ApiDesc, is_valid_api_name, is_known, find_api}

-- The table is well formed: each name is valid and has its length beside it, and no two names are
-- equal up to case.
abbrev pub IsRegistry : List ApiDesc → Type 0
IsRegistry [] = Unit {0}
IsRegistry (a ∷ rest) =
    (is_valid_api_name a.name ≡ true)
    × (a.namelen ≡ length a.name)
    × (is_known rest a.name ≡ false)
    × IsRegistry rest

-- strncasecmp over the whole of the first name compares it with the front of the second text.
strncase_eq-take :
    (a b : Str)
    → length a ≤ length b
    → strncase_eq (length a) a b ≡ strcase_eq a (take (length a) b)
unfolding strncase_eq strcase_eq
strncase_eq-take [] b h = refl
strncase_eq-take (a ∷ as') [] h = absurd (omega arith)
strncase_eq-take (a ∷ as') (b ∷ bs) h = ground (arith, strncase_eq-take as' bs)

strcase_eq-length : (a b : Str) → strcase_eq a b ≡ true → length a ≡ length b
unfolding strcase_eq
strcase_eq-length [] [] h = refl
strcase_eq-length [] (b ∷ bs) h = cc
strcase_eq-length (a ∷ as') [] h = cc
strcase_eq-length (a ∷ as') (b ∷ bs) h = ground (arith, strcase_eq-length as' bs)

length-take : (n : ℕ) (xs : Str) → n ≤ length xs → length (take n xs) ≡ n
length-take zero xs h = refl
length-take (suc n) [] h = absurd (omega arith)
length-take (suc n) (x ∷ xs) h = ap suc (length-take n xs (omega arith))

known_of_elem :
    (apis : List ApiDesc) (j : ℕ) (a : ApiDesc) (name : Str)
    → get_elem? apis j ≡ some a
    → strcase_eq a.name name ≡ true
    → is_known apis name ≡ true
unfolding is_known
known_of_elem [] j a name e h = cc
known_of_elem (b ∷ rest) zero a name e h = ground arith
known_of_elem (b ∷ rest) (suc j) a name e h = ground (arith, known_of_elem rest j a name e h)

-- The test of the loop, on an entry that has its length beside it.
match_iff :
    (a : ApiDesc) (api : Str) (n : ℕ)
    → a.namelen ≡ length a.name
    → n ≤ length api
    → ((a.namelen == n) && strncase_eq n a.name api) ≡ strcase_eq a.name (take n api)
match_iff a api n l h = elim (Bool-cases (a.namelen == n)) [
  | inl hit ↦ ground (arith, strncase_eq-take a.name api)
  | inr miss ↦ ground (arith, strcase_eq-length a.name (take n api), length-take n api)
]

found_entry :
    (apis : List ApiDesc) (api : Str) (n k i : ℕ) (a : ApiDesc)
    → IsRegistry apis
    → n ≤ length api
    → find_api apis api n k ≡ some (i, a)
    → (j : ℕ) × (i ≡ k + j) × (get_elem? apis j ≡ some a) × (strcase_eq a.name (take n api) ≡ true)
unfolding find_api
found_entry [] api n k i a r h e = cc
found_entry (b ∷ rest) api n k i a (v, l, u, r) h e =
    elim (Bool-cases ((b.namelen == n) && strncase_eq n b.name api)) [
      | inl hit ↦
          (0, ground (arith, hit), ground (arith, hit), ground (arith, hit, match_iff b api n l h))
      | inr miss ↦
          let (j, p, at, m) = found_entry rest api n (k + 1) i a r h (ground (arith, miss)) in
          (suc j, omega arith, at, m)
    ]

entry_found :
    (apis : List ApiDesc) (api : Str) (n k j : ℕ) (a : ApiDesc)
    → IsRegistry apis
    → n ≤ length api
    → get_elem? apis j ≡ some a
    → strcase_eq a.name (take n api) ≡ true
    → find_api apis api n k ≡ some (k + j, a)
unfolding find_api
entry_found [] api n k j a r h at m = cc
entry_found (b ∷ rest) api n k zero a (v, l, u, r) h at m = ground (arith, match_iff b api n l h)
entry_found (b ∷ rest) api n k (suc j) a (v, l, u, r) h at m = ground (
  arith,
  match_iff b api n l h,
  entry_found rest api n (k + 1) j a r h at m,
  strcase_eq_symm b.name (take n api),
  strcase_eq_trans a.name (take n api) b.name m,
  known_of_elem rest j a b.name at,
)

-- In a well formed table the loop of afb_apis_call stops at an entry exactly if its name is the
-- `lenapi` bytes of the text, up to case; the index that it stores in the context is that of the entry.
pub find_api_iff :
    (apis : List ApiDesc) (api : Str) (lenapi i : ℕ) (a : ApiDesc)
    → IsRegistry apis
    → lenapi ≤ length api
    → (find_api apis api lenapi 0 ≡ some (i, a))
      ↔ ((get_elem? apis i ≡ some a) × (strcase_eq a.name (take lenapi api) ≡ true))
find_api_iff apis api lenapi i a r h = (
  (λ e.
      let (j, p, at, m) = found_entry apis api lenapi 0 i a r h e in
      let same : i ≡ j = omega arith in (rw same at, m)),
  (λ (at, m). entry_found apis api lenapi 0 i a r h at m ∙ rw zero-add refl),
)
