-- ===== src/Base/Text.antt =====
-- C strings as lists of bytes (the terminating NUL is the end of the list), with the functions of
-- the C library that the program calls on them.
use Prim.Native.Nat.{ℕ, zero, suc, ◌+◌}
use mathlib.Core.Path.{◌≡◌, refl}
use mathlib.Core.Bool.{Bool, true, false, ◌&&◌}
use mathlib.Core.List.{List, [], ◌∷◌}
use native.Mathlib.Omega.{arith}
use app_framework_binder.Base.Tests.{◌==◌, leb, if◌then◌else◌}

abbrev pub Str : Type 0
Str = List ℕ

-- strcmp(a, b) == 0
unfoldable pub str_eq : Str → Str → Bool
str_eq [] [] = true
str_eq [] (b ∷ bs) = false
str_eq (a ∷ as') [] = false
str_eq (a ∷ as') (b ∷ bs) = (a == b) && str_eq as' bs

pub str_eq→eq : (a b : Str) → str_eq a b ≡ true → a ≡ b
unfolding str_eq
str_eq→eq [] [] h = refl
str_eq→eq [] (b ∷ bs) h = cc
str_eq→eq (a ∷ as') [] h = cc
str_eq→eq (a ∷ as') (b ∷ bs) h = ground (arith, str_eq→eq as' bs)

pub str_eq_self : (a : Str) → str_eq a a ≡ true
unfolding str_eq
str_eq_self [] = refl
str_eq_self (a ∷ as') = ground (arith, str_eq_self as')

-- s[0] == 0
abbrev pub is_empty : Str → Bool
is_empty [] = true
is_empty (c ∷ cs) = false

-- tolower in the C locale
abbrev pub to_lower : ℕ → ℕ
to_lower c = if leb 65 c && leb c 90 then c + 32 else c

-- strncasecmp(a, b, n) == 0
unfoldable pub strncase_eq : ℕ → Str → Str → Bool
strncase_eq zero a b = true
strncase_eq (suc n) [] [] = true
strncase_eq (suc n) [] (b ∷ bs) = false
strncase_eq (suc n) (a ∷ as') [] = false
strncase_eq (suc n) (a ∷ as') (b ∷ bs) = (to_lower a == to_lower b) && strncase_eq n as' bs

-- strcasecmp(a, b) == 0
unfoldable pub strcase_eq : Str → Str → Bool
strcase_eq [] [] = true
strcase_eq [] (b ∷ bs) = false
strcase_eq (a ∷ as') [] = false
strcase_eq (a ∷ as') (b ∷ bs) = (to_lower a == to_lower b) && strcase_eq as' bs

-- s[i], which is 0 at the end of the string.
abbrev pub char_at : Str → ℕ → ℕ
char_at [] i = 0
char_at (c ∷ cs) zero = c
char_at (c ∷ cs) (suc i) = char_at cs i

pub strcase_eq_self : (a : Str) → strcase_eq a a ≡ true
unfolding strcase_eq
strcase_eq_self [] = refl
strcase_eq_self (a ∷ as') = ground (arith, strcase_eq_self as')

pub strcase_eq_symm : (a b : Str) → strcase_eq a b ≡ true → strcase_eq b a ≡ true
unfolding strcase_eq
strcase_eq_symm [] [] h = refl
strcase_eq_symm [] (b ∷ bs) h = cc
strcase_eq_symm (a ∷ as') [] h = cc
strcase_eq_symm (a ∷ as') (b ∷ bs) h = ground (arith, strcase_eq_symm as' bs)

pub strcase_eq_trans :
    (a b c : Str) → strcase_eq a b ≡ true → strcase_eq b c ≡ true → strcase_eq a c ≡ true
unfolding strcase_eq
strcase_eq_trans [] [] c h k = k
strcase_eq_trans [] (b ∷ bs) c h k = cc
strcase_eq_trans (a ∷ as') [] c h k = cc
strcase_eq_trans (a ∷ as') (b ∷ bs) [] h k = cc
strcase_eq_trans (a ∷ as') (b ∷ bs) (c ∷ cs) h k = ground (arith, strcase_eq_trans as' bs cs)
