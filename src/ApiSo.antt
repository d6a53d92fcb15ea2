-- ===== src/ApiSo.antt =====
-- src/afb-api-so.c: how the verb of a binding is found, and the session check before its call.
pub mod Checks
use Prim.Native.Nat.{bit_and}
use app_framework_binder.Base.{
  ℕ, ◌+◌, ◌/◌, ◌%◌, ◌^◌, ◌≡◌, Bool, true, false, ◌&&◌, ◌||◌, not, Option, none, some, List, [], ◌∷◌,
  ltb, leb, ◌==◌, if◌then◌else◌,
}
use app_framework_binder.Base.Text.{Str, strncase_eq, char_at}
use app_framework_binder.Context.{
  Context, context_check, context_close, context_check_loa, context_change_loa, context_refresh,
}

-- (stag & mask) != 0. The masks are those of enum AFB_session_v1 in include/afb/afb-binding.h: 1 to
-- create, 2 to close, 4 to renew, 8 to check, 16 and 32 for a least and a greatest level.
unfoldable pub has_flag : ℕ → ℕ → Bool
has_flag stag mask = not (bit_and stag mask == 0)

-- (stag >> AFB_SESSION_LOA_SHIFT) & AFB_SESSION_LOA_MASK
unfoldable pub flag_loa : ℕ → ℕ
flag_loa stag = stag / 2 ^ 6 % 8

-- The three replies of call_check by afb_req_fail.
pub data Refusal : Type 0 where
  invalid_identity invalid_creation invalid_loa : Refusal

-- A part of the check: it goes on with a context, it refuses, or an assertion fails.
pub data Outcome : Type 0 where
  go_on : Context → Outcome
  refuse : Refusal → Context → Outcome
  abort : Outcome

infixl 5 ◌>>=◌
abbrev pub ◌>>=◌ : Outcome → (Context → Outcome) → Outcome
go_on c >>= f = f c
refuse r c >>= f = refuse r c
abort >>= f = abort

unfoldable pub refresh_or_abort : Context → Outcome
refresh_or_abort c = elim (context_refresh c) [ none ↦ abort | some c' ↦ go_on c' ]

unfoldable pub check_identity : ℕ → Context → Outcome
check_identity stag c =
    if has_flag stag 63 && not (context_check c)
    then refuse invalid_identity (context_close c)
    else go_on c

unfoldable pub check_create : ℕ → Context → Outcome
check_create stag c =
    if has_flag stag 1
    then (if context_check_loa c 1
        then refuse invalid_creation c
        else refresh_or_abort (context_change_loa c 1).1)
    else go_on c

unfoldable pub check_renew : ℕ → Context → Outcome
check_renew stag c = if has_flag stag 5 then refresh_or_abort c else go_on c

unfoldable pub check_close : ℕ → Context → Outcome
check_close stag c =
    if has_flag stag 2 then go_on (context_close (context_change_loa c 0).1) else go_on c

unfoldable pub check_least : ℕ → Context → Outcome
check_least stag c =
    if has_flag stag 16 && not (context_check_loa c (flag_loa stag))
    then refuse invalid_loa c
    else go_on c

unfoldable pub check_greatest : ℕ → Context → Outcome
check_greatest stag c =
    if has_flag stag 32 && context_check_loa c (flag_loa stag + 1)
    then refuse invalid_loa c
    else go_on c

-- call_check, on the session flags of the verb.
unfoldable pub call_check : ℕ → Context → Outcome
unfolding check_identity check_create check_renew check_close check_least check_greatest
    refresh_or_abort context_refresh context_change_loa context_check_loa context_close
    context_check
call_check stag c = do
  c₁ ← check_identity stag c
  c₂ ← check_create stag c₁
  c₃ ← check_renew stag c₂
  c₄ ← check_close stag c₃
  c₅ ← check_least stag c₄
  check_greatest stag c₅

-- The verbs of a binding, with their session flags.
pub record Verb : Type 0 where
  pub name : Str
  pub session : ℕ

-- The loop of call_cb over the verbs: the first whose name is the given one, of `lenverb` bytes.
unfoldable pub find_verb : List Verb → Str → ℕ → Option Verb
find_verb [] strverb lenverb = none
find_verb (v ∷ vs) strverb lenverb =
    if not (strncase_eq lenverb v.name strverb) || not (char_at v.name lenverb == 0)
    then find_verb vs strverb lenverb
    else some v

-- What call_cb does: it reports an unknown verb, or it checks the session and hands the call over.
pub data Call : Type 0 where
  unknown_verb : Call
  checked : Verb → Outcome → Call

unfoldable pub call_cb : List Verb → Context → Str → ℕ → Call
call_cb verbs c strverb lenverb = elim (find_verb verbs strverb lenverb) [
  | none ↦ unknown_verb
  | some v ↦ checked v (call_check v.session c)
]
