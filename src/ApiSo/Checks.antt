-- ===== src/ApiSo/Checks.antt =====
-- What the session flags of a verb require of a request.
use app_framework_binder.Base.{
  ℕ, ◌≤◌, ◌<◌, ◌≡◌, ◌≢◌, ◌↔◌, refl, true, ◌&&◌, ◌||◌, not, if◌then◌else◌, arith,
}
use app_framework_binder.Base.Tables.{every_under, every_under→}
use app_framework_binder.Context.{Context, context_close, context_change_loa}
use app_framework_binder.ApiSo.{has_flag, flag_loa, go_on, abort, call_check}

-- What a verb's flags demand of a context: a validated token, for any flag of a session or a level;
-- a level of 0, to create; and the bounds on the level.
pub record IsAdmitted (stag : ℕ) (c : Context) : Type 0 where
  pub identity : has_flag stag 63 ≡ true → c.validated ≡ true
  pub creation : has_flag stag 1 ≡ true → c.loa_in ≡ 0
  pub least : has_flag stag 16 ≡ true → flag_loa stag ≤ c.loa_in
  pub greatest : has_flag stag 32 ≡ true → c.loa_in ≤ flag_loa stag

-- The flags of the parts are among the flags that need an identity.
flag_within_table :
    every_under 512 (λ stag.
      (has_flag stag 63
        || not (
            has_flag stag 1
            || has_flag stag 5
            || has_flag stag 2
            || has_flag stag 16
            || has_flag stag 32))
      && (has_flag stag 5 || not (has_flag stag 1)))
    ≡ true
unfolding every_under has_flag
flag_within_table = refl

flags_within :
    (stag : ℕ)
    → stag < 512
    → ((has_flag stag 63
          || not (
              has_flag stag 1
              || has_flag stag 5
              || has_flag stag 2
              || has_flag stag 16
              || has_flag stag 32))
        && (has_flag stag 5 || not (has_flag stag 1)))
      ≡ true
flags_within stag h = every_under→ 512 _ flag_within_table stag h

-- The context of a call that goes on.
abbrev admitted_context : ℕ → Context → Context
admitted_context stag c =
    let c₂ =
      if has_flag stag 1 then record ((context_change_loa c 1).1) { refreshing = true } else c in
    let c₃ = if has_flag stag 5 then record c₂ { refreshing = true } else c₂ in
    if has_flag stag 2 then context_close (context_change_loa c₃ 0).1 else c₃

module _ (stag : ℕ) (c : Context) (h : stag < 512) where
  call_check-ne-abort : call_check stag c ≢ abort
  unfolding call_check
  call_check-ne-abort = ground (arith, flags_within stag h)

  IsAdmitted-of_go_on : (c' : Context) × (call_check stag c ≡ go_on c') → IsAdmitted stag c
  unfolding call_check
  IsAdmitted-of_go_on (c', e) = ground (arith, flags_within stag h)

  go_on_of_IsAdmitted : IsAdmitted stag c → (c' : Context) × (call_check stag c ≡ go_on c')
  unfolding call_check
  go_on_of_IsAdmitted a = (admitted_context stag c, ground (arith, flags_within stag h))

  go_on_effects :
      (c' : Context)
      → call_check stag c ≡ go_on c'
      → (c'.refreshing ≡ (c.refreshing || has_flag stag 5))
        × (c'.closing ≡ (c.closing || has_flag stag 2))
        × (c'.session ≡ c.session)
        × (c'.loa_in ≡ c.loa_in)
        × (c'.validated ≡ c.validated)
  unfolding call_check
  go_on_effects c' e = (
    ground (arith, flags_within stag h),
    ground (arith, flags_within stag h),
    ground (arith, flags_within stag h),
    ground (arith, flags_within stag h),
    ground (arith, flags_within stag h),
  )

-- call_check lets a call go on exactly if the request meets what the flags demand, and then it has
-- asked for the new token and for the closing that the flags name, and kept the session, the level
-- that the request came with and the identity. It never runs into the assertion of
-- afb_context_refresh.
pub call_check_admits :
    (stag : ℕ) (c : Context)
    → stag < 512
    → (call_check stag c ≢ abort)
      × (((c' : Context) × (call_check stag c ≡ go_on c')) ↔ IsAdmitted stag c)
      × ((c' : Context)
          → call_check stag c ≡ go_on c'
          → (c'.refreshing ≡ (c.refreshing || has_flag stag 5))
            × (c'.closing ≡ (c.closing || has_flag stag 2))
            × (c'.session ≡ c.session)
            × (c'.loa_in ≡ c.loa_in)
            × (c'.validated ≡ c.validated))
call_check_admits stag c h = (
  call_check-ne-abort stag c h,
  (IsAdmitted-of_go_on stag c h, go_on_of_IsAdmitted stag c h),
  go_on_effects stag c h,
)
