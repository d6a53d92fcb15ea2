-- ===== src/Tests/Routes.antt =====
use app_framework_binder.Base.{
  ℕ, ◌+◌, ◌≡◌, inl, inr, refl, Bool, true, false, some, List, [], ◌∷◌, ◌++◌, arith, ◌==◌,
}
use app_framework_binder.Base.Text.{Str, str_eq, strncase_eq}
use app_framework_binder.Http.Request.{Request, unprefix, pass_slashes}
use app_framework_binder.Http.Handlers.{Handler, prefix_length, new_link, add_handler, scan}
use app_framework_binder.Http.Subpaths.{names, stays_below}
use app_framework_binder.Http.Routing.{IsOrdered, Placed, IsMeasured, add_handler_lem}
use app_framework_binder.Http.Switch.{split_call}
use app_framework_binder.Http.Calls.{split_call_lem}
use app_framework_binder.Http.Request.{Part, find_part}
use app_framework_binder.Http.Parts.{HasDistinctKeys}
use app_framework_binder.Http.Choice.{begin, takes, passed, NoneTakes, pass_by, finish, scan_first}

stays_below_case : stays_below 0 (names (97 ∷ 47 ∷ 46 ∷ 46 ∷ 47 ∷ 46 ∷ 46 ∷ [])) ≡ false
unfolding stays_below names str_eq
stays_below_case = refl

-- "/API//x"
abbrev request : Request
request = record {
  url = 47 ∷ 65 ∷ 80 ∷ 73 ∷ 47 ∷ 47 ∷ 120 ∷ [];
  tail = 47 ∷ 65 ∷ 80 ∷ 73 ∷ 47 ∷ 47 ∷ 120 ∷ [];
  scanned = false;
  replied = false;
  suspended = false;
}

-- "/api"
abbrev prefix : Str
prefix = 47 ∷ 97 ∷ 112 ∷ 105 ∷ []

unprefix_run : unprefix request prefix 4 ≡ some (record request { tail = 47 ∷ 120 ∷ [] })
unfolding unprefix pass_slashes strncase_eq
unprefix_run = refl

abbrev handlers : List Handler
handlers = new_link prefix 1 0 20 ∷ new_link [] 2 0 0 ∷ []

handlers-IsOrdered : IsOrdered handlers
unfolding IsOrdered
handlers-IsOrdered = ((inl (omega arith), tt), (tt, tt))

add_handler_example :
    (add_handler false handlers (47 ∷ 47 ∷ []) 3 0 10 ≡ (handlers, false))
    × ((add_handler true handlers (47 ∷ 47 ∷ []) 3 0 10).1 ≡ true)
    × Placed handlers
        (new_link (47 ∷ 47 ∷ []) 3 0 10)
        (add_handler true handlers (47 ∷ 47 ∷ []) 3 0 10).0
    × IsOrdered (add_handler true handlers (47 ∷ 47 ∷ []) 3 0 10).0
    × IsMeasured (47 ∷ 47 ∷ []) (new_link (47 ∷ 47 ∷ []) 3 0 10).len
add_handler_example = add_handler_lem handlers (47 ∷ 47 ∷ []) 3 0 10 handlers-IsOrdered

-- "//a/bc/"
split_call_example :
    split_call (47 ∷ 47 ∷ 97 ∷ 47 ∷ 98 ∷ 99 ∷ 47 ∷ [])
    ≡ some (record {
      api = 97 ∷ 47 ∷ 98 ∷ 99 ∷ 47 ∷ [];
      lenapi = 1;
      verb = 98 ∷ 99 ∷ 47 ∷ [];
      lenverb = 2;
    })
split_call_example =
    split_call_lem 2 0 97 98 [] (99 ∷ []) (47 ∷ []) (λ h. absurd (omega (arith, h))) tt
      (λ h. absurd (omega (arith, h))) (λ h. absurd (omega (arith, h)), tt) (inr refl)

-- The handler 1 does not take what it is called for, the handler 2 takes it.
abbrev call : ℕ → ℕ → Request × ℕ → Bool × (Request × ℕ)
call h d state = (h == 2, (state.0, state.1 + h))

abbrev reply_error : ℕ → Request × ℕ → Request × ℕ
reply_error status state = (record (state.0) { replied = true }, status)

abbrev arrived : Request × ℕ
arrived = (request, 0)

abbrev front : List Handler
front = new_link prefix 1 0 20 ∷ []

front-NoneTakes : NoneTakes call reply_error front (begin arrived)
unfolding NoneTakes takes unprefix pass_slashes strncase_eq prefix_length
front-NoneTakes = (refl, tt)

last_takes :
    takes call reply_error (new_link [] 2 0 0) (passed call reply_error front (begin arrived))
    ≡ true
unfolding takes passed pass_by prefix_length unprefix pass_slashes strncase_eq
last_takes = refl

scan_first_example :
    scan call reply_error (front ++ (new_link [] 2 0 0 ∷ [])) arrived
    ≡ finish call reply_error (new_link [] 2 0 0) (passed call reply_error front (begin arrived))
scan_first_example =
    scan_first call reply_error front [] (new_link [] 2 0 0) arrived refl front-NoneTakes last_takes

abbrev parts : List Part
parts = record { key = 97 ∷ []; value = [] } ∷ []

parts-HasDistinctKeys : HasDistinctKeys parts
unfolding HasDistinctKeys find_part
parts-HasDistinctKeys = (refl, tt)
