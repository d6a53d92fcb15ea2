-- ===== src/Tests/Contexts.antt =====
-- The contexts of src/afb-context.c and the session checks of src/afb-api-so.c at concrete inputs.
use app_framework_binder.Base.{
  ℕ, ◌≤◌, ◌≡◌, ◌≢◌, ◌↔◌, refl, true, false, ◌||◌, none, some, [], ◌∷◌, if◌then◌else◌, arith,
}
use app_framework_binder.Base.Text.{is_empty, str_eq}
use app_framework_binder.Session.Data.{Session, World}
use app_framework_binder.Session.Table.{IsValid}
use app_framework_binder.Context.{
  Context, reset_context, context_connect, context_disconnect, context_change_loa,
}
use app_framework_binder.Context.Lifecycle.{settled, context_disconnect_lem}
use app_framework_binder.Context.Connection.{
  visited, accepts, refuses, AsksNothing, context_connect_lem, context_disconnect-connect,
}
use app_framework_binder.Context.Assurance.{context_change_loa_lem, loa_change-disconnect}
use app_framework_binder.ApiSo.{go_on, abort, has_flag, call_check}
use app_framework_binder.ApiSo.Checks.{IsAdmitted, call_check_admits}
use app_framework_binder.Tests.Sessions.{
  one_session, sample, one_session-IsValid, one_session-IsCountable,
}
use app_framework_binder.Base.{inr}

-- A request with a good token, which asks to close its session.
abbrev leaving : Context
leaving = record (reset_context 0 0) { validated = true; closing = true }

-- A request that presents the token "t" of the session "x".
context_connect_lem_example :
    (c : Context) × (w' : World) × (context_connect (some (120 ∷ [])) (some (116 ∷ [])) one_session
      ≡ some (some c, w'))
    × (w'.heap 0 ≡ some (visited one_session sample))
    × (c.session ≡ some 0)
    × (c.created ≡ false)
    × (c.loa_in ≡ 0)
    × (c.validated ≡ accepts (116 ∷ []) (some (116 ∷ [])))
    × (c.invalidated ≡ refuses (116 ∷ []) (some (116 ∷ [])))
    × AsksNothing c
context_connect_lem_example =
    context_connect_lem one_session 0 sample (some (116 ∷ [])) one_session-IsValid refl (λ h. cc)
      (omega arith)

token_accepted : accepts (116 ∷ []) (some (116 ∷ [])) ≡ true
unfolding str_eq
token_accepted = refl

context_disconnect-connect_example :
    (c c' : Context) × (w' w'' : World) × (context_connect (some (120 ∷ [])) none one_session
      ≡ some (some c, w'))
    × (context_disconnect c w' ≡ some (c', w''))
    × (c'.session ≡ none)
    × IsValid w''
    × (w''.heap 0 ≡ some sample)
context_disconnect-connect_example =
    context_disconnect-connect one_session 0 sample none one_session-IsValid one_session-IsCountable
      refl (λ h. cc) (omega arith)

context_disconnect_example :
    (c' : Context) × (w' : World) × (context_disconnect leaving one_session ≡ some (c', w'))
    × (c'.session ≡ none)
    × IsValid w'
    × (w'.heap 0 ≡ (
        if is_empty (settled one_session leaving sample).uuid
        then none
        else some (record (settled one_session leaving sample) { refcount = 0 })))
    × ((q : ℕ) → q ≢ 0 → w'.heap q ≡ one_session.heap q)
context_disconnect_example =
    context_disconnect_lem one_session 0 leaving sample one_session-IsValid refl refl (omega arith)

-- A validated request on a session that only it refers to.
abbrev staying : Context
staying = record (reset_context 0 0) { validated = true }

loa_change-disconnect_example :
    (c' : Context) × (w' : World) × (s' : Session) × (context_disconnect
        (context_change_loa staying 3).1
        one_session
      ≡ some (c', w'))
    × (w'.heap 0 ≡ some s')
    × (s'.loa ≡ 3)
loa_change-disconnect_example =
    loa_change-disconnect one_session 0 staying sample 3 one_session-IsValid refl refl (omega arith)
      (inr ((λ h. cc), refl)) refl refl refl (omega arith)

context_change_loa_example :
    (((context_change_loa leaving 9).0 ≡ true) ↔ ((leaving.validated ≡ true) × (9 ≤ 7)))
    × ((context_change_loa leaving 9).0 ≡ false → (context_change_loa leaving 9).1 ≡ leaving)
    × ((context_change_loa leaving 9).1 ≡ record leaving {
      loa_out = (context_change_loa leaving 9).1.loa_out;
      loa_changing = (context_change_loa leaving 9).1.loa_changing;
      loa_changed = (context_change_loa leaving 9).1.loa_changed;
    })
context_change_loa_example = context_change_loa_lem leaving 9

-- A verb that renews the token and wants a level of at least 2.
call_check_admits_example :
    (call_check 148 leaving ≢ abort)
    × (((c' : Context) × (call_check 148 leaving ≡ go_on c')) ↔ IsAdmitted 148 leaving)
    × ((c' : Context)
        → call_check 148 leaving ≡ go_on c'
        → (c'.refreshing ≡ (leaving.refreshing || has_flag 148 5))
          × (c'.closing ≡ (leaving.closing || has_flag 148 2))
          × (c'.session ≡ leaving.session)
          × (c'.loa_in ≡ leaving.loa_in)
          × (c'.validated ≡ leaving.validated))
call_check_admits_example = call_check_admits 148 leaving (omega arith)
