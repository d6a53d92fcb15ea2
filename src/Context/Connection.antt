-- ===== src/Context/Connection.antt =====
-- A request of a client: connecting to its session, and giving it back.
use mathlib.Core.Path.{subst}
use app_framework_binder.Base.{
  ℕ, ◌+◌, ◌-◌, ◌%◌, ◌≤◌, ◌<◌, ◌≡◌, ◌≢◌, refl, sym, ◌∙◌, Bool, true, false, ◌&&◌, ◌||◌, not, Option,
  none, some, [], ◌==◌, if◌then◌else◌, arith, Bool-cases, inl, inr,
}
use app_framework_binder.Base.Text.{Str, is_empty, str_eq}
use app_framework_binder.Session.Data.{Session, World, u32_mod}
use app_framework_binder.Session.Entering.{IsUnused}
use app_framework_binder.Session.Table.{IsValid}
use app_framework_binder.Session.Store.{is_active}
use app_framework_binder.Session.Clients.{client_get_loa, token_check}
use app_framework_binder.Session.Create.{client_get_session}
use app_framework_binder.Session.Reuse.{client_get_session_run}
use app_framework_binder.Session.Acquire.{IsCountable, client_get_session-IsValid}
use app_framework_binder.Context.Lifecycle.{
  settled, flushed, context_disconnect_lem, is_empty_filled,
}
use app_framework_binder.Context.{
  Context, reset_context, init_context, context_connect, context_disconnect,
}

-- Does a session of the token `own` accept or refuse the token that is given? An empty one accepts any.
abbrev pub accepts : Str → Option Str → Bool
accepts own none = false
accepts own (some token) = is_empty own || str_eq token own

abbrev pub refuses : Str → Option Str → Bool
refuses own none = false
refuses own (some token) = not (is_empty own || str_eq token own)

-- A context that asks nothing of its session yet.
abbrev pub AsksNothing : Context → Type 0
AsksNothing c =
    (c.refreshing ≡ false)
    × (c.refreshed ≡ false)
    × (c.closing ≡ false)
    × (c.closed ≡ false)
    × (c.loa_changing ≡ false)
    × (c.loa_changed ≡ false)

-- What init_context makes of a session: what it takes of it, and the verdict on the token.
abbrev Enters : ℕ → Session → Option Str → Context → Type 0
Enters p s token c =
    (c.session ≡ some p)
    × (c.created ≡ false)
    × (c.loa_in ≡ s.loa % 8)
    × (c.validated ≡ accepts s.token token)
    × (c.invalidated ≡ refuses s.token token)
    × AsksNothing c

init_context_run :
    (w : World) (p : ℕ) (s : Session) (token : Option Str)
    → w.heap p ≡ some s
    → s.uuid ≢ []
    → w.clock ≤ s.expiration
    → (c : Context) × (init_context (some p) token w ≡ some (c, w)) × Enters p s token c
unfolding init_context client_get_loa token_check is_active
init_context_run w p s none e opened young = (
  reset_context p s.loa,
  ground arith,
  (refl, refl, refl, refl, refl, (refl, refl, refl, refl, refl, refl)),
)
init_context_run w p s (some token) e opened young =
    elim (Bool-cases (is_empty s.token || str_eq token s.token)) [
      | inl good ↦ (
        record (reset_context p s.loa) { validated = true },
        ground (arith, good),
        (refl, refl, refl, sym good, ground (arith, good), (refl, refl, refl, refl, refl, refl)),
      )
      | inr bad ↦ (
        record (reset_context p s.loa) { invalidated = true },
        ground (arith, bad),
        (refl, refl, refl, sym bad, ground (arith, bad), (refl, refl, refl, refl, refl, refl)),
      )
    ]

-- The session while one more request is on it.
abbrev pub visited : World → Session → Session
visited w s = record s { access = w.clock; refcount = (s.refcount + 1) % u32_mod }

context_connect_run :
    (w w' : World) (uuid : Option Str) (p : ℕ) (token : Option Str) (c : Context)
    → client_get_session uuid w ≡ some ((some p, false), w')
    → init_context (some p) token w' ≡ some (c, w')
    → context_connect uuid token w ≡ some (some c, w')
unfolding context_connect
context_connect_run w w' uuid p token c got made = ground (arith, got, made)

-- A request that connects under the uuid of an open session whose time is not over gets that session,
-- with one more reference. Its context has the level of the session, in three bits, and asks nothing of
-- the session; `created` is unset. With a token it is validated if the session has no token or that one,
-- and invalidated if not; without a token it is neither.
pub context_connect_lem :
    (w : World) (p : ℕ) (s : Session) (token : Option Str)
    → IsValid w
    → w.heap p ≡ some s
    → s.uuid ≢ []
    → w.clock ≤ s.expiration
    → (c : Context) × (w' : World) × (context_connect (some s.uuid) token w ≡ some (some c, w'))
      × (w'.heap p ≡ some (visited w s))
      × (c.session ≡ some p)
      × (c.created ≡ false)
      × (c.loa_in ≡ s.loa % 8)
      × (c.validated ≡ accepts s.token token)
      × (c.invalidated ≡ refuses s.token token)
      × AsksNothing c
unfolding context_connect
context_connect_lem w p s token v e opened young =
    let (w', got, cell, same) = client_get_session_run w p s v e opened young in
    let (c, made, (session, created, loa, valid, invalid, asks)) =
      init_context_run w' p (visited w s) token cell opened (omega (arith, young, same)) in
    (
      c,
      w',
      context_connect_run w w' (some s.uuid) p token c got made,
      cell,
      session,
      created,
      loa,
      valid,
      invalid,
      asks,
    )

got-IsValid :
    (w w' : World) (uuid : Option Str) (r : Option ℕ)
    → IsValid w
    → IsCountable w
    → (uuid ≡ none → IsUnused w (w.env.uuid w.draws))
    → client_get_session uuid w ≡ some ((r, false), w')
    → IsValid w'
got-IsValid w w' uuid r v small generated got =
    let (r₁, created, w₁, run, valid, holds) =
      client_get_session-IsValid w uuid v small generated in
    let same : w₁ ≡ w' = cc (run, got) in subst IsValid same valid

settled_same : (w : World) (c : Context) (s : Session) → AsksNothing c → settled w c s ≡ s
unfolding settled flushed
settled_same w c s (refreshing, refreshed, closing, closed, changing, changed) =
    ground (arith, refreshing, closing, changing)

given_back :
    (w : World) (s t : Session)
    → t ≡ visited w s
    → s.uuid ≢ []
    → s.refcount + 1 < u32_mod
    → (if ((visited w s).refcount == 1) && is_empty t.uuid
        then none
        else some (record t { refcount = (visited w s).refcount - 1 }))
      ≡ some (record s { access = w.clock })
given_back w s t same opened small =
    let filled = is_empty_filled s.uuid opened in
    let back : (s.refcount + 1) % u32_mod - 1 ≡ s.refcount = omega (arith, small) in
    rw same (ground (arith, filled, back))

-- A request that connects under the uuid of an open session whose time is not over, and ends without
-- asking anything of it, leaves the session as it was but for the time of access: the reference that
-- connecting took is the one that disconnecting gives back. No count of references is at its limit.
pub context_disconnect-connect :
    (w : World) (p : ℕ) (s : Session) (token : Option Str)
    → IsValid w
    → IsCountable w
    → w.heap p ≡ some s
    → s.uuid ≢ []
    → w.clock ≤ s.expiration
    → (c c' : Context) × (w' w'' : World) × (context_connect (some s.uuid) token w
        ≡ some (some c, w'))
      × (context_disconnect c w' ≡ some (c', w''))
      × (c'.session ≡ none)
      × IsValid w''
      × (w''.heap p ≡ some (record s { access = w.clock }))
context_disconnect-connect w p s token v small e opened young =
    let (w', got, cell, same) = client_get_session_run w p s v e opened young in
    let (c, made, (session, created, loa, valid, invalid, asks)) =
      init_context_run w' p (visited w s) token cell opened (omega (arith, young, same)) in
    let valid' = got-IsValid w w' (some s.uuid) (some p) v small (λ h. cc) got in
    let one_more = small p s e in
    let (c', w'', run, gone, valid'', left, others) =
      context_disconnect_lem w' p c (visited w s) valid' session cell (omega (arith, one_more)) in
    (
      c,
      c',
      w',
      w'',
      context_connect_run w w' (some s.uuid) p token c got made,
      run,
      gone,
      valid'',
      left
          ∙ given_back w s (settled w' c (visited w s)) (settled_same w' c (visited w s) asks)
              opened one_more,
    )
