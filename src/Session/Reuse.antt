-- ===== src/Session/Reuse.antt =====
-- Which session a client gets: one that is active already, or a new one.
use app_framework_binder.Base.{
  ℕ, ◌+◌, ◌%◌, ◌≤◌, ◌≡◌, ◌≢◌, refl, sym, ap, ◌∙◌, true, false, Option, none, some, [], arith,
}
use app_framework_binder.Base.Text.{Str}
use app_framework_binder.Session.Data.{Session, World, eexist, u32_mod}
use app_framework_binder.Session.Slots.Counts.{slot_of}
use app_framework_binder.Session.Table.{IsValid}
use app_framework_binder.Session.Expiry.{IsCloser}
use app_framework_binder.Session.Entering.{Found, new_world}
use app_framework_binder.Session.Create.{client_create, client_get_session}
use app_framework_binder.Session.Acquire.{start, touched, get_found, get_created}

Found-active :
    (w u : World) (p : ℕ) (s : Session) (uuid : Str) (r : Option ℕ)
    → IsValid u
    → u.heap p ≡ some s
    → s.uuid ≡ uuid
    → uuid ≢ []
    → Found u.heap u.store uuid r
    → r ≡ some p
Found-active w u p s uuid none v e same filled missing =
    let (i, at) = slot_of p u.store (ground (arith, v.slots p)) in absurd (missing p i s at e same)
Found-active w u p s uuid (some q) v e same filled (t, e', same') =
    ap some (v.distinct q p t s e' e (same' ∙ sym same) (λ h. filled (sym same' ∙ h)))

pub client_get_session_run :
    (w : World) (p : ℕ) (s : Session)
    → IsValid w
    → w.heap p ≡ some s
    → s.uuid ≢ []
    → w.clock ≤ s.expiration
    → (w' : World) × (client_get_session (some s.uuid) w ≡ some ((some p, false), w'))
      × (w'.heap p ≡ some (record s { access = w.clock; refcount = (s.refcount + 1) % u32_mod }))
      × (w'.clock ≡ w.clock)
client_get_session_run w p s v e opened young =
    let st = start w (some s.uuid) v in
    let e' = st.kept p s e young in
    let hit =
      Found-active w st.cleaned p s s.uuid st.found st.closer.valid e' refl opened st.answer in
    (
      touched st.cleaned p s,
      get_found w st.cleaned (some s.uuid) p s st.clean_run (rw hit at st.search_run) e'
          st.closer.clock,
      ground (arith, st.closer.clock),
      st.closer.clock,
    )

-- An open session whose time is not over is found again under its uuid, by ctxClientGetSession: the
-- client gets that session with `created` unset, one more reference and the time of access, and
-- all else in it as it was.
pub client_get_session_again :
    (w : World) (p : ℕ) (s : Session)
    → IsValid w
    → w.heap p ≡ some s
    → s.uuid ≢ []
    → w.clock ≤ s.expiration
    → (w' : World) × (client_get_session (some s.uuid) w ≡ some ((some p, false), w'))
      × (w'.heap p ≡ some (record s { access = w.clock; refcount = (s.refcount + 1) % u32_mod }))
client_get_session_again w p s v e opened young =
    let (w', run, cell, same) = client_get_session_run w p s v e opened young in (w', run, cell)

-- If no open session of that uuid has time left, ctxClientGetSession answers with what new_context
-- makes, in the store as it is once the sessions whose time is over are closed, and sets `created`.
pub client_get_session_fresh :
    (w : World) (uuid : Str)
    → IsValid w
    → uuid ≢ []
    → ((q : ℕ) (t : Session) → w.heap q ≡ some t → w.clock ≤ t.expiration → t.uuid ≢ uuid)
    → (u : World) × IsCloser w u
      × (client_get_session (some uuid) w
          ≡ some (
            ((new_world (some uuid) w.timeout w.clock u).0, true),
            (new_world (some uuid) w.timeout w.clock u).1,
          ))
client_get_session_fresh w uuid v filled others =
    let st = start w (some uuid) v in
    let miss : st.found ≡ none = missing st.cleaned st.found st.answer st.fresh st.closer.still in
    (
      st.cleaned,
      st.closer,
      get_created w st.cleaned (some uuid) st.clean_run (rw miss at st.search_run) st.closer.valid
          ∙ ap
              (λ (limit : ℕ).
                let made = new_world (some uuid) limit w.clock st.cleaned in
                some ((made.0, true), made.1))
              st.closer.timeout,
    )
  where
    missing :
        (u : World) (r : Option ℕ)
        → Found u.heap u.store uuid r
        → ((q : ℕ) (s : Session) → u.heap q ≡ some s → s.uuid ≢ [] → w.clock ≤ s.expiration)
        → ((q : ℕ) (s : Session) → u.heap q ≡ some s → s.uuid ≢ [] → w.heap q ≡ some s)
        → r ≡ none
    missing u none found fresh still = refl
    missing u (some q) (t, e, same) fresh still =
        let opened : t.uuid ≢ [] = λ h. filled (sym same ∙ h) in
        absurd (others q t (still q t e opened) (fresh q t e opened) same)

-- ctxClientCreate refuses the uuid of an open session whose time is not over: it answers NULL with
-- EEXIST, and that session is as it was.
pub client_create_exists :
    (w : World) (p timeout : ℕ) (s : Session)
    → IsValid w
    → w.heap p ≡ some s
    → s.uuid ≢ []
    → w.clock ≤ s.expiration
    → (w' : World) × (client_create (some s.uuid) timeout w ≡ some (none, w'))
      × (w'.errno ≡ eexist)
      × (w'.heap p ≡ some s)
      × IsValid w'
unfolding client_create
client_create_exists w p timeout s v e opened young =
    let st = start w (some s.uuid) v in
    let e' = st.kept p s e young in
    let hit =
      Found-active w st.cleaned p s s.uuid st.found st.closer.valid e' refl opened st.answer in
    (
      record (st.cleaned) { errno = eexist },
      ground (arith, st.clean_run, st.search_run, hit),
      refl,
      e',
      st.closer.valid,
    )
