-- ===== src/Session/Acquire.antt =====
-- How a client gets its session: an active session is found again, and otherwise one is created.
use app_framework_binder.Base.{
  ℕ, ◌+◌, ◌%◌, ◌≤◌, ◌<◌, ◌≡◌, ◌≢◌, inl, inr, refl, sym, ◌∙◌, Bool, true, false, Option, none, some,
  [], arith, Bool-cases,
}
use app_framework_binder.Base.Text.{Str}
use app_framework_binder.Session.Data.{Session, World, update, u32_mod, eexist}
use app_framework_binder.Session.Slots.{has_room}
use app_framework_binder.Session.Slots.Counts.{slot_of}
use app_framework_binder.Session.Table.{IsValid, change-IsTable}
use app_framework_binder.Session.Expiry.{IsCloser, store_clean_up_lem, live_at_slot}
use app_framework_binder.Session.Entering.{
  Found, search_slots_run, fits, new_session, new_world, new_context_run, new_world-IsValid,
  chosen_uuid, IsUnused,
}
use app_framework_binder.Session.Store.{store_search, store_clean_up}
use app_framework_binder.Session.Create.{search_uuid, client_create, client_get_session}

-- No reference count is at its limit.
abbrev pub IsCountable : World → Type 0
IsCountable w = (q : ℕ) (s : Session) → w.heap q ≡ some s → s.refcount + 1 < u32_mod

abbrev pub FoundIn : World → Option Str → Option ℕ → Type 0
FoundIn w none r = r ≡ none
FoundIn w (some uuid) r = Found w.heap w.store uuid r

-- The start that ctxClientCreate and ctxClientGetSession share: the store is cleaned up and searched.
pub record Started (w : World) (uuid : Option Str) : Type 0 where
  pub cleaned : World
  pub found : Option ℕ
  pub clean_run : store_clean_up w.clock w ≡ some (tt, cleaned)
  pub search_run : search_uuid uuid cleaned ≡ some (found, cleaned)
  pub closer : IsCloser w cleaned
  pub fresh : (q : ℕ) (s : Session) → cleaned.heap q ≡ some s → s.uuid ≢ [] → w.clock ≤ s.expiration
  pub kept :
      (q : ℕ) (s : Session) → w.heap q ≡ some s → w.clock ≤ s.expiration → cleaned.heap q ≡ some s
  pub answer : FoundIn cleaned uuid found

search_uuid_run :
    (w : World) (uuid : Option Str)
    → IsValid w
    → (r : Option ℕ) × (search_uuid uuid w ≡ some (r, w)) × FoundIn w uuid r
unfolding search_uuid store_search
search_uuid_run w none v = (none, refl, refl)
search_uuid_run w (some uuid) v = search_slots_run uuid w.store w (λ p i e. live_at_slot w p i v e)

pub start : (w : World) (uuid : Option Str) → IsValid w → Started w uuid
start w uuid v =
    let (u, run, closer, fresh, kept) = store_clean_up_lem w.clock w v in
    let (r, searched, answer) = search_uuid_run u uuid closer.valid in
    record {
      cleaned = u;
      found = r;
      clean_run = run;
      search_run = searched;
      closer = closer;
      fresh = fresh;
      kept = kept;
      answer = answer;
    }

-- One more reference to a session.
abbrev pub touched : World → ℕ → Session → World
touched w p s = record w {
  heap =
      update w.heap p (some (record s { access = w.clock; refcount = (s.refcount + 1) % u32_mod }));
}

pub get_found :
    (w u : World) (uuid : Option Str) (p : ℕ) (s : Session)
    → store_clean_up w.clock w ≡ some (tt, u)
    → search_uuid uuid u ≡ some (some p, u)
    → u.heap p ≡ some s
    → u.clock ≡ w.clock
    → client_get_session uuid w ≡ some ((some p, false), touched u p s)
unfolding client_get_session
get_found w u uuid p s clean search e same = ground (arith, clean, search)

pub get_created :
    (w u : World) (uuid : Option Str)
    → store_clean_up w.clock w ≡ some (tt, u)
    → search_uuid uuid u ≡ some (none, u)
    → IsValid u
    → client_get_session uuid w
      ≡ some
          (((new_world uuid u.timeout w.clock u).0, true), (new_world uuid u.timeout w.clock u).1)
unfolding client_get_session
get_created w u uuid clean search v =
    ground (arith, clean, search, new_context_run u uuid u.timeout w.clock v)

touched-IsValid :
    (w : World) (p : ℕ) (s : Session)
    → IsValid w
    → w.heap p ≡ some s
    → s.refcount + 1 < u32_mod
    → IsValid (touched w p s)
touched-IsValid w p s v e small =
    change-IsTable v p s _ e (v.arrays p s e) (λ _. ground arith) (inl refl)

-- A search without a hit: the uuid is unused among the sessions.
IsUnused-of_missing :
    (w : World) (uuid : Option Str)
    → IsValid w
    → FoundIn w uuid none
    → (uuid ≡ none → IsUnused w (w.env.uuid w.draws))
    → IsUnused w (chosen_uuid w uuid)
unfolding chosen_uuid
IsUnused-of_missing w none v missing generated = generated refl
IsUnused-of_missing w (some uuid) v missing generated =
    λ q t e _. let (i, at) = slot_of q w.store (ground (arith, v.slots q)) in missing q i t at e

-- What a client holds after the call.
abbrev pub Holds : World → Option Str → Option ℕ → Type 0
Holds w uuid none = Unit {0}
Holds w uuid (some p) =
    (s : Session) × (w.heap p ≡ some s)
    × (0 < s.refcount)
    × ((u : Str) → uuid ≡ some u → s.uuid ≡ u)

Holds-new_world :
    (w : World) (uuid : Option Str) (timeout t : ℕ)
    → Holds (new_world uuid timeout t w).1 uuid (new_world uuid timeout t w).0
unfolding new_world chosen_uuid
Holds-new_world w uuid timeout t = elim (Bool-cases (w.env.alloc w.allocs)) [
  | inr failed ↦ rw failed tt
  | inl done ↦ elim (Bool-cases (fits uuid)) [
    | inr long ↦ rw (done, long) tt
    | inl fit ↦ elim (Bool-cases (has_room w.store)) [
      | inr full ↦ rw (done, fit, full) tt
      | inl room ↦
          rw (done, fit, room)
            (
              new_session w (chosen_uuid w uuid) timeout t,
              ground arith,
              omega arith,
              λ u e. rw (e, chosen_uuid) refl,
            )
    ]
  ]
]

Holds-found :
    (w : World) (uuid : Option Str) (p : ℕ) (s : Session)
    → FoundIn w uuid (some p)
    → w.heap p ≡ some s
    → s.refcount + 1 < u32_mod
    → Holds (touched w p s) uuid (some p)
Holds-found w none p s found e small = cc
Holds-found w (some uuid) p s (s', e', same) e small = (
  record s { access = w.clock; refcount = (s.refcount + 1) % u32_mod },
  ground arith,
  ground arith,
  λ u f. ground arith,
)

abbrev Gets : World → Option Str → Type 0
Gets w uuid =
    (r : Option ℕ) × (created : Bool) × (w' : World) × (client_get_session uuid w
      ≡ some ((r, created), w'))
    × IsValid w'
    × Holds w' uuid r

live_of_found :
    (w : World) (uuid : Option Str) (p : ℕ)
    → FoundIn w uuid (some p)
    → (s : Session) × (w.heap p ≡ some s)
live_of_found w none p found = cc
live_of_found w (some uuid) p (s, e, same) = (s, e)

IsUnused-before :
    (w u : World) (uuid : Option Str)
    → IsCloser w u
    → (uuid ≡ none → IsUnused w (w.env.uuid w.draws))
    → uuid ≡ none
    → IsUnused u (u.env.uuid u.draws)
IsUnused-before w u uuid closer generated asked q t e filled same =
    let name : u.env.uuid u.draws ≡ w.env.uuid w.draws = cc (closer.env, closer.draws) in
    let opened : t.uuid ≢ [] = λ h. filled (sym same ∙ h) in
    generated asked q t (closer.still q t e opened) (λ h. filled (name ∙ h)) (same ∙ name)

get_case :
    (w u : World) (uuid : Option Str) (r : Option ℕ)
    → store_clean_up w.clock w ≡ some (tt, u)
    → search_uuid uuid u ≡ some (r, u)
    → IsCloser w u
    → FoundIn u uuid r
    → IsCountable w
    → (uuid ≡ none → IsUnused w (w.env.uuid w.draws))
    → Gets w uuid
get_case w u uuid (some p) clean search closer found small generated =
    let (s, e) = live_of_found u uuid p found in
    let (s', e', same) = closer.referenced p s e in
    let small' : s.refcount + 1 < u32_mod = omega (arith, small p s' e') in
    (
      some p,
      false,
      touched u p s,
      get_found w u uuid p s clean search e closer.clock,
      touched-IsValid u p s closer.valid e small',
      Holds-found u uuid p s found e small',
    )
get_case w u uuid none clean search closer missing small generated =
    let unused =
      IsUnused-of_missing u uuid closer.valid missing (IsUnused-before w u uuid closer generated) in
    (
      _,
      true,
      _,
      get_created w u uuid clean search closer.valid,
      new_world-IsValid u uuid u.timeout w.clock closer.valid unused,
      Holds-new_world u uuid u.timeout w.clock,
    )

-- A client always gets an answer, and the store stays valid: ctxClientGetSession does not fault,
-- if no count of references is at its limit and a uuid that is generated is new. A session that it
-- answers is live and referenced, and has the uuid that was asked for.
pub client_get_session-IsValid :
    (w : World) (uuid : Option Str)
    → IsValid w
    → IsCountable w
    → (uuid ≡ none → IsUnused w (w.env.uuid w.draws))
    → (r : Option ℕ) × (created : Bool) × (w' : World) × (client_get_session uuid w
        ≡ some ((r, created), w'))
      × IsValid w'
      × Holds w' uuid r
client_get_session-IsValid w uuid v small generated =
    let st = start w uuid v in
    get_case w st.cleaned uuid st.found st.clean_run st.search_run st.closer st.answer small
      generated

create_case :
    (w u : World) (uuid : Option Str) (timeout : ℕ) (r : Option ℕ)
    → store_clean_up w.clock w ≡ some (tt, u)
    → search_uuid uuid u ≡ some (r, u)
    → IsCloser w u
    → FoundIn u uuid r
    → (uuid ≡ none → IsUnused w (w.env.uuid w.draws))
    → (a : Option ℕ) × (w' : World) × (client_create uuid timeout w ≡ some (a, w'))
      × IsValid w'
      × Holds w' uuid a
unfolding client_create
create_case w u uuid timeout (some p) clean search closer found generated =
    (none, record u { errno = eexist }, ground (arith, clean, search), closer.valid, tt)
create_case w u uuid timeout none clean search closer missing generated =
    let unused =
      IsUnused-of_missing u uuid closer.valid missing (IsUnused-before w u uuid closer generated) in
    let made = new_world uuid timeout w.clock u in
    (
      made.0,
      made.1,
      ground (arith, clean, search, new_context_run u uuid timeout w.clock closer.valid),
      new_world-IsValid u uuid timeout w.clock closer.valid unused,
      Holds-new_world u uuid timeout w.clock,
    )

-- ctxClientCreate does not fault and keeps the store valid, if a uuid that is generated is new. A
-- session that it answers is live and referenced, and has the uuid that was given.
pub client_create-IsValid :
    (w : World) (uuid : Option Str) (timeout : ℕ)
    → IsValid w
    → (uuid ≡ none → IsUnused w (w.env.uuid w.draws))
    → (r : Option ℕ) × (w' : World) × (client_create uuid timeout w ≡ some (r, w'))
      × IsValid w'
      × Holds w' uuid r
client_create-IsValid w uuid timeout v generated =
    let st = start w uuid v in
    create_case w st.cleaned uuid timeout st.found st.clean_run st.search_run st.closer st.answer
      generated
