-- ===== src/Session/Entering.antt =====
-- What creating a session does, on each of its branches.
use app_framework_binder.Base.{
  ℕ, zero, suc, ◌+◌, ◌≡◌, ◌≢◌, inl, inr, refl, sym, Bool, true, Option, none, some, List, [], ◌∷◌,
  ltb, if◌then◌else◌, length, get_elem?, arith, Bool-cases, replicate, not, length-replicate,
}
use app_framework_binder.Base.Text.{Str, str_eq, str_eq→eq, str_eq_self}
use app_framework_binder.Session.Data.{
  Session, World, update, einval, enomem, initial_session, null_value,
}
use app_framework_binder.Session.Slots.{has_room, add}
use app_framework_binder.Session.Table.{IsTable, IsValid, enter-IsTable}
use app_framework_binder.Session.Closing.{update-update}
use app_framework_binder.Session.Store.{search_slots, store_add}
use app_framework_binder.Session.Create.{
  context_uuid, context_expiration, enter_context, new_context,
}
use mathlib.Core.Path.{fun_ext}

-- What a search answers: a session of that uuid, or that no slot holds one.
abbrev pub Found : (ℕ → Option Session) → List (Option ℕ) → Str → Option ℕ → Type 0
Found heap slots uuid (some p) = (s : Session) × (heap p ≡ some s) × (s.uuid ≡ uuid)
Found heap slots uuid none =
    (p i : ℕ) (s : Session) → get_elem? slots i ≡ some (some p) → heap p ≡ some s → s.uuid ≢ uuid

Found-skip :
    (heap : ℕ → Option Session) (slots : List (Option ℕ)) (uuid : Str) (r : Option ℕ)
    → Found heap slots uuid r
    → Found heap (none ∷ slots) uuid r
Found-skip heap slots uuid (some p) found = found
Found-skip heap slots uuid none missing = go
  where
    go :
        (p i : ℕ) (s : Session)
        → get_elem? (none ∷ slots) i ≡ some (some p)
        → heap p ≡ some s
        → s.uuid ≢ uuid
    go p zero s at e = cc
    go p (suc i) s at e = missing p i s at e

Found-next :
    (heap : ℕ → Option Session) (slots : List (Option ℕ)) (uuid : Str) (q : ℕ) (r : Option ℕ)
    → ((s : Session) → heap q ≡ some s → s.uuid ≢ uuid)
    → Found heap slots uuid r
    → Found heap (some q ∷ slots) uuid r
Found-next heap slots uuid q (some p) other found = found
Found-next heap slots uuid q none other missing = go
  where
    go :
        (p i : ℕ) (s : Session)
        → get_elem? (some q ∷ slots) i ≡ some (some p)
        → heap p ≡ some s
        → s.uuid ≢ uuid
    go p zero s at e = other s (ground arith)
    go p (suc i) s at e = missing p i s at e

pub search_slots_run :
    (uuid : Str) (slots : List (Option ℕ)) (w : World)
    → ((p i : ℕ) → get_elem? slots i ≡ some (some p) → (s : Session) × (w.heap p ≡ some s))
    → (r : Option ℕ) × (search_slots uuid slots w ≡ some (r, w)) × Found w.heap slots uuid r
unfolding search_slots
search_slots_run uuid [] w h = (none, refl, λ p i s e _ _. cc)
search_slots_run uuid (none ∷ slots) w h =
    let (r, run, found) = search_slots_run uuid slots w (λ p i e. h p (suc i) e) in
    (r, run, Found-skip w.heap slots uuid r found)
search_slots_run uuid (some p ∷ slots) w h =
    let (s, e) = h p 0 refl in
    let (r, run, found) = search_slots_run uuid slots w (λ q i f. h q (suc i) f) in
    elim (Bool-cases (str_eq uuid s.uuid)) [
      | inl hit ↦ (some p, ground arith, (s, e, sym (str_eq→eq uuid s.uuid hit)))
      | inr miss ↦ (
        r,
        ground (arith, run),
        Found-next w.heap slots uuid p r (λ u f g. ground (arith, str_eq_self uuid)) found,
      )
    ]

-- The session that new_context makes.
abbrev pub new_session : World → Str → ℕ → ℕ → Session
new_session w uuid timeout t = record {
  refcount = 1;
  loa = 0;
  timeout = timeout;
  expiration = context_expiration timeout t;
  access = t;
  uuid = uuid;
  token = w.initok;
  values = replicate w.apicount null_value;
  cookies = [];
}

unfoldable pub chosen_uuid : World → Option Str → Str
chosen_uuid w none = w.env.uuid w.draws
chosen_uuid w (some uuid) = uuid

unfoldable pub draws_after : World → Option Str → ℕ
draws_after w none = suc w.draws
draws_after w (some uuid) = w.draws

unfoldable pub fits : Option Str → Bool
fits none = true
fits (some uuid) = ltb (length uuid) 37

-- The result of new_context and the world that it leaves, as one case distinction.
unfoldable pub new_world : Option Str → ℕ → ℕ → World → Option ℕ × World
new_world uuid timeout t w =
    let tried = record w { allocs = suc w.allocs } in
    let made = record tried { next = suc w.next; draws = draws_after w uuid } in
    if not (w.env.alloc w.allocs)
    then (none, record tried { errno = enomem })
    else if not (fits uuid)
    then (none, record made { errno = einval })
    else if has_room w.store
    then (
      some w.next,
      record made {
        heap = update w.heap w.next (some (new_session w (chosen_uuid w uuid) timeout t));
        store = add w.next w.store;
        count = w.count + 1;
      },
    )
    else (none, record made { errno = enomem })

forget_update : (heap : ℕ → Option Session) (p : ℕ) → heap p ≡ none → update heap p none ≡ heap
forget_update heap p e = fun_ext λ q. ground arith

-- The end of new_context, from a world where the session is allocated.
enter_context_run :
    (w : World) (p : ℕ) (uuid : Str) (timeout t : ℕ)
    → w.heap p ≡ some (initial_session w.apicount)
    → enter_context p uuid timeout t w ≡ (
        if has_room w.store
        then some (
          some p,
          record w {
            heap = update w.heap p (some (new_session w uuid timeout t));
            store = add p w.store;
            count = w.count + 1;
          },
        )
        else some (none, record w { heap = update w.heap p none; errno = enomem }))
unfolding enter_context store_add
enter_context_run w p uuid timeout t e =
    let base = initial_session w.apicount in
    let mid = record base {
      uuid = uuid;
      token = w.initok;
      timeout = timeout;
      expiration = context_expiration timeout t;
    } in
    ground (
      arith,
      update-update w.heap p (some mid) (some (new_session w uuid timeout t)),
      update-update w.heap p (some mid) none,
    )

pub new_context_run :
    (w : World) (uuid : Option Str) (timeout t : ℕ)
    → IsValid w
    → new_context uuid timeout t w ≡ some (new_world uuid timeout t w)
unfolding new_context new_world context_uuid chosen_uuid draws_after fits
new_context_run w none timeout t v =
    let blank = some (initial_session w.apicount) in
    let u = record w {
      heap = update w.heap w.next blank;
      next = suc w.next;
      allocs = suc w.allocs;
      draws = suc w.draws;
    } in
    ground (
      arith,
      v.fresh w.next (omega arith),
      forget_update w.heap w.next,
      update-update w.heap w.next blank none,
      update-update w.heap w.next blank (some (new_session w (w.env.uuid w.draws) timeout t)),
      enter_context_run u w.next (w.env.uuid w.draws) timeout t,
    )
new_context_run w (some uuid) timeout t v =
    let blank = some (initial_session w.apicount) in
    let u = record w {
      heap = update w.heap w.next blank;
      next = suc w.next;
      allocs = suc w.allocs;
    } in
    ground (
      arith,
      v.fresh w.next (omega arith),
      forget_update w.heap w.next,
      update-update w.heap w.next blank none,
      update-update w.heap w.next blank (some (new_session w uuid timeout t)),
      enter_context_run u w.next uuid timeout t,
    )

-- The next address moves on only.
skip-IsTable :
    {heap : ℕ → Option Session} {store : List (Option ℕ)} {count next max apicount : ℕ}
    → IsTable heap store count next max apicount
    → IsTable heap store count (suc next) max apicount
skip-IsTable v = record {
  slots = v.slots;
  counted = v.counted;
  sized = v.sized;
  fresh = λ p h. v.fresh p (omega arith);
  arrays = v.arrays;
  held = v.held;
  distinct = v.distinct;
}

-- No session has the uuid that the new one gets.
abbrev pub IsUnused : World → Str → Type 0
IsUnused w uuid = (q : ℕ) (t : Session) → w.heap q ≡ some t → uuid ≢ [] → t.uuid ≢ uuid

pub new_world-IsValid :
    (w : World) (uuid : Option Str) (timeout t : ℕ)
    → IsValid w
    → IsUnused w (chosen_uuid w uuid)
    → IsValid (new_world uuid timeout t w).1
unfolding new_world
new_world-IsValid w uuid timeout t v unused = elim (Bool-cases (w.env.alloc w.allocs)) [
  | inr failed ↦ rw failed v
  | inl done ↦ elim (Bool-cases (fits uuid)) [
    | inr long ↦ rw (done, long) (skip-IsTable v)
    | inl fit ↦ elim (Bool-cases (has_room w.store)) [
      | inr full ↦ rw (done, fit, full) (skip-IsTable v)
      | inl room ↦
          rw (done, fit, room)
            (enter-IsTable v (new_session w (chosen_uuid w uuid) timeout t) room
              (length-replicate _ _) (omega arith) unused)
    ]
  ]
]
