-- ===== src/Session/References.antt =====
-- What the operations on one session do to the store: references, tokens, levels, values, cookies.
use app_framework_binder.Base.{
  ℕ, suc, ◌+◌, ◌-◌, ◌%◌, ◌<◌, ◌≡◌, inl, inr, refl, ◌∙◌, true, false, Option, none, some, List, ◌∷◌,
  ◌==◌, if◌then◌else◌, length-set, get_elem?, get_elem?_lt, set, arith, Bool-cases, Option-cases,
  ◌&&◌,
}
use app_framework_binder.Base.Text.{is_empty}
use app_framework_binder.Session.Data.{
  Session, ClientValue, Cookie, World, M, update, enomem, u32_mod, new_cookie,
}
use app_framework_binder.Session.Slots.{del}
use app_framework_binder.Session.Table.{IsValid, change-IsTable, leave-IsTable, has_of_live}
use app_framework_binder.Session.Closing.{update-update, free_call}
use app_framework_binder.Session.Store.{store_del, client_value_set}
use app_framework_binder.Session.Clients.{
  client_add_ref, client_unref, token_new, client_set_loa, client_cookie_set, cookie_match,
  cookie_write,
}

-- The world after a reference is dropped: the session goes when it was the last and it is closed.
unfoldable pub unref_world : World → ℕ → Session → World
unref_world w p s =
    if s.refcount - 1 == 0 && is_empty s.uuid
    then record w { heap = update w.heap p none; store = del p w.store; count = w.count - 1 }
    else record w { heap = update w.heap p (some (record s { refcount = s.refcount - 1 })) }

-- ctxClientUnref on a session that is live and referenced.
pub client_unref_run :
    (w : World) (p : ℕ) (s : Session)
    → IsValid w
    → w.heap p ≡ some s
    → 0 < s.refcount
    → client_unref (some p) w ≡ some (tt, unref_world w p s)
unfolding client_unref unref_world store_del
client_unref_run w p s v e held = ground (
  arith,
  has_of_live v p s e,
  update-update w.heap p (some (record s { refcount = s.refcount - 1 })) none,
)

pub unref_world-IsValid :
    (w : World) (p : ℕ) (s : Session)
    → IsValid w
    → w.heap p ≡ some s
    → 0 < s.refcount
    → IsValid (unref_world w p s)
unfolding unref_world
unref_world-IsValid w p s v e held = elim (Bool-cases (s.refcount - 1 == 0 && is_empty s.uuid)) [
  | inl last ↦ rw last (leave-IsTable v p s e)
  | inr more ↦
      rw more (change-IsTable v p s _ e (v.arrays p s e) (λ h. ground (arith, h)) (inl refl))
]

-- The operation answers, and leaves the store valid.
abbrev pub Runs : {A : Type 0} → World → M A → Type 0
Runs {A} w m = (a : A) × (w' : World) × (m w ≡ some (a, w')) × IsValid w'

-- The session with a new token.
abbrev pub renewed : World → Session → Session
renewed w s = record s {
  token = w.env.uuid w.draws;
  expiration = if s.timeout == 0 then s.expiration else w.clock + s.timeout;
}

pub token_new_run :
    (w : World) (p : ℕ) (s : Session)
    → w.heap p ≡ some s
    → token_new p w
      ≡ some (tt, record w { heap = update w.heap p (some (renewed w s)); draws = suc w.draws })
unfolding token_new
token_new_run w p s e = ground arith

pub client_add_ref_run :
    (w : World) (p : ℕ) (s : Session)
    → w.heap p ≡ some s
    → client_add_ref (some p) w
      ≡ some (
        some p,
        record w {
          heap = update w.heap p (some (record s { refcount = (s.refcount + 1) % u32_mod }));
        },
      )
unfolding client_add_ref
client_add_ref_run w p s e = ground arith

pub client_set_loa_run :
    (w : World) (p loa : ℕ) (s : Session)
    → w.heap p ≡ some s
    → client_set_loa p loa w
      ≡ some (tt, record w { heap = update w.heap p (some (record s { loa = loa })) })
unfolding client_set_loa
client_set_loa_run w p loa s e = ground arith

-- The call that a value's replacement makes: none if the value stays.
unfoldable pub replace_call : ClientValue → ℕ → List (ℕ × ℕ) → List (ℕ × ℕ)
unfolding free_call
replace_call prev value log =
    if prev.value == value then log else free_call prev.free_value prev.value log

pub client_value_set_run :
    (w : World) (p index value : ℕ) (free_value : Option ℕ) (s : Session) (prev : ClientValue)
    → w.heap p ≡ some s
    → index < w.apicount
    → get_elem? s.values index ≡ some prev
    → client_value_set p (some index) value free_value w
      ≡ some (
        tt,
        record w {
          heap = update w.heap p (
              some (record s {
                values = set s.values index (record { value = value; free_value = free_value });
              }));
          freed = replace_call prev value w.freed;
        },
      )
unfolding client_value_set replace_call
client_value_set_run w p index value free_value s prev e h at = ground arith

set_value-Runs :
    (w : World) (p index value : ℕ) (free_value : Option ℕ) (s : Session)
    → IsValid w
    → w.heap p ≡ some s
    → index < w.apicount
    → Runs w (client_value_set p (some index) value free_value)
set_value-Runs w p index value free_value s v e h =
    let (prev, at) = get_elem?_lt s.values index (omega (arith, v.arrays p s e)) in
    (
      tt,
      _,
      client_value_set_run w p index value free_value s prev e h at,
      change-IsTable v p s _ e (length-set s.values index _ ∙ v.arrays p s e) (v.held p s e)
          (inl refl),
    )

set_cookie-Runs :
    (w : World) (p key value : ℕ) (free_value : Option ℕ) (s : Session)
    → IsValid w
    → w.heap p ≡ some s
    → Runs w (client_cookie_set p key value free_value)
unfolding client_cookie_set replace_call
set_cookie-Runs w p key value free_value s v e =
    let new = new_cookie key value free_value in
    let keep = λ (cs : List Cookie).
      change-IsTable v p s (record s { cookies = cs }) e (v.arrays p s e) (v.held p s e)
        (inl refl) in
    elim (Option-cases (cookie_match s.cookies key)) [
      | inl missing ↦ elim (Bool-cases (w.env.alloc w.allocs)) [
        | inl done ↦ (
          true,
          record w {
            heap = update w.heap p (some (record s { cookies = new ∷ s.cookies }));
            allocs = suc w.allocs;
          },
          ground arith,
          keep (new ∷ s.cookies),
        )
        | inr failed ↦ (false, record w { errno = enomem; allocs = suc w.allocs }, ground arith, v)
      ]
      | inr (c, hit) ↦ (
        true,
        record w {
          heap = update w.heap p (some (record s { cookies = cookie_write s.cookies new }));
          freed =
              replace_call (record { value = c.value; free_value = c.free_value }) value w.freed;
        },
        ground arith,
        keep (cookie_write s.cookies new),
      )
    ]

-- No operation of the store on a live session faults or breaks the store: taking a reference (if
-- the count is not at its limit), dropping one that is held, renewing the token, setting the level
-- of assurance, setting a value within the count of APIs, and setting a cookie.
pub client_operations-IsValid :
    (w : World) (p : ℕ) (s : Session)
    → IsValid w
    → w.heap p ≡ some s
    → (s.refcount + 1 < u32_mod → Runs w (client_add_ref (some p)))
      × (0 < s.refcount → Runs w (client_unref (some p)))
      × Runs w (token_new p)
      × ((loa : ℕ) → Runs w (client_set_loa p loa))
      × ((index value : ℕ) (free_value : Option ℕ)
          → index < w.apicount
          → Runs w (client_value_set p (some index) value free_value))
      × ((key value : ℕ) (free_value : Option ℕ)
          → Runs w (client_cookie_set p key value free_value))
client_operations-IsValid w p s v e = (
  (λ small. (
    some p,
    _,
    client_add_ref_run w p s e,
    change-IsTable v p s _ e (v.arrays p s e) (λ _. ground arith) (inl refl),
  )),
  (λ held.
      (tt, unref_world w p s, client_unref_run w p s v e held, unref_world-IsValid w p s v e held)),
  (
    tt,
    _,
    token_new_run w p s e,
    change-IsTable v p s _ e (v.arrays p s e) (v.held p s e) (inl refl),
  ),
  (λ loa. (
    tt,
    _,
    client_set_loa_run w p loa s e,
    change-IsTable v p s _ e (v.arrays p s e) (v.held p s e) (inl refl),
  )),
  (λ index value free_value h. set_value-Runs w p index value free_value s v e h),
  (λ key value free_value. set_cookie-Runs w p key value free_value s v e),
)
