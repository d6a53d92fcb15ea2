-- ===== src/Session/Create.antt =====
-- src/session.c: how the store is set up, and how a session is created or found again.
use app_framework_binder.Base.{
  ℕ, suc, ◌+◌, ◌%◌, Bool, true, false, Option, none, some, ltb, leb, ◌==◌, if◌then◌else◌, length,
  replicate,
}
use app_framework_binder.Base.Text.{Str}
use app_framework_binder.Session.Data.{
  World, einval, enomem, eexist, M, pure, ◌>>=◌, ◌>>◌, load, save, release, get, put, new_uuid, now,
  time_max, u32_mod, initial_session, set_errno, update,
}
use app_framework_binder.Session.Store.{store_clean_up, store_add, store_search}

-- ctxStoreInit: `none` is the exit on an initial token that is too long. The allocation of the
-- slots is not checked by the code, and answers here.
unfoldable pub store_init : ℕ → ℕ → Option Str → ℕ → World → Option World
store_init max timeout none apicount w = some (record w {
  store = replicate max none;
  max = max;
  timeout = timeout;
  apicount = apicount;
  initok = w.env.uuid w.draws;
  draws = suc w.draws;
})
store_init max timeout (some initok) apicount w =
    if ltb (length initok) 37
    then some (record w {
      store = replicate max none;
      max = max;
      timeout = timeout;
      apicount = apicount;
      initok = initok;
    })
    else none

-- The uuid that new_context gives: a new one for NULL, else the given one if it fits 37 bytes.
unfoldable pub context_uuid : Option Str → M (Option Str)
context_uuid none = do u ← new_uuid; pure (some u)
context_uuid (some uuid) = if leb 37 (length uuid) then pure none else pure (some uuid)

unfoldable pub context_expiration : ℕ → ℕ → ℕ
context_expiration timeout t = if timeout == 0 then time_max else t + timeout

-- The end of new_context, once the session has its uuid: the token, the expiration and the slot.
unfoldable pub enter_context : ℕ → Str → ℕ → ℕ → M (Option ℕ)
unfolding context_expiration
enter_context p uuid timeout t = do
  s ← load p
  w ← get
  save p (record s {
    uuid = uuid;
    token = w.initok;
    timeout = timeout;
    expiration = context_expiration timeout t;
  })
  added ← store_add p
  if added
      then (do s' ← load p; save p (record s' { access = t; refcount = 1 }); pure (some p))
      else (set_errno enomem >> release p >> pure none)

unfoldable pub new_context : Option Str → ℕ → ℕ → M (Option ℕ)
new_context uuid timeout t = do
  w ← get
  if w.env.alloc w.allocs
      then (do
        put (record w {
          heap = update w.heap w.next (some (initial_session w.apicount));
          next = suc w.next;
          allocs = suc w.allocs;
        })
        u ← context_uuid uuid
        elim u [
          | none ↦ set_errno einval >> release w.next >> pure none
          | some text ↦ enter_context w.next text timeout t
        ])
      else (put (record w { allocs = suc w.allocs }) >> set_errno enomem >> pure none)

-- The search that ctxClientCreate and ctxClientGetSession make, only if a uuid is given.
unfoldable pub search_uuid : Option Str → M (Option ℕ)
search_uuid none = pure none
search_uuid (some uuid) = store_search uuid

unfoldable pub client_create : Option Str → ℕ → M (Option ℕ)
client_create uuid timeout = do
  t ← now
  store_clean_up t
  found ← search_uuid uuid
  elim found [ some _ ↦ set_errno eexist >> pure none | none ↦ new_context uuid timeout t ]

-- ctxClientGetSession: the session and the flag `created`.
unfoldable pub client_get_session : Option Str → M (Option ℕ × Bool)
client_get_session uuid = do
  t ← now
  store_clean_up t
  found ← search_uuid uuid
  elim found [
    | some p ↦ do
      s ← load p
      save p (record s { access = t; refcount = (s.refcount + 1) % u32_mod })
      pure (some p, false)
    | none ↦ do w ← get; client ← new_context uuid w.timeout t; pure (client, true)
  ]
