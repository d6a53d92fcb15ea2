-- ===== src/Session/Clients.antt =====
-- src/session.c: references, tokens, levels of assurance and cookies of one session.
use app_framework_binder.Base.{
  ℕ, suc, ◌+◌, ◌-◌, ◌%◌, Bool, true, false, ◌&&◌, ◌||◌, not, Option, none, some, List, [], ◌∷◌,
  ◌==◌, if◌then◌else◌,
}
use app_framework_binder.Base.Text.{Str, str_eq, is_empty}
use app_framework_binder.Session.Data.{
  Cookie, new_cookie, enomem, M, pure, ◌>>=◌, ◌>>◌, when, load, save, release, get, put, call_free,
  new_uuid, now, u32_mod, set_errno, assert,
}
use app_framework_binder.Session.Store.{store_del, is_active}

-- ctxClientAddRef and ctxClientUnref, on a pointer that may be NULL.
unfoldable pub client_add_ref : Option ℕ → M (Option ℕ)
client_add_ref none = pure none
client_add_ref (some p) = do
  s ← load p
  save p (record s { refcount = (s.refcount + 1) % u32_mod })
  pure (some p)

unfoldable pub client_unref : Option ℕ → M (Unit {0})
client_unref none = pure tt
client_unref (some p) = do
  s ← load p
  assert (not (s.refcount == 0))
  save p (record s { refcount = s.refcount - 1 })
  when (s.refcount - 1 == 0 && is_empty s.uuid) (store_del p >>= λ _. release p)

-- ctxTokenCheck
unfoldable pub token_check : ℕ → Str → M Bool
unfolding is_active
token_check p token = do
  s ← load p
  t ← now
  pure (is_active s t && (is_empty s.token || str_eq token s.token))

-- ctxTokenNew
unfoldable pub token_new : ℕ → M (Unit {0})
token_new p = do
  s ← load p
  token ← new_uuid
  t ← now
  save p (record s {
    token = token;
    expiration = if s.timeout == 0 then s.expiration else t + s.timeout;
  })

-- ctxClientGetUuid, ctxClientGetToken, ctxClientGetLOA and ctxClientSetLOA
unfoldable pub client_get_uuid : ℕ → M Str
client_get_uuid p = do s ← load p; pure s.uuid

unfoldable pub client_get_token : ℕ → M Str
client_get_token p = do s ← load p; pure s.token

unfoldable pub client_get_loa : ℕ → M ℕ
client_get_loa p = do s ← load p; pure s.loa

unfoldable pub client_set_loa : ℕ → ℕ → M (Unit {0})
client_set_loa p loa = do s ← load p; save p (record s { loa = loa })

-- ctxClientCookieGet, by the loop over the cookies.
unfoldable pub cookie_find : List Cookie → ℕ → ℕ
cookie_find [] key = 0
cookie_find (c ∷ cs) key = if c.key == key then c.value else cookie_find cs key

unfoldable pub client_cookie_get : ℕ → ℕ → M ℕ
unfolding cookie_find
client_cookie_get p key = do s ← load p; pure (cookie_find s.cookies key)

-- The search of ctxClientCookieSet: the cookie that it replaces, if the key is there.
unfoldable pub cookie_match : List Cookie → ℕ → Option Cookie
cookie_match [] key = none
cookie_match (c ∷ cs) key = if c.key == key then some c else cookie_match cs key

-- Writes value and function into the first cookie of the key.
unfoldable pub cookie_write : List Cookie → Cookie → List Cookie
cookie_write [] new = []
cookie_write (c ∷ cs) new = if c.key == new.key then new ∷ cs else c ∷ cookie_write cs new

-- ctxClientCookieSet: `true` for 0, `false` for -1.
unfoldable pub client_cookie_set : ℕ → ℕ → ℕ → Option ℕ → M Bool
unfolding cookie_match cookie_write
client_cookie_set p key value free_value = do
  s ← load p
  elim (cookie_match s.cookies key) [
    | some c ↦ do
      when (not (c.value == 0) && not (c.value == value)) (call_free c.free_value c.value)
      save p (record s { cookies = cookie_write s.cookies (new_cookie key value free_value) })
      pure true
    | none ↦ do
      w ← get
      put (record w { allocs = suc w.allocs })
      if w.env.alloc w.allocs
          then (do
            save p (record s { cookies = new_cookie key value free_value ∷ s.cookies })
            pure true)
          else (set_errno enomem >> pure false)
  ]
