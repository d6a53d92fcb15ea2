-- ===== src/Session/Store.antt =====
-- src/session.c: the store of sessions, the values of a session, and how a session is closed.
use app_framework_binder.Base.{
  ℕ, zero, suc, ◌+◌, ◌-◌, Bool, true, false, ◌&&◌, not, Option, none, some, List, [], ◌∷◌, ltb, leb,
  ◌==◌, if◌then◌else◌, get_elem?, set,
}
use app_framework_binder.Base.Text.{Str, str_eq, is_empty}
use app_framework_binder.Session.Data.{
  Session, Cookie, M, pure, fault, ◌>>=◌, ◌>>◌, when, load, save, release, get, put, call_free,
  assert,
}
use app_framework_binder.Session.Slots.{del, has, add, has_room}

-- ctxStoreDel: the first slot that holds the session is emptied; says whether there was one.
unfoldable pub store_del : ℕ → M Bool
store_del p = do
  w ← get
  if has p w.store
      then put (record w { store = del p w.store; count = w.count - 1 }) >> pure true
      else pure false

-- ctxStoreAdd: the first empty slot takes the session; says whether there was one.
unfoldable pub store_add : ℕ → M Bool
store_add p = do
  w ← get
  if has_room w.store
      then put (record w { store = add p w.store; count = w.count + 1 }) >> pure true
      else pure false

-- ctxStoreSearch: the first session of the store whose uuid is the given one.
unfoldable pub search_slots : Str → List (Option ℕ) → M (Option ℕ)
search_slots uuid [] = pure none
search_slots uuid (none ∷ slots) = search_slots uuid slots
search_slots uuid (some p ∷ slots) = do
  s ← load p
  let rest = search_slots uuid slots
  if str_eq uuid s.uuid then pure (some p) else rest

unfoldable pub store_search : Str → M (Option ℕ)
store_search uuid = do w ← get; search_slots uuid w.store

-- ctxClientValueSet; `none` as the index is a negative one.
unfoldable pub client_value_set : ℕ → Option ℕ → ℕ → Option ℕ → M (Unit {0})
client_value_set p none value free_value = fault
client_value_set p (some index) value free_value = do
  s ← load p
  w ← get
  assert (ltb index w.apicount)
  elim (get_elem? s.values index) [
    | none ↦ fault
    | some prev ↦ do
      save p (record s {
        values = set s.values index (record { value = value; free_value = free_value });
      })
      when (not (prev.value == 0) && not (prev.value == value))
          (call_free prev.free_value prev.value)
  ]

-- ctxClientValueGet
unfoldable pub client_value_get : ℕ → Option ℕ → M ℕ
client_value_get p none = fault
client_value_get p (some index) = do
  s ← load p
  w ← get
  assert (ltb index w.apicount)
  elim (get_elem? s.values index) [ none ↦ fault | some v ↦ pure v.value ]

-- The first loop of ctxUuidFreeCB, with the count of indices left and the index.
unfoldable pub clear_values : ℕ → ℕ → ℕ → M (Unit {0})
clear_values p zero index = pure tt
clear_values p (suc n) index =
    client_value_set p (some index) 0 none >> clear_values p n (suc index)

-- The second loop of ctxUuidFreeCB.
unfoldable pub free_cookies : ℕ → List Cookie → M (Unit {0})
free_cookies p [] = pure tt
free_cookies p (c ∷ cs) = do
  s ← load p
  save p (record s { cookies = cs })
  when (not (c.value == 0)) (call_free c.free_value c.value)
  free_cookies p cs

unfoldable pub uuid_free_cb : ℕ → M (Unit {0})
uuid_free_cb p = do w ← get; clear_values p w.apicount 0; s ← load p; free_cookies p s.cookies

-- ctxClientClose
unfoldable pub client_close : ℕ → M (Unit {0})
client_close p = do
  s ← load p
  when (not (is_empty s.uuid)) (do
    save p (record s { uuid = [] })
    uuid_free_cb p
    t ← load p
    when (t.refcount == 0) (store_del p >>= λ _. release p))

-- ctxStoreTooOld and ctxIsActive
unfoldable pub store_too_old : Session → ℕ → Bool
store_too_old s t = ltb s.expiration t

unfoldable pub is_active : Session → ℕ → Bool
is_active s t = not (is_empty s.uuid) && leb t s.expiration

-- The body of the loop of ctxStoreCleanUp. A read past the array is a fault.
unfoldable pub clean_up_slot : ℕ → ℕ → M (Unit {0})
clean_up_slot t idx = do
  w ← get
  elim (get_elem? w.store idx) [
    | none ↦ fault
    | some none ↦ pure tt
    | some (some p) ↦ do s ← load p; when (store_too_old s t) (client_close p)
  ]

-- The loop, with the count of slots left and the index.
unfoldable pub clean_up_from : ℕ → ℕ → ℕ → M (Unit {0})
clean_up_from t zero idx = pure tt
clean_up_from t (suc n) idx = clean_up_slot t idx >> clean_up_from t n (suc idx)

unfoldable pub store_clean_up : ℕ → M (Unit {0})
store_clean_up t = do w ← get; clean_up_from t w.max 0
