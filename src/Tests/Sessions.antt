-- ===== src/Tests/Sessions.antt =====
-- The store of sessions of src/session.c at concrete inputs.
use app_framework_binder.Base.{
  ℕ, ◌+◌, ◌%◌, ◌≤◌, ◌<◌, ◌≡◌, ◌≢◌, refl, ap, ◌∙◌, Bool, true, false, Option, none, some, [], ◌∷◌,
  arith, replicate,
}
use app_framework_binder.Base.Text.{Str, str_eq}
use app_framework_binder.Session.Data.{
  Session, Env, World, unset, eexist, null_value, update, u32_mod, initial_session,
}
use app_framework_binder.Session.Slots.{add, has_room}
use app_framework_binder.Session.Closing.{update-update}
use app_framework_binder.Session.Table.{IsValid, enter-IsTable}
use app_framework_binder.Session.Expiry.{IsCloser, store_clean_up_lem}
use app_framework_binder.Session.Acquire.{IsCountable, Holds, client_get_session-IsValid}
use app_framework_binder.Session.Reuse.{client_get_session_again, client_create_exists}
use app_framework_binder.Session.References.{Runs, client_operations-IsValid, replace_call}
use app_framework_binder.Session.Tokens.{
  token_check-token_new, client_cookie_get-set, client_value_get-set,
}
use app_framework_binder.Session.Histories.{
  IsBlank, Reach, here, next, create, store_init-IsValid, histories-IsValid,
}
use app_framework_binder.Session.Store.{
  store_clean_up, clean_up_from, clean_up_slot, store_too_old, client_value_set, client_value_get,
  search_slots, store_search, store_add,
}
use app_framework_binder.Session.Create.{
  store_init, client_get_session, client_create, search_uuid, new_context, context_uuid,
  enter_context, context_expiration,
}
use app_framework_binder.Session.Clients.{
  client_add_ref, client_unref, token_new, token_check, client_set_loa, client_cookie_set,
  client_cookie_get, cookie_match,
}

-- A generator that never repeats itself: the n-th uuid is a byte and n + 1 more bytes.
abbrev pub plain_env : Env
plain_env = record { uuid = λ n. 97 ∷ replicate n 98; alloc = λ n. true }

abbrev pub blank : World
blank = record {
  env = plain_env;
  store = [];
  count = 0;
  max = 0;
  timeout = 0;
  apicount = 0;
  initok = [];
  heap = λ p. none;
  next = 0;
  clock = 10;
  draws = 0;
  allocs = 0;
  freed = [];
  errno = unset;
}

blank-IsBlank : IsBlank blank
blank-IsBlank = record { empty = λ p. refl; nothing = refl }

-- The store set up for two sessions of 60 seconds and one API, with the initial token "t".
abbrev pub ready : World
ready = record blank {
  store = none ∷ none ∷ [];
  max = 2;
  timeout = 60;
  apicount = 1;
  initok = 116 ∷ [];
}

ready_init : store_init 2 60 (some (116 ∷ [])) 1 blank ≡ some ready
unfolding store_init
ready_init = refl

abbrev pub sample : Session
sample = record {
  refcount = 1;
  loa = 0;
  timeout = 60;
  expiration = 70;
  access = 10;
  uuid = 120 ∷ [];
  token = 116 ∷ [];
  values = null_value ∷ [];
  cookies = [];
}

-- The store with one session of uuid "x".
abbrev pub one_session : World
one_session = record ready {
  store = some 0 ∷ none ∷ [];
  count = 1;
  heap = update (λ p. none) 0 (some sample);
  next = 1;
  allocs = 1;
}

abbrev answer : {A : Type 0} → Option (A × World) → Option A
answer none = none
answer (some (a, w)) = some a

-- A client that asks for the uuid "x" gets a session, which is new, and then the same one again.
get_session_runs : answer (client_get_session (some (120 ∷ [])) ready) ≡ some (some 0, true)
unfolding client_get_session store_clean_up clean_up_from clean_up_slot search_uuid store_search
    search_slots new_context context_uuid enter_context store_add add has_room str_eq
    context_expiration
get_session_runs = refl

get_session_again_runs :
    answer (client_get_session (some (120 ∷ [])) one_session) ≡ some (some 0, false)
unfolding client_get_session store_clean_up clean_up_from clean_up_slot store_too_old search_uuid
    store_search search_slots str_eq
get_session_again_runs = refl

ready-IsValid : IsValid ready
ready-IsValid = store_init-IsValid blank ready 2 60 1 (some (116 ∷ [])) blank-IsBlank ready_init

pub one_session-IsValid : IsValid one_session
unfolding add has_room
one_session-IsValid = enter-IsTable ready-IsValid sample refl refl (omega arith) (λ q t e f g. cc)

pub one_session-IsCountable : IsCountable one_session
one_session-IsCountable q s e = ground arith

-- The store once ctxClientCreate has made a session of the uuid "x"; a second call is refused.
abbrev created : World
created = one_session

create_run : client_create (some (120 ∷ [])) 60 ready ≡ some (some 0, created)
unfolding client_create store_clean_up clean_up_from clean_up_slot search_uuid store_search
    search_slots new_context context_uuid enter_context store_add add has_room str_eq
    context_expiration
create_run =
    let mid = record (initial_session 1) {
      timeout = 60;
      expiration = 70;
      uuid = 120 ∷ [];
      token = 116 ∷ [];
    } in
    ap (λ heap. some (some 0, record created { heap = heap }))
      (update-update (update blank.heap 0 (some (initial_session 1))) 0 (some mid) (some sample)
        ∙ update-update blank.heap 0 (some (initial_session 1)) (some sample))

create_again_run :
    client_create (some (120 ∷ [])) 60 created ≡ some (none, record created { errno = eexist })
unfolding client_create store_clean_up clean_up_from clean_up_slot store_too_old search_uuid
    store_search search_slots str_eq
create_again_run = refl

history : Reach ready (record created { errno = eexist })
history =
    next (next here (create (some (120 ∷ [])) 60 (some 0) (λ h. cc) create_run))
      (create (some (120 ∷ [])) 60 none (λ h. cc) create_again_run)

histories-IsValid_example :
    IsValid (record created { errno = eexist }) × (created.count ≤ created.max)
histories-IsValid_example =
    histories-IsValid blank ready (record created { errno = eexist }) 2 60 1 (some (116 ∷ []))
      blank-IsBlank ready_init history

store_clean_up_example :
    (w' : World) × (store_clean_up 80 one_session ≡ some (tt, w'))
    × IsCloser one_session w'
    × ((q : ℕ) (s : Session) → w'.heap q ≡ some s → s.uuid ≢ [] → 80 ≤ s.expiration)
    × ((q : ℕ) (s : Session) → one_session.heap q ≡ some s → 80 ≤ s.expiration → w'.heap q ≡ some s)
store_clean_up_example = store_clean_up_lem 80 one_session one_session-IsValid

client_get_session-IsValid_example :
    (r : Option ℕ) × (created : Bool) × (w' : World) × (client_get_session none one_session
      ≡ some ((r, created), w'))
    × IsValid w'
    × Holds w' none r
client_get_session-IsValid_example =
    client_get_session-IsValid one_session none one_session-IsValid one_session-IsCountable
      (λ _ q t e f g. ground arith)

client_get_session_again_example :
    (w' : World) × (client_get_session (some (120 ∷ [])) one_session ≡ some ((some 0, false), w'))
    × (w'.heap 0 ≡ some (record sample { access = 10; refcount = (1 + 1) % u32_mod }))
client_get_session_again_example =
    client_get_session_again one_session 0 sample one_session-IsValid refl (λ e. cc) (omega arith)

client_create_exists_example :
    (w' : World) × (client_create (some (120 ∷ [])) 30 one_session ≡ some (none, w'))
    × (w'.errno ≡ eexist)
    × (w'.heap 0 ≡ some sample)
    × IsValid w'
client_create_exists_example =
    client_create_exists one_session 0 30 sample one_session-IsValid refl (λ e. cc) (omega arith)

client_operations_example :
    (sample.refcount + 1 < u32_mod → Runs one_session (client_add_ref (some 0)))
    × (0 < sample.refcount → Runs one_session (client_unref (some 0)))
    × Runs one_session (token_new 0)
    × ((loa : ℕ) → Runs one_session (client_set_loa 0 loa))
    × ((index value : ℕ) (free_value : Option ℕ)
        → index < one_session.apicount
        → Runs one_session (client_value_set 0 (some index) value free_value))
    × ((key value : ℕ) (free_value : Option ℕ)
        → Runs one_session (client_cookie_set 0 key value free_value))
client_operations_example = client_operations-IsValid one_session 0 sample one_session-IsValid refl

token_check-token_new_example :
    (w' : World) × (token_new 0 one_session ≡ some (tt, w'))
    × ((token : Str) → token_check 0 token w' ≡ some (str_eq token (97 ∷ []), w'))
token_check-token_new_example =
    token_check-token_new one_session 0 sample refl (λ e. cc) (omega arith) (λ e. cc)

-- One session with a cookie of key 5.
abbrev baked : World
baked = record one_session {
  heap =
      update (update (λ p. none) 0 (some sample)) 0 (
        some (record sample { cookies = record { key = 5; value = 8; free_value = some 2 } ∷ [] }));
  allocs = 2;
}

baked_run : client_cookie_set 0 5 8 (some 2) one_session ≡ some (true, baked)
unfolding client_cookie_set cookie_match
baked_run = refl

client_cookie_get-set_example : client_cookie_get 0 5 baked ≡ some (8, baked)
client_cookie_get-set_example =
    client_cookie_get-set one_session baked 0 5 8 5 (some 2) sample refl baked_run

client_value_get-set_example :
    (w' : World) × (client_value_set 0 (some 0) 9 none one_session ≡ some (tt, w'))
    × (client_value_get 0 (some 0) w' ≡ some (9, w'))
    × (w'.freed ≡ replace_call null_value 9 [])
client_value_get-set_example =
    client_value_get-set one_session 0 0 9 0 none sample null_value one_session-IsValid refl
      (omega arith) (omega arith) refl
