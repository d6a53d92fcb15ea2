-- ===== src/Context.antt =====
-- src/afb-context.c: what a request knows of its client's session, and what it asks to be done with
-- the session when it ends.
pub mod Lifecycle
pub mod Assurance
pub mod Connection
use app_framework_binder.Base.{
  ℕ, ◌%◌, ◌≡◌, Bool, true, false, ◌&&◌, ◌||◌, not, Option, none, some, ltb, leb, ◌==◌,
  if◌then◌else◌,
}
use app_framework_binder.Base.Text.{Str}
use app_framework_binder.Session.Data.{M, pure, fault, ◌>>=◌, ◌>>◌, assert}
use app_framework_binder.Session.Store.{client_value_get, client_value_set, client_close}
use app_framework_binder.Session.Create.{client_get_session}
use app_framework_binder.Session.Clients.{
  client_add_ref, client_unref, token_check, token_new, client_get_uuid, client_get_token,
  client_get_loa, client_set_loa,
}

-- struct afb_context. The one-bit fields are Booleans, and `none` as the index of the API is -1.
pub record Context : Type 0 where
  pub session : Option ℕ
  pub created : Bool
  pub validated : Bool
  pub invalidated : Bool
  pub refreshing : Bool
  pub refreshed : Bool
  pub closing : Bool
  pub closed : Bool
  pub loa_in : ℕ
  pub loa_out : ℕ
  pub loa_changing : Bool
  pub loa_changed : Bool
  pub api_index : Option ℕ

-- A context with all its flags cleared, on a session of a level of assurance.
abbrev pub reset_context : ℕ → ℕ → Context
reset_context p loa = record {
  session = some p;
  created = false;
  validated = false;
  invalidated = false;
  refreshing = false;
  refreshed = false;
  closing = false;
  closed = false;
  loa_in = loa % 8;
  loa_out = 0;
  loa_changing = false;
  loa_changed = false;
  api_index = none;
}

-- init_context
unfoldable pub init_context : Option ℕ → Option Str → M Context
init_context none token = fault
init_context (some p) none = do loa ← client_get_loa p; pure (reset_context p loa)
init_context (some p) (some token) = do
  loa ← client_get_loa p
  good ← token_check p token
  if good
      then pure (record (reset_context p loa) { validated = true })
      else pure (record (reset_context p loa) { invalidated = true })

-- afb_context_init
unfoldable pub context_init : Option ℕ → Option Str → M Context
context_init session token = do p ← client_add_ref session; init_context p token

-- afb_context_connect; `none` stands for -1, which leaves the context as it is.
unfoldable pub context_connect : Option Str → Option Str → M (Option Context)
context_connect uuid token = do
  (session, created) ← client_get_session uuid
  elim session [
    | none ↦ pure none
    | some p ↦ do
      c ← init_context (some p) token
      pure (some (if created then record c { created = true } else c))
  ]

-- The three parts of afb_context_disconnect before the session is given back.
unfoldable pub flush_refresh : ℕ → Context → M Context
flush_refresh p c =
    if c.refreshing && not c.refreshed
    then token_new p >> pure (record c { refreshed = true })
    else pure c

unfoldable pub flush_loa : ℕ → Context → M Context
flush_loa p c =
    if c.loa_changing && not c.loa_changed
    then client_set_loa p c.loa_out >> pure (record c { loa_changed = true })
    else pure c

unfoldable pub flush_close : ℕ → Context → M Context
flush_close p c =
    if c.closing && not c.closed
    then client_close p >> pure (record c { closed = true })
    else pure c

disconnect_from : ℕ → Context → M Context
disconnect_from p c = do
  c₁ ← flush_refresh p c
  c₂ ← flush_loa p c₁
  c₃ ← flush_close p c₂
  client_unref (some p)
  pure (record c₃ { session = none })

-- afb_context_disconnect
pub context_disconnect : Context → M Context
unfolding disconnect_from
context_disconnect c = elim c.session [ none ↦ pure c | some p ↦ disconnect_from p c ]

sent_token_of : ℕ → Context → M (Option Str × Context)
unfolding flush_refresh
sent_token_of p c = do c' ← flush_refresh p c; token ← client_get_token p; pure (some token, c')

-- afb_context_sent_token
pub context_sent_token : Context → M (Option Str × Context)
unfolding sent_token_of
context_sent_token c = elim c.session [
  | none ↦ pure (none, c)
  | some p ↦ if c.closing || not c.refreshing then pure (none, c) else sent_token_of p c
]

-- afb_context_sent_uuid
pub context_sent_uuid : Context → M (Option Str)
context_sent_uuid c = elim c.session [
  | none ↦ pure none
  | some p ↦
      if c.closing || not c.created
      then pure none
      else (do uuid ← client_get_uuid p; pure (some uuid))
]

-- afb_context_get and afb_context_set
pub context_get : Context → M ℕ
context_get c = elim c.session [ none ↦ fault | some p ↦ client_value_get p c.api_index ]

pub context_set : Context → ℕ → Option ℕ → M (Unit {0})
context_set c value free_value = elim c.session [
  | none ↦ fault
  | some p ↦ client_value_set p c.api_index value free_value
]

-- afb_context_close
unfoldable pub context_close : Context → Context
context_close c = record c { closing = true }

-- afb_context_refresh: `none` is the assertion that fails.
unfoldable pub context_refresh : Context → Option Context
context_refresh c = if c.validated then some (record c { refreshing = true }) else none

-- afb_context_check
unfoldable pub context_check : Context → Bool
context_check c = c.validated

-- afb_context_check_loa
unfoldable pub context_check_loa : Context → ℕ → Bool
context_check_loa c loa = leb loa c.loa_in

-- afb_context_change_loa: whether the change is accepted, and the context.
unfoldable pub context_change_loa : Context → ℕ → Bool × Context
context_change_loa c loa =
    if not c.validated || ltb 7 loa
    then (false, c)
    else if (loa == c.loa_in) && not c.loa_changed
    then (true, record c { loa_changing = false })
    else (true, record c { loa_out = loa % 8; loa_changing = true; loa_changed = false })
