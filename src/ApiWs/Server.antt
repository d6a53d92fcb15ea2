-- ===== src/ApiWs/Server.antt =====
-- src/afb-api-ws.c: the service: a peer that calls, its requests, and the counts of references.
use app_framework_binder.Base.{
  ℕ, ◌+◌, ◌-◌, Bool, true, false, Option, none, some, List, [], ◌∷◌, ◌==◌, if◌then◌else◌,
}
use app_framework_binder.Base.Text.{Str}
use app_framework_binder.Events.Structs.{at, write, free}
use app_framework_binder.Events.Store.{◌>>=◌}
use app_framework_binder.ApiWs.Messages.{Call, read_call}

-- struct api_ws_server_req. The context and the data that was received are there as long as it is.
pub record Request : Type 0 where
  pub call : Call
  pub refcount : ℕ

-- struct api_ws_client, with its requests at their addresses, and what was freed or asked: the calls
-- that went to the API, the last first, and how often a received message was freed.
pub record Peer : Type 0 where
  pub refcount : ℕ
  pub is_open : Bool
  pub freed : Bool
  pub requests : List (ℕ × Request)
  pub calls : List Call
  pub data_freed : ℕ

-- A use of the peer, which faults when the peer is freed.
abbrev pub use_peer : {A : Type 0} → Peer → A → Option A
use_peer p a = if p.freed then none else some a

-- api_ws_server_client_unref
unfoldable pub client_unref : Peer → Option Peer
client_unref p = use_peer p (
    if p.refcount == 1
    then record p { refcount = 0; freed = true }
    else record p { refcount = p.refcount - 1 })

-- The end of api_ws_server_called without memory, or for a message that cannot be read.
unfoldable pub give_up : Peer → Option Peer
give_up p = client_unref (record p { data_freed = p.data_freed + 1 })

-- What api_ws_server_called does with the call that it has read: was the context connected?
unfoldable pub serve_call : ℕ → Bool → Option (Call × Str) → Peer → Option Peer
serve_call r connected none p = give_up p
serve_call r false (some (call, rest)) p = give_up p
serve_call r true (some (call, rest)) p = some (record p {
  requests = (r, record { call = call; refcount = 1 }) ∷ p.requests;
  calls = call ∷ p.calls;
})

-- api_ws_server_called, up to the return of the API, with the address that calloc gives and the result
-- of afb_context_connect. At the return it drops its reference, by req_unref.
unfoldable pub server_called : Option ℕ → Bool → Str → Peer → Option Peer
server_called none connected bytes p =
    use_peer p (record p { refcount = p.refcount + 1 }) >>= give_up
server_called (some r) connected bytes p =
    use_peer p (record p { refcount = p.refcount + 1 }) >>= serve_call r connected (read_call bytes)

-- api_ws_server_req_addref_cb
unfoldable pub req_addref : ℕ → Peer → Option Peer
req_addref r p = do
  wreq ← at r p.requests
  some (record p { requests = write r (record wreq { refcount = wreq.refcount + 1 }) p.requests })

-- api_ws_server_req_unref
unfoldable pub req_unref : ℕ → Peer → Option Peer
req_unref r p = do
  wreq ← at r p.requests
  if wreq.refcount == 1
      then client_unref (record p { requests = free r p.requests; data_freed = p.data_freed + 1 })
      else some (record p {
        requests = write r (record wreq { refcount = wreq.refcount - 1 }) p.requests;
      })

-- api_ws_server_on_hangup
unfoldable pub on_hangup : Peer → Option Peer
on_hangup p = use_peer p (record p { is_open = false }) >>= client_unref

-- The peer that api_ws_server_accept makes.
abbrev pub accepted : Peer
accepted = record {
  refcount = 1;
  is_open = true;
  freed = false;
  requests = [];
  calls = [];
  data_freed = 0;
}
