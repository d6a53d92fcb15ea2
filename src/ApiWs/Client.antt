-- ===== src/ApiWs/Client.antt =====
-- src/afb-api-ws.c: the client part, which waits for replies and keeps the events of the service.
use app_framework_binder.Base.{
  ℕ, ◌+◌, ◌-◌, Bool, Option, none, some, [], ◌∷◌, ◌==◌, if◌then◌else◌, length,
}
use app_framework_binder.Base.Text.{Str}
use app_framework_binder.ApiWs.Buffers.{
  Reader, ◌>>=◌, pure, read_uint32, read_string, c_string, JsonLib, read_object,
}
use app_framework_binder.ApiWs.Messages.{
  order_success, order_fail, order_send, order_broadcast, order_create, order_drop, order_push,
  order_subscribe, order_unsubscribe, message, call_writer,
}
use app_framework_binder.ApiWs.State.{
  Memo, Event, Trouble, out_of_memory, raw_is_null, overflow, sending_error, unreadable, Answer,
  success, failure, raw, refused, Effect, add_ref, unref, set_flags, answer, subscribe, unsubscribe,
  create_event, drop_event, push, broadcast, Client, memo_search, event_search, fresh_id,
  remove_memo, put_event, remove_event,
}

-- *info ? info : NULL
abbrev pub non_empty : Str → Option Str
non_empty [] = none
non_empty (c ∷ cs) = some (c ∷ cs)

-- api_ws_client_msg_event_read
unfoldable pub event_read : Reader (ℕ × Str)
event_read = do eventid ← read_uint32; name ← read_string; pure (eventid, c_string name)

module _ {Json : Type 0} where
  abbrev pub emit : Effect Json → Client Json → Client Json
  emit effect c = record c { log = effect ∷ c.log }

  -- api_ws_client_memo_make, with the result of malloc. The loop has as much fuel as there are memos,
  -- and one more.
  unfoldable pub memo_make : Bool → Client Json → ℕ → ℕ → Option (Memo × Client Json)
  memo_make allocated c req context =
      if allocated
      then elim (fresh_id (length c.memos + 1) c.id c.memos) [
        | none ↦ none
        | some msgid ↦
            let memo : Memo = record { req = req; context = context; msgid = msgid } in
            some (memo, record c { id = msgid; memos = memo ∷ c.memos; log = add_ref req ∷ c.log })
      ]
      else none

  -- api_ws_client_memo_destroy
  unfoldable pub memo_destroy : Memo → Client Json → Client Json
  memo_destroy memo c = record c {
    memos = remove_memo memo.msgid c.memos;
    log = unref memo.req ∷ c.log;
  }

  -- api_ws_client_call_cb, with the results of malloc, of afb_req_raw and of the sending: the client, and
  -- the message that was handed to the WebSocket.
  unfoldable pub call_failed : Trouble → Memo → Client Json → Client Json
  unfolding memo_destroy
  call_failed trouble memo c = memo_destroy memo (emit (answer memo.req (refused trouble)) c)

  -- What api_ws_client_call_cb does with the memo that was made.
  unfoldable pub client_send :
      Option Str → Bool → ℕ → Str → Str → Memo → Client Json → Client Json × Option Str
  client_send none sent flags verb uuid memo c = (call_failed raw_is_null memo c, none)
  client_send (some text) sent flags verb uuid memo c =
      elim (message (call_writer memo.msgid flags verb uuid text)) [
        | none ↦ (call_failed overflow memo c, none)
        | some bytes ↦
            if sent then (c, some bytes) else (call_failed sending_error memo c, some bytes)
      ]

  unfoldable pub client_call :
      Bool → Option Str → Bool → Client Json → ℕ → ℕ → ℕ → Str → Str → Client Json × Option Str
  client_call allocated raw_text sent c req context flags verb uuid =
      elim (memo_make allocated c req context) [
        | none ↦ (emit (answer req (refused out_of_memory)) c, none)
        | some (memo, c') ↦ client_send raw_text sent flags verb uuid memo c'
      ]

  -- api_ws_client_msg_memo_get and api_ws_client_msg_event_get
  unfoldable pub memo_get : Client Json → Reader Memo
  memo_get c = do
    msgid ← read_uint32
    elim (memo_search c.memos msgid) [ none ↦ λ rb. none | some memo ↦ pure memo ]

  unfoldable pub event_get : Client Json → Reader Event
  event_get c = do
    (eventid, name) ← event_read
    elim (event_search c.events eventid name) [ none ↦ λ rb. none | some ev ↦ pure ev ]

  -- api_ws_client_msg_subscription_get
  unfoldable pub subscription_get : Client Json → Reader (Memo × Event)
  subscription_get c = do memo ← memo_get c; ev ← event_get c; pure (memo, ev)

  -- api_ws_client_event_create; `created` is what afb_evt_create_event gives, `none` for a failure or
  -- one of malloc.
  unfoldable pub event_create : Option ℕ → Client Json → Str → Client Json
  event_create created c rb = elim (event_read rb) [
    | none ↦ c
    | some ((eventid, name), rb') ↦ elim (event_search c.events eventid name) [
      | some ev ↦ record c {
        events = put_event (record ev { refcount = ev.refcount + 1 }) c.events;
      }
      | none ↦ elim created [
        | none ↦ c
        | some event ↦ record c {
          events =
              record { event = event; name = name; eventid = eventid; refcount = 1 } ∷ c.events;
          log = create_event event name ∷ c.log;
        }
      ]
    ]
  ]

  -- api_ws_client_event_drop
  unfoldable pub event_drop : Client Json → Str → Client Json
  event_drop c rb = elim (event_get c rb) [
    | none ↦ c
    | some (ev, rb') ↦
        if ev.refcount == 1
        then record c { events = remove_event ev c.events; log = drop_event ev.event ∷ c.log }
        else record c { events = put_event (record ev { refcount = ev.refcount - 1 }) c.events }
  ]

  -- api_ws_client_event_subscribe and api_ws_client_event_unsubscribe
  unfoldable pub event_subscribe : Client Json → Str → Client Json
  event_subscribe c rb = elim (subscription_get c rb) [
    | none ↦ c
    | some ((memo, ev), rb') ↦ emit (subscribe memo.req ev.event) c
  ]

  unfoldable pub event_unsubscribe : Client Json → Str → Client Json
  event_unsubscribe c rb = elim (subscription_get c rb) [
    | none ↦ c
    | some ((memo, ev), rb') ↦ emit (unsubscribe memo.req ev.event) c
  ]

  module _ (lib : JsonLib Json) where
    -- api_ws_client_event_broadcast and api_ws_client_event_push, with what they read
    unfoldable pub broadcast_read : Reader (Str × Option Json)
    broadcast_read = do event ← read_string; object ← read_object lib; pure (c_string event, object)

    unfoldable pub push_read : Client Json → Reader (Event × Option Json)
    push_read c = do ev ← event_get c; object ← read_object lib; pure (ev, object)

    unfoldable pub event_broadcast : Client Json → Str → Client Json
    event_broadcast c rb = elim (broadcast_read rb) [
      | none ↦ c
      | some ((event, object), rb') ↦ emit (broadcast event object) c
    ]

    unfoldable pub event_push : Client Json → Str → Client Json
    event_push c rb = elim (push_read c rb) [
      | none ↦ c
      | some ((ev, object), rb') ↦ emit (push ev.event object) c
    ]

    -- What the three functions for replies read behind the id: the flags and the answer.
    unfoldable pub success_body : Reader (ℕ × Answer Json)
    success_body = do
      flags ← read_uint32
      info ← read_string
      object ← read_object lib
      pure (flags, success object (non_empty (c_string info)))

    unfoldable pub fail_body : Reader (ℕ × Answer Json)
    fail_body = do
      flags ← read_uint32
      status ← read_string
      info ← read_string
      pure (flags, failure (c_string status) (non_empty (c_string info)))

    unfoldable pub send_body : Reader (ℕ × Answer Json)
    send_body = do flags ← read_uint32; text ← read_string; pure (flags, raw text)

    -- The end of a request by its reply.
    unfoldable pub give_answer : Memo → Option ((ℕ × Answer Json) × Str) → Client Json → Client Json
    give_answer memo none c = emit (answer memo.req (refused unreadable)) c
    give_answer memo (some ((flags, reply), rb)) c =
        emit (answer memo.req reply) (emit (set_flags memo.context flags) c)

    -- api_ws_client_reply_success, api_ws_client_reply_fail and api_ws_client_reply_send, by what they
    -- read.
    unfoldable pub client_reply : Reader (ℕ × Answer Json) → Client Json → Str → Client Json
    client_reply body c rb = elim (memo_get c rb) [
      | none ↦ c
      | some (memo, rb') ↦ memo_destroy memo (give_answer memo (body rb') c)
    ]

    -- api_ws_client_on_binary
    unfoldable pub on_binary : Option ℕ → Client Json → Str → Client Json
    on_binary created c [] = c
    on_binary created c (order ∷ rb) =
        if order == order_success
        then client_reply success_body c rb
        else if order == order_fail
        then client_reply fail_body c rb
        else if order == order_send
        then client_reply send_body c rb
        else if order == order_broadcast
        then event_broadcast c rb
        else if order == order_create
        then event_create created c rb
        else if order == order_drop
        then event_drop c rb
        else if order == order_push
        then event_push c rb
        else if order == order_subscribe
        then event_subscribe c rb
        else if order == order_unsubscribe
        then event_unsubscribe c rb
        else c
