-- ===== src/ApiWs/Messages.antt =====
-- src/afb-api-ws.c: the messages of the two ends, as they are written, and the call as it is read.
use app_framework_binder.Base.{ℕ, ◌%◌, ◌^◌, Option, none, some, []}
use app_framework_binder.Base.Text.{Str}
use app_framework_binder.Websock.Send.{gather}
use app_framework_binder.ApiWs.Buffers.{
  Reader, ◌>>=◌, pure, read_uint32, read_string, JsonLib, Writer, ◌then_write◌, write_char,
  write_uint32, write_string_nz, write_string, write_object, null_text,
}

-- The orders at the head of a message to the client.
abbrev pub order_success : ℕ
order_success = b'T'

abbrev pub order_fail : ℕ
order_fail = b'F'

abbrev pub order_send : ℕ
order_send = b'X'

abbrev pub order_broadcast : ℕ
order_broadcast = b'*'

abbrev pub order_create : ℕ
order_create = b'+'

abbrev pub order_drop : ℕ
order_drop = b'-'

abbrev pub order_push : ℕ
order_push = b'!'

abbrev pub order_subscribe : ℕ
order_subscribe = b'S'

abbrev pub order_unsubscribe : ℕ
order_unsubscribe = b'U'

-- What is handed to afb_ws_binary_v, if the buffer did not overflow.
unfoldable pub message : Writer → Option Str
message w = elim (w []) [ none ↦ none | some wb ↦ some (gather wb) ]

-- The call message of api_ws_client_call_cb.
unfoldable pub call_writer : ℕ → ℕ → Str → Str → Str → Writer
call_writer msgid flags verb uuid raw =
    write_uint32 msgid
    then_write write_uint32 (flags % 2 ^ 32)
    then_write write_string_nz verb
    then_write write_string uuid
    then_write write_string raw

-- The part of api_ws_server_called that reads it.
pub record Call : Type 0 where
  pub msgid : ℕ
  pub flags : ℕ
  pub verb : Str
  pub uuid : Str
  pub request : Str

unfoldable pub read_call : Reader Call
read_call = do
  msgid ← read_uint32
  flags ← read_uint32
  verb ← read_string
  uuid ← read_string
  request ← read_string
  pure (record { msgid = msgid; flags = flags; verb = verb; uuid = uuid; request = request })

abbrev pub text_or_empty : Option Str → Str
text_or_empty none = []
text_or_empty (some text) = text

-- The messages of api_ws_server_req_success_cb, …_fail_cb and …_send_cb for a request of an id and
-- the flags of its context.
module _ (msgid flags : ℕ) where
  abbrev pub reply_head : ℕ → Writer
  reply_head order =
      write_char order then_write write_uint32 msgid then_write write_uint32 (flags % 2 ^ 32)

  unfoldable pub success_writer : {Json : Type 0} → JsonLib Json → Option Json → Option Str → Writer
  success_writer lib object info =
      reply_head order_success
      then_write write_string (text_or_empty info)
      then_write write_object lib object

  unfoldable pub fail_writer : Str → Option Str → Writer
  fail_writer status info =
      reply_head order_fail
      then_write write_string status
      then_write write_string (text_or_empty info)

  unfoldable pub send_writer : Str → Writer
  send_writer buffer = reply_head order_send then_write write_string buffer

-- The messages of api_ws_server_req_subscribe_cb and …_unsubscribe_cb.
unfoldable pub subscription_writer : ℕ → ℕ → ℕ → Str → Writer
subscription_writer order msgid eventid name =
    write_char order
    then_write write_uint32 msgid
    then_write write_uint32 (eventid % 2 ^ 32)
    then_write write_string name

-- api_ws_server_event_send and the functions that call it. The text of an object is "null" if there is
-- none.
unfoldable pub event_writer : ℕ → Str → ℕ → Writer
event_writer order event eventid =
    write_char order then_write write_uint32 eventid then_write write_string event

unfoldable pub push_writer : {Json : Type 0} → JsonLib Json → Str → ℕ → Option Json → Writer
unfolding event_writer
push_writer lib event eventid object =
    event_writer order_push event eventid
    then_write write_string (elim (lib.to_string object) [ none ↦ null_text | some text ↦ text ])

-- api_ws_server_event_broadcast
unfoldable pub broadcast_writer : {Json : Type 0} → JsonLib Json → Str → Option Json → Writer
broadcast_writer lib event object =
    write_char order_broadcast then_write write_string event then_write write_object lib object
