-- ===== src/ApiWs/Replies.antt =====
-- A reply of the service ends the request that waits for it, in the way the service meant.
use mathlib.Core.List.{append-nil}
use app_framework_binder.Base.{
  ℕ, ◌%◌, ◌^◌, ◌<◌, ◌≡◌, ap, false, Option, none, some, [], ◌++◌, arith,
}
use app_framework_binder.Base.Text.{Str, str_eq, str_eq_self}
use app_framework_binder.ApiWs.Buffers.{
  Reader, read_string, c_string, null_text, JsonLib, read_object, le32,
}
use app_framework_binder.ApiWs.Messages.{
  message, text_or_empty, success_writer, fail_writer, send_writer,
}
use app_framework_binder.ApiWs.State.{
  Memo, Client, Answer, success, failure, raw, answer, set_flags, memo_search,
}
use app_framework_binder.ApiWs.Client.{
  emit, memo_destroy, memo_get, success_body, fail_body, send_body, non_empty, give_answer,
  client_reply, on_binary,
}
use app_framework_binder.ApiWs.Strings.{string_bytes, read_uint32-le32, read_string_bytes}
use app_framework_binder.ApiWs.Layouts.{
  Fits32, message-success_writer, message-fail_writer, message-send_writer,
}

-- A C string: no NUL in it.
abbrev pub IsPlain : Str → Type 0
IsPlain text = c_string text ≡ text

-- What json-c does: the text of an object is a C string, which it parses to that object; the text of
-- NULL is "null", and that of no other object.
pub record IsJsonLib {Json : Type 0} (lib : JsonLib Json) : Type 0 where
  pub plain : (object : Option Json) (text : Str) → lib.to_string object ≡ some text → IsPlain text
  pub parses :
      (object : Option Json) (text : Str)
      → lib.to_string object ≡ some text
      → lib.parse text ≡ object
  pub prints_null : lib.to_string none ≡ some null_text
  pub no_other :
      (json : Json) (text : Str)
      → lib.to_string (some json) ≡ some text
      → str_eq text null_text ≡ false

module _ {Json : Type 0} (lib : JsonLib Json) (good : IsJsonLib lib) where
  pub read_object_bytes :
      (object : Option Json) (text rest : Str)
      → lib.to_string object ≡ some text
      → Fits32 text
      → read_object lib (string_bytes text ++ rest) ≡ some (object, rest)
  unfolding read_object
  read_object_bytes none text rest prints small = ground (
    arith,
    prints,
    good.prints_null,
    str_eq_self null_text,
    read_string_bytes text rest small,
    good.plain none text prints,
    good.parses none text prints,
  )
  read_object_bytes (some json) text rest prints small = ground (
    arith,
    prints,
    good.no_other json text prints,
    read_string_bytes text rest small,
    good.plain (some json) text prints,
    good.parses (some json) text prints,
  )

  -- A client with a memo of the id, which gets the bytes of a reply.
  module _ (created : Option ℕ) (c : Client Json) (memo : Memo) (msgid flags : ℕ)
      (small_id : msgid < 2 ^ 32) (known : memo_search c.memos msgid ≡ some memo) where
    client_reply_lem :
        (body : Reader (ℕ × Answer Json)) (bytes : Str) (reply : Answer Json)
        → body (le32 (flags % 2 ^ 32) ++ bytes) ≡ some ((flags % 2 ^ 32, reply), [])
        → client_reply lib body c (le32 msgid ++ (le32 (flags % 2 ^ 32) ++ bytes))
          ≡ memo_destroy memo
              (emit (answer memo.req reply) (emit (set_flags memo.context (flags % 2 ^ 32)) c))
    unfolding client_reply memo_get give_answer
    client_reply_lem body bytes reply reads =
        ground
          (arith, read_uint32-le32 msgid (le32 (flags % 2 ^ 32) ++ bytes) small_id, known, reads)

    success_arrives :
        (object : Option Json) (text info : Str)
        → lib.to_string object ≡ some text
        → Fits32 text
        → Fits32 info
        → IsPlain info
        → success_body lib (le32 (flags % 2 ^ 32) ++ (string_bytes info ++ string_bytes text))
          ≡ some ((flags % 2 ^ 32, success object (non_empty info)), [])
    unfolding success_body
    success_arrives object text info prints small_text small_info plain =
        let end = string_bytes text in
        ground (
          arith,
          read_uint32-le32 (flags % 2 ^ 32) (string_bytes info ++ end) (omega arith),
          read_string_bytes info end small_info,
          plain,
          ap (read_object lib) (append-nil end),
          read_object_bytes object text [] prints small_text,
        )

    failure_arrives :
        (status info : Str)
        → Fits32 status
        → Fits32 info
        → IsPlain status
        → IsPlain info
        → fail_body lib (le32 (flags % 2 ^ 32) ++ (string_bytes status ++ string_bytes info))
          ≡ some ((flags % 2 ^ 32, failure status (non_empty info)), [])
    unfolding fail_body
    failure_arrives status info small_status small_info plain_status plain_info =
        let end = string_bytes info in
        ground (
          arith,
          read_uint32-le32 (flags % 2 ^ 32) (string_bytes status ++ end) (omega arith),
          read_string_bytes status end small_status,
          plain_status,
          plain_info,
          ap read_string (append-nil end),
          read_string_bytes info [] small_info,
        )

    text_arrives :
        (buffer : Str)
        → Fits32 buffer
        → send_body lib (le32 (flags % 2 ^ 32) ++ string_bytes buffer)
          ≡ some ((flags % 2 ^ 32, raw buffer), [])
    unfolding send_body
    text_arrives buffer small =
        let end = string_bytes buffer in
        ground (
          arith,
          read_uint32-le32 (flags % 2 ^ 32) end (omega arith),
          ap read_string (append-nil end),
          read_string_bytes buffer [] small,
        )

    -- The client when a request has got its answer: the context has the flags, the request the answer,
    -- and the memo is gone.
    abbrev pub answered_by : Answer Json → Client Json
    answered_by reply =
        memo_destroy memo
          (emit (answer memo.req reply) (emit (set_flags memo.context (flags % 2 ^ 32)) c))

    -- The replies of the service (a success with an object and an information, a failure with a
    -- status and an information, or a text that is sent) reach the request whose memo has their id, as
    -- the service meant them: that request gets this one answer, its context the flags, and the memo is
    -- destroyed. An empty information counts as none. The strings are C strings that fit a message.
    pub replies_arrive :
        (object : Option Json) (text status buffer : Str) (info : Option Str)
        → lib.to_string object ≡ some text
        → Fits32 text
        → Fits32 status
        → Fits32 buffer
        → Fits32 (text_or_empty info)
        → IsPlain status
        → IsPlain (text_or_empty info)
        → let told = non_empty (text_or_empty info) in
          ((bytes : Str) × (message (success_writer msgid flags lib object info) ≡ some bytes)
            × (on_binary lib created c bytes ≡ answered_by (success object told)))
          × ((bytes : Str) × (message (fail_writer msgid flags status info) ≡ some bytes)
              × (on_binary lib created c bytes ≡ answered_by (failure status told)))
          × ((bytes : Str) × (message (send_writer msgid flags buffer) ≡ some bytes)
              × (on_binary lib created c bytes ≡ answered_by (raw buffer)))
    unfolding on_binary
    replies_arrive object text status buffer info prints small_text small_status small_buffer
          small_info plain_status plain_info =
        let told = text_or_empty info in
        (
          (
            _,
            message-success_writer msgid flags lib object text info prints small_text small_info,
            client_reply_lem (success_body lib) (string_bytes told ++ string_bytes text) _
                (success_arrives object text told prints small_text small_info plain_info),
          ),
          (
            _,
            message-fail_writer msgid flags status info small_status small_info,
            client_reply_lem (fail_body lib) (string_bytes status ++ string_bytes told) _
                (failure_arrives status told small_status small_info plain_status plain_info),
          ),
          (
            _,
            message-send_writer msgid flags buffer small_buffer,
            client_reply_lem (send_body lib) (string_bytes buffer) _
                (text_arrives buffer small_buffer),
          ),
        )
