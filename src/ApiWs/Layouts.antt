-- ===== src/ApiWs/Layouts.antt =====
-- The messages of one end, byte by byte, and what the other end reads of them.
use mathlib.Core.List.{append_assoc, append-nil}
use app_framework_binder.Base.{
  ℕ, ◌+◌, ◌%◌, ◌^◌, ◌≤◌, ◌<◌, ◌≡◌, sym, ap, ◌∙◌, Option, some, [], ◌∷◌, ◌++◌, length, arith,
}
use app_framework_binder.Base.Text.{Str}
use app_framework_binder.Websock.Send.{gather}
use app_framework_binder.ApiWs.Buffers.{JsonLib, Writer, le32}
use app_framework_binder.ApiWs.Messages.{
  message, call_writer, read_call, text_or_empty, reply_head, order_success, order_fail, order_send,
  success_writer, fail_writer, send_writer,
}
use app_framework_binder.ApiWs.Strings.{
  string_bytes, read_uint32-le32, read_string_bytes, Writes, Writes-then, Writes-char,
  Writes-uint32, Writes-string, Writes-string_nz, Writes-object,
}

-- A string that fits a message: with its NUL it is shorter than 2^32 bytes.
abbrev pub Fits32 : Str → Type 0
Fits32 text = length text + 1 < 2 ^ 32

pub message-Writes :
    (w : Writer) (bytes : Str) (parts : ℕ)
    → parts ≤ 32
    → Writes w bytes parts
    → message w ≡ some bytes
unfolding message gather
message-Writes w bytes parts few writes =
    let (wb, e, all, count) = writes.runs [] (omega arith) in rw (e, message) (ap some all)

abbrev pub call_bytes : ℕ → ℕ → Str → Str → Str → Str
call_bytes msgid flags verb uuid request =
    le32 msgid ++ (le32 flags ++ (string_bytes verb ++ (string_bytes uuid ++ string_bytes request)))

message-call_writer :
    (msgid flags : ℕ) (verb uuid request : Str)
    → Fits32 verb
    → Fits32 uuid
    → Fits32 request
    → message (call_writer msgid flags verb uuid request)
      ≡ some (call_bytes msgid (flags % 2 ^ 32) verb uuid request)
unfolding call_writer
message-call_writer msgid flags verb uuid request small_verb small_uuid small_request =
    message-Writes _ _ _ (omega arith) (
      Writes-then
        (Writes-then
          (Writes-then (Writes-then (Writes-uint32 msgid) (Writes-uint32 (flags % 2 ^ 32)))
            (Writes-string_nz verb small_verb))
          (Writes-string uuid small_uuid))
        (Writes-string request small_request))
    ∙ simp append_assoc

read_call_bytes :
    (msgid flags : ℕ) (verb uuid request rest : Str)
    → msgid < 2 ^ 32
    → flags < 2 ^ 32
    → Fits32 verb
    → Fits32 uuid
    → Fits32 request
    → read_call (
        le32 msgid
        ++ (le32 flags
            ++ (string_bytes verb ++ (string_bytes uuid ++ (string_bytes request ++ rest)))))
      ≡ some (
        record { msgid = msgid; flags = flags; verb = verb; uuid = uuid; request = request },
        rest,
      )
unfolding read_call
read_call_bytes msgid flags verb uuid request rest small_id small_flags small_verb small_uuid
      small_request =
    let after_uuid = string_bytes request ++ rest in
    let after_verb = string_bytes uuid ++ after_uuid in
    let after_flags = string_bytes verb ++ after_verb in
    ground (
      arith,
      read_uint32-le32 msgid (le32 flags ++ after_flags) small_id,
      read_uint32-le32 flags after_flags small_flags,
      read_string_bytes verb after_verb small_verb,
      read_string_bytes uuid after_uuid small_uuid,
      read_string_bytes request rest small_request,
    )

-- The message of a call reaches the service as it was meant: the id and the flags, the verb, the uuid
-- of the session and the text of the request are read as they were written, and nothing is left, if
-- the id has 32 bits and each string with its NUL is shorter than 2^32 bytes.
pub read_call-call_writer :
    (msgid flags : ℕ) (verb uuid request : Str)
    → msgid < 2 ^ 32
    → Fits32 verb
    → Fits32 uuid
    → Fits32 request
    → let bytes = call_bytes msgid (flags % 2 ^ 32) verb uuid request in
      (message (call_writer msgid flags verb uuid request) ≡ some bytes)
      × (read_call bytes
          ≡ some (
            record {
              msgid = msgid;
              flags = flags % 2 ^ 32;
              verb = verb;
              uuid = uuid;
              request = request;
            },
            [],
          ))
read_call-call_writer msgid flags verb uuid request small_id small_verb small_uuid small_request =
    let read =
      read_call_bytes msgid (flags % 2 ^ 32) verb uuid request [] small_id (omega arith) small_verb
        small_uuid small_request in
    (
      message-call_writer msgid flags verb uuid request small_verb small_uuid small_request,
      ap
            (λ end. read_call (
              le32 msgid
              ++ (le32 (flags % 2 ^ 32) ++ (string_bytes verb ++ (string_bytes uuid ++ end)))))
            (sym (append-nil (string_bytes request)))
          ∙ read,
    )

-- The bytes of a reply.
abbrev pub reply_bytes : ℕ → ℕ → ℕ → Str → Str
reply_bytes order msgid flags body = order ∷ (le32 msgid ++ (le32 flags ++ body))

module _ (msgid flags : ℕ) where
  head-Writes :
      (order : ℕ)
      → order < 2 ^ 8
      → Writes (reply_head msgid flags order) ((order ∷ le32 msgid) ++ le32 (flags % 2 ^ 32)) 3
  head-Writes order small =
      Writes-then (Writes-then (Writes-char order small) (Writes-uint32 msgid))
        (Writes-uint32 (flags % 2 ^ 32))

  pub message-success_writer :
      {Json : Type 0} (lib : JsonLib Json) (object : Option Json) (text : Str) (info : Option Str)
      → lib.to_string object ≡ some text
      → Fits32 text
      → Fits32 (text_or_empty info)
      → message (success_writer msgid flags lib object info)
        ≡ some (
            reply_bytes order_success msgid
              (flags % 2 ^ 32)
              (string_bytes (text_or_empty info) ++ string_bytes text))
  unfolding success_writer
  message-success_writer lib object text info prints small_text small_info =
      message-Writes _ _ _ (omega arith) (
        Writes-then
          (Writes-then (head-Writes order_success (omega arith))
            (Writes-string (text_or_empty info) small_info))
          (Writes-object lib object text prints small_text))
      ∙ simp append_assoc

  pub message-fail_writer :
      (status : Str) (info : Option Str)
      → Fits32 status
      → Fits32 (text_or_empty info)
      → message (fail_writer msgid flags status info)
        ≡ some (
            reply_bytes order_fail msgid
              (flags % 2 ^ 32)
              (string_bytes status ++ string_bytes (text_or_empty info)))
  unfolding fail_writer
  message-fail_writer status info small_status small_info =
      message-Writes _ _ _ (omega arith) (
        Writes-then
          (Writes-then (head-Writes order_fail (omega arith)) (Writes-string status small_status))
          (Writes-string (text_or_empty info) small_info))
      ∙ simp append_assoc

  pub message-send_writer :
      (buffer : Str)
      → Fits32 buffer
      → message (send_writer msgid flags buffer)
        ≡ some (reply_bytes order_send msgid (flags % 2 ^ 32) (string_bytes buffer))
  unfolding send_writer
  message-send_writer buffer small =
      message-Writes _ _ _ (omega arith)
        (Writes-then (head-Writes order_send (omega arith)) (Writes-string buffer small))
      ∙ simp append_assoc
