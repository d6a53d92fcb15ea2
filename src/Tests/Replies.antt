-- ===== src/Tests/Replies.antt =====
-- The transport of APIs over a WebSocket, at concrete messages.
use app_framework_binder.Base.{
  ℕ, ◌+◌, ◌<◌, ◌≡◌, refl, sym, ap, ◌∙◌, true, false, Option-cases, inl, inr, none, some, [], ◌∷◌,
  if◌then◌else◌, arith,
}
use app_framework_binder.Base.Text.{Str, str_eq}
use app_framework_binder.ApiWs.Buffers.{
  JsonLib, c_string, null_text, write_uint32, write_string_nz, write_string, write_put, write_char,
  read_uint32, read_string, read_get,
}
use app_framework_binder.Websock.Send.{gather}
use app_framework_binder.ApiWs.Messages.{
  message, call_writer, read_call, success_writer, fail_writer, send_writer,
}
use app_framework_binder.ApiWs.State.{
  Client, success, failure, raw, memo_search, fresh_id, remove_memo,
}
use app_framework_binder.ApiWs.Client.{
  memo_make, client_call, client_send, on_binary, client_reply, memo_get, send_body, memo_destroy,
  give_answer,
}
use app_framework_binder.ApiWs.Layouts.{call_bytes, read_call-call_writer}
use app_framework_binder.ApiWs.Replies.{IsJsonLib, answered_by, replies_arrive}
use app_framework_binder.ApiWs.Memos.{u32, HasFreshIds}
use app_framework_binder.ApiWs.Balance.{
  waiting, times, answers, references, releases, tally, is_answer,
}
use app_framework_binder.ApiWs.Calls.{
  memo_of, waiting_for, no_client, Reach, start, call, receive, calls_kept, memo_make_ends,
}

-- A library with one object, whose text is "1".
abbrev one_object : JsonLib (Unit {0})
one_object = record {
  to_string = λ object. elim object [ none ↦ some null_text | some json ↦ some (49 ∷ []) ];
  parse = λ text. if str_eq text null_text then none else some tt;
}

one_object_text :
    (json : Unit {0}) (text : Str)
    → one_object.to_string (some json) ≡ some text
    → (c_string text ≡ text) × (one_object.parse text ≡ some json) × (str_eq text null_text ≡ false)
unfolding c_string str_eq
one_object_text tt text e =
    let same : 49 ∷ [] ≡ text = ground (arith, e) in rw (sym same) (refl, refl, refl)

null_object_text :
    (text : Str)
    → one_object.to_string none ≡ some text
    → (c_string text ≡ text) × (one_object.parse text ≡ none)
unfolding c_string str_eq
null_object_text text e =
    let same : null_text ≡ text = ground (arith, e) in rw (sym same) (refl, refl)

one_object-IsJsonLib : IsJsonLib one_object
one_object-IsJsonLib = record {
  plain = λ object text e. elim (Option-cases object) [
    | inl nothing ↦ (null_object_text text (ap one_object.to_string (sym nothing) ∙ e)).0
    | inr (json, it) ↦ (one_object_text json text (ap one_object.to_string (sym it) ∙ e)).0
  ];
  parses = λ object text e. elim (Option-cases object) [
    | inl nothing ↦
        (null_object_text text (ap one_object.to_string (sym nothing) ∙ e)).1 ∙ sym nothing
    | inr (json, it) ↦ (one_object_text json text (ap one_object.to_string (sym it) ∙ e)).1 ∙ sym it
  ];
  prints_null = refl;
  no_other = λ json text e. (one_object_text json text e).2;
}

read_call-call_writer_example :
    (message (call_writer 7 3 (b'g' ∷ []) [] (b'1' ∷ []))
      ≡ some (call_bytes 7 3 (b'g' ∷ []) [] (b'1' ∷ [])))
    × (read_call (call_bytes 7 3 (b'g' ∷ []) [] (b'1' ∷ []))
        ≡ some
            (record { msgid = 7; flags = 3; verb = b'g' ∷ []; uuid = []; request = b'1' ∷ [] }, []))
read_call-call_writer_example =
    read_call-call_writer 7 3 (b'g' ∷ []) [] (b'1' ∷ []) (omega arith) (omega arith) (omega arith)
      (omega arith)

-- A client that waits for the reply to its first call, of the request 5.
abbrev one_call : Client (Unit {0})
one_call = waiting_for (memo_of 5 6 1) no_client

one_call_known : memo_search one_call.memos 1 ≡ some (memo_of 5 6 1)
unfolding memo_search
one_call_known = refl

one_plain : c_string (b'o' ∷ []) ≡ b'o' ∷ []
unfolding c_string
one_plain = refl

no_text_plain : c_string [] ≡ []
unfolding c_string
no_text_plain = refl

replies_arrive_example :
    ((bytes : Str) × (message (success_writer 1 2 one_object (some tt) none) ≡ some bytes)
      × (on_binary one_object none one_call bytes
          ≡ answered_by one_object one_object-IsJsonLib none one_call
              (memo_of 5 6 1)
              1
              2
              (omega arith)
              one_call_known
              (success (some tt) none)))
    × ((bytes : Str) × (message (fail_writer 1 2 (b'o' ∷ []) none) ≡ some bytes)
        × (on_binary one_object none one_call bytes
            ≡ answered_by one_object one_object-IsJsonLib none one_call
                (memo_of 5 6 1)
                1
                2
                (omega arith)
                one_call_known
                (failure (b'o' ∷ []) none)))
    × ((bytes : Str) × (message (send_writer 1 2 (b'x' ∷ [])) ≡ some bytes)
        × (on_binary one_object none one_call bytes
            ≡ answered_by one_object one_object-IsJsonLib none one_call
                (memo_of 5 6 1)
                1
                2
                (omega arith)
                one_call_known
                (raw (b'x' ∷ []))))
replies_arrive_example =
    replies_arrive one_object one_object-IsJsonLib none one_call (memo_of 5 6 1) 1 2 (omega arith)
      one_call_known (some tt) (49 ∷ []) (b'o' ∷ []) (b'x' ∷ []) none refl (omega arith)
      (omega arith) (omega arith) (omega arith) one_plain no_text_plain

one_call_run :
    (client_call true (some (b'1' ∷ [])) true no_client 5 6 0 (b'g' ∷ []) []).0 ≡ one_call
unfolding client_call client_send memo_make fresh_id memo_search message call_writer write_uint32
    write_string_nz write_string write_put write_char gather
one_call_run = refl

-- The bytes of a reply that sends "x" to the first call.
abbrev sent_x : Str
sent_x = b'X' ∷ 1 ∷ 0 ∷ 0 ∷ 0 ∷ 2 ∷ 0 ∷ 0 ∷ 0 ∷ 2 ∷ 0 ∷ 0 ∷ 0 ∷ b'x' ∷ 0 ∷ []

-- The client has called and has got that reply, twice.
abbrev replied : Client (Unit {0})
replied =
    on_binary one_object none
      (on_binary one_object none
        (client_call true (some (b'1' ∷ [])) true no_client 5 6 0 (b'g' ∷ []) []).0 sent_x)
      sent_x

replied-Reach : Reach one_object (5 ∷ []) replied
replied-Reach =
    receive none sent_x
      (receive none sent_x (call true (some (b'1' ∷ [])) true 5 6 0 (b'g' ∷ []) [] start))

replied_once :
    answers 5 (on_binary one_object none (on_binary one_object none one_call sent_x) sent_x) ≡ 1
unfolding on_binary client_reply memo_get read_uint32 memo_search send_body read_string read_get
    c_string memo_destroy remove_memo give_answer tally is_answer
replied_once = refl

calls_kept_example :
    HasFreshIds replied.memos
    × ((r : ℕ)
        → (times r (5 ∷ []) ≡ waiting r replied.memos + answers r replied)
          × (references r replied ≡ releases r replied + waiting r replied.memos))
calls_kept_example = calls_kept one_object (5 ∷ []) replied replied-Reach

memo_make_ends_example :
    (msgid : ℕ) × (memo_search one_call.memos msgid ≡ none)
    × (msgid < u32)
    × (memo_make true one_call 8 9
        ≡ some (memo_of 8 9 msgid, waiting_for (memo_of 8 9 msgid) one_call))
memo_make_ends_example = memo_make_ends one_call 8 9 (omega arith)
