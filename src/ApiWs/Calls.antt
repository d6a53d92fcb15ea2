-- ===== src/ApiWs/Calls.antt =====
-- The calls of the client: each request waits for its reply or was answered, once.
use app_framework_binder.Base.{
  ℕ, ◌+◌, ◌<◌, ◌≡◌, refl, sym, ap, ◌∙◌, ◌⊎◌, Bool, true, false, Option, none, some, List, [], ◌∷◌,
  ◌==◌, if◌then◌else◌, length, inl, inr, arith, Option-cases,
}
use app_framework_binder.Base.Text.{Str}
use app_framework_binder.ApiWs.Buffers.{Reader, read_uint32, JsonLib}
use app_framework_binder.ApiWs.Messages.{
  message, call_writer, order_success, order_fail, order_send, order_broadcast, order_create,
  order_drop, order_push, order_subscribe, order_unsubscribe,
}
use app_framework_binder.ApiWs.State.{
  Memo, out_of_memory, raw_is_null, overflow, sending_error, unreadable, Answer, refused, add_ref,
  set_flags, Client, memo_search, fresh_id,
}
use app_framework_binder.ApiWs.Client.{
  emit, memo_make, client_send, client_call, memo_get, success_body, fail_body, send_body,
  give_answer, client_reply, on_binary,
}
use app_framework_binder.ApiWs.Memos.{
  u32, HasFreshIds, memo_search_id, fresh_id_free, fresh_id_ends,
}
use app_framework_binder.ApiWs.Balance.{
  waiting, times, is_answer, is_add_ref, is_unref, tally, answers, references, releases, Balanced,
  Good, refused-Good, destroyed-Good, call_failed-Good, emit-Good, is_neutral,
}
use app_framework_binder.ApiWs.Follows.{
  event_broadcast-Good, event_create-Good, event_drop-Good, event_push-Good, event_subscribe-Good,
  event_unsubscribe-Good,
}

-- The memo of a call.
abbrev pub memo_of : ℕ → ℕ → ℕ → Memo
memo_of req context msgid = record { req = req; context = context; msgid = msgid }

memo_search_first :
    (memo : Memo) (memos : List Memo) → memo_search (memo ∷ memos) memo.msgid ≡ some memo
unfolding memo_search
memo_search_first memo memos = ground arith

module _ {Json : Type 0} where
  -- The client that keeps it.
  abbrev pub waiting_for : Memo → Client Json → Client Json
  waiting_for memo c = record c {
    id = memo.msgid;
    memos = memo ∷ c.memos;
    log = add_ref memo.req ∷ c.log;
  }

  memo_make-cases :
      (allocated : Bool) (c : Client Json) (req context : ℕ)
      → memo_make allocated c req context ≡ none
        ⊎ ((msgid : ℕ) × (memo_search c.memos msgid ≡ none)
            × (msgid < u32)
            × (memo_make allocated c req context
                ≡ some (memo_of req context msgid, waiting_for (memo_of req context msgid) c)))
  unfolding memo_make
  memo_make-cases false c req context = inl refl
  memo_make-cases true c req context =
      elim (Option-cases (fresh_id (length c.memos + 1) c.id c.memos)) [
        | inl stuck ↦ inl (rw stuck refl)
        | inr (msgid, found) ↦
            let (free, small) = fresh_id_free (length c.memos + 1) c.id c.memos msgid found in
            inr (msgid, free, small, rw found refl)
      ]

  waiting_for-Good :
      (given : List ℕ) (memo : Memo) (c : Client Json)
      → memo_search c.memos memo.msgid ≡ none
      → memo.msgid < u32
      → Good given c
      → Good (memo.req ∷ given) (waiting_for memo c)
  unfolding Good Balanced HasFreshIds waiting times tally is_answer is_add_ref is_unref
  waiting_for-Good given memo c free small (fresh, balanced) = (
    (free, small, fresh),
    λ r. let (calls, held) = balanced r in (omega (arith, calls), omega (arith, held)),
  )

  client_send-Good :
      (given : List ℕ) (raw_text : Option Str) (sent : Bool) (flags : ℕ) (verb uuid : Str)
      (memo : Memo) (c : Client Json)
      → memo_search c.memos memo.msgid ≡ some memo
      → Good given c
      → Good given (client_send raw_text sent flags verb uuid memo c).0
  unfolding client_send
  client_send-Good given none sent flags verb uuid memo c found good =
      call_failed-Good given raw_is_null memo c found good
  client_send-Good given (some text) true flags verb uuid memo c found good =
      elim (Option-cases (message (call_writer memo.msgid flags verb uuid text))) [
        | inl long ↦ rw (long, client_send) (call_failed-Good given overflow memo c found good)
        | inr (bytes, e) ↦ rw (e, client_send) good
      ]
  client_send-Good given (some text) false flags verb uuid memo c found good =
      elim (Option-cases (message (call_writer memo.msgid flags verb uuid text))) [
        | inl long ↦ rw (long, client_send) (call_failed-Good given overflow memo c found good)
        | inr (bytes, e) ↦
            rw (e, client_send) (call_failed-Good given sending_error memo c found good)
      ]

  client_call-Good :
      (given : List ℕ) (allocated : Bool) (raw_text : Option Str) (sent : Bool) (c : Client Json)
      (req context flags : ℕ) (verb uuid : Str)
      → Good given c
      → Good (req ∷ given) (client_call allocated raw_text sent c req context flags verb uuid).0
  unfolding client_call
  client_call-Good given allocated raw_text sent c req context flags verb uuid good =
      elim (memo_make-cases allocated c req context) [
        | inl failed ↦
            rw (failed, client_call) (refused-Good given req (refused out_of_memory) c good)
        | inr (msgid, free, small, made) ↦
            let memo = memo_of req context msgid in
            let c' = waiting_for memo c in
            let good' = waiting_for-Good given memo c free small good in
            rw (made, client_call)
              (client_send-Good (req ∷ given) raw_text sent flags verb uuid memo c'
                (memo_search_first memo c.memos) good')
      ]

  memo_get_found :
      (c : Client Json) (rb : Str) (memo : Memo) (rb' : Str)
      → memo_get c rb ≡ some (memo, rb')
      → memo_search c.memos memo.msgid ≡ some memo
  unfolding memo_get
  memo_get_found c rb memo rb' e = elim (Option-cases (read_uint32 rb)) [
    | inl short ↦ ground (arith, e, short)
    | inr ((msgid, rest), read) ↦ elim (Option-cases (memo_search c.memos msgid)) [
      | inl unknown ↦ absurd (ground (arith, e, read, unknown))
      | inr (m, found) ↦
          let same : m ≡ memo = ground (arith, e, read, found) in
          rw (sym same) (ap (memo_search c.memos) (memo_search_id c.memos msgid m found) ∙ found)
    ]
  ]

  client_reply-Good :
      (lib : JsonLib Json) (given : List ℕ) (body : Reader (ℕ × Answer Json)) (c : Client Json)
      (rb : Str)
      → Good given c
      → Good given (client_reply lib body c rb)
  unfolding client_reply give_answer is_neutral
  client_reply-Good lib given body c rb good = elim (Option-cases (memo_get c rb)) [
    | inl unread ↦ rw (unread, client_reply) good
    | inr ((memo, rb'), e) ↦
        let found = memo_get_found c rb memo rb' e in
        rw (e, client_reply)
          (elim (Option-cases (body rb')) [
            | inl bad ↦
                rw (bad, give_answer) (destroyed-Good given memo (refused unreadable) c found good)
            | inr (((flags, reply), rest), read) ↦
                rw (read, give_answer)
                  (destroyed-Good given memo reply (emit (set_flags memo.context flags) c) found
                    (emit-Good given (set_flags memo.context flags) c refl good))
          ])
  ]

  if_Good :
      (given : List ℕ) (b : Bool) (c d : Client Json)
      → Good given c
      → Good given d
      → Good given (if b then c else d)
  if_Good given true c d good_c good_d = good_c
  if_Good given false c d good_c good_d = good_d

  on_binary-Good :
      (lib : JsonLib Json) (created : Option ℕ) (given : List ℕ) (c : Client Json) (bytes : Str)
      → Good given c
      → Good given (on_binary lib created c bytes)
  unfolding on_binary
  on_binary-Good lib created given c [] good = good
  on_binary-Good lib created given c (order ∷ rb) good =
      if_Good given (order == order_success) _ _
        (client_reply-Good lib given (success_body lib) c rb good)
        (if_Good given (order == order_fail) _ _
          (client_reply-Good lib given (fail_body lib) c rb good)
          (if_Good given (order == order_send) _ _
            (client_reply-Good lib given (send_body lib) c rb good)
            (if_Good given (order == order_broadcast) _ _ (event_broadcast-Good lib given c rb good)
              (if_Good given (order == order_create) _ _ (event_create-Good created given c rb good)
                (if_Good given (order == order_drop) _ _ (event_drop-Good given c rb good) (
                  if_Good given (order == order_push) _ _ (event_push-Good lib given c rb good) (
                    if_Good given (order == order_subscribe) _ _
                      (event_subscribe-Good given c rb good)
                      (if_Good given (order == order_unsubscribe) _ _
                        (event_unsubscribe-Good given c rb good) good))))))))

  abbrev pub no_client : Client Json
  no_client = record { id = 0; memos = []; events = []; log = [] }

  -- The clients that calls and messages lead to, and the requests of the calls. The calls may find no
  -- memory or fail to be sent, and the messages may hold any bytes.
  pub data Reach (lib : JsonLib Json) : List ℕ → Client Json → Type 0 where
    start : Reach lib [] no_client
    call :
        {given : List ℕ} {c : Client Json} (allocated : Bool) (raw_text : Option Str) (sent : Bool)
        (req context flags : ℕ) (verb uuid : Str)
        → Reach lib given c
        → Reach lib
            (req ∷ given)
            (client_call allocated raw_text sent c req context flags verb uuid).0
    receive :
        {given : List ℕ} {c : Client Json} (created : Option ℕ) (bytes : Str)
        → Reach lib given c
        → Reach lib given (on_binary lib created c bytes)

  Reach-Good :
      (lib : JsonLib Json) {given : List ℕ} {c : Client Json} → Reach lib given c → Good given c
  unfolding Good Balanced HasFreshIds times waiting tally
  Reach-Good lib start = (tt, λ r. (refl, refl))
  Reach-Good lib (call {given} {c} allocated raw_text sent req context flags verb uuid before) =
      client_call-Good given allocated raw_text sent c req context flags verb uuid
        (Reach-Good lib before)
  Reach-Good lib (receive {given} {c} created bytes before) =
      on_binary-Good lib created given c bytes (Reach-Good lib before)

  -- In every client that calls and messages lead to, whatever bytes the messages hold, no two memos
  -- have the same id, and for each request `r` the number of the calls of `r` that were given is the
  -- number of its memos that wait plus the number of its answers, so that no call is lost or answered
  -- twice; the references that were taken on `r` are those given back and one for each memo that waits.
  pub calls_kept :
      (lib : JsonLib Json) (given : List ℕ) (c : Client Json)
      → Reach lib given c
      → HasFreshIds c.memos
        × ((r : ℕ)
            → (times r given ≡ waiting r c.memos + answers r c)
              × (references r c ≡ releases r c + waiting r c.memos))
  unfolding Good Balanced
  calls_kept lib given c reached = Reach-Good lib reached

  -- The loop of `memo_make` that looks for an id ends when fewer than 2^32 calls wait: with the memory
  -- that it asks for, the call gets a memo of the request, of an id of 32 bits that no other has, at the
  -- head of the list, and a reference on the request.
  pub memo_make_ends :
      (c : Client Json) (req context : ℕ)
      → length c.memos < u32
      → (msgid : ℕ) × (memo_search c.memos msgid ≡ none)
        × (msgid < u32)
        × (memo_make true c req context
            ≡ some (memo_of req context msgid, waiting_for (memo_of req context msgid) c))
  unfolding memo_make
  memo_make_ends c req context few =
      let (msgid, found, free, small) = fresh_id_ends c.id c.memos few in
      (msgid, free, small, rw found refl)
