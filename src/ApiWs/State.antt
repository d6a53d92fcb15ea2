-- ===== src/ApiWs/State.antt =====
-- src/afb-api-ws.c: the state of the client part, and its lists of memos and events.
use app_framework_binder.Base.{
  ℕ, zero, suc, ◌+◌, ◌%◌, ◌^◌, Bool, ◌&&◌, Option, none, some, List, [], ◌∷◌, ◌==◌, if◌then◌else◌,
}
use app_framework_binder.Base.Text.{Str, str_eq}

-- struct api_ws_memo. A request and a context are names of what the daemon keeps.
pub record Memo : Type 0 where
  pub req : ℕ
  pub context : ℕ
  pub msgid : ℕ

-- struct api_ws_event. `event` is the event that afb_evt_create_event gave, of the name `name`.
pub record Event : Type 0 where
  pub event : ℕ
  pub name : Str
  pub eventid : ℕ
  pub refcount : ℕ

-- What the client itself fails a request for; the status is "error".
pub data Trouble : Type 0 where
  out_of_memory raw_is_null overflow sending_error unreadable : Trouble

-- How a request ends.
pub data Answer (Json : Type 0) : Type 0 where
  success : Option Json → Option Str → Answer Json
  failure : Str → Option Str → Answer Json
  raw : Str → Answer Json
  refused : Trouble → Answer Json

-- What the client does to the rest of the daemon.
pub data Effect (Json : Type 0) : Type 0 where
  add_ref unref : ℕ → Effect Json
  set_flags : ℕ → ℕ → Effect Json
  answer : ℕ → Answer Json → Effect Json
  subscribe unsubscribe : ℕ → ℕ → Effect Json
  create_event : ℕ → Str → Effect Json
  drop_event : ℕ → Effect Json
  push : ℕ → Option Json → Effect Json
  broadcast : Str → Option Json → Effect Json

-- The client part of struct api_ws, with what was done, the last first.
pub record Client (Json : Type 0) : Type 0 where
  pub id : ℕ
  pub memos : List Memo
  pub events : List Event
  pub log : List (Effect Json)

-- api_ws_client_memo_search
unfoldable pub memo_search : List Memo → ℕ → Option Memo
memo_search [] msgid = none
memo_search (memo ∷ memos) msgid =
    let rest = memo_search memos msgid in if memo.msgid == msgid then some memo else rest

-- api_ws_client_event_search
unfoldable pub event_search : List Event → ℕ → Str → Option Event
event_search [] eventid name = none
event_search (ev ∷ events) eventid name =
    let rest = event_search events eventid name in
    if (ev.eventid == eventid) && str_eq ev.name name then some ev else rest

-- The loop of api_ws_client_memo_make: `none` when the fuel runs out.
unfoldable pub fresh_id : ℕ → ℕ → List Memo → Option ℕ
fresh_id zero id memos = none
fresh_id (suc fuel) id memos =
    let next = (id + 1) % 2 ^ 32 in
    let rest = fresh_id fuel next memos in
    elim (memo_search memos next) [ none ↦ some next | some memo ↦ rest ]

-- The list without a memo, which its id stands for, and with an event in place of the one of the same
-- id and name.
unfoldable pub remove_memo : ℕ → List Memo → List Memo
remove_memo msgid [] = []
remove_memo msgid (memo ∷ memos) =
    let rest = remove_memo msgid memos in if memo.msgid == msgid then memos else memo ∷ rest

abbrev pub same_event : Event → Event → Bool
same_event a b = (a.eventid == b.eventid) && str_eq a.name b.name

unfoldable pub put_event : Event → List Event → List Event
put_event ev [] = []
put_event ev (e ∷ events) =
    let rest = put_event ev events in if same_event e ev then ev ∷ events else e ∷ rest

unfoldable pub remove_event : Event → List Event → List Event
remove_event ev [] = []
remove_event ev (e ∷ events) =
    let rest = remove_event ev events in if same_event e ev then events else e ∷ rest
