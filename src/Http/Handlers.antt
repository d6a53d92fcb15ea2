-- ===== src/Http/Handlers.antt =====
-- src/afb-hsrv.c: the handlers of a server, in the order in which they are tried.
use app_framework_binder.Base.{
  ℕ, zero, suc, Bool, true, false, ◌&&◌, ◌||◌, not, Option, none, some, List, [], ◌∷◌, ltb, leb,
  ◌==◌, if◌then◌else◌, length,
}
use app_framework_binder.Base.Text.{Str, char_at}
use app_framework_binder.Http.Request.{Request, unprefix}

-- struct hsrv_handler. The priority, an int, is kept with an offset that makes it positive; handler
-- and data are names of what is called.
pub record Handler : Type 0 where
  pub prefix : Str
  pub len : ℕ
  pub handler : ℕ
  pub data_ : ℕ
  pub priority : ℕ

-- The length of the prefix without the slashes at its end.
unfoldable pub prefix_length : ℕ → Str → ℕ
prefix_length zero prefix = 0
prefix_length (suc n) prefix =
    let shorter = prefix_length n prefix in if char_at prefix n == 47 then shorter else suc n

abbrev pub new_link : Str → ℕ → ℕ → ℕ → Handler
new_link prefix handler data_ priority = record {
  prefix = prefix;
  len = prefix_length (length prefix) prefix;
  handler = handler;
  data_ = data_;
  priority = priority;
}

-- The place of a new handler.
unfoldable pub insert_handler : List Handler → Handler → List Handler
insert_handler [] link = link ∷ []
insert_handler (iter ∷ next) link =
    let rest = insert_handler next link in
    if ltb link.priority iter.priority
      || ((link.priority == iter.priority) && leb link.len iter.len)
    then iter ∷ rest
    else link ∷ iter ∷ next

-- new_handler: `none` when nothing can be allocated.
unfoldable pub new_handler : Bool → List Handler → Str → ℕ → ℕ → ℕ → Option (List Handler)
new_handler allocated head prefix handler data_ priority =
    if allocated then some (insert_handler head (new_link prefix handler data_ priority)) else none

-- afb_hsrv_add_handler: the handlers, and whether it was added.
unfoldable pub add_handler : Bool → List Handler → Str → ℕ → ℕ → ℕ → List Handler × Bool
add_handler allocated handlers prefix handler data_ priority =
    elim (new_handler allocated handlers prefix handler data_ priority) [
      | none ↦ (handlers, false)
      | some head ↦ (head, true)
    ]

-- The connection is suspended if the request has neither an answer nor was suspended.
unfoldable pub suspend : Request → Request
suspend hreq =
    if not hreq.replied && not hreq.suspended then record hreq { suspended = true } else hreq

-- The end of access_handler. The functions of the handlers are a parameter: what is called says
-- whether it takes the request, and what it makes of it.
module _ {W : Type 0} (call : ℕ → ℕ → Request × W → Bool × (Request × W))
    (reply_error : ℕ → Request × W → Request × W) where
  unfoldable pub try_handlers : List Handler → Request × W → Request × W
  try_handlers [] (hreq, w) = reply_error 404 (hreq, w)
  try_handlers (iter ∷ next) (hreq, w) = elim (unprefix hreq iter.prefix iter.len) [
    | none ↦ try_handlers next (hreq, w)
    | some found ↦
        let called = call iter.handler iter.data_ (found, w) in
        let after = called.1.0 in
        elim called.0 [
          | true ↦ (suspend after, called.1.1)
          | false ↦ try_handlers next (record after { tail = after.url }, called.1.1)
        ]
  ]

  -- The request is scanned once.
  unfoldable pub scan : List Handler → Request × W → Request × W
  scan handlers (hreq, w) =
      if hreq.scanned
      then (suspend hreq, w)
      else try_handlers handlers (record hreq { scanned = true }, w)
