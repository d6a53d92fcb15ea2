-- ===== src/Events/Store.antt =====
-- src/afb-evt.c: the structures and the functions.
use app_framework_binder.Base.{
  ℕ, zero, suc, ◌+◌, ◌-◌, Bool, ◌&&◌, not, Option, none, some, List, [], ◌∷◌, ◌==◌, if◌then◌else◌,
  length,
}
use app_framework_binder.Base.Text.{Str}
use app_framework_binder.Events.Structs.{at, write, free, unlink}

infixl 5 ◌>>=◌
abbrev pub ◌>>=◌ : {A B : Type 0} → Option A → (A → Option B) → Option B
◌>>=◌ none f = none
◌>>=◌ (some a) f = f a

-- struct afb_evt_itf at an address: which of its callbacks are not NULL.
pub record Itf : Type 0 where
  pub address : ℕ
  pub has_push : Bool
  pub has_broadcast : Bool
  pub has_add : Bool
  pub has_remove : Bool

-- struct afb_evt_listener. `watchs` is the chain by `next_by_listener`.
pub record Listener : Type 0 where
  pub itf : Itf
  pub closure : ℕ
  pub watchs : List ℕ
  pub refcount : ℕ

-- struct afb_evt_event. `watchs` is the chain by `next_by_event`.
pub record Evt : Type 0 where
  pub watchs : List ℕ
  pub id : ℕ
  pub name : Str

-- struct afb_evt_watch
pub record Watch : Type 0 where
  pub event : ℕ
  pub listener : ℕ
  pub activity : ℕ

-- The calls of the callbacks of listeners, with the closure.
pub data Note : Type 0 where
  broadcast_note : ℕ → Str → Note
  push_note add_note remove_note : ℕ → Str → ℕ → Note

-- The static variables, the structures that are allocated, and the calls of callbacks, the last first.
-- The lists `events` and `listeners` of the file have their structures in the order in which they were
-- allocated, the last first, so each is the list of all that are allocated.
pub record Store : Type 0 where
  pub counter : ℕ
  pub wrapped : Bool
  pub events : List (ℕ × Evt)
  pub listeners : List (ℕ × Listener)
  pub watches : List (ℕ × Watch)
  pub notes : List Note

-- struct afb_event: is its interface the one of this file, and where is its closure?
pub record Handle : Type 0 where
  pub ours : Bool
  pub closure : ℕ

-- A call of a callback, if the listener has it.
abbrev pub tell : Bool → Note → List Note → List Note
tell b note notes = if b then note ∷ notes else notes

-- afb_evt_broadcast, from a listener on: the calls and the count of them. evt_broadcast gives it the
-- name of the event.
unfoldable pub broadcast_from : List (ℕ × Listener) → Str → List Note → List Note × ℕ
broadcast_from [] name notes = (notes, 0)
broadcast_from ((p, l) ∷ ls) name notes =
    let (rest, count) =
      broadcast_from ls name (tell l.itf.has_broadcast (broadcast_note l.closure name) notes) in
    (rest, if l.itf.has_broadcast then count + 1 else count)

unfoldable pub broadcast : Str → Store → Store × ℕ
broadcast name s =
    let (notes, count) = broadcast_from s.listeners name s.notes in
    (record s { notes = notes }, count)

unfoldable pub evt_broadcast : ℕ → Store → Option (Store × ℕ)
evt_broadcast e s = do evt ← at e s.events; some (broadcast evt.name s)

-- evt_push, from a watch on; `none` is also the failed assertion on the callback.
unfoldable pub push_from : Store → Evt → List ℕ → List Note → Option (List Note × ℕ)
push_from s evt [] notes = some (notes, 0)
push_from s evt (w ∷ ws) notes = elim (at w s.watches) [
  | none ↦ none
  | some watch ↦ elim (at watch.listener s.listeners) [
    | none ↦ none
    | some l ↦
        let rest =
          push_from s evt ws
            (tell (not (watch.activity == 0)) (push_note l.closure evt.name evt.id) notes) in
        if l.itf.has_push
        then elim rest [ none ↦ none | some (all, count) ↦ some (all, count + 1) ]
        else none
  ]
]

unfoldable pub evt_push : ℕ → Store → Option (Store × ℕ)
evt_push e s = do
  evt ← at e s.events
  (notes, count) ← push_from s evt evt.watchs s.notes
  some (record s { notes = notes }, count)

-- remove_watch
unfoldable pub remove_watch : ℕ → Store → Option Store
remove_watch w s = do
  watch ← at w s.watches
  evt ← at watch.event s.events
  l ← at watch.listener s.listeners
  by_event ← unlink w evt.watchs
  by_listener ← unlink w l.watchs
  some (record s {
    events = write watch.event (record evt { watchs = by_event }) s.events;
    listeners = write watch.listener (record l { watchs = by_listener }) s.listeners;
    watches = free w s.watches;
    notes =
        tell (not (watch.activity == 0) && l.itf.has_remove) (remove_note l.closure evt.name evt.id)
          s.notes;
  })

-- The loops of evt_destroy and of afb_evt_listener_unref over the watches, with one unit of fuel for
-- each watch and one more.
unfoldable pub drop_watches : (Store → Option (List ℕ)) → ℕ → Store → Option Store
drop_watches watches_of zero s = none
drop_watches watches_of (suc fuel) s = do
  ws ← watches_of s
  elim ws [
    | [] ↦ some s
    | w ∷ others ↦ elim (remove_watch w s) [
      | none ↦ none
      | some s' ↦ drop_watches watches_of fuel s'
    ]
  ]

abbrev pub watches_of_event : ℕ → Store → Option (List ℕ)
watches_of_event e s = elim (at e s.events) [ none ↦ none | some evt ↦ some evt.watchs ]

abbrev pub watches_of_listener : ℕ → Store → Option (List ℕ)
watches_of_listener l s = elim (at l s.listeners) [
  | none ↦ none
  | some listener ↦ some listener.watchs
]

-- evt_destroy. The event leaves the list when it is freed: the functions that are called on the way do
-- not look at the list.
unfoldable pub evt_destroy : ℕ → Store → Option Store
evt_destroy e s = elim (at e s.events) [
  | none ↦ some s
  | some evt ↦ do
    s' ← drop_watches (watches_of_event e) (length evt.watchs + 1) s
    some (record s' { events = free e s'.events })
]

-- afb_evt_listener_addref and afb_evt_listener_unref
unfoldable pub listener_addref : ℕ → Store → Option Store
listener_addref p s = do
  l ← at p s.listeners
  some (record s { listeners = write p (record l { refcount = l.refcount + 1 }) s.listeners })

unfoldable pub listener_unref : ℕ → Store → Option Store
listener_unref p s = do
  l ← at p s.listeners
  let s' = record s { listeners = write p (record l { refcount = l.refcount - 1 }) s.listeners } in
      if l.refcount == 1
      then (do
        s″ ← drop_watches (watches_of_listener p) (length l.watchs + 1) s'
        some (record s″ { listeners = free p s″.listeners }))
      else some s'

-- afb_evt_listener_create, with the address that calloc gives: the address of the listener.
unfoldable pub find_listener : Itf → ℕ → List (ℕ × Listener) → Option ℕ
find_listener itf closure [] = none
find_listener itf closure ((p, l) ∷ ls) =
    let rest = find_listener itf closure ls in
    if (l.itf.address == itf.address) && (l.closure == closure) then some p else rest

unfoldable pub listener_create : Option ℕ → Itf → ℕ → Store → Option (Store × Option ℕ)
listener_create allocated itf closure s = elim (find_listener itf closure s.listeners) [
  | some p ↦ do s' ← listener_addref p s; some (s', some p)
  | none ↦ elim allocated [
    | none ↦ some (s, none)
    | some p ↦
        let l : Listener = record { itf = itf; closure = closure; watchs = []; refcount = 1 } in
        some (record s { listeners = (p, l) ∷ s.listeners }, some p)
  ]
]
