-- ===== src/Events/Watching.antt =====
-- src/afb-evt.c: watching an event, and the events themselves.
use app_framework_binder.Base.{
  ℕ, zero, suc, ◌+◌, ◌-◌, ◌%◌, ◌^◌, Bool, true, false, ◌&&◌, ◌||◌, not, Option, none, some, List,
  [], ◌∷◌, ◌==◌, if◌then◌else◌, length,
}
use app_framework_binder.Base.Text.{Str}
use app_framework_binder.Events.Structs.{at, write}
use app_framework_binder.Events.Store.{
  Evt, Watch, add_note, remove_note, Store, Handle, tell, ◌>>=◌,
}

-- The watch of a listener for an event, among those of a chain.
unfoldable pub find_watch : ℕ → List (ℕ × Watch) → List ℕ → Option (Option ℕ)
find_watch e watches [] = some none
find_watch e watches (w ∷ ws) = elim (at w watches) [
  | none ↦ none
  | some watch ↦
      let rest = find_watch e watches ws in if watch.event == e then some (some w) else rest
]

-- The end of afb_evt_add_watch, for the watch that was found or made.
unfoldable pub activate : ℕ → ℕ → ℕ → Store → Option Store
activate p e w s = do
  watch ← at w s.watches
  l ← at p s.listeners
  evt ← at e s.events
  some (record s {
    watches = write w (record watch { activity = (watch.activity + 1) % 2 ^ 32 }) s.watches;
    notes =
        tell ((watch.activity == 0) && l.itf.has_add) (add_note l.closure evt.name evt.id) s.notes;
  })

-- A new watch, linked at the head of both chains.
unfoldable pub link_watch : ℕ → ℕ → ℕ → Store → Option Store
link_watch p e w s = do
  l ← at p s.listeners
  evt ← at e s.events
  some (record s {
    watches = (w, record { event = e; listener = p; activity = 0 }) ∷ s.watches;
    events = write e (record evt { watchs = w ∷ evt.watchs }) s.events;
    listeners = write p (record l { watchs = w ∷ l.watchs }) s.listeners;
  })

unfoldable pub watch_found : Option ℕ → ℕ → ℕ → Store → Option ℕ → Option (Store × Bool)
watch_found allocated p e s (some w) = do s' ← activate p e w s; some (s', true)
watch_found none p e s none = some (s, false)
watch_found (some w) p e s none = do
  s' ← link_watch p e w s
  s″ ← activate p e w s'
  some (s″, true)

-- afb_evt_add_watch, with the address that malloc gives: was it done?
unfoldable pub add_watch : Option ℕ → ℕ → Handle → Store → Option (Store × Bool)
add_watch allocated p event s = do
  l ← at p s.listeners
  if not event.ours || not l.itf.has_push
      then some (s, false)
      else find_watch event.closure s.watches l.watchs >>= watch_found allocated p event.closure s

-- afb_evt_remove_watch: was there a watch?
unfoldable pub deactivate : ℕ → ℕ → ℕ → Store → Option Store
deactivate p e w s = do
  watch ← at w s.watches
  l ← at p s.listeners
  evt ← at e s.events
  some (record s {
    watches = write w (record watch { activity = watch.activity - 1 }) s.watches;
    notes =
        tell ((watch.activity == 1) && l.itf.has_remove) (remove_note l.closure evt.name evt.id)
          s.notes;
  })

unfoldable pub watch_left : ℕ → ℕ → Store → Option ℕ → Option (Store × Bool)
watch_left p e s none = some (s, false)
watch_left p e s (some w) = do s' ← deactivate p e w s; some (s', true)

unfoldable pub unwatch : ℕ → Handle → Store → Option (Store × Bool)
unwatch p event s = if not event.ours then some (s, false) else (do
  l ← at p s.listeners
  found ← find_watch event.closure s.watches l.watchs
  watch_left p event.closure s found)

-- afb_evt_event_name and afb_evt_event_id
unfoldable pub event_name : Handle → Store → Option (Option Str)
event_name event s =
    if not event.ours then some none else (do evt ← at event.closure s.events; some (some evt.name))

unfoldable pub event_id : Handle → Store → Option ℕ
event_id event s =
    if not event.ours then some 0 else (do evt ← at event.closure s.events; some evt.id)

-- The next value of the counter of 31 bits, and whether it has wrapped.
abbrev pub next_id : ℕ → Bool → ℕ × Bool
next_id counter wrapped = if counter + 1 == 2 ^ 31 then (1024, true) else (counter + 1, wrapped)

unfoldable pub has_id : ℕ → List (ℕ × Evt) → Bool
has_id id [] = false
has_id id ((p, evt) ∷ events) = (evt.id == id) || has_id id events

-- The loop of afb_evt_create_event for the id; `none` when the fuel runs out.
unfoldable pub choose_id : ℕ → ℕ → Bool → List (ℕ × Evt) → Option (ℕ × Bool)
choose_id zero counter wrapped events = none
choose_id (suc fuel) counter wrapped events =
    let next = next_id counter wrapped in
    let rest = choose_id fuel next.0 next.1 events in
    if next.1 && has_id next.0 events then rest else some next

-- afb_evt_create_event, with the address that malloc gives, which is the event; the loop has as much
-- fuel as there are events, and one unit more.
unfoldable pub create_event : Option ℕ → Str → Store → Option (Store × Option ℕ)
create_event allocated name s =
    elim (choose_id (length s.events + 1) s.counter s.wrapped s.events) [
      | none ↦ none
      | some (id, wrapped) ↦ elim allocated [
        | none ↦ some (record s { counter = id; wrapped = wrapped }, none)
        | some e ↦
            let evt : Evt = record { watchs = []; id = id; name = name } in
            some
              (record s { counter = id; wrapped = wrapped; events = (e, evt) ∷ s.events }, some e)
      ]
    ]
