-- ===== src/Events/Histories.antt =====
-- Any history of calls of the file: none faults, and the chains are right after each.
use app_framework_binder.Base.{
  ℕ, ◌+◌, ◌-◌, ◌<◌, ◌≡◌, refl, ap, false, Option, none, some, List, [], ◌==◌, length, inl, inr,
  arith, Bool-cases, Option-cases,
}
use app_framework_binder.Base.Text.{Str}
use app_framework_binder.Events.Structs.{at, Distinct}
use app_framework_binder.Events.Store.{
  Itf, Listener, Evt, Note, Store, Handle, broadcast, evt_push, evt_destroy, listener_addref,
  listener_unref, listener_create,
}
use app_framework_binder.Events.Watching.{create_event, add_watch, unwatch}
use app_framework_binder.Events.Ids.{int_limit, HasUniqueIds, IsBelow}
use app_framework_binder.Events.Links.{Chains, Linked, write_listener-Linked}
use app_framework_binder.Events.Destroying.{evt_destroy-Linked, listener_unref-Linked}
use app_framework_binder.Events.Following.{IsFresh, add_watch-Linked, unwatch-Linked}
use app_framework_binder.Events.Making.{
  create_event-Linked, listener_addref-Linked, listener_create-Linked,
}
use app_framework_binder.Events.Pushing.{told_all, evt_push_lem}

-- The calls, with what malloc gives in those that allocate.
pub data Call : Type 0 where
  creating : Option ℕ → Str → Call
  destroying : ℕ → Call
  listening : Option ℕ → Itf → ℕ → Call
  referring dropping : ℕ → Call
  watching : Option ℕ → ℕ → Handle → Call
  leaving : ℕ → Handle → Call
  pushing : ℕ → Call
  broadcasting : Str → Call

abbrev store_of : {A : Type 0} → Option (Store × A) → Option Store
store_of none = none
store_of (some (s, a)) = some s

unfoldable pub run : Call → Store → Option Store
run (creating allocated name) s = store_of (create_event allocated name s)
run (destroying e) s = evt_destroy e s
run (listening allocated itf closure) s = store_of (listener_create allocated itf closure s)
run (referring p) s = listener_addref p s
run (dropping p) s = listener_unref p s
run (watching allocated p event) s = store_of (add_watch allocated p event s)
run (leaving p event) s = store_of (unwatch p event s)
run (pushing e) s = store_of (evt_push e s)
run (broadcasting name) s = some (broadcast name s).0

-- What the callers and malloc owe: listeners and events that are used are allocated, though an event
-- that is destroyed need not be; what malloc gives is not in use, and there are fewer than 2^31 - 1026
-- events.
unfoldable pub IsAllowed : Call → Store → Type 0
IsAllowed (creating allocated name) s =
    IsFresh allocated s.events × (length s.events + 2 < int_limit - 1024)
IsAllowed (destroying e) s = Unit
IsAllowed (listening allocated itf closure) s = IsFresh allocated s.listeners
IsAllowed (referring p) s = (l : Listener) × (at p s.listeners ≡ some l)
IsAllowed (dropping p) s = (l : Listener) × (at p s.listeners ≡ some l)
IsAllowed (watching allocated p event) s =
    (l : Listener) × (evt : Evt) × (at p s.listeners ≡ some l)
    × (at event.closure s.events ≡ some evt)
    × IsFresh allocated s.watches
IsAllowed (leaving p event) s =
    (l : Listener) × (evt : Evt) × (at p s.listeners ≡ some l)
    × (at event.closure s.events ≡ some evt)
IsAllowed (pushing e) s = (evt : Evt) × (at e s.events ≡ some evt)
IsAllowed (broadcasting name) s = Unit

notes-Linked : (s : Store) (notes : List Note) → Linked s → Linked (record s { notes = notes })
notes-Linked s notes linked = record {
  events_distinct = linked.events_distinct;
  listeners_distinct = linked.listeners_distinct;
  watches_distinct = linked.watches_distinct;
  numbered = linked.numbered;
  by_event = linked.by_event;
  by_listener = linked.by_listener;
  live = linked.live;
}

dropping-Linked :
    (s : Store) (p : ℕ) (l : Listener)
    → Linked s
    → at p s.listeners ≡ some l
    → (s' : Store) × (listener_unref p s ≡ some s') × Linked s'
unfolding listener_unref
dropping-Linked s p l linked here = elim (Bool-cases (l.refcount == 1)) [
  | inl last ↦
      let (s', ran, linked', gone, left) =
        listener_unref-Linked s p l linked here (ground (arith, last)) in
      (s', ran, linked')
  | inr more ↦
      let v = record l { refcount = l.refcount - 1 } in
      (
        _,
        rw (here, listener_unref) (rw more refl),
        write_listener-Linked s p l v linked here refl refl,
      )
]

run-Linked :
    (call : Call) (s : Store)
    → Linked s
    → IsAllowed call s
    → (s' : Store) × (run call s ≡ some s') × Linked s'
unfolding run IsAllowed evt_destroy broadcast
run-Linked (creating allocated name) s linked (fresh, few) =
    let (s', given, ran, linked') = create_event-Linked s allocated name linked fresh few in
    (s', ap store_of ran, linked')
run-Linked (destroying e) s linked allowed = elim (Option-cases (at e s.events)) [
  | inl gone ↦ (s, rw (gone, evt_destroy) refl, linked)
  | inr (evt, here) ↦
      let (s', ran, linked', freed, left) = evt_destroy-Linked s e evt linked here in
      (s', ran, linked')
]
run-Linked (listening allocated itf closure) s linked fresh =
    let (s', given, ran, linked') = listener_create-Linked s allocated itf closure linked fresh in
    (s', ap store_of ran, linked')
run-Linked (referring p) s linked (l, here) = listener_addref-Linked s p l linked here
run-Linked (dropping p) s linked (l, here) = dropping-Linked s p l linked here
run-Linked (watching allocated p event) s linked (l, evt, at_p, at_e, fresh) =
    let (s', done, ran, linked') =
      add_watch-Linked s allocated p event l evt linked at_p at_e fresh in
    (s', ap store_of ran, linked')
run-Linked (leaving p event) s linked (l, evt, at_p, at_e) =
    let (s', done, ran, linked') = unwatch-Linked s p event l evt linked at_p at_e in
    (s', ap store_of ran, linked')
run-Linked (pushing e) s linked (evt, here) = (
  _,
  ap store_of (evt_push_lem s e evt linked here),
  notes-Linked s (told_all s e evt s.watches s.notes) linked,
)
run-Linked (broadcasting name) s linked allowed = (_, refl, notes-Linked s _ linked)

abbrev pub empty_store : Store
empty_store = record {
  counter = 0;
  wrapped = false;
  events = [];
  listeners = [];
  watches = [];
  notes = [];
}

-- The stores that calls lead to from the start of the program.
pub data Reach : Store → Type 0 where
  start : Reach empty_store
  next : {s s' : Store} (call : Call) → Reach s → IsAllowed call s → run call s ≡ some s' → Reach s'

empty_store-Linked : Linked empty_store
unfolding Distinct HasUniqueIds IsBelow Chains at
empty_store-Linked = record {
  events_distinct = tt;
  listeners_distinct = tt;
  watches_distinct = tt;
  numbered = (omega arith, tt, tt);
  by_event = λ e evt at_e. ground (arith, at_e);
  by_listener = λ p l at_p. ground (arith, at_p);
  live = λ w watch at_w. ground (arith, at_w);
}

pub Reach-Linked : {s : Store} → Reach s → Linked s
Reach-Linked start = empty_store-Linked
Reach-Linked (next {s} {s'} call before allowed ran) =
    let (s″, also, linked) = run-Linked call s (Reach-Linked before) allowed in
    let same : s' ≡ s″ = ground (arith, also, ran) in rw same linked

-- In every store that calls lead to, a call does not fault, if the listeners and the events that it uses
-- are allocated (an event that is destroyed need not be), what malloc gives is not in use, and an event
-- is created only among fewer than 2^31 - 1026: it reads no memory that was freed, unlinks only what is
-- linked, pushes only to listeners that have the callback, and its search for the number of an event
-- ends. After it the numbers of the events are positive and each is that of one event; the chain of each
-- event and of each listener holds exactly its watches, the last made first; and the event and the
-- listener of each watch are allocated.
pub never_faults :
    (call : Call) {s : Store}
    → Reach s
    → IsAllowed call s
    → (s' : Store) × (run call s ≡ some s') × Linked s'
never_faults call reached allowed = run-Linked call _ (Reach-Linked reached) allowed
