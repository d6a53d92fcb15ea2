-- ===== src/Tests/Events.antt =====
-- A listener watches an event, which is pushed and destroyed.
use app_framework_binder.Base.{◌≡◌, refl, true, false, none, some, [], ◌∷◌, arith}
use app_framework_binder.Events.Structs.{at, write, others}
use app_framework_binder.Events.Store.{
  Itf, Listener, Evt, push_note, add_note, Store, evt_push, evt_destroy, find_listener,
  listener_create,
}
use app_framework_binder.Events.Watching.{
  create_event, choose_id, has_id, add_watch, find_watch, watch_found, link_watch, activate,
}
use app_framework_binder.Events.Links.{of_event, Linked}
use app_framework_binder.Events.Destroying.{evt_destroy-Linked}
use app_framework_binder.Events.Pushing.{told_all, count_of, evt_push_lem}
use app_framework_binder.Events.Histories.{
  creating, listening, watching, pushing, run, IsAllowed, empty_store, Reach, start, next,
  Reach-Linked, never_faults,
}

abbrev whole_itf : Itf
whole_itf = record {
  address = 1;
  has_push = true;
  has_broadcast = true;
  has_add = true;
  has_remove = true;
}

abbrev news : Evt
news = record { watchs = 30 ∷ []; id = 1; name = b'n' ∷ [] }

abbrev reader : Listener
reader = record { itf = whole_itf; closure = 5; watchs = 30 ∷ []; refcount = 1 }

-- The event at 10, the listener at 20 and its watch at 30.
abbrev watched : Store
watched = record {
  counter = 1;
  wrapped = false;
  events = (10, news) ∷ [];
  listeners = (20, reader) ∷ [];
  watches = (30, record { event = 10; listener = 20; activity = 1 }) ∷ [];
  notes = add_note 5 (b'n' ∷ []) 1 ∷ [];
}

abbrev with_event : Store
with_event = record empty_store { counter = 1; events = (10, record news { watchs = [] }) ∷ [] }

abbrev with_listener : Store
with_listener = record with_event { listeners = (20, record reader { watchs = [] }) ∷ [] }

create_run : run (creating (some 10) (b'n' ∷ [])) empty_store ≡ some with_event
unfolding run create_event choose_id has_id
create_run = refl

listen_run : run (listening (some 20) whole_itf 5) with_event ≡ some with_listener
unfolding run listener_create find_listener
listen_run = refl

watch_run :
    run (watching (some 30) 20 (record { ours = true; closure = 10 })) with_listener ≡ some watched
unfolding run add_watch find_watch watch_found link_watch activate at write
watch_run = refl

create-IsAllowed : IsAllowed (creating (some 10) (b'n' ∷ [])) empty_store
unfolding IsAllowed at
create-IsAllowed = (refl, omega arith)

listen-IsAllowed : IsAllowed (listening (some 20) whole_itf 5) with_event
unfolding IsAllowed at
listen-IsAllowed = refl

watch-IsAllowed :
    IsAllowed (watching (some 30) 20 (record { ours = true; closure = 10 })) with_listener
unfolding IsAllowed at
watch-IsAllowed = (record reader { watchs = [] }, record news { watchs = [] }, refl, refl, refl)

watched-Reach : Reach watched
watched-Reach =
    next _ (next _ (next _ start create-IsAllowed create_run) listen-IsAllowed listen_run)
      watch-IsAllowed watch_run

news_there : at 10 watched.events ≡ some news
unfolding at
news_there = refl

push-IsAllowed : IsAllowed (pushing 10) watched
unfolding IsAllowed
push-IsAllowed = (news, news_there)

never_faults_example : (s' : Store) × (run (pushing 10) watched ≡ some s') × Linked s'
never_faults_example = never_faults (pushing 10) watched-Reach push-IsAllowed

evt_push_lem_example :
    evt_push 10 watched
    ≡ some (
      record watched { notes = told_all watched 10 news watched.watches watched.notes },
      count_of (of_event 10) watched.watches,
    )
evt_push_lem_example = evt_push_lem watched 10 news (Reach-Linked watched-Reach) news_there

-- The listener is called once.
push_tells :
    told_all watched 10 news watched.watches watched.notes
    ≡ push_note 5 (b'n' ∷ []) 1 ∷ watched.notes
unfolding told_all at
push_tells = refl

evt_destroy-Linked_example :
    (s' : Store) × (evt_destroy 10 watched ≡ some s')
    × Linked s'
    × (at 10 s'.events ≡ none)
    × (s'.watches ≡ others (of_event 10) watched.watches)
evt_destroy-Linked_example =
    evt_destroy-Linked watched 10 news (Reach-Linked watched-Reach) news_there
