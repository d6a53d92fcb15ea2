-- ===== src/ApiWs/Follows.antt =====
-- The messages on events leave the calls of a client as they are.
use app_framework_binder.Base.{
  ℕ, ◌+◌, ◌-◌, refl, Option, List, ◌∷◌, ◌==◌, inl, inr, Bool-cases, Option-cases,
}
use app_framework_binder.Base.Text.{Str}
use app_framework_binder.ApiWs.Buffers.{JsonLib}
use app_framework_binder.ApiWs.State.{
  Event, subscribe, unsubscribe, create_event, drop_event, push, broadcast, Client, event_search,
  put_event, remove_event,
}
use app_framework_binder.ApiWs.Client.{
  emit, event_get, subscription_get, event_read, event_create, event_drop, event_subscribe,
  event_unsubscribe, broadcast_read, push_read, event_broadcast, event_push,
}
use app_framework_binder.ApiWs.Balance.{Good, emit-Good, events-Good, is_neutral}

module _ {Json : Type 0} where
  pub event_broadcast-Good :
      (lib : JsonLib Json) (given : List ℕ) (c : Client Json) (rb : Str)
      → Good given c
      → Good given (event_broadcast lib c rb)
  unfolding event_broadcast is_neutral
  event_broadcast-Good lib given c rb good = elim (Option-cases (broadcast_read lib rb)) [
    | inl bad ↦ rw (bad, event_broadcast) good
    | inr (((event, object), rest), read) ↦
        rw (read, event_broadcast) (emit-Good given (broadcast event object) c refl good)
  ]

  pub event_push-Good :
      (lib : JsonLib Json) (given : List ℕ) (c : Client Json) (rb : Str)
      → Good given c
      → Good given (event_push lib c rb)
  unfolding event_push is_neutral
  event_push-Good lib given c rb good = elim (Option-cases (push_read lib c rb)) [
    | inl bad ↦ rw (bad, event_push) good
    | inr (((ev, object), rest), read) ↦
        rw (read, event_push) (emit-Good given (push ev.event object) c refl good)
  ]

  pub event_subscribe-Good :
      (given : List ℕ) (c : Client Json) (rb : Str)
      → Good given c
      → Good given (event_subscribe c rb)
  unfolding event_subscribe is_neutral
  event_subscribe-Good given c rb good = elim (Option-cases (subscription_get c rb)) [
    | inl bad ↦ rw (bad, event_subscribe) good
    | inr (((memo, ev), rest), read) ↦
        rw (read, event_subscribe) (emit-Good given (subscribe memo.req ev.event) c refl good)
  ]

  pub event_unsubscribe-Good :
      (given : List ℕ) (c : Client Json) (rb : Str)
      → Good given c
      → Good given (event_unsubscribe c rb)
  unfolding event_unsubscribe is_neutral
  event_unsubscribe-Good given c rb good = elim (Option-cases (subscription_get c rb)) [
    | inl bad ↦ rw (bad, event_unsubscribe) good
    | inr (((memo, ev), rest), read) ↦
        rw (read, event_unsubscribe) (emit-Good given (unsubscribe memo.req ev.event) c refl good)
  ]

  pub event_drop-Good :
      (given : List ℕ) (c : Client Json) (rb : Str) → Good given c → Good given (event_drop c rb)
  unfolding event_drop is_neutral
  event_drop-Good given c rb good = elim (Option-cases (event_get c rb)) [
    | inl bad ↦ rw (bad, event_drop) good
    | inr ((ev, rest), read) ↦ elim (Bool-cases (ev.refcount == 1)) [
      | inl last ↦
          rw (read, event_drop)
            (rw last (
              events-Good given (emit (drop_event ev.event) c) (remove_event ev c.events)
                (emit-Good given (drop_event ev.event) c refl good)))
      | inr more ↦
          rw (read, event_drop)
            (rw more (
              events-Good given c (put_event (record ev { refcount = ev.refcount - 1 }) c.events)
                good))
    ]
  ]

  pub event_create-Good :
      (created : Option ℕ) (given : List ℕ) (c : Client Json) (rb : Str)
      → Good given c
      → Good given (event_create created c rb)
  unfolding event_create is_neutral
  event_create-Good created given c rb good = elim (Option-cases (event_read rb)) [
    | inl bad ↦ rw (bad, event_create) good
    | inr (((eventid, name), rest), read) ↦
        elim (Option-cases (event_search c.events eventid name)) [
          | inr (ev, known) ↦
              rw (read, known, event_create)
                (events-Good given c (put_event (record ev { refcount = ev.refcount + 1 }) c.events)
                  good)
          | inl unknown ↦ elim (Option-cases created) [
            | inl failed ↦ rw (read, unknown, failed, event_create) good
            | inr (event, e) ↦
                let ev : Event = record {
                  event = event;
                  name = name;
                  eventid = eventid;
                  refcount = 1;
                } in
                rw (read, unknown, e, event_create)
                  (events-Good given (emit (create_event event name) c) (ev ∷ c.events)
                    (emit-Good given (create_event event name) c refl good))
          ]
        ]
  ]
