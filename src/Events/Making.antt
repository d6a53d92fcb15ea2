-- ===== src/Events/Making.antt =====
-- New events and new listeners: the chains stay right.
use app_framework_binder.Base.{
  ℕ, ◌+◌, ◌-◌, ◌≤◌, ◌<◌, ◌≡◌, refl, sym, ap, ◌∙◌, Bool, false, ◌&&◌, Option, none, some, List, [],
  ◌∷◌, ◌==◌, length, inl, inr, arith, Bool-cases, Option-cases,
}
use app_framework_binder.Base.Text.{Str}
use app_framework_binder.Events.Structs.{at, chain, Distinct}
use app_framework_binder.Events.Store.{
  Itf, Listener, Watch, Store, listener_addref, find_listener, listener_create,
}
use app_framework_binder.Events.Watching.{has_id, create_event}
use app_framework_binder.Events.Ids.{int_limit, HasUniqueIds, IsBelow, IsNumbered}
use app_framework_binder.Events.Choosing.{choose_id-IsNumbered}
use app_framework_binder.Events.Searching.{choose_id_ends}
use app_framework_binder.Events.Links.{of_event, of_listener, Chains, Linked, write_listener-Linked}
use app_framework_binder.Events.Following.{IsFresh}

chain_none :
    (test : Watch → Bool) (xs : List (ℕ × Watch))
    → Distinct xs
    → ((w : ℕ) (watch : Watch) → at w xs ≡ some watch → test watch ≡ false)
    → chain test xs ≡ []
unfolding chain Distinct at
chain_none test [] distinct fail = refl
chain_none test ((w, watch) ∷ xs) (alone, distinct) fail =
    let here : test watch ≡ false = fail w watch (ground arith) in
    rw here
      (chain_none test xs distinct (λ v other at_v. fail v other (ground (arith, at_v, alone))))

at_new :
    {A : Type 0} (p q : ℕ) (v a : A) (xs : List (ℕ × A))
    → at p xs ≡ none
    → at q xs ≡ some a
    → at q ((p, v) ∷ xs) ≡ some a
unfolding at
at_new p q v a xs fresh there = ground (arith, fresh, there)

-- An address that is not in use is not the one of a structure that can be read.
apart_if_fresh :
    {A : Type 0} (p q : ℕ) (a : A) (xs : List (ℕ × A))
    → at p xs ≡ none
    → at q xs ≡ some a
    → (q == p) ≡ false
apart_if_fresh p q a xs fresh there = elim (Bool-cases (q == p)) [
  | inl same ↦ let is : q ≡ p = ground (arith, same) in absurd (ground (arith, fresh, there, is))
  | inr other ↦ other
]

new_event-Linked :
    (s : Store) (e id : ℕ) (wrapped : Bool) (name : Str)
    → Linked s
    → at e s.events ≡ none
    → IsNumbered id wrapped s.events
    → has_id id s.events ≡ false
    → 1 ≤ id
    → Linked (record s {
      counter = id;
      wrapped = wrapped;
      events = (e, record { watchs = []; id = id; name = name }) ∷ s.events;
    })
unfolding Distinct HasUniqueIds IsBelow Chains at
new_event-Linked s e id wrapped name linked fresh (small, unique, below) absent positive = record {
  events_distinct = (fresh, linked.events_distinct);
  listeners_distinct = linked.listeners_distinct;
  watches_distinct = linked.watches_distinct;
  numbered = (small, (absent, unique), (positive, ground (arith, small), below));
  by_event = λ p evt at_p. elim (Bool-cases (e == p)) [
    | inl same ↦
        let is : e ≡ p = ground (arith, same) in
        let nothing : [] ≡ evt.watchs = ground (arith, at_p, same) in
        let empty = chain_none (of_event e) s.watches linked.watches_distinct (λ w watch at_w.
          let ((evt, live, any), rest) = linked.live w watch at_w in
          apart_if_fresh e watch.event evt s.events fresh live) in
        sym nothing ∙ sym empty ∙ ap (λ q. chain (of_event q) s.watches) is
    | inr other ↦ linked.by_event p evt (ground (arith, at_p, other))
  ];
  by_listener = linked.by_listener;
  live = λ w watch at_w.
      let ((evt, live, any), rest) = linked.live w watch at_w in
      ((evt, at_new e watch.event _ evt s.events fresh live, any), rest);
}

-- afb_evt_create_event does not fault and its search for a number ends, with fewer than 2^31 - 1026
-- events.
pub create_event-Linked :
    (s : Store) (allocated : Option ℕ) (name : Str)
    → Linked s
    → IsFresh allocated s.events
    → length s.events + 2 < int_limit - 1024
    → (s' : Store) × (given : Option ℕ) × (create_event allocated name s ≡ some (s', given))
      × Linked s'
unfolding create_event
create_event-Linked s none name linked fresh few =
    let (id, now, found) = choose_id_ends s.counter s.wrapped s.events linked.numbered.0 few in
    let (numbered, absent, positive) =
      choose_id-IsNumbered (length s.events + 1) s.counter s.wrapped s.events id now found
        linked.numbered in
    (
      record s { counter = id; wrapped = now },
      none,
      rw (found, create_event) refl,
      record {
        events_distinct = linked.events_distinct;
        listeners_distinct = linked.listeners_distinct;
        watches_distinct = linked.watches_distinct;
        numbered = numbered;
        by_event = linked.by_event;
        by_listener = linked.by_listener;
        live = linked.live;
      },
    )
create_event-Linked s (some e) name linked fresh few =
    let (id, now, found) = choose_id_ends s.counter s.wrapped s.events linked.numbered.0 few in
    let (numbered, absent, positive) =
      choose_id-IsNumbered (length s.events + 1) s.counter s.wrapped s.events id now found
        linked.numbered in
    (
      record s {
        counter = id;
        wrapped = now;
        events = (e, record { watchs = []; id = id; name = name }) ∷ s.events;
      },
      some e,
      rw (found, create_event) refl,
      new_event-Linked s e id now name linked fresh numbered absent positive,
    )

pub listener_addref-Linked :
    (s : Store) (p : ℕ) (l : Listener)
    → Linked s
    → at p s.listeners ≡ some l
    → (s' : Store) × (listener_addref p s ≡ some s') × Linked s'
unfolding listener_addref
listener_addref-Linked s p l linked here = (
  _,
  rw (here, listener_addref) refl,
  write_listener-Linked s p l (record l { refcount = l.refcount + 1 }) linked here refl refl,
)

find_listener-at :
    (itf : Itf) (closure : ℕ) (ls : List (ℕ × Listener)) (p : ℕ)
    → find_listener itf closure ls ≡ some p
    → Distinct ls
    → (l : Listener) × (at p ls ≡ some l)
unfolding find_listener at Distinct
find_listener-at itf closure [] p e distinct = ground (arith, e)
find_listener-at itf closure ((q, l) ∷ ls) p e (alone, distinct) =
    elim (Bool-cases ((l.itf.address == itf.address) && (l.closure == closure))) [
      | inl mine ↦ (l, ground (arith, e, mine))
      | inr other ↦
          let (l', there) = find_listener-at itf closure ls p (ground (arith, e, other)) distinct in
          (l', ground (arith, alone, there))
    ]

new_listener-Linked :
    (s : Store) (p : ℕ) (l : Listener)
    → Linked s
    → at p s.listeners ≡ none
    → l.watchs ≡ []
    → Linked (record s { listeners = (p, l) ∷ s.listeners })
unfolding Distinct Chains at
new_listener-Linked s p l linked fresh no_watches = record {
  events_distinct = linked.events_distinct;
  listeners_distinct = (fresh, linked.listeners_distinct);
  watches_distinct = linked.watches_distinct;
  numbered = linked.numbered;
  by_event = linked.by_event;
  by_listener = λ q other at_q. elim (Bool-cases (p == q)) [
    | inl same ↦
        let is : p ≡ q = ground (arith, same) in
        let now : l ≡ other = ground (arith, at_q, same) in
        let empty = chain_none (of_listener p) s.watches linked.watches_distinct (λ w watch at_w.
          let (rest, (listener, live, pushes)) = linked.live w watch at_w in
          apart_if_fresh p watch.listener listener s.listeners fresh live) in
        ap (λ x. x.watchs) (sym now)
        ∙ no_watches
        ∙ sym empty
        ∙ ap (λ r. chain (of_listener r) s.watches) is
    | inr apart ↦ linked.by_listener q other (ground (arith, at_q, apart))
  ];
  live = λ w watch at_w.
      let (rest, (listener, live, pushes)) = linked.live w watch at_w in
      (rest, (listener, at_new p watch.listener _ listener s.listeners fresh live, pushes));
}

known_listener-Linked :
    (s : Store) (allocated : Option ℕ) (itf : Itf) (closure p : ℕ)
    → Linked s
    → find_listener itf closure s.listeners ≡ some p
    → (s' : Store) × (given : Option ℕ) × (listener_create allocated itf closure s
        ≡ some (s', given))
      × Linked s'
unfolding listener_create
known_listener-Linked s allocated itf closure p linked found =
    let (l, here) = find_listener-at itf closure s.listeners p found linked.listeners_distinct in
    let (s', run, linked') = listener_addref-Linked s p l linked here in
    (s', some p, rw (found, listener_create) (rw run refl), linked')

pub listener_create-Linked :
    (s : Store) (allocated : Option ℕ) (itf : Itf) (closure : ℕ)
    → Linked s
    → IsFresh allocated s.listeners
    → (s' : Store) × (given : Option ℕ) × (listener_create allocated itf closure s
        ≡ some (s', given))
      × Linked s'
unfolding listener_create
listener_create-Linked s none itf closure linked fresh =
    elim (Option-cases (find_listener itf closure s.listeners)) [
      | inr (p, found) ↦ known_listener-Linked s none itf closure p linked found
      | inl unknown ↦ (s, none, rw (unknown, listener_create) refl, linked)
    ]
listener_create-Linked s (some q) itf closure linked fresh =
    elim (Option-cases (find_listener itf closure s.listeners)) [
      | inr (p, found) ↦ known_listener-Linked s (some q) itf closure p linked found
      | inl unknown ↦
          let l : Listener = record { itf = itf; closure = closure; watchs = []; refcount = 1 } in
          (
            _,
            some q,
            rw (unknown, listener_create) refl,
            new_listener-Linked s q l linked fresh refl,
          )
    ]
