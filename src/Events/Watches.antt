-- ===== src/Events/Watches.antt =====
-- A watch that is made or changes its activity: the chains stay right.
use app_framework_binder.Base.{
  ℕ, ◌≡◌, ◌⊎◌, refl, sym, ap, ◌∙◌, Bool, true, none, some, List, [], ◌∷◌, ◌==◌, inl, inr, arith,
  Bool-cases,
}
use app_framework_binder.Events.Structs.{
  at, write, chain, Distinct, at-write, at-write_other, write-Distinct, chain-write,
}
use app_framework_binder.Events.Store.{Listener, Evt, Watch, Note, Store}
use app_framework_binder.Events.Watching.{find_watch}
use app_framework_binder.Events.Ids.{write-IsNumbered}
use app_framework_binder.Events.Links.{
  of_event, of_listener, Chains, write-Chains, Linked, IsEvt, HasPush, write_keeps,
}

-- The structures of a chain are allocated, and pass.
pub chain_members :
    (test : Watch → Bool) (xs : List (ℕ × Watch)) (watches : List (ℕ × Watch))
    → Distinct xs
    → ((w : ℕ) (watch : Watch) → at w xs ≡ some watch → at w watches ≡ some watch)
    → (e : ℕ)
    → find_watch e watches (chain test xs) ≡ some none
      ⊎ ((w : ℕ) × (watch : Watch) × (find_watch e watches (chain test xs) ≡ some (some w))
          × (at w watches ≡ some watch)
          × (test watch ≡ true)
          × (watch.event ≡ e))
unfolding find_watch chain Distinct at
chain_members test [] watches distinct among e = inl refl
chain_members test ((w, watch) ∷ xs) watches (alone, distinct) among e =
    let first : at w watches ≡ some watch = among w watch (ground arith) in
    let later =
      chain_members test xs watches distinct
        (λ v other at_v. among v other (ground (arith, at_v, alone))) e in
    elim (Bool-cases (test watch)) [
      | inr fails ↦ rw fails later
      | inl passes ↦ elim (Bool-cases (watch.event == e)) [
        | inl same ↦
            inr (w, watch, ground (arith, passes, first, same), first, passes, ground (arith, same))
        | inr other ↦ elim later [
          | inl nowhere ↦ inl (ground (arith, passes, first, other, nowhere))
          | inr (v, found, e_found, there, fits, same) ↦
              inr (v, found, ground (arith, passes, first, other, e_found), there, fits, same)
        ]
      ]
    ]

-- A watch whose activity changes.
pub write_watch-Linked :
    (s : Store) (w : ℕ) (watch : Watch) (activity : ℕ)
    → Linked s
    → at w s.watches ≡ some watch
    → (notes : List Note)
    → Linked (record s {
      watches = write w (record watch { activity = activity }) s.watches;
      notes = notes;
    })
unfolding Chains
write_watch-Linked s w watch activity linked here notes =
    let v = record watch { activity = activity } in
    record {
      events_distinct = linked.events_distinct;
      listeners_distinct = linked.listeners_distinct;
      watches_distinct = write-Distinct w v s.watches linked.watches_distinct;
      numbered = linked.numbered;
      by_event = λ e evt at_e.
          linked.by_event e evt at_e ∙ sym (chain-write (of_event e) w v s.watches watch here refl);
      by_listener = λ p l at_p.
          linked.by_listener p l at_p
          ∙ sym (chain-write (of_listener p) w v s.watches watch here refl);
      live = λ u other at_u. elim (Bool-cases (u == w)) [
        | inl same ↦
            let is : u ≡ w = ground (arith, same) in
            let now : v ≡ other = ground (arith, at-write w v s.watches watch here, at_u, is) in
            rw (sym (ap (λ x. x.event) now), sym (ap (λ x. x.listener) now))
              (linked.live w watch here)
        | inr apart ↦ linked.live u other (sym (at-write_other w u v s.watches apart) ∙ at_u)
      ];
    }

abbrev pub new_watch : ℕ → ℕ → Watch
new_watch e p = record { event = e; listener = p; activity = 0 }

-- The store once a watch is made.
abbrev pub watch_linked : ℕ → ℕ → ℕ → Listener → Evt → Store → Store
watch_linked p e w l evt s = record s {
  watches = (w, new_watch e p) ∷ s.watches;
  events = write e (record evt { watchs = w ∷ evt.watchs }) s.events;
  listeners = write p (record l { watchs = w ∷ l.watchs }) s.listeners;
}

pub watch_linked-Linked :
    (s : Store) (p e w : ℕ) (l : Listener) (evt : Evt)
    → Linked s
    → at p s.listeners ≡ some l
    → HasPush l
    → at e s.events ≡ some evt
    → at w s.watches ≡ none
    → Linked (watch_linked p e w l evt s)
unfolding Chains chain Distinct at
watch_linked-Linked s p e w l evt linked at_p pushes at_e fresh = record {
  events_distinct = write-Distinct e _ s.events linked.events_distinct;
  listeners_distinct = write-Distinct p _ s.listeners linked.listeners_distinct;
  watches_distinct = (fresh, linked.watches_distinct);
  numbered = write-IsNumbered e s.counter s.wrapped _ evt s.events at_e refl linked.numbered;
  by_event =
      write-Chains (λ evt. evt.watchs) of_event e _ evt s.events s.watches
        ((w, new_watch e p) ∷ s.watches) linked.by_event at_e
        (ground (arith, linked.by_event e evt at_e)) (λ q other. ground (arith, other));
  by_listener =
      write-Chains (λ l. l.watchs) of_listener p _ l s.listeners s.watches
        ((w, new_watch e p) ∷ s.watches) linked.by_listener at_p
        (ground (arith, linked.by_listener p l at_p)) (λ q other. ground (arith, other));
  live = λ v other at_v. elim (Bool-cases (w == v)) [
    | inl same ↦
        let now : new_watch e p ≡ other = ground (arith, same, at_v) in
        rw (sym (ap (λ x. x.event) now), sym (ap (λ x. x.listener) now))
          ((_, at-write e _ s.events evt at_e, tt), (_, at-write p _ s.listeners l at_p, pushes))
    | inr apart ↦
        let (event_live, listener_live) = linked.live v other (ground (arith, apart, at_v)) in
        (
          write_keeps IsEvt e other.event _ evt s.events at_e (λ c at_c any. tt) event_live,
          write_keeps HasPush p other.listener _ l s.listeners at_p (λ c at_c any. pushes)
              listener_live,
        )
  ];
}
