-- ===== src/Events/Links.antt =====
-- The chains of the events and of the listeners hold exactly the watches that are theirs.
use app_framework_binder.Base.{
  ℕ, ◌≡◌, refl, sym, ap, ◌∙◌, Bool, true, false, ◌&&◌, not, some, List, ◌==◌, inl, inr, arith,
  Bool-cases,
}
use app_framework_binder.Events.Structs.{
  at, write, free, unlink, chain, Distinct, at-write, at-write_other, at-free_other, at-free,
  write-Distinct, free-Distinct, unlink-chain, chain-free_other,
}
use app_framework_binder.Events.Store.{Listener, Evt, Watch, remove_note, Store, tell, remove_watch}
use app_framework_binder.Events.Ids.{IsNumbered, write-IsNumbered}

abbrev pub of_event : ℕ → Watch → Bool
of_event e watch = watch.event == e

abbrev pub of_listener : ℕ → Watch → Bool
of_listener p watch = watch.listener == p

module _ {A : Type 0} (links : A → List ℕ) (of : ℕ → Watch → Bool) where
  -- Each structure has the chain of its watches.
  unfoldable pub Chains : List (ℕ × A) → List (ℕ × Watch) → Type 0
  Chains xs watches = (p : ℕ) (a : A) → at p xs ≡ some a → links a ≡ chain (of p) watches

  pub write-Chains :
      (p : ℕ) (v a : A) (xs : List (ℕ × A)) (watches watches' : List (ℕ × Watch))
      → Chains xs watches
      → at p xs ≡ some a
      → links v ≡ chain (of p) watches'
      → ((q : ℕ) → (q == p) ≡ false → chain (of q) watches' ≡ chain (of q) watches)
      → Chains (write p v xs) watches'
  unfolding Chains
  write-Chains p v a xs watches watches' chains here new others q b e = elim (Bool-cases (q == p)) [
    | inl same ↦
        let here_too : q ≡ p = ground (arith, same) in
        let now : v ≡ b = ground (arith, at-write p v xs a here, e, here_too) in
        sym (ap links now) ∙ new ∙ ap (λ r. chain (of r) watches') (sym here_too)
    | inr other ↦ chains q b (sym (at-write_other p q v xs other) ∙ e) ∙ sym (others q other)
  ]

  pub free-Chains :
      (p : ℕ) (xs : List (ℕ × A)) (watches : List (ℕ × Watch))
      → Distinct xs
      → Chains xs watches
      → Chains (free p xs) watches
  unfolding Chains
  free-Chains p xs watches distinct chains q b e = elim (Bool-cases (q == p)) [
    | inl same ↦
        let here_too : q ≡ p = ground (arith, same) in
        absurd (ground (arith, at-free p xs distinct, e, here_too))
    | inr other ↦ chains q b (sym (at-free_other p q xs other) ∙ e)
  ]

abbrev pub IsEvt : Evt → Type 0
IsEvt evt = Unit {0}

abbrev pub HasPush : Listener → Type 0
HasPush l = l.itf.has_push ≡ true

-- What each watch rests on.
abbrev pub Live : Store → ℕ → Watch → Type 0
Live s w watch =
    ((evt : Evt) × (at watch.event s.events ≡ some evt) × IsEvt evt)
    × ((l : Listener) × (at watch.listener s.listeners ≡ some l) × HasPush l)

-- No address is used twice; the events are numbered; each event and each listener has the chain of the watches that are its own,
-- the last made first, and each watch has an event and a listener, which has a callback for pushes.
pub record Linked (s : Store) : Type 0 where
  pub events_distinct : Distinct s.events
  pub listeners_distinct : Distinct s.listeners
  pub watches_distinct : Distinct s.watches
  pub numbered : IsNumbered s.counter s.wrapped s.events
  pub by_event : Chains (λ evt. evt.watchs) of_event s.events s.watches
  pub by_listener : Chains (λ l. l.watchs) of_listener s.listeners s.watches
  pub live : (w : ℕ) (watch : Watch) → at w s.watches ≡ some watch → Live s w watch

-- The store once a watch is removed.
abbrev pub watch_removed : ℕ → Watch → Evt → Listener → Store → Store
watch_removed w watch evt l s = record s {
  events =
      write watch.event (record evt { watchs = chain (of_event watch.event) (free w s.watches) })
        s.events;
  listeners =
      write watch.listener
        (record l { watchs = chain (of_listener watch.listener) (free w s.watches) }) s.listeners;
  watches = free w s.watches;
  notes =
      tell (not (watch.activity == 0) && l.itf.has_remove) (remove_note l.closure evt.name evt.id)
        s.notes;
}

remove_watch-run :
    (s : Store) (w : ℕ) (watch : Watch) (evt : Evt) (l : Listener)
    → Linked s
    → at w s.watches ≡ some watch
    → at watch.event s.events ≡ some evt
    → at watch.listener s.listeners ≡ some l
    → remove_watch w s ≡ some (watch_removed w watch evt l s)
unfolding remove_watch Chains
remove_watch-run s w watch evt l linked here e_here l_here =
    let by_event = linked.by_event watch.event evt e_here in
    let by_listener = linked.by_listener watch.listener l l_here in
    let self_e : of_event watch.event watch ≡ true = ground arith in
    let self_l : of_listener watch.listener watch ≡ true = ground arith in
    let out_e =
      ap (unlink w) by_event ∙ unlink-chain (of_event watch.event) w s.watches watch here self_e in
    let out_l =
      ap (unlink w) by_listener
      ∙ unlink-chain (of_listener watch.listener) w s.watches watch here self_l in
    rw (here, e_here, l_here, out_e, out_l, remove_watch) refl

-- A structure that can be read still can when one of its list is written, with what holds of it.
pub write_keeps :
    {A : Type 0} (P : A → Type 0) (p q : ℕ) (v a : A) (xs : List (ℕ × A))
    → at p xs ≡ some a
    → ((c : A) → at p xs ≡ some c → P c → P v)
    → (b : A) × (at q xs ≡ some b) × P b
    → (b : A) × (at q (write p v xs) ≡ some b) × P b
write_keeps P p q v a xs here good (b, there, also) = elim (Bool-cases (q == p)) [
  | inl same ↦
      let is : q ≡ p = ground (arith, same) in
      (
        v,
        ap (λ r. at r (write p v xs)) is ∙ at-write p v xs a here,
        good b (ap (λ r. at r xs) (sym is) ∙ there) also,
      )
  | inr other ↦ (b, at-write_other p q v xs other ∙ there, also)
]

pub at-free_some :
    {A : Type 0} (p q : ℕ) (xs : List (ℕ × A)) (b : A)
    → Distinct xs
    → at q (free p xs) ≡ some b
    → (at q xs ≡ some b) × ((q == p) ≡ false)
at-free_some p q xs b distinct e = elim (Bool-cases (q == p)) [
  | inl same ↦
      let is : q ≡ p = ground (arith, same) in absurd (ground (arith, at-free p xs distinct, e, is))
  | inr other ↦ (sym (at-free_other p q xs other) ∙ e, other)
]

watch_removed-Linked :
    (s : Store) (w : ℕ) (watch : Watch) (evt : Evt) (l : Listener)
    → Linked s
    → at w s.watches ≡ some watch
    → at watch.event s.events ≡ some evt
    → at watch.listener s.listeners ≡ some l
    → HasPush l
    → Linked (watch_removed w watch evt l s)
watch_removed-Linked s w watch evt l linked here e_here l_here pushes = record {
  events_distinct = write-Distinct watch.event _ s.events linked.events_distinct;
  listeners_distinct = write-Distinct watch.listener _ s.listeners linked.listeners_distinct;
  watches_distinct = free-Distinct w s.watches linked.watches_distinct;
  numbered =
      write-IsNumbered watch.event s.counter s.wrapped _ evt s.events e_here refl linked.numbered;
  by_event =
      write-Chains (λ evt. evt.watchs) of_event watch.event _ evt s.events s.watches
        (free w s.watches) linked.by_event e_here refl
        (λ q other. chain-free_other (of_event q) w s.watches watch here (ground (arith, other)));
  by_listener =
      write-Chains (λ l. l.watchs) of_listener watch.listener _ l s.listeners s.watches
        (free w s.watches) linked.by_listener l_here refl
        (λ q other.
          chain-free_other (of_listener q) w s.watches watch here (ground (arith, other)));
  live = λ v other at_v.
      let (was, apart) = at-free_some w v s.watches other linked.watches_distinct at_v in
      let (event_live, listener_live) = linked.live v other was in
      (
        write_keeps IsEvt watch.event other.event _ evt s.events e_here (λ c at_c any. tt)
            event_live,
        write_keeps HasPush watch.listener other.listener _ l s.listeners l_here
            (λ c at_c any. pushes) listener_live,
      );
}

-- Removing a watch that is allocated does not fault; it is freed, and the chains are right again.
pub remove_watch-Linked :
    (s : Store) (w : ℕ) (watch : Watch)
    → Linked s
    → at w s.watches ≡ some watch
    → (evt : Evt) × (l : Listener) × (at watch.event s.events ≡ some evt)
      × (at watch.listener s.listeners ≡ some l)
      × (remove_watch w s ≡ some (watch_removed w watch evt l s))
      × Linked (watch_removed w watch evt l s)
remove_watch-Linked s w watch linked here =
    let ((evt, e_here, any), (l, l_here, pushes)) = linked.live w watch here in
    (
      evt,
      l,
      e_here,
      l_here,
      remove_watch-run s w watch evt l linked here e_here l_here,
      watch_removed-Linked s w watch evt l linked here e_here l_here pushes,
    )

-- A listener that keeps its watches and its interface.
pub write_listener-Linked :
    (s : Store) (p : ℕ) (l v : Listener)
    → Linked s
    → at p s.listeners ≡ some l
    → v.watchs ≡ l.watchs
    → v.itf ≡ l.itf
    → Linked (record s { listeners = write p v s.listeners })
unfolding Chains
write_listener-Linked s p l v linked here same_watches same_itf = record {
  events_distinct = linked.events_distinct;
  listeners_distinct = write-Distinct p v s.listeners linked.listeners_distinct;
  watches_distinct = linked.watches_distinct;
  numbered = linked.numbered;
  by_event = linked.by_event;
  by_listener =
      write-Chains (λ l. l.watchs) of_listener p v l s.listeners s.watches s.watches
        linked.by_listener here (same_watches ∙ linked.by_listener p l here) (λ q other. refl);
  live = λ w watch at_w.
      let (event_live, listener_live) = linked.live w watch at_w in
      (
        event_live,
        write_keeps HasPush p watch.listener v l s.listeners here
            (λ c at_c pushes. ground (arith, at_c, here, pushes, same_itf)) listener_live,
      );
}
