-- ===== src/Events/Destroying.antt =====
-- The end of an event and of a listener: their watches go with them.
use app_framework_binder.Base.{
  ℕ, zero, suc, ◌+◌, ◌-◌, ◌<◌, ◌≡◌, refl, sym, ap, ◌∙◌, Bool, true, false, Option, none, some, List,
  [], ◌∷◌, ◌==◌, length, inl, inr, arith, List-cases,
}
use app_framework_binder.Events.Structs.{
  at, write, free, chain, others, others-free, others_all, length-chain-free, at-chain_nil,
  at-write, at-free_other, at-free, free-Distinct, chain_first,
}
use app_framework_binder.Events.Store.{
  Listener, Evt, Watch, Store, remove_watch, drop_watches, watches_of_event, watches_of_listener,
  evt_destroy, listener_unref,
}
use app_framework_binder.Events.Ids.{free-IsNumbered}
use app_framework_binder.Events.Links.{
  of_event, of_listener, Chains, free-Chains, Linked, IsEvt, write_keeps, write_listener-Linked,
  watch_removed, remove_watch-Linked,
}

drop_watches-run :
    (watches_of : Store → Option (List ℕ)) (fuel : ℕ) (s : Store) (w : ℕ) (links : List ℕ)
    (s' : Store)
    → watches_of s ≡ some (w ∷ links)
    → remove_watch w s ≡ some s'
    → drop_watches watches_of (suc fuel) s ≡ drop_watches watches_of fuel s'
unfolding drop_watches
drop_watches-run watches_of fuel s w links s' reads removes = ground (arith, reads, removes)

-- The loops over the watches of something that is there and stays there.
module _ (watches_of : Store → Option (List ℕ)) (test : Watch → Bool) (IsThere : Store → Type 0)
    (reads : (s : Store) → Linked s → IsThere s → watches_of s ≡ some (chain test s.watches))
    (stays : (s : Store) (w : ℕ) (watch : Watch) (evt : Evt) (l : Listener)
      → at watch.event s.events ≡ some evt
      → at watch.listener s.listeners ≡ some l
      → IsThere s
      → IsThere (watch_removed w watch evt l s)) where
  drop_watches_lem :
      (fuel : ℕ) (s : Store)
      → Linked s
      → IsThere s
      → length (chain test s.watches) < fuel
      → (s' : Store) × (drop_watches watches_of fuel s ≡ some s')
        × Linked s'
        × IsThere s'
        × (chain test s'.watches ≡ [])
        × (s'.watches ≡ others test s.watches)
  unfolding drop_watches
  drop_watches_lem zero s linked there enough = absurd (omega arith)
  drop_watches_lem (suc fuel) s linked there enough = elim (List-cases (chain test s.watches)) [
    | inl nil ↦ (
      s,
      rw (reads s linked there, nil, drop_watches) refl,
      linked,
      there,
      nil,
      sym (others_all test s.watches nil),
    )
    | inr (w, links, e) ↦
        let (watch, here, passes) = chain_first test s.watches w links linked.watches_distinct e in
        let (evt, l, e_here, l_here, run, linked') = remove_watch-Linked s w watch linked here in
        let s' = watch_removed w watch evt l s in
        let there' = stays s w watch evt l e_here l_here there in
        let shorter = length-chain-free test w s.watches watch here passes in
        let (s″, ran, linked″, there″, nil, left) =
          drop_watches_lem fuel s' linked' there' (omega (arith, shorter, enough)) in
        let step =
          drop_watches-run watches_of fuel s w links s' (reads s linked there ∙ ap some e) run in
        (
          s″,
          step ∙ ran,
          linked″,
          there″,
          nil,
          left ∙ others-free test w s.watches watch here passes,
        )
  ]

abbrev IsListener : Listener → Type 0
IsListener l = Unit {0}

abbrev HasEvent : ℕ → Store → Type 0
HasEvent e s = (evt : Evt) × (at e s.events ≡ some evt) × IsEvt evt

abbrev HasListener : ℕ → Store → Type 0
HasListener p s = (l : Listener) × (at p s.listeners ≡ some l) × IsListener l

read_event :
    (e : ℕ) (s : Store)
    → Linked s
    → HasEvent e s
    → watches_of_event e s ≡ some (chain (of_event e) s.watches)
unfolding Chains
read_event e s linked (evt, here, any) =
    rw (here, watches_of_event) (ap some (linked.by_event e evt here))

read_listener :
    (p : ℕ) (s : Store)
    → Linked s
    → HasListener p s
    → watches_of_listener p s ≡ some (chain (of_listener p) s.watches)
unfolding Chains
read_listener p s linked (l, here, any) =
    rw (here, watches_of_listener) (ap some (linked.by_listener p l here))

-- Destroying an event that is in the list does not fault: it and its watches are freed, the other
-- watches stay, and the chains are right.
pub evt_destroy-Linked :
    (s : Store) (e : ℕ) (evt : Evt)
    → Linked s
    → at e s.events ≡ some evt
    → (s' : Store) × (evt_destroy e s ≡ some s')
      × Linked s'
      × (at e s'.events ≡ none)
      × (s'.watches ≡ others (of_event e) s.watches)
unfolding evt_destroy Chains
evt_destroy-Linked s e evt linked here =
    let links = linked.by_event e evt here in
    let (s', ran, linked', (evt', there, any), nil, left) =
      drop_watches_lem (watches_of_event e) (of_event e) (HasEvent e) (read_event e)
        (λ s w watch evt l e_here l_here there.
          write_keeps IsEvt watch.event e _ evt s.events e_here (λ c at_c any. tt) there)
        (length evt.watchs + 1) s linked (evt, here, tt) (omega (arith, ap length links)) in
    (
      record s' { events = free e s'.events },
      rw (here, ran, evt_destroy) refl,
      record {
        events_distinct = free-Distinct e s'.events linked'.events_distinct;
        listeners_distinct = linked'.listeners_distinct;
        watches_distinct = linked'.watches_distinct;
        numbered = free-IsNumbered e s'.counter s'.wrapped s'.events linked'.numbered;
        by_event =
            free-Chains (λ evt. evt.watchs) of_event e s'.events s'.watches linked'.events_distinct
              linked'.by_event;
        by_listener = linked'.by_listener;
        live = λ w watch at_w.
            let ((evt, e_live, any), listener_live) = linked'.live w watch at_w in
            let apart : (watch.event == e) ≡ false =
              at-chain_nil (of_event e) w s'.watches watch nil at_w in
            ((evt, at-free_other e watch.event s'.events apart ∙ e_live, any), listener_live);
      },
      at-free e s'.events linked'.events_distinct,
      left,
    )

listener_unref-run :
    (s : Store) (p : ℕ) (l : Listener) (s' : Store)
    → at p s.listeners ≡ some l
    → l.refcount ≡ 1
    → drop_watches
        (watches_of_listener p)
        (length l.watchs + 1)
        (record s { listeners = write p (record l { refcount = l.refcount - 1 }) s.listeners })
      ≡ some s'
    → listener_unref p s ≡ some (record s' { listeners = free p s'.listeners })
unfolding listener_unref
listener_unref-run s p l s' here last ran =
    let one : (l.refcount == 1) ≡ true = ground (arith, last) in
    rw (here, listener_unref) (rw one (rw ran refl))

-- A reference on a listener is given back: the last one frees the listener and its watches, the others
-- stay, and the chains are right.
pub listener_unref-Linked :
    (s : Store) (p : ℕ) (l : Listener)
    → Linked s
    → at p s.listeners ≡ some l
    → l.refcount ≡ 1
    → (s' : Store) × (listener_unref p s ≡ some s')
      × Linked s'
      × (at p s'.listeners ≡ none)
      × (s'.watches ≡ others (of_listener p) s.watches)
unfolding listener_unref Chains
listener_unref-Linked s p l linked here last =
    let links = linked.by_listener p l here in
    let v = record l { refcount = l.refcount - 1 } in
    let s₁ = record s { listeners = write p v s.listeners } in
    let linked₁ = write_listener-Linked s p l v linked here refl refl in
    let (s', ran, linked', (l', there, any), nil, left) =
      drop_watches_lem (watches_of_listener p) (of_listener p) (HasListener p) (read_listener p)
        (λ s w watch evt l e_here l_here there.
          write_keeps IsListener watch.listener p _ l s.listeners l_here (λ c at_c any. tt) there)
        (length l.watchs + 1) s₁ linked₁ (v, at-write p v s.listeners l here, tt)
        (omega (arith, ap length links)) in
    (
      record s' { listeners = free p s'.listeners },
      listener_unref-run s p l s' here last ran,
      record {
        events_distinct = linked'.events_distinct;
        listeners_distinct = free-Distinct p s'.listeners linked'.listeners_distinct;
        watches_distinct = linked'.watches_distinct;
        numbered = linked'.numbered;
        by_event = linked'.by_event;
        by_listener =
            free-Chains (λ l. l.watchs) of_listener p s'.listeners s'.watches
              linked'.listeners_distinct linked'.by_listener;
        live = λ w watch at_w.
            let (event_live, (l, l_live, pushes)) = linked'.live w watch at_w in
            let apart : (watch.listener == p) ≡ false =
              at-chain_nil (of_listener p) w s'.watches watch nil at_w in
            (event_live, (l, at-free_other p watch.listener s'.listeners apart ∙ l_live, pushes));
      },
      at-free p s'.listeners linked'.listeners_distinct,
      left,
    )
