-- ===== src/Events/Pushing.antt =====
-- A push reaches the listeners that watch the event.
use app_framework_binder.Base.{
  ℕ, ◌+◌, ◌≡◌, refl, sym, ap, ◌∙◌, Bool, true, ◌&&◌, not, none, some, List, [], ◌∷◌, ◌==◌,
  if◌then◌else◌, inl, inr, arith, Bool-cases,
}
use app_framework_binder.Events.Structs.{at, chain, Distinct}
use app_framework_binder.Events.Store.{
  Listener, Evt, Watch, Note, push_note, Store, tell, push_from, evt_push,
}
use app_framework_binder.Events.Links.{of_event, Chains, Linked}

-- The watches of an event in a list, and those of them that are active.
abbrev pub is_active_of : ℕ → Watch → Bool
is_active_of e watch = of_event e watch && not (watch.activity == 0)

unfoldable pub count_of : (Watch → Bool) → List (ℕ × Watch) → ℕ
count_of test [] = 0
count_of test ((w, watch) ∷ ws) =
    let rest = count_of test ws in if test watch then rest + 1 else rest

-- The closure of a listener.
abbrev pub closure_at : ℕ → Store → ℕ
closure_at p s = elim (at p s.listeners) [ none ↦ 0 | some l ↦ l.closure ]

-- Each active watch of the event, from the first on, brings one call of its listener.
unfoldable pub told_all : Store → ℕ → Evt → List (ℕ × Watch) → List Note → List Note
told_all s e evt [] notes = notes
told_all s e evt ((w, watch) ∷ ws) notes =
    told_all s e evt ws
      (tell (is_active_of e watch) (push_note (closure_at watch.listener s) evt.name evt.id) notes)

closure_at_lem :
    (s : Store) (p : ℕ) (l : Listener) → at p s.listeners ≡ some l → closure_at p s ≡ l.closure
closure_at_lem s p l at_l = rw (at_l, closure_at) refl

-- One turn of the loop.
push_from-run :
    (s : Store) (evt : Evt) (w : ℕ) (watch : Watch) (l : Listener) (ws : List ℕ)
    (notes called all : List Note) (count : ℕ)
    → at w s.watches ≡ some watch
    → at watch.listener s.listeners ≡ some l
    → l.itf.has_push ≡ true
    → called ≡ tell (not (watch.activity == 0)) (push_note l.closure evt.name evt.id) notes
    → push_from s evt ws called ≡ some (all, count)
    → push_from s evt (w ∷ ws) notes ≡ some (all, count + 1)
unfolding push_from
push_from-run s evt w watch l ws notes called all count at_w at_l pushes tells later =
    let next = ap (push_from s evt ws) (sym tells) ∙ later in
    rw (at_w, push_from) (rw at_l (rw pushes (rw next refl)))

push_from_lem :
    (s : Store) (e : ℕ) (evt : Evt) (xs : List (ℕ × Watch)) (notes : List Note)
    → Linked s
    → Distinct xs
    → ((w : ℕ) (watch : Watch) → at w xs ≡ some watch → at w s.watches ≡ some watch)
    → push_from s evt (chain (of_event e) xs) notes
      ≡ some (told_all s e evt xs notes, count_of (of_event e) xs)
unfolding push_from told_all count_of chain Distinct at
push_from_lem s e evt [] notes linked distinct among = refl
push_from_lem s e evt ((w, watch) ∷ xs) notes linked (alone, distinct) among =
    let here : at w s.watches ≡ some watch = among w watch (ground arith) in
    let (event_live, (l, at_l, pushes)) = linked.live w watch here in
    let closure = closure_at_lem s watch.listener l at_l in
    let rest : (w : ℕ) (watch : Watch) → at w xs ≡ some watch → at w s.watches ≡ some watch =
      λ v other at_v. among v other (ground (arith, at_v, alone)) in
    elim (Bool-cases (of_event e watch)) [
      | inl mine ↦
          let called =
            tell (not (watch.activity == 0))
              (push_note (closure_at watch.listener s) evt.name evt.id) notes in
          let later = push_from_lem s e evt xs called linked distinct rest in
          rw mine (
            push_from-run s evt w watch l (chain (of_event e) xs) notes called _ _ here at_l pushes
              (ap (λ c. tell (not (watch.activity == 0)) (push_note c evt.name evt.id) notes)
                closure)
              later)
      | inr other ↦ rw other (push_from_lem s e evt xs notes linked distinct rest)
    ]

-- A push of an event calls the listener of each watch of the event that is active, the last made first,
-- once, with the name and the number of the event, and no other listener. It gives the count of all the
-- watches of the event, of which some may not be active.
pub evt_push_lem :
    (s : Store) (e : ℕ) (evt : Evt)
    → Linked s
    → at e s.events ≡ some evt
    → evt_push e s
      ≡ some
          (record s { notes = told_all s e evt s.watches s.notes }, count_of (of_event e) s.watches)
unfolding evt_push Chains
evt_push_lem s e evt linked here =
    let links = linked.by_event e evt here in
    let pushed =
      push_from_lem s e evt s.watches s.notes linked linked.watches_distinct
        (λ w watch at_w. at_w) in
    rw (here, evt_push) (rw (ap (λ ws. push_from s evt ws s.notes) links ∙ pushed) refl)
