-- ===== src/Events/Following.antt =====
-- A listener begins and ceases to watch an event: the chains stay right.
use app_framework_binder.Base.{
  ℕ, ◌+◌, ◌-◌, ◌%◌, ◌^◌, ◌≡◌, refl, ap, ◌∙◌, Bool, true, false, ◌&&◌, ◌||◌, not, Option, none, some,
  List, ◌∷◌, ◌==◌, inl, inr, arith, Bool-cases,
}
use app_framework_binder.Events.Structs.{at, at-write}
use app_framework_binder.Events.Store.{
  Listener, Evt, Watch, add_note, remove_note, Store, Handle, tell,
}
use app_framework_binder.Events.Watching.{
  find_watch, activate, link_watch, watch_found, add_watch, deactivate, watch_left, unwatch,
}
use app_framework_binder.Events.Links.{of_listener, Chains, Linked, HasPush}
use app_framework_binder.Events.Watches.{
  chain_members, write_watch-Linked, new_watch, watch_linked, watch_linked-Linked,
}

at_first : (w : ℕ) (watch : Watch) (xs : List (ℕ × Watch)) → at w ((w, watch) ∷ xs) ≡ some watch
unfolding at
at_first w watch xs = ground arith

activate-Linked :
    (s : Store) (p e w : ℕ) (l : Listener) (evt : Evt) (watch : Watch)
    → Linked s
    → at p s.listeners ≡ some l
    → at e s.events ≡ some evt
    → at w s.watches ≡ some watch
    → (s' : Store) × (activate p e w s ≡ some s') × Linked s'
unfolding activate
activate-Linked s p e w l evt watch linked at_p at_e at_w = (
  _,
  rw (at_w, activate) (rw at_p (rw at_e refl)),
  write_watch-Linked s w watch ((watch.activity + 1) % 2 ^ 32) linked at_w
      (tell ((watch.activity == 0) && l.itf.has_add) (add_note l.closure evt.name evt.id) s.notes),
)

deactivate-Linked :
    (s : Store) (p e w : ℕ) (l : Listener) (evt : Evt) (watch : Watch)
    → Linked s
    → at p s.listeners ≡ some l
    → at e s.events ≡ some evt
    → at w s.watches ≡ some watch
    → (s' : Store) × (deactivate p e w s ≡ some s') × Linked s'
unfolding deactivate
deactivate-Linked s p e w l evt watch linked at_p at_e at_w = (
  _,
  rw (at_w, deactivate) (rw at_p (rw at_e refl)),
  write_watch-Linked s w watch (watch.activity - 1) linked at_w (
      tell ((watch.activity == 1) && l.itf.has_remove) (remove_note l.closure evt.name evt.id)
        s.notes),
)

-- What malloc gives: nothing, or an address that is not in use.
abbrev pub IsFresh : {A : Type 0} → Option ℕ → List (ℕ × A) → Type 0
IsFresh none xs = Unit {0}
IsFresh (some p) xs = at p xs ≡ none

watch_made-Linked :
    (s : Store) (allocated : Option ℕ) (p e : ℕ) (l : Listener) (evt : Evt)
    → Linked s
    → at p s.listeners ≡ some l
    → HasPush l
    → at e s.events ≡ some evt
    → IsFresh allocated s.watches
    → (s' : Store) × (done : Bool) × (watch_found allocated p e s none ≡ some (s', done))
      × Linked s'
unfolding watch_found link_watch
watch_made-Linked s none p e l evt linked at_p pushes at_e fresh = (s, false, refl, linked)
watch_made-Linked s (some w) p e l evt linked at_p pushes at_e fresh =
    let s₁ = watch_linked p e w l evt s in
    let linked₁ = watch_linked-Linked s p e w l evt linked at_p pushes at_e fresh in
    let (s', run, linked') =
      activate-Linked s₁ p e w _ _ (new_watch e p) linked₁ (at-write p _ s.listeners l at_p)
        (at-write e _ s.events evt at_e) (at_first w (new_watch e p) s.watches) in
    let linked_run : link_watch p e w s ≡ some s₁ = rw (at_p, link_watch) (rw at_e refl) in
    (s', true, rw (linked_run, watch_found) (rw run refl), linked')

add_watch-run :
    (s : Store) (allocated : Option ℕ) (p : ℕ) (event : Handle) (l : Listener) (found : Option ℕ)
    → at p s.listeners ≡ some l
    → (not event.ours || not l.itf.has_push) ≡ false
    → find_watch event.closure s.watches l.watchs ≡ some found
    → add_watch allocated p event s ≡ watch_found allocated p event.closure s found
unfolding add_watch
add_watch-run s allocated p event l found at_p allowed finds =
    rw (at_p, add_watch) (rw allowed (rw finds refl))

unwatch-run :
    (s : Store) (p : ℕ) (event : Handle) (l : Listener) (found : Option ℕ)
    → at p s.listeners ≡ some l
    → event.ours ≡ true
    → find_watch event.closure s.watches l.watchs ≡ some found
    → unwatch p event s ≡ watch_left p event.closure s found
unfolding unwatch
unwatch-run s p event l found at_p ours finds = rw (ours, unwatch) (rw at_p (rw finds refl))

-- With a listener and an event that are there, afb_evt_add_watch does not fault.
pub add_watch-Linked :
    (s : Store) (allocated : Option ℕ) (p : ℕ) (event : Handle) (l : Listener) (evt : Evt)
    → Linked s
    → at p s.listeners ≡ some l
    → at event.closure s.events ≡ some evt
    → IsFresh allocated s.watches
    → (s' : Store) × (done : Bool) × (add_watch allocated p event s ≡ some (s', done)) × Linked s'
unfolding add_watch watch_found Chains
add_watch-Linked s allocated p event l evt linked at_p at_e fresh =
    elim (Bool-cases (not event.ours || not l.itf.has_push)) [
      | inl refused ↦ (s, false, rw (at_p, add_watch) (rw refused refl), linked)
      | inr allowed ↦
          let pushes : HasPush l = ground (arith, allowed) in
          let e = event.closure in
          let links = linked.by_listener p l at_p in
          elim (chain_members (of_listener p) s.watches s.watches linked.watches_distinct
            (λ w watch at_w. at_w) e) [
              | inl nowhere ↦
                  let (s', done, run, linked') =
                    watch_made-Linked s allocated p e l evt linked at_p pushes at_e fresh in
                  (
                    s',
                    done,
                    add_watch-run s allocated p event l none at_p allowed
                          (ap (find_watch e s.watches) links ∙ nowhere)
                        ∙ run,
                    linked',
                  )
              | inr (w, watch, found, at_w, mine, same) ↦
                  let (s', run, linked') =
                    activate-Linked s p e w l evt watch linked at_p at_e at_w in
                  (
                    s',
                    true,
                    add_watch-run s allocated p event l (some w) at_p allowed
                          (ap (find_watch e s.watches) links ∙ found)
                        ∙ rw (run, watch_found) refl,
                    linked',
                  )
            ]
    ]

-- Nor does afb_evt_remove_watch.
pub unwatch-Linked :
    (s : Store) (p : ℕ) (event : Handle) (l : Listener) (evt : Evt)
    → Linked s
    → at p s.listeners ≡ some l
    → at event.closure s.events ≡ some evt
    → (s' : Store) × (done : Bool) × (unwatch p event s ≡ some (s', done)) × Linked s'
unfolding unwatch watch_left Chains
unwatch-Linked s p event l evt linked at_p at_e = elim (Bool-cases event.ours) [
  | inr other ↦ (s, false, rw (other, unwatch) refl, linked)
  | inl ours ↦
      let e = event.closure in
      let links = linked.by_listener p l at_p in
      elim (chain_members (of_listener p) s.watches s.watches linked.watches_distinct
        (λ w watch at_w. at_w) e) [
          | inl nowhere ↦ (
            s,
            false,
            unwatch-run s p event l none at_p ours (ap (find_watch e s.watches) links ∙ nowhere),
            linked,
          )
          | inr (w, watch, found, at_w, mine, same) ↦
              let (s', run, linked') =
                deactivate-Linked s p e w l evt watch linked at_p at_e at_w in
              (
                s',
                true,
                unwatch-run s p event l (some w) at_p ours
                      (ap (find_watch e s.watches) links ∙ found)
                    ∙ rw (run, watch_left) refl,
                linked',
              )
        ]
]
