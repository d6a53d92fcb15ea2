-- ===== src/Session/Expiry.antt =====
-- What cleaning the store up does: the sessions whose time is over are closed, and no other.
use app_framework_binder.Base.{
  ℕ, zero, suc, ◌+◌, ◌≤◌, ◌<◌, ◌≡◌, ◌≢◌, inl, inr, refl, sym, ◌∙◌, Option, none, some, [], ◌==◌,
  ltb, get_elem?, arith, Bool-cases, get_elem?_lt, Option-cases,
}
use app_framework_binder.Session.Data.{Session, World}
use app_framework_binder.Session.Slots.Counts.{slot_of, get_elem?-del, get_elem?_bound, occurs_slot}
use app_framework_binder.Session.Table.{IsValid, live}
use app_framework_binder.Session.Closing.{client_close_run, client_close-IsValid, close_world}
use app_framework_binder.Session.Store.{store_too_old, clean_up_slot, clean_up_from, store_clean_up}

-- What the rest of the code may rely on after sessions were closed: the store is valid, what is
-- still open is as it was before, and nothing but sessions, slots and calls has changed.
pub record IsCloser (w w' : World) : Type 0 where
  pub valid : IsValid w'
  pub still : (q : ℕ) (s : Session) → w'.heap q ≡ some s → s.uuid ≢ [] → w.heap q ≡ some s
  pub referenced :
      (q : ℕ) (s : Session)
      → w'.heap q ≡ some s
      → (t : Session) × (w.heap q ≡ some t) × (s.refcount ≡ t.refcount)
  pub env : w'.env ≡ w.env
  pub clock : w'.clock ≡ w.clock
  pub draws : w'.draws ≡ w.draws
  pub allocs : w'.allocs ≡ w.allocs
  pub next : w'.next ≡ w.next
  pub initok : w'.initok ≡ w.initok
  pub timeout : w'.timeout ≡ w.timeout
  pub apicount : w'.apicount ≡ w.apicount
  pub max : w'.max ≡ w.max

IsCloser-refl : (w : World) → IsValid w → IsCloser w w
IsCloser-refl w v = record {
  valid = v;
  still = λ q s e h. e;
  referenced = λ q s e. (s, e, refl);
  env = refl;
  clock = refl;
  draws = refl;
  allocs = refl;
  next = refl;
  initok = refl;
  timeout = refl;
  apicount = refl;
  max = refl;
}

IsCloser-trans : (u v w : World) → IsCloser u v → IsCloser v w → IsCloser u w
IsCloser-trans u v w f g = record {
  valid = g.valid;
  still = λ q s e h. f.still q s (g.still q s e h) h;
  referenced = λ q s e.
      let (t, e', r) = g.referenced q s e in
      let (t', e'', r') = f.referenced q t e' in (t', e'', r ∙ r');
  env = g.env ∙ f.env;
  clock = g.clock ∙ f.clock;
  draws = g.draws ∙ f.draws;
  allocs = g.allocs ∙ f.allocs;
  next = g.next ∙ f.next;
  initok = g.initok ∙ f.initok;
  timeout = g.timeout ∙ f.timeout;
  apicount = g.apicount ∙ f.apicount;
  max = g.max ∙ f.max;
}

pub close_world-IsCloser :
    (w : World) (p : ℕ) (s : Session)
    → IsValid w
    → w.heap p ≡ some s
    → IsCloser w (close_world w p s)
unfolding close_world
close_world-IsCloser w p s v e = record {
  valid = client_close-IsValid w p s v e;
  still = λ q t f h. ground arith;
  referenced = λ q t f. elim (Bool-cases (q == p)) [
    | inl hit ↦ (s, ground arith, ground arith)
    | inr miss ↦ (t, ground arith, refl)
  ];
  env = ground arith;
  clock = ground arith;
  draws = ground arith;
  allocs = ground arith;
  next = ground arith;
  initok = ground arith;
  timeout = ground arith;
  apicount = ground arith;
  max = ground arith;
}

-- After closing, the session is gone or closed; the others and their slots are as they were.
close_world_gone :
    (w : World) (p : ℕ) (s t : Session)
    → w.heap p ≡ some s
    → (close_world w p s).heap p ≡ some t
    → t.uuid ≡ []
unfolding close_world
close_world_gone w p s t e f = ground arith

pub close_world_other :
    (w : World) (p q : ℕ) (s : Session) → q ≢ p → (close_world w p s).heap q ≡ w.heap q
unfolding close_world
close_world_other w p q s h = ground arith

close_world_slot :
    (w : World) (p q i : ℕ) (s : Session)
    → q ≢ p
    → get_elem? w.store i ≡ some (some q)
    → get_elem? (close_world w p s).store i ≡ some (some q)
unfolding close_world
close_world_slot w p q i s h e = ground (arith, get_elem?-del p q i w.store e h)

-- The open sessions whose time is over stand at `idx` or later.
abbrev Swept : ℕ → ℕ → World → Type 0
Swept t idx w =
    (q : ℕ) (s : Session)
    → w.heap q ≡ some s
    → s.uuid ≢ []
    → s.expiration < t
    → (i : ℕ) × (idx ≤ i) × (get_elem? w.store i ≡ some (some q))

-- What a number of rounds has done.
record Sweep (t idx : ℕ) (w w' : World) : Type 0 where
  closer : IsCloser w w'
  swept : Swept t idx w'
  kept : (q : ℕ) (s : Session) → w.heap q ≡ some s → t ≤ s.expiration → w'.heap q ≡ some s

pub live_at_slot :
    (w : World) (p i : ℕ)
    → IsValid w
    → get_elem? w.store i ≡ some (some p)
    → (s : Session) × (w.heap p ≡ some s)
live_at_slot w p i v e = elim (Option-cases (w.heap p)) [
  | inl dead ↦ absurd (ground (arith, v.slots p, occurs_slot p i w.store e))
  | inr found ↦ found
]

-- A round that leaves the world alone.
stay_Sweep :
    (t idx : ℕ) (w : World)
    → IsValid w
    → Swept t idx w
    → ((q : ℕ) (s : Session)
        → w.heap q ≡ some s
        → s.uuid ≢ []
        → s.expiration < t
        → get_elem? w.store idx ≢ some (some q))
    → Sweep t (suc idx) w w
stay_Sweep t idx w v swept fine = record {
  closer = IsCloser-refl w v;
  swept = λ q s e h old.
      let (i, le, at) = swept q s e h old in (i, ground (arith, fine q s e h old), at);
  kept = λ q s e _. e;
}

-- A round that closes the session of its slot.
close_Sweep :
    (t idx p : ℕ) (s : Session) (w : World)
    → IsValid w
    → Swept t idx w
    → get_elem? w.store idx ≡ some (some p)
    → w.heap p ≡ some s
    → s.expiration < t
    → Sweep t (suc idx) w (close_world w p s)
close_Sweep t idx p s w v swept at live old = record {
  closer = close_world-IsCloser w p s v live;
  swept = λ q u e h over.
      let other : q ≢ p = λ same. h (close_world_gone w p s u live (ground arith)) in
      let e' : w.heap q ≡ some u = sym (close_world_other w p q s other) ∙ e in
      let (i, le, there) = swept q u e' h over in
      (i, ground arith, close_world_slot w p q i s other there);
  kept = λ q u e young. ground (arith, close_world_other w p q s);
}

clean_up_slot_case :
    (t idx : ℕ) (w : World) (o : Option ℕ)
    → get_elem? w.store idx ≡ some o
    → IsValid w
    → Swept t idx w
    → (w' : World) × (clean_up_slot t idx w ≡ some (tt, w')) × Sweep t (suc idx) w w'
unfolding clean_up_slot store_too_old
clean_up_slot_case t idx w none at v swept =
    (w, ground arith, stay_Sweep t idx w v swept (λ q s e k o. ground arith))
clean_up_slot_case t idx w (some p) at v swept =
    let (s, live) = live_at_slot w p idx v at in
    elim (Bool-cases (ltb s.expiration t)) [
      | inl old ↦ (
        close_world w p s,
        ground (arith, client_close_run w p s v live),
        close_Sweep t idx p s w v swept at live (ground arith),
      )
      | inr young ↦ (w, ground arith, stay_Sweep t idx w v swept (λ q u e k o f. ground arith))
    ]

clean_up_slot_run :
    (t idx : ℕ) (w : World)
    → IsValid w
    → idx < w.max
    → Swept t idx w
    → (w' : World) × (clean_up_slot t idx w ≡ some (tt, w')) × Sweep t (suc idx) w w'
clean_up_slot_run t idx w v h swept =
    let (o, at) = get_elem?_lt w.store idx (omega (arith, v.sized)) in
    clean_up_slot_case t idx w o at v swept

clean_up_from_run :
    (t n idx fin : ℕ) (w : World)
    → IsValid w
    → idx + n ≡ fin
    → fin ≡ w.max
    → Swept t idx w
    → (w' : World) × (clean_up_from t n idx w ≡ some (tt, w')) × Sweep t fin w w'
unfolding clean_up_from
clean_up_from_run t zero idx fin w v h full swept =
    let e : idx ≡ fin = omega arith in
    (w, refl, record { closer = IsCloser-refl w v; swept = rw (← e) swept; kept = λ q s e _. e })
clean_up_from_run t (suc n) idx fin w v h full swept =
    let (u, run, one) = clean_up_slot_run t idx w v (omega arith) swept in
    let (w', later, rest) =
      clean_up_from_run t n (suc idx) fin u one.closer.valid (omega arith)
        (full ∙ sym one.closer.max) one.swept in
    (
      w',
      ground (arith, run, later),
      record {
        closer = IsCloser-trans w u w' one.closer rest.closer;
        swept = rest.swept;
        kept = λ q s e young. rest.kept q s (one.kept q s e young) young;
      },
    )

-- ctxStoreCleanUp never faults on a valid store. It closes every session whose expiration is
-- before `t`, leaves every other session exactly as it was, and keeps the store valid.
pub store_clean_up_lem :
    (t : ℕ) (w : World)
    → IsValid w
    → (w' : World) × (store_clean_up t w ≡ some (tt, w'))
      × IsCloser w w'
      × ((q : ℕ) (s : Session) → w'.heap q ≡ some s → s.uuid ≢ [] → t ≤ s.expiration)
      × ((q : ℕ) (s : Session) → w.heap q ≡ some s → t ≤ s.expiration → w'.heap q ≡ some s)
unfolding store_clean_up
store_clean_up_lem t w v =
    let (w', run, all) = clean_up_from_run t w.max 0 w.max w v (omega arith) refl (λ q s e _ _.
      let (i, at) = slot_of q w.store (ground (arith, v.slots q)) in (i, omega arith, at)) in
    (
      w',
      run,
      all.closer,
      (λ q s e h. elim (Bool-cases (ltb s.expiration t)) [
        | inl over ↦
            let (i, le, at) = all.swept q s e h (ground arith) in
            absurd
              (omega (arith, get_elem?_bound w'.store i at, all.closer.valid.sized, all.closer.max))
        | inr fine ↦ ground arith
      ]),
      all.kept,
    )
