-- ===== src/Session/Histories.antt =====
-- The store of sessions under any history of calls, from ctxStoreInit on.
use mathlib.Core.Path.{subst}
use mathlib.Core.Option.{some-injective}
use app_framework_binder.Base.{
  ℕ, ◌+◌, ◌≤◌, ◌<◌, ◌≡◌, inl, inr, Bool, Option, none, some, ltb, length, length-replicate,
  replicate, arith, Bool-cases,
}
use app_framework_binder.Base.Text.{Str}
use app_framework_binder.Session.Data.{Session, World, M, u32_mod}
use app_framework_binder.Session.Slots.Counts.{used-le-length, occurs-replicate, used-replicate}
use app_framework_binder.Session.Table.{IsTable, IsValid}
use app_framework_binder.Session.Closing.{client_close_run, client_close-IsValid}
use app_framework_binder.Session.Expiry.{store_clean_up_lem}
use app_framework_binder.Session.Entering.{IsUnused}
use app_framework_binder.Session.Acquire.{
  IsCountable, client_get_session-IsValid, client_create-IsValid,
}
use app_framework_binder.Session.References.{Runs, client_operations-IsValid}
use app_framework_binder.Session.Store.{client_value_set, client_close, store_clean_up}
use app_framework_binder.Session.Create.{store_init, client_create, client_get_session}
use app_framework_binder.Session.Clients.{
  client_add_ref, client_unref, token_new, client_set_loa, client_cookie_set,
}

-- The world before the store is set up: no session, and nothing allocated.
pub record IsBlank (w : World) : Type 0 where
  pub empty : (p : ℕ) → w.heap p ≡ none
  pub nothing : w.count ≡ 0

-- One call of an operation that answers, as the program may make it: on live sessions, dropping
-- only references that are counted, with generated uuids that are new; or the time moves on.
pub data Step (w w' : World) : Type 0 where
  get_session :
      (uuid : Option Str) (r : Option ℕ × Bool)
      → IsCountable w
      → (uuid ≡ none → IsUnused w (w.env.uuid w.draws))
      → client_get_session uuid w ≡ some (r, w')
      → Step w w'
  create :
      (uuid : Option Str) (timeout : ℕ) (r : Option ℕ)
      → (uuid ≡ none → IsUnused w (w.env.uuid w.draws))
      → client_create uuid timeout w ≡ some (r, w')
      → Step w w'
  close : (p : ℕ) (s : Session) → w.heap p ≡ some s → client_close p w ≡ some (tt, w') → Step w w'
  clean : (t : ℕ) → store_clean_up t w ≡ some (tt, w') → Step w w'
  add_ref :
      (p : ℕ) (s : Session) (r : Option ℕ)
      → w.heap p ≡ some s
      → s.refcount + 1 < u32_mod
      → client_add_ref (some p) w ≡ some (r, w')
      → Step w w'
  unref :
      (p : ℕ) (s : Session)
      → w.heap p ≡ some s
      → 0 < s.refcount
      → client_unref (some p) w ≡ some (tt, w')
      → Step w w'
  renew : (p : ℕ) (s : Session) → w.heap p ≡ some s → token_new p w ≡ some (tt, w') → Step w w'
  assure :
      (p loa : ℕ) (s : Session)
      → w.heap p ≡ some s
      → client_set_loa p loa w ≡ some (tt, w')
      → Step w w'
  set_value :
      (p index value : ℕ) (free_value : Option ℕ) (s : Session)
      → w.heap p ≡ some s
      → index < w.apicount
      → client_value_set p (some index) value free_value w ≡ some (tt, w')
      → Step w w'
  set_cookie :
      (p key value : ℕ) (free_value : Option ℕ) (s : Session) (done : Bool)
      → w.heap p ≡ some s
      → client_cookie_set p key value free_value w ≡ some (done, w')
      → Step w w'
  tick : (t : ℕ) → w.clock ≤ t → w' ≡ record w { clock = t } → Step w w'

pub data Reach (w : World) : World → Type 0 where
  here : Reach w w
  next : {u v : World} → Reach w u → Step u v → Reach w v

end-IsValid :
    {A : Type 0} (w w' : World) (m : M A) (r : A) → Runs w m → m w ≡ some (r, w') → IsValid w'
end-IsValid w w' m r (a, u, run, v) h = let same : u ≡ w' = cc (run, h) in subst IsValid same v

Step-IsValid : {w w' : World} → Step w w' → IsValid w → IsValid w'
Step-IsValid {w} {w'} (get_session uuid r small generated run) v =
    let (a, created, u, run', valid, _) = client_get_session-IsValid w uuid v small generated in
    end-IsValid w w' (client_get_session uuid) r ((a, created), u, run', valid) run
Step-IsValid {w} {w'} (create uuid timeout r generated run) v =
    let (a, u, run', valid, _) = client_create-IsValid w uuid timeout v generated in
    end-IsValid w w' (client_create uuid timeout) r (a, u, run', valid) run
Step-IsValid {w} {w'} (close p s e run) v =
    end-IsValid w w' (client_close p) tt
      (tt, _, client_close_run w p s v e, client_close-IsValid w p s v e) run
Step-IsValid {w} {w'} (clean t run) v =
    let (u, run', closer, _, _) = store_clean_up_lem t w v in
    end-IsValid w w' (store_clean_up t) tt (tt, u, run', closer.valid) run
Step-IsValid {w} {w'} (add_ref p s r e small run) v =
    end-IsValid w w' (client_add_ref (some p)) r ((client_operations-IsValid w p s v e).0 small) run
Step-IsValid {w} {w'} (unref p s e held run) v =
    end-IsValid w w' (client_unref (some p)) tt ((client_operations-IsValid w p s v e).1 held) run
Step-IsValid {w} {w'} (renew p s e run) v =
    end-IsValid w w' (token_new p) tt (client_operations-IsValid w p s v e).2 run
Step-IsValid {w} {w'} (assure p loa s e run) v =
    end-IsValid w w' (client_set_loa p loa) tt ((client_operations-IsValid w p s v e).3 loa) run
Step-IsValid {w} {w'} (set_value p index value free_value s e h run) v =
    end-IsValid w w' (client_value_set p (some index) value free_value) tt
      ((client_operations-IsValid w p s v e).4 index value free_value h) run
Step-IsValid {w} {w'} (set_cookie p key value free_value s done e run) v =
    end-IsValid w w' (client_cookie_set p key value free_value) done
      ((client_operations-IsValid w p s v e).5 key value free_value) run
Step-IsValid {w} {w'} (tick t later e) v = rw e v

Reach-IsValid : {w w' : World} → IsValid w → Reach w w' → IsValid w'
Reach-IsValid v here = v
Reach-IsValid v (next r st) = Step-IsValid st (Reach-IsValid v r)

blank-IsTable :
    (w : World) (max apicount : ℕ)
    → IsBlank w
    → IsTable w.heap (replicate max none) w.count w.next max apicount
blank-IsTable w max apicount b = record {
  slots = λ p. rw (b.empty p) (occurs-replicate p max);
  counted = omega (arith, b.nothing, used-replicate max);
  sized = length-replicate max none;
  fresh = λ p _. b.empty p;
  arrays = λ p s e. absurd (ground (arith, b.empty p));
  held = λ p s e _. absurd (ground (arith, b.empty p));
  distinct = λ p q s t e _ _ _. absurd (ground (arith, b.empty p));
}

pub store_init-IsValid :
    (w w' : World) (max timeout apicount : ℕ) (initok : Option Str)
    → IsBlank w
    → store_init max timeout initok apicount w ≡ some w'
    → IsValid w'
unfolding store_init
store_init-IsValid w w' max timeout apicount none b h =
    subst IsValid (some-injective _ _ h) (blank-IsTable w max apicount b)
store_init-IsValid w w' max timeout apicount (some initok) b h =
    elim (Bool-cases (ltb (length initok) 37)) [
      | inl fit ↦ subst IsValid (some-injective _ _ (rw fit at h)) (blank-IsTable w max apicount b)
      | inr long ↦ absurd (ground arith)
    ]

-- From a store that ctxStoreInit has set up in a blank world, every history of calls that change the
-- store keeps it valid: each live session stands in exactly one slot and each slot in use holds a live
-- session, `count` is the number of slots in use and at most `max`, a closed session is still
-- referenced, and two open sessions never share a uuid. The calls are ctxClientCreate,
-- ctxClientGetSession, ctxClientClose, ctxClientAddRef, ctxClientUnref, ctxTokenNew, ctxClientSetLOA,
-- ctxClientValueSet, ctxClientCookieSet and the cleaning of the store, on live sessions, as time goes on.
-- A uuid that is generated is new, a reference is taken only while the counts are below 2^32 - 1 and
-- dropped only where one is counted, and a value is set only at the index of an API.
pub histories-IsValid :
    (w w' w'' : World) (max timeout apicount : ℕ) (initok : Option Str)
    → IsBlank w
    → store_init max timeout initok apicount w ≡ some w'
    → Reach w' w''
    → IsValid w'' × (w''.count ≤ w''.max)
histories-IsValid w w' w'' max timeout apicount initok b h r =
    let v = Reach-IsValid (store_init-IsValid w w' max timeout apicount initok b h) r in
    (v, omega (arith, v.counted, v.sized, used-le-length w''.store))
