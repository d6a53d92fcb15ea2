-- ===== src/Session/Table.antt =====
-- The invariant of the store of sessions, and the three ways in which the code changes the heap and
-- the slots: a session changes in place, leaves, or enters.
use app_framework_binder.Base.{
  ℕ, suc, ◌+◌, ◌-◌, ◌≤◌, ◌<◌, ◌≡◌, ◌≢◌, ◌⊎◌, sym, ◌∙◌, true, Option, none, some, List, [], length,
  arith,
}
use app_framework_binder.Session.Data.{Session, World, update}
use app_framework_binder.Session.Slots.{has, del, has_room, add}
use app_framework_binder.Session.Slots.Counts.{
  occurs, used, has_of_occurs, occurs-del, used-del, length-del, occurs-add, used-add, length-add,
}

abbrev pub live : Option Session → ℕ
live none = 0
live (some s) = 1

-- Each live session stands in exactly one slot, and each slot in use holds a live session; `count`
-- counts them; nothing lives at or beyond the next address; a session has a value for each API; a
-- closed session (its uuid is empty) is still referenced; and no two open sessions share a uuid.
pub record IsTable (heap : ℕ → Option Session) (store : List (Option ℕ))
    (count next max apicount : ℕ) : Type 0 where
  pub slots : (p : ℕ) → occurs p store ≡ live (heap p)
  pub counted : count ≡ used store
  pub sized : length store ≡ max
  pub fresh : (p : ℕ) → next ≤ p → heap p ≡ none
  pub arrays : (p : ℕ) (s : Session) → heap p ≡ some s → length s.values ≡ apicount
  pub held : (p : ℕ) (s : Session) → heap p ≡ some s → s.uuid ≡ [] → 0 < s.refcount
  pub distinct :
      (p q : ℕ) (s t : Session)
      → heap p ≡ some s
      → heap q ≡ some t
      → s.uuid ≡ t.uuid
      → s.uuid ≢ []
      → p ≡ q

abbrev pub IsValid : World → Type 0
IsValid w = IsTable w.heap w.store w.count w.next w.max w.apicount

pub update_hit :
    (heap : ℕ → Option Session) (p : ℕ) (cell : Option Session) → update heap p cell p ≡ cell
update_hit heap p cell = ground arith

pub update_miss :
    (heap : ℕ → Option Session) (p q : ℕ) (cell : Option Session)
    → q ≢ p
    → update heap p cell q ≡ heap q
update_miss heap p q cell h = ground arith

module _ {heap : ℕ → Option Session} {store : List (Option ℕ)} {count next max apicount : ℕ}
    (v : IsTable heap store count next max apicount) where
  pub live_below : (p : ℕ) (s : Session) → heap p ≡ some s → p < next
  live_below p s e = ground (arith, v.fresh p)

  pub has_of_live : (p : ℕ) (s : Session) → heap p ≡ some s → has p store ≡ true
  has_of_live p s e = has_of_occurs p store (ground (arith, v.slots p))

  -- A session that stays as it was, or is replaced by one of the same uuid or a closed one.
  pub change-IsTable :
      (p : ℕ) (s s' : Session)
      → heap p ≡ some s
      → length s'.values ≡ apicount
      → (s'.uuid ≡ [] → 0 < s'.refcount)
      → (s'.uuid ≡ s.uuid) ⊎ (s'.uuid ≡ [])
      → IsTable (update heap p (some s')) store count next max apicount
  change-IsTable p s s' e size ref same = record {
    slots = λ q. ground (arith, v.slots q, v.slots p);
    counted = v.counted;
    sized = v.sized;
    fresh = λ q h. ground (arith, v.fresh q h, live_below p s e);
    arrays = λ q t f. ground (arith, v.arrays q t);
    held = λ q t f h. ground (arith, v.held q t);
    distinct = λ q r t u f g h k.
        ground (arith, v.distinct q r t u, v.distinct p r s u, v.distinct q p t s);
  }

  pub leave-IsTable :
      (p : ℕ) (s : Session)
      → heap p ≡ some s
      → IsTable (update heap p none) (del p store) (count - 1) next max apicount
  leave-IsTable p s e = record {
    slots = λ q. ground (arith, v.slots q, v.slots p, occurs-del q p store (has_of_live p s e));
    counted = omega (arith, v.counted, used-del p store (has_of_live p s e));
    sized = length-del p store ∙ v.sized;
    fresh = λ q h. ground (arith, v.fresh q h);
    arrays = λ q t f. ground (arith, v.arrays q t);
    held = λ q t f h. ground (arith, v.held q t);
    distinct = λ q r t u f g h k. ground (arith, v.distinct q r t u);
  }

  pub enter-IsTable :
      (s : Session)
      → has_room store ≡ true
      → length s.values ≡ apicount
      → 0 < s.refcount
      → ((q : ℕ) (t : Session) → heap q ≡ some t → s.uuid ≢ [] → t.uuid ≢ s.uuid)
      → IsTable (update heap next (some s)) (add next store) (count + 1) (suc next) max apicount
  enter-IsTable s room size ref new = record {
    slots =
        λ q. ground (arith, v.slots q, v.fresh next (omega arith), occurs-add q next store room);
    counted = omega (arith, v.counted, used-add next store room);
    sized = length-add next store ∙ v.sized;
    fresh = λ q h. ground (arith, v.fresh q);
    arrays = λ q t f. ground (arith, v.arrays q t);
    held = λ q t f h. ground (arith, v.held q t);
    distinct = λ q r t u f g h k. ground (arith, v.distinct q r t u, new r u, new q t, sym h);
  }
