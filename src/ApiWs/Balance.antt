-- ===== src/ApiWs/Balance.antt =====
-- The calls of a client are balanced: each waits for its reply or was answered.
use app_framework_binder.Base.{
  ℕ, ◌+◌, ◌≡◌, refl, ap, Bool, true, false, some, List, [], ◌∷◌, ◌==◌, if◌then◌else◌, inl, inr,
  arith, Bool-cases,
}
use app_framework_binder.ApiWs.State.{
  Memo, Event, Trouble, Answer, refused, Effect, add_ref, unref, set_flags, answer, subscribe,
  unsubscribe, create_event, drop_event, push, broadcast, Client, memo_search, remove_memo,
}
use app_framework_binder.ApiWs.Client.{emit, memo_destroy, call_failed}
use app_framework_binder.ApiWs.Memos.{HasFreshIds, remove_memo-HasFreshIds}

abbrev pub one_if : Bool → ℕ
one_if b = if b then 1 else 0

-- How many calls of the request `r` wait for a reply.
unfoldable pub waiting : ℕ → List Memo → ℕ
waiting r [] = 0
waiting r (memo ∷ memos) = one_if (memo.req == r) + waiting r memos

-- How often the request `r` was given.
unfoldable pub times : ℕ → List ℕ → ℕ
times r [] = 0
times r (req ∷ given) = one_if (req == r) + times r given

waiting-remove_memo :
    (r id : ℕ) (memos : List Memo) (memo : Memo)
    → memo_search memos id ≡ some memo
    → waiting r memos ≡ one_if (memo.req == r) + waiting r (remove_memo id memos)
unfolding waiting memo_search remove_memo
waiting-remove_memo r id [] memo e = ground (arith, e)
waiting-remove_memo r id (first ∷ memos) memo e = elim (Bool-cases (first.msgid == id)) [
  | inl same ↦
      let here : first ≡ memo = ground (arith, e, same) in
      rw same (ap (λ m. one_if (m.req == r) + waiting r memos) here)
  | inr other ↦ ground (arith, e, other, waiting-remove_memo r id memos memo)
]

module _ {Json : Type 0} where
  -- What the log says of the request `r`: the answers, the references taken and those given back.
  unfoldable pub is_answer : ℕ → Effect Json → Bool
  is_answer r (answer req a) = req == r
  is_answer r _ = false

  unfoldable pub is_add_ref : ℕ → Effect Json → Bool
  is_add_ref r (add_ref req) = req == r
  is_add_ref r _ = false

  unfoldable pub is_unref : ℕ → Effect Json → Bool
  is_unref r (unref req) = req == r
  is_unref r _ = false

  unfoldable pub tally : (Effect Json → Bool) → List (Effect Json) → ℕ
  tally test [] = 0
  tally test (effect ∷ log) = one_if (test effect) + tally test log

  abbrev pub answers : ℕ → Client Json → ℕ
  answers r c = tally (is_answer r) c.log

  abbrev pub references : ℕ → Client Json → ℕ
  references r c = tally (is_add_ref r) c.log

  abbrev pub releases : ℕ → Client Json → ℕ
  releases r c = tally (is_unref r) c.log

  -- Of `n` calls of the request `r`, each waits or was answered; each that waits holds a reference.
  unfoldable pub Balanced : ℕ → ℕ → Client Json → Type 0
  Balanced r n c =
      (n ≡ waiting r c.memos + answers r c) × (references r c ≡ releases r c + waiting r c.memos)

  memo_destroy-Balanced :
      (r n : ℕ) (memo : Memo) (a : Answer Json) (c : Client Json)
      → memo_search c.memos memo.msgid ≡ some memo
      → Balanced r n c
      → Balanced r n (memo_destroy memo (emit (answer memo.req a) c))
  unfolding Balanced memo_destroy tally is_answer is_add_ref is_unref
  memo_destroy-Balanced r n memo a c found (calls, held) =
      let less = waiting-remove_memo r memo.msgid c.memos memo found in
      (ground (arith, less, calls), ground (arith, less, held))

  refused-Balanced :
      (r n req : ℕ) (a : Answer Json) (c : Client Json)
      → Balanced r n c
      → Balanced r (one_if (req == r) + n) (emit (answer req a) c)
  unfolding Balanced tally is_answer is_add_ref is_unref
  refused-Balanced r n req a c (calls, held) = (ground (arith, calls), ground (arith, held))

  -- Every id is its own, and the calls of every request are balanced.
  unfoldable pub Good : List ℕ → Client Json → Type 0
  Good given c = HasFreshIds c.memos × ((r : ℕ) → Balanced r (times r given) c)

  pub refused-Good :
      (given : List ℕ) (req : ℕ) (a : Answer Json) (c : Client Json)
      → Good given c
      → Good (req ∷ given) (emit (answer req a) c)
  unfolding Good times
  refused-Good given req a c (fresh, balanced) =
      (fresh, λ r. refused-Balanced r (times r given) req a c (balanced r))

  pub destroyed-Good :
      (given : List ℕ) (memo : Memo) (a : Answer Json) (c : Client Json)
      → memo_search c.memos memo.msgid ≡ some memo
      → Good given c
      → Good given (memo_destroy memo (emit (answer memo.req a) c))
  unfolding Good memo_destroy
  destroyed-Good given memo a c found (fresh, balanced) = (
    remove_memo-HasFreshIds c.memos memo.msgid fresh,
    λ r. memo_destroy-Balanced r (times r given) memo a c found (balanced r),
  )

  pub call_failed-Good :
      (given : List ℕ) (trouble : Trouble) (memo : Memo) (c : Client Json)
      → memo_search c.memos memo.msgid ≡ some memo
      → Good given c
      → Good given (call_failed trouble memo c)
  unfolding call_failed
  call_failed-Good given trouble memo c = destroyed-Good given memo (refused trouble) c

  -- The effects that neither take nor give back nor answer a request.
  unfoldable pub is_neutral : Effect Json → Bool
  is_neutral (add_ref req) = false
  is_neutral (unref req) = false
  is_neutral (answer req a) = false
  is_neutral _ = true

  neutral_tests :
      (r : ℕ) (effect : Effect Json)
      → is_neutral effect ≡ true
      → (is_answer r effect ≡ false) × (is_add_ref r effect ≡ false) × (is_unref r effect ≡ false)
  unfolding is_neutral is_answer is_add_ref is_unref
  neutral_tests r (add_ref req) neutral = ground (arith, neutral)
  neutral_tests r (unref req) neutral = ground (arith, neutral)
  neutral_tests r (answer req a) neutral = ground (arith, neutral)
  neutral_tests r (set_flags context flags) neutral = (refl, refl, refl)
  neutral_tests r (subscribe req event) neutral = (refl, refl, refl)
  neutral_tests r (unsubscribe req event) neutral = (refl, refl, refl)
  neutral_tests r (create_event event name) neutral = (refl, refl, refl)
  neutral_tests r (drop_event event) neutral = (refl, refl, refl)
  neutral_tests r (push event object) neutral = (refl, refl, refl)
  neutral_tests r (broadcast name object) neutral = (refl, refl, refl)

  pub emit-Good :
      (given : List ℕ) (effect : Effect Json) (c : Client Json)
      → is_neutral effect ≡ true
      → Good given c
      → Good given (emit effect c)
  unfolding Good Balanced tally
  emit-Good given effect c neutral (fresh, balanced) =
      (fresh, λ r. ground (arith, balanced r, neutral_tests r effect neutral))

  -- The list of the events has no part in it.
  pub events-Good :
      (given : List ℕ) (c : Client Json) (events : List Event)
      → Good given c
      → Good given (record c { events = events })
  unfolding Good Balanced
  events-Good given c events (fresh, balanced) = (fresh, balanced)
