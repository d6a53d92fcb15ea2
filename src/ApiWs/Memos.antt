-- ===== src/ApiWs/Memos.antt =====
-- The list of the memos: searches, removal, and the choice of an id that none has.
use app_framework_binder.Base.{
  ℕ, zero, suc, ◌+◌, ◌%◌, ◌^◌, ◌≤◌, ◌<◌, ◌≡◌, refl, sym, ap, ◌∙◌, true, false, none, some, List, [],
  ◌∷◌, ◌==◌, length, inl, inr, arith, Bool-cases, Option-cases,
}
use app_framework_binder.ApiWs.Buffers.{is_some}
use app_framework_binder.ApiWs.State.{Memo, memo_search, fresh_id, remove_memo}

abbrev pub u32 : ℕ
u32 = 2 ^ 32

-- No two memos have the same id, which has 32 bits.
unfoldable pub HasFreshIds : List Memo → Type 0
HasFreshIds [] = Unit
HasFreshIds (memo ∷ memos) =
    (memo_search memos memo.msgid ≡ none) × (memo.msgid < u32) × HasFreshIds memos

pub memo_search_id :
    (memos : List Memo) (id : ℕ) (memo : Memo) → memo_search memos id ≡ some memo → memo.msgid ≡ id
unfolding memo_search
memo_search_id [] id memo e = ground (arith, e)
memo_search_id (first ∷ memos) id memo e = ground (arith, e, memo_search_id memos id memo)

pub memo_search-remove_memo :
    (memos : List Memo) (id other : ℕ)
    → (other == id) ≡ false
    → memo_search (remove_memo id memos) other ≡ memo_search memos other
unfolding memo_search remove_memo
memo_search-remove_memo [] id other apart = refl
memo_search-remove_memo (memo ∷ memos) id other apart =
    ground (arith, apart, memo_search-remove_memo memos id other apart)

length-remove_memo :
    (memos : List Memo) (id : ℕ)
    → is_some (memo_search memos id) ≡ true
    → length (remove_memo id memos) + 1 ≡ length memos
unfolding memo_search remove_memo
length-remove_memo [] id found = ground (arith, found)
length-remove_memo (memo ∷ memos) id found = ground (arith, found, length-remove_memo memos id)

memo_search_gone :
    (memos : List Memo) (id other : ℕ)
    → memo_search memos other ≡ none
    → memo_search (remove_memo id memos) other ≡ none
unfolding memo_search remove_memo
memo_search_gone [] id other gone = refl
memo_search_gone (memo ∷ memos) id other gone =
    ground (arith, gone, memo_search_gone memos id other)

pub remove_memo-HasFreshIds :
    (memos : List Memo) (id : ℕ) → HasFreshIds memos → HasFreshIds (remove_memo id memos)
unfolding HasFreshIds remove_memo
remove_memo-HasFreshIds [] id fresh = tt
remove_memo-HasFreshIds (memo ∷ memos) id (alone, small, fresh) =
    elim (Bool-cases (memo.msgid == id)) [
      | inl same ↦ rw same fresh
      | inr other ↦ rw other (
        memo_search_gone memos id memo.msgid alone,
        small,
        remove_memo-HasFreshIds memos id fresh,
      )
    ]

-- The ids behind `id`, as many as `n`, are all taken.
Taken : ℕ → ℕ → List Memo → Type 0
Taken n id memos = (k : ℕ) → k < n → is_some (memo_search memos ((id + suc k) % u32)) ≡ true

-- So many ids need so many memos.
Taken-needs : (n id : ℕ) (memos : List Memo) → n ≤ u32 → Taken n id memos → n ≤ length memos
unfolding Taken
Taken-needs zero id memos few taken = omega arith
Taken-needs (suc n) id memos few taken =
    let last = (id + suc n) % u32 in
    let shorter = length-remove_memo memos last (taken n (omega arith)) in
    let rest = Taken-needs n id (remove_memo last memos) (omega arith) (λ k h.
      let apart : ((id + suc k) % u32 == last) ≡ false = ground arith in
      ap is_some (memo_search-remove_memo memos last ((id + suc k) % u32) apart)
      ∙ taken k (omega (arith, h))) in
    omega (arith, shorter, rest)

fresh_id-Taken :
    (fuel id : ℕ) (memos : List Memo) → fresh_id fuel id memos ≡ none → Taken fuel id memos
unfolding Taken fresh_id
fresh_id-Taken zero id memos e k h = absurd (omega (arith, h))
fresh_id-Taken (suc fuel) id memos e zero h =
    elim (Option-cases (memo_search memos ((id + 1) % u32))) [
      | inl free ↦ ground (arith, e, free)
      | inr (memo, found) ↦ ap is_some found
    ]
fresh_id-Taken (suc fuel) id memos e (suc k) h =
    elim (Option-cases (memo_search memos ((id + 1) % u32))) [
      | inl free ↦ ground (arith, e, free)
      | inr (memo, found) ↦
          let later : fresh_id fuel ((id + 1) % u32) memos ≡ none = ground (arith, e, found) in
          let same : ((id + 1) % u32 + suc k) % u32 ≡ (id + suc (suc k)) % u32 = omega arith in
          ap (λ next. is_some (memo_search memos next)) (sym same)
          ∙ fresh_id-Taken fuel ((id + 1) % u32) memos later k (omega (arith, h))
    ]

pub fresh_id_free :
    (fuel id : ℕ) (memos : List Memo) (next : ℕ)
    → fresh_id fuel id memos ≡ some next
    → (memo_search memos next ≡ none) × (next < u32)
unfolding fresh_id
fresh_id_free zero id memos next e = ground (arith, e)
fresh_id_free (suc fuel) id memos next e =
    elim (Option-cases (memo_search memos ((id + 1) % u32))) [
      | inl free ↦
          let same : (id + 1) % u32 ≡ next = ground (arith, e, free) in
          (ap (memo_search memos) (sym same) ∙ free, omega (arith, same))
      | inr (memo, found) ↦
          fresh_id_free fuel ((id + 1) % u32) memos next (ground (arith, e, found))
    ]

-- The loop ends: fewer than 2^32 memos leave an id free, which it meets with the fuel it is given.
pub fresh_id_ends :
    (id : ℕ) (memos : List Memo)
    → length memos < u32
    → (next : ℕ) × (fresh_id (length memos + 1) id memos ≡ some next)
      × (memo_search memos next ≡ none)
      × (next < u32)
fresh_id_ends id memos few = elim (Option-cases (fresh_id (length memos + 1) id memos)) [
  | inl stuck ↦ absurd (
      omega (
        arith,
        Taken-needs (length memos + 1) id memos (omega arith)
            (fresh_id-Taken (length memos + 1) id memos stuck),
      ))
  | inr (next, e) ↦
      let (free, small) = fresh_id_free (length memos + 1) id memos next e in (next, e, free, small)
]
