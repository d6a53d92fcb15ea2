-- ===== src/Http/Calls.antt =====
-- A tail "/api/verb" names its API and its verb.
use app_framework_binder.Base.{
  ℕ, zero, suc, ◌≡◌, ◌≢◌, ◌⊎◌, inr, refl, some, [], ◌∷◌, ◌++◌, All, length, drop, replicate, arith,
}
use app_framework_binder.Base.Text.{Str, char_at}
use app_framework_binder.Http.Switch.{skip_slashes, name_length, split_call}

abbrev pub IsPlain : ℕ → Type 0
IsPlain c = c ≢ 47

-- The end of a name: the end of the text or a slash.
abbrev pub EndsName : Str → Type 0
EndsName rest = (rest ≡ []) ⊎ (char_at rest 0 ≡ 47)

name_length_lem :
    (name rest : Str) → All IsPlain name → EndsName rest → name_length (name ++ rest) ≡ length name
unfolding name_length
name_length_lem [] [] all ends = refl
name_length_lem [] (c ∷ cs) all ends = ground (arith, ends)
name_length_lem (c ∷ name) rest (plain, all) ends =
    ground (arith, plain, name_length_lem name rest all ends)

drop_name : (name rest : Str) → drop (length name) (name ++ rest) ≡ rest
drop_name [] rest = refl
drop_name (c ∷ name) rest = drop_name name rest

abbrev pub slashes : ℕ → Str
slashes n = replicate n 47

skip_slashes_lem :
    (n : ℕ) (c : ℕ) (cs : Str) → IsPlain c → skip_slashes (slashes n ++ (c ∷ cs)) ≡ c ∷ cs
unfolding skip_slashes
skip_slashes_lem zero c cs plain = ground (arith, plain)
skip_slashes_lem (suc n) c cs plain = ground (arith, skip_slashes_lem n c cs plain)

-- afb_hswitch_apis finds in a tail the two names that stand behind one or more slashes each, the
-- second followed by a slash or the end, whatever comes behind.
pub split_call_lem :
    (before between : ℕ) (a v : ℕ) (api verb rest : Str)
    → IsPlain a
    → All IsPlain api
    → IsPlain v
    → All IsPlain verb
    → EndsName rest
    → let behind = (v ∷ verb) ++ rest in
      let tail = slashes before ++ ((a ∷ api) ++ (slashes (suc between) ++ behind)) in
      split_call tail
      ≡ some (record {
        api = (a ∷ api) ++ (slashes (suc between) ++ behind);
        lenapi = length (a ∷ api);
        verb = behind;
        lenverb = length (v ∷ verb);
      })
unfolding split_call
split_call_lem before between a v api verb rest pa papi pv pverb ends =
    let behind = (v ∷ verb) ++ rest in
    let middle = slashes (suc between) ++ behind in
    rw
      (
        skip_slashes_lem before a (api ++ middle) pa,
        name_length_lem (a ∷ api) middle (pa, papi) (inr refl),
        drop_name api middle,
        skip_slashes_lem (suc between) v (verb ++ rest) pv,
        name_length_lem (v ∷ verb) rest (pv, pverb) ends,
      )
      (ground arith)
