-- ===== src/Session/Tokens.antt =====
-- What a session remembers: its token, its cookies and its values.
use app_framework_binder.Base.{
  ℕ, zero, suc, ◌≤◌, ◌<◌, ◌≡◌, ◌≢◌, inl, inr, refl, true, Option, none, some, List, [], ◌∷◌, ◌==◌,
  if◌then◌else◌, length, get_elem?, get_elem?_lt, set, arith, Option-cases,
}
use app_framework_binder.Base.Text.{Str, str_eq}
use app_framework_binder.Session.Data.{Session, ClientValue, Cookie, World, new_cookie}
use app_framework_binder.Session.Table.{IsValid}
use app_framework_binder.Session.Store.{client_value_set, client_value_get, is_active}
use app_framework_binder.Session.References.{token_new_run, replace_call, client_value_set_run}
use app_framework_binder.Session.Clients.{
  token_check, token_new, client_cookie_get, client_cookie_set, cookie_find, cookie_match,
  cookie_write,
}

-- After ctxTokenNew on an open session whose time is not over, ctxTokenCheck accepts the new token
-- and refuses every other one, provided that the generated token is not empty.
pub token_check-token_new :
    (w : World) (p : ℕ) (s : Session)
    → w.heap p ≡ some s
    → s.uuid ≢ []
    → w.clock ≤ s.expiration
    → w.env.uuid w.draws ≢ []
    → (w' : World) × (token_new p w ≡ some (tt, w'))
      × ((token : Str) → token_check p token w' ≡ some (str_eq token (w.env.uuid w.draws), w'))
unfolding token_check is_active
token_check-token_new w p s e opened young filled =
    (_, token_new_run w p s e, λ token. ground arith)

cookie_find-write :
    (cs : List Cookie) (new : Cookie) (j : ℕ) (d : Cookie)
    → cookie_match cs new.key ≡ some d
    → cookie_find (cookie_write cs new) j ≡ (if new.key == j then new.value else cookie_find cs j)
unfolding cookie_find cookie_match cookie_write
cookie_find-write [] new j d h = cc
cookie_find-write (c ∷ cs) new j d h = ground (arith, cookie_find-write cs new j d)

-- A cookie that ctxClientCookieSet has set is what ctxClientCookieGet reads, and the cookies of all
-- other keys read as before, whether the key was there or is new.
pub client_cookie_get-set :
    (w w' : World) (p key value j : ℕ) (free_value : Option ℕ) (s : Session)
    → w.heap p ≡ some s
    → client_cookie_set p key value free_value w ≡ some (true, w')
    → client_cookie_get p j w' ≡ some (if key == j then value else cookie_find s.cookies j, w')
unfolding client_cookie_set client_cookie_get cookie_find
client_cookie_get-set w w' p key value j free_value s e run =
    elim (Option-cases (cookie_match s.cookies key)) [
      | inl missing ↦ ground arith
      | inr (c, hit) ↦
          ground (arith, cookie_find-write s.cookies (new_cookie key value free_value) j c hit)
    ]

get_elem?-set :
    (vs : List ClientValue) (i j : ℕ) (v : ClientValue)
    → i < length vs
    → get_elem? (set vs i v) j ≡ (if i == j then some v else get_elem? vs j)
get_elem?-set [] i j v h = absurd (omega arith)
get_elem?-set (x ∷ vs) zero zero v h = refl
get_elem?-set (x ∷ vs) zero (suc j) v h = ground arith
get_elem?-set (x ∷ vs) (suc i) zero v h = ground arith
get_elem?-set (x ∷ vs) (suc i) (suc j) v h = ground (arith, get_elem?-set vs i j v (omega arith))

-- A value that ctxClientValueSet has set for an API is what ctxClientValueGet reads for it, and the
-- values of the other APIs read as before. The old value is handed to its own freeing function
-- exactly when it is not NULL, is not the new value, and has one.
pub client_value_get-set :
    (w : World) (p index value j : ℕ) (free_value : Option ℕ) (s : Session) (prev : ClientValue)
    → IsValid w
    → w.heap p ≡ some s
    → index < w.apicount
    → j < w.apicount
    → get_elem? s.values index ≡ some prev
    → (w' : World) × (client_value_set p (some index) value free_value w ≡ some (tt, w'))
      × (client_value_get p (some j) w' ≡ (
          if index == j then some (value, w') else elim (client_value_get p (some j) w) [
            | none ↦ none
            | some (old, _) ↦ some (old, w')
          ]))
      × (w'.freed ≡ replace_call prev value w.freed)
unfolding client_value_get
client_value_get-set w p index value j free_value s prev v e h k at =
    let (old, there) = get_elem?_lt s.values j (omega (arith, v.arrays p s e)) in
    (
      _,
      client_value_set_run w p index value free_value s prev e h at,
      ground (
        arith,
        there,
        get_elem?-set s.values index j (record { value = value; free_value = free_value }),
        v.arrays p s e,
      ),
      refl,
    )
