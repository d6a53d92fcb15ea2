-- ===== src/Session/Closing.antt =====
-- What closing a session does: its values and cookies are handed to their freeing functions, once
-- each, and the session is forgotten if nothing refers to it.
use mathlib.Core.Path.{fun_ext}
use mathlib.Core.List.{append_assoc}
use app_framework_binder.Base.{
  ℕ, zero, suc, ◌+◌, ◌-◌, ◌≤◌, ◌<◌, ◌≡◌, inl, inr, refl, ap, ◌∙◌, Option, none, some, List, [], ◌∷◌,
  ◌++◌, ◌==◌, if◌then◌else◌, length, get_elem?, set, arith, Bool-cases, replicate, length-append,
  length-replicate,
}
use app_framework_binder.Base.Text.{is_empty}
use app_framework_binder.Session.Data.{Session, ClientValue, null_value, Cookie, World, update}
use app_framework_binder.Session.Slots.{del}
use app_framework_binder.Session.Table.{IsValid, has_of_live, change-IsTable, leave-IsTable}
use app_framework_binder.Session.Store.{
  client_value_set, clear_values, free_cookies, uuid_free_cb, client_close, store_del,
}

abbrev Calls : Type 0
Calls = List (ℕ × ℕ)

-- The call that ends the life of a value, before the earlier calls.
unfoldable pub free_call : Option ℕ → ℕ → Calls → Calls
free_call none value log = log
free_call (some f) value log = if value == 0 then log else (f, value) ∷ log

unfoldable pub value_calls : List ClientValue → Calls → Calls
unfolding free_call
value_calls [] log = log
value_calls (v ∷ vs) log = value_calls vs (free_call v.free_value v.value log)

unfoldable pub cookie_calls : List Cookie → Calls → Calls
unfolding free_call
cookie_calls [] log = log
cookie_calls (c ∷ cs) log = cookie_calls cs (free_call c.free_value c.value log)

pub update-update :
    (heap : ℕ → Option Session) (p : ℕ) (a b : Option Session)
    → update (update heap p a) p b ≡ update heap p b
update-update heap p a b = fun_ext λ q. ground arith

pub update_same :
    (heap : ℕ → Option Session) (p : ℕ) (s : Session)
    → heap p ≡ some s
    → update heap p (some s) ≡ heap
update_same heap p s e = fun_ext λ q. ground arith

pub set-append {ℓ} :
    {A : Type ℓ} (pre rest : List A) (x y : A)
    → set (pre ++ (x ∷ rest)) (length pre) y ≡ pre ++ (y ∷ rest)
set-append [] rest x y = refl
set-append (z ∷ pre) rest x y = ap (◌∷◌ z) (set-append pre rest x y)

pub get_elem?-append {ℓ} :
    {A : Type ℓ} (pre rest : List A) (x : A) → get_elem? (pre ++ (x ∷ rest)) (length pre) ≡ some x
get_elem?-append [] rest x = refl
get_elem?-append (z ∷ pre) rest x = get_elem?-append pre rest x

-- Setting a value to NULL.
client_value_set_null :
    (p index : ℕ) (s : Session) (w : World) (prev : ClientValue)
    → w.heap p ≡ some s
    → index < w.apicount
    → get_elem? s.values index ≡ some prev
    → client_value_set p (some index) 0 none w
      ≡ some (
        tt,
        record w {
          heap = update w.heap p (some (record s { values = set s.values index null_value }));
          freed = free_call prev.free_value prev.value w.freed;
        },
      )
unfolding client_value_set free_call
client_value_set_null p index s w prev e h g = ground arith

-- The world with other values and cookies in one session, and other calls made.
abbrev at_values : World → ℕ → Session → List ClientValue → Calls → World
at_values w p s vs log = record w {
  heap = update w.heap p (some (record s { values = vs }));
  freed = log;
}

abbrev at_cookies : World → ℕ → Session → List Cookie → Calls → World
at_cookies w p s cs log = record w {
  heap = update w.heap p (some (record s { cookies = cs }));
  freed = log;
}

module _ (w : World) (p : ℕ) (s : Session) where
  clear_one :
      (pre rest : List ClientValue) (x : ClientValue) (log : Calls)
      → length pre < w.apicount
      → client_value_set p (some (length pre)) 0 none (at_values w p s (pre ++ (x ∷ rest)) log)
        ≡ some (
          tt,
          at_values w p s ((pre ++ (null_value ∷ [])) ++ rest) (free_call x.free_value x.value log),
        )
  clear_one pre rest x log h =
      client_value_set_null p (length pre) (record s { values = pre ++ (x ∷ rest) }) _ x
        (ground arith) h (get_elem?-append pre rest x)
      ∙ rw (set-append pre rest x null_value, update-update, append_assoc) refl

  clear_values_run :
      (n : ℕ) (pre rest : List ClientValue) (log : Calls)
      → length rest ≡ n
      → length pre + n ≤ w.apicount
      → clear_values p n (length pre) (at_values w p s (pre ++ rest) log)
        ≡ some (tt, at_values w p s (pre ++ replicate n null_value) (value_calls rest log))
  unfolding clear_values value_calls
  clear_values_run zero pre [] log e h = refl
  clear_values_run zero pre (x ∷ rest) log e h = absurd (omega arith)
  clear_values_run (suc n) pre [] log e h = absurd (omega arith)
  clear_values_run (suc n) pre (x ∷ rest) log e h = ground (
    arith,
    clear_one pre rest x log (omega arith),
    length-append pre (null_value ∷ []),
    clear_values_run n (pre ++ (null_value ∷ [])) rest (free_call x.free_value x.value log),
    append_assoc pre (null_value ∷ []) (replicate n null_value),
  )

  free_cookies_run :
      (cs : List Cookie) (log : Calls)
      → free_cookies p cs (at_cookies w p s cs log)
        ≡ some (tt, at_cookies w p s [] (cookie_calls cs log))
  unfolding free_cookies cookie_calls free_call
  free_cookies_run [] log = refl
  free_cookies_run (c ∷ cs) log = ground (
    arith,
    free_cookies_run cs (free_call c.free_value c.value log),
    update-update w.heap p (some (record s { cookies = c ∷ cs }))
        (some (record s { cookies = cs })),
  )

-- All values and cookies of the session are released, and nothing else changes.
uuid_free_cb_run :
    (w : World) (p : ℕ) (s : Session)
    → w.heap p ≡ some s
    → length s.values ≡ w.apicount
    → uuid_free_cb p w
      ≡ some (
        tt,
        record w {
          heap =
              update w.heap p
                (some (record s { values = replicate w.apicount null_value; cookies = [] }));
          freed = cookie_calls s.cookies (value_calls s.values w.freed);
        },
      )
unfolding uuid_free_cb
uuid_free_cb_run w p s e size =
    let cleared = record s { values = replicate w.apicount null_value } in
    let w' = at_values w p s (replicate w.apicount null_value) (value_calls s.values w.freed) in
    ground (
      arith,
      update_same w.heap p s e,
      clear_values_run w p s w.apicount [] s.values w.freed size (omega arith),
      update-update w.heap p (some cleared) (some cleared),
      update-update w.heap p (some cleared) (some (record cleared { cookies = [] })),
      free_cookies_run w' p cleared s.cookies (value_calls s.values w.freed),
    )

-- The session once it is closed.
abbrev pub closed : World → Session → Session
closed w s = record s { uuid = []; values = replicate w.apicount null_value; cookies = [] }

-- What closing makes of the world: nothing if the session was closed before; else its values and
-- cookies are released, and the session itself too if nothing refers to it.
unfoldable pub close_world : World → ℕ → Session → World
close_world w p s =
    if is_empty s.uuid
    then w
    else if s.refcount == 0
    then record w {
      heap = update w.heap p none;
      store = del p w.store;
      count = w.count - 1;
      freed = cookie_calls s.cookies (value_calls s.values w.freed);
    }
    else record w {
      heap = update w.heap p (some (closed w s));
      freed = cookie_calls s.cookies (value_calls s.values w.freed);
    }

pub client_close_run :
    (w : World) (p : ℕ) (s : Session)
    → IsValid w
    → w.heap p ≡ some s
    → client_close p w ≡ some (tt, close_world w p s)
unfolding client_close close_world store_del
client_close_run w p s v e =
    let shut = record s { uuid = [] } in
    let w' = record w { heap = update w.heap p (some shut) } in
    ground (
      arith,
      has_of_live v p s e,
      v.arrays p s e,
      uuid_free_cb_run w' p shut,
      update-update w.heap p (some shut) (some (closed w s)),
      update-update w.heap p (some (closed w s)) none,
    )

pub client_close-IsValid :
    (w : World) (p : ℕ) (s : Session) → IsValid w → w.heap p ≡ some s → IsValid (close_world w p s)
unfolding close_world
client_close-IsValid w p s v e = elim (Bool-cases (is_empty s.uuid)) [
  | inl shut ↦ rw shut v
  | inr opened ↦ elim (Bool-cases (s.refcount == 0)) [
    | inl last ↦ rw (opened, last) (leave-IsTable v p s e)
    | inr more ↦
        rw (opened, more)
          (change-IsTable v p s (closed w s) e (length-replicate _ _) (λ _. ground arith)
            (inr refl))
  ]
]
