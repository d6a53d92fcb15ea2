-- ===== src/Http/Routing.antt =====
-- The handlers of a server stand in the order in which they are tried.
use mathlib.Core.Path.{subst}
use app_framework_binder.Base.{
  ℕ, ◌≤◌, ◌<◌, zero, suc, ◌-◌, ◌∙◌, ◌≢◌, length, ◌≡◌, ◌⊎◌, inl, inr, refl, ap, sym, Bool, true,
  false, ◌&&◌, ◌||◌, List, [], ◌∷◌, ◌++◌, All, ltb, leb, ◌==◌, arith, Bool-cases,
}
use app_framework_binder.Base.Text.{Str, char_at}
use app_framework_binder.Http.Handlers.{
  Handler, prefix_length, new_link, insert_handler, new_handler, add_handler,
}

-- One handler goes before another: it has more priority, or as much and a prefix that is at least as
-- long.
abbrev pub Before : Handler → Handler → Type 0
Before a b = (b.priority < a.priority) ⊎ ((a.priority ≡ b.priority) × (b.len ≤ a.len))

unfoldable pub IsOrdered : List Handler → Type 0
IsOrdered [] = Unit
IsOrdered (a ∷ as') = All (Before a) as' × IsOrdered as'

-- And strictly so.
abbrev pub Ahead : Handler → Handler → Type 0
Ahead a b = (b.priority < a.priority) ⊎ ((a.priority ≡ b.priority) × (b.len < a.len))

Before-trans :
    (a b : Handler) (cs : List Handler) → Before a b → All (Before b) cs → All (Before a) cs
Before-trans a b [] h all = tt
Before-trans a b (c ∷ cs) h (first, all) = (ground arith, Before-trans a b cs h all)

Ahead-trans : (a b : Handler) (cs : List Handler) → Ahead a b → All (Before b) cs → All (Ahead a) cs
Ahead-trans a b [] h all = tt
Ahead-trans a b (c ∷ cs) h (first, all) = (ground arith, Ahead-trans a b cs h all)

Before-of_Ahead : (a : Handler) (cs : List Handler) → All (Ahead a) cs → All (Before a) cs
Before-of_Ahead a [] all = tt
Before-of_Ahead a (c ∷ cs) (first, all) = (ground arith, Before-of_Ahead a cs all)

-- The test of the loop of new_handler.
abbrev passes : Handler → Handler → Bool
passes link iter =
    ltb link.priority iter.priority || ((link.priority == iter.priority) && leb link.len iter.len)

-- Where a new handler goes: behind the handlers that go before it, ahead of all others.
pub record Placed (handlers : List Handler) (link : Handler) (placed : List Handler) : Type 0 where
  pub front : List Handler
  pub back : List Handler
  pub were : handlers ≡ front ++ back
  pub are : placed ≡ front ++ (link ∷ back)
  pub behind : All (λ a. Before a link) front
  pub ahead : All (Ahead link) back

insert_handler-Placed :
    (handlers : List Handler) (link : Handler)
    → IsOrdered handlers
    → Placed handlers link (insert_handler handlers link)
unfolding insert_handler IsOrdered
insert_handler-Placed [] link ordered = record {
  front = [];
  back = [];
  were = refl;
  are = refl;
  behind = tt;
  ahead = tt;
}
insert_handler-Placed (iter ∷ next) link (first, ordered) = elim (Bool-cases (passes link iter)) [
  | inl passed ↦
      let rest = insert_handler-Placed next link ordered in
      record {
        front = iter ∷ rest.front;
        back = rest.back;
        were = ap (λ hs. iter ∷ hs) rest.were;
        are = rw passed (ap (λ hs. iter ∷ hs) rest.are);
        behind = (ground (arith, passed), rest.behind);
        ahead = rest.ahead;
      }
  | inr stopped ↦
      let strictly : Ahead link iter = ground (arith, stopped) in
      record {
        front = [];
        back = iter ∷ next;
        were = refl;
        are = rw stopped refl;
        behind = tt;
        ahead = (strictly, Ahead-trans link iter next strictly first);
      }
]

All-insert :
    (P : Handler → Type 0) (front : List Handler) (link : Handler) (back : List Handler)
    → P link
    → All P (front ++ back)
    → All P (front ++ (link ∷ back))
All-insert P [] link back h all = (h, all)
All-insert P (a ∷ front) link back h (first, all) = (first, All-insert P front link back h all)

IsOrdered-insert :
    (front : List Handler) (link : Handler) (back : List Handler)
    → IsOrdered (front ++ back)
    → All (λ a. Before a link) front
    → All (Ahead link) back
    → IsOrdered (front ++ (link ∷ back))
unfolding IsOrdered
IsOrdered-insert [] link back ordered behind ahead = (Before-of_Ahead link back ahead, ordered)
IsOrdered-insert (a ∷ front) link back (first, ordered) (h, behind) ahead = (
  All-insert (Before a) front link back h first,
  IsOrdered-insert front link back ordered behind ahead,
)

-- Behind the length there are only slashes up to `limit`, and none right in front of it.
abbrev pub IsCut : ℕ → Str → ℕ → Type 0
IsCut limit prefix len =
    (len ≤ limit)
    × ((i : ℕ) → len ≤ i → i < limit → char_at prefix i ≡ b'/')
    × ((len ≡ 0) ⊎ (char_at prefix (len - 1) ≢ b'/'))

abbrev pub IsMeasured : Str → ℕ → Type 0
IsMeasured prefix len = IsCut (length prefix) prefix len

prefix_length-IsMeasured : (n : ℕ) (prefix : Str) → IsCut n prefix (prefix_length n prefix)
unfolding prefix_length
prefix_length-IsMeasured zero prefix =
    (omega arith, (λ i h k. absurd (omega (arith, h, k))), inl refl)
prefix_length-IsMeasured (suc n) prefix = elim (Bool-cases (char_at prefix n == 47)) [
  | inl slash ↦
      let (short, cut, bare) = prefix_length-IsMeasured n prefix in
      rw slash (
        omega (arith, short),
        (λ i h k. elim (Bool-cases (i == n)) [
          | inl last ↦
              let is : i ≡ n = ground (arith, last) in
              ap (char_at prefix) is ∙ ground (arith, slash)
          | inr before ↦ cut i h (ground (arith, k, before))
        ]),
        bare,
      )
  | inr other ↦ rw other (
    omega arith,
    (λ i h k. absurd (omega (arith, h, k))),
    inr (λ h.
        let at_n : suc n - 1 ≡ n = omega arith in
        absurd (ground (arith, other, sym (ap (char_at prefix) at_n) ∙ h))),
  )
]

-- afb_hsrv_add_handler keeps the handlers in order and leaves all of them in: the new one stands
-- behind those that have more priority, or as much and a prefix at least as long, and ahead of the
-- others. The length of its prefix is that of the text without the slashes at its end: what is cut off
-- are slashes only, and the text that is left is empty or ends in another byte. When nothing can be
-- allocated the handlers are as they were and the answer is 0.
pub add_handler_lem :
    (handlers : List Handler) (prefix : Str) (handler data_ priority : ℕ)
    → IsOrdered handlers
    → let link = new_link prefix handler data_ priority in
      (add_handler false handlers prefix handler data_ priority ≡ (handlers, false))
      × ((add_handler true handlers prefix handler data_ priority).1 ≡ true)
      × Placed handlers link (add_handler true handlers prefix handler data_ priority).0
      × IsOrdered (add_handler true handlers prefix handler data_ priority).0
      × IsMeasured prefix link.len
unfolding add_handler new_handler
add_handler_lem handlers prefix handler data_ priority ordered =
    let link = new_link prefix handler data_ priority in
    let placed = insert_handler-Placed handlers link ordered in
    (
      refl,
      refl,
      placed,
      subst IsOrdered (sym placed.are) (
          IsOrdered-insert placed.front link placed.back (subst IsOrdered placed.were ordered)
            placed.behind placed.ahead),
      prefix_length-IsMeasured (length prefix) prefix,
    )
