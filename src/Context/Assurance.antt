-- ===== src/Context/Assurance.antt =====
-- Levels of assurance: what a change asked for during a request makes of the session.
use app_framework_binder.Base.{
  ℕ, ◌-◌, ◌≤◌, ◌<◌, ◌≡◌, true, false, some, arith, ◌↔◌, ◌≢◌, ◌⊎◌, inl, inr, ap, ◌∙◌, none, [], ◌&&◌,
  ◌==◌, if◌then◌else◌,
}
use app_framework_binder.Base.Text.{is_empty}
use app_framework_binder.Session.Data.{Session, World}
use app_framework_binder.Session.Table.{IsValid}
use app_framework_binder.Context.{Context, context_change_loa, context_disconnect}
use app_framework_binder.Context.Lifecycle.{
  context_disconnect_lem, settled, flushed, settled_loa, asks_close, is_empty_filled,
}

-- afb_context_change_loa accepts a level exactly for a validated context and a level of at most 7.
-- A refused change leaves the context as it is, and an accepted one touches nothing but the pending
-- level.
pub context_change_loa_lem :
    (c : Context) (loa : ℕ)
    → (((context_change_loa c loa).0 ≡ true) ↔ ((c.validated ≡ true) × (loa ≤ 7)))
      × ((context_change_loa c loa).0 ≡ false → (context_change_loa c loa).1 ≡ c)
      × ((context_change_loa c loa).1 ≡ record c {
        loa_out = (context_change_loa c loa).1.loa_out;
        loa_changing = (context_change_loa c loa).1.loa_changing;
        loa_changed = (context_change_loa c loa).1.loa_changed;
      })
unfolding context_change_loa
context_change_loa_lem c loa =
    (((λ h. ground arith), (λ h. ground arith)), (λ h. ground arith), ground arith)

settled_uuid :
    (w : World) (c : Context) (s : Session) → asks_close c ≡ false → (settled w c s).uuid ≡ s.uuid
unfolding settled flushed
settled_uuid w c s open_ = ground (arith, open_)

stays :
    (w : World) (c : Context) (s : Session)
    → (1 < s.refcount) ⊎ ((s.uuid ≢ []) × (asks_close c ≡ false))
    → (if (s.refcount == 1) && is_empty (settled w c s).uuid
        then none
        else some (record (settled w c s) { refcount = s.refcount - 1 }))
      ≡ some (record (settled w c s) { refcount = s.refcount - 1 })
stays w c s (inl more) = ground (arith, more)
stays w c s (inr (opened, kept)) =
    let filled = ap is_empty (settled_uuid w c s kept) ∙ is_empty_filled s.uuid opened in
    ground (arith, filled)

-- The level that a validated request asks for is the level of the session once the request has
-- ended, if the session survives it, because another reference is left or because the session is open
-- and the request does not close it: for a context that entered with that session's level, and with
-- any number of changes before this last one, as long as none has been written yet.
pub loa_change-disconnect :
    (w : World) (p : ℕ) (c : Context) (s : Session) (loa : ℕ)
    → IsValid w
    → c.session ≡ some p
    → w.heap p ≡ some s
    → 0 < s.refcount
    → (1 < s.refcount) ⊎ ((s.uuid ≢ []) × (asks_close c ≡ false))
    → c.validated ≡ true
    → c.loa_changed ≡ false
    → c.loa_in ≡ s.loa
    → loa ≤ 7
    → (c' : Context) × (w' : World) × (s' : Session) × (context_disconnect
          (context_change_loa c loa).1
          w
        ≡ some (c', w'))
      × (w'.heap p ≡ some s')
      × (s'.loa ≡ loa)
unfolding context_change_loa
loa_change-disconnect w p c s loa v own e held survives valid clean entered small =
    let c₁ = (context_change_loa c loa).1 in
    let same : asks_close c₁ ≡ asks_close c = ground arith in
    let lasts : (1 < s.refcount) ⊎ ((s.uuid ≢ []) × (asks_close c₁ ≡ false)) = elim survives [
      | inl more ↦ inl more
      | inr (opened, kept) ↦ inr (opened, same ∙ kept)
    ] in
    let (c', w', run, _, _, cell, _) = context_disconnect_lem w p c₁ s v (ground arith) e held in
    (
      c',
      w',
      record (settled w c₁ s) { refcount = s.refcount - 1 },
      run,
      cell ∙ stays w c₁ s lasts,
      ground (arith, settled_loa w c₁ s),
    )
