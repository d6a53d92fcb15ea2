-- ===== src/Context/Lifecycle.antt =====
-- The end of a context: what disconnecting does to the session.
use app_framework_binder.Base.{
  ℕ, suc, ◌-◌, ◌<◌, ◌≡◌, ◌≢◌, inl, inr, refl, ◌∙◌, Bool, true, false, Option, none, some, [], ◌∷◌,
  ◌==◌, if◌then◌else◌, arith, Bool-cases, not, ◌&&◌, ◌||◌,
}
use app_framework_binder.Base.Text.{Str, is_empty}
use app_framework_binder.Session.Data.{Session, World, ◌>>=◌, update}
use app_framework_binder.Session.Table.{IsValid, update_hit, change-IsTable}
use app_framework_binder.Session.Closing.{
  client_close_run, client_close-IsValid, close_world, closed, update_same, update-update,
}
use app_framework_binder.Session.References.{
  unref_world, client_unref_run, unref_world-IsValid, renewed, token_new_run, client_set_loa_run,
}
use app_framework_binder.Session.Clients.{client_unref}
use app_framework_binder.Context.{
  Context, flush_refresh, flush_loa, flush_close, disconnect_from, context_disconnect,
}

pub is_empty_filled : (uuid : Str) → uuid ≢ [] → is_empty uuid ≡ false
is_empty_filled [] filled = absurd (filled refl)
is_empty_filled (c ∷ cs) filled = refl

abbrev asks_token : Context → Bool
asks_token c = c.refreshing && not c.refreshed

abbrev asks_loa : Context → Bool
asks_loa c = c.loa_changing && not c.loa_changed

abbrev pub asks_close : Context → Bool
asks_close c = c.closing && not c.closed

-- The session with the new token and the new level that the context asks for.
unfoldable pub flushed : World → Context → Session → Session
flushed w c s =
    let s' = if asks_token c then renewed w s else s in
    if asks_loa c then record s' { loa = c.loa_out } else s'

-- The session after it is closed too, if the context asks for that.
unfoldable pub settled : World → Context → Session → Session
settled w c s =
    let s' = flushed w c s in
    if asks_close c then (if is_empty s'.uuid then s' else closed w s') else s'

pub settled_loa :
    (w : World) (c : Context) (s : Session)
    → (settled w c s).loa ≡ (if asks_loa c then c.loa_out else s.loa)
unfolding settled flushed
settled_loa w c s = ground arith

flush_world : World → ℕ → Context → Session → World
flush_world w p c s = record w {
  heap = update w.heap p (some (flushed w c s));
  draws = if asks_token c then suc w.draws else w.draws;
}

flush_token_run :
    (w : World) (p : ℕ) (c : Context) (s : Session)
    → w.heap p ≡ some s
    → flush_refresh p c w
      ≡ some (
        if asks_token c then record c { refreshed = true } else c,
        record w {
          heap = update w.heap p (some (if asks_token c then renewed w s else s));
          draws = if asks_token c then suc w.draws else w.draws;
        },
      )
unfolding flush_refresh
flush_token_run w p c s e = ground (arith, token_new_run w p s e, update_same w.heap p s e)

flush_loa_run :
    (w : World) (p : ℕ) (c : Context) (s : Session)
    → w.heap p ≡ some s
    → flush_loa p c w
      ≡ some (
        if asks_loa c then record c { loa_changed = true } else c,
        record w {
          heap = update w.heap p (some (if asks_loa c then record s { loa = c.loa_out } else s));
        },
      )
unfolding flush_loa
flush_loa_run w p c s e =
    ground (arith, client_set_loa_run w p c.loa_out s e, update_same w.heap p s e)

flush_close_run :
    (w : World) (p : ℕ) (c : Context) (s : Session)
    → IsValid w
    → w.heap p ≡ some s
    → flush_close p c w
      ≡ some (
        if asks_close c then record c { closed = true } else c,
        if asks_close c then close_world w p s else w,
      )
unfolding flush_close
flush_close_run w p c s v e = ground (arith, client_close_run w p s v e)

flush_world-IsValid :
    (w : World) (p : ℕ) (c : Context) (s : Session)
    → IsValid w
    → w.heap p ≡ some s
    → IsValid (flush_world w p c s)
unfolding flush_world flushed
flush_world-IsValid w p c s v e =
    change-IsTable v p s (flushed w c s) e (ground (arith, v.arrays p s e))
      (ground (arith, v.held p s e)) (inl (ground arith))

settle_world : World → ℕ → Context → Session → World
settle_world w p c s =
    if asks_close c
    then close_world (flush_world w p c s) p (flushed w c s)
    else flush_world w p c s

-- The context that is left.
left_context : Context → Context
left_context c = record c {
  session = none;
  refreshed = c.refreshed || c.refreshing;
  loa_changed = c.loa_changed || c.loa_changing;
  closed = c.closed || c.closing;
}

disconnect_chain :
    (w w₂ w₃ w₄ : World) (p : ℕ) (c c₂ c₃ : Context)
    → c.session ≡ some p
    → (flush_refresh p c >>= λ c₁. flush_loa p c₁) w ≡ some (c₂, w₂)
    → flush_close p c₂ w₂ ≡ some (c₃, w₃)
    → client_unref (some p) w₃ ≡ some (tt, w₄)
    → context_disconnect c w ≡ some (record c₃ { session = none }, w₄)
unfolding context_disconnect
disconnect_chain w w₂ w₃ w₄ p c c₂ c₃ own first second third =
    rw (own, context_disconnect) (chain (flush_refresh p c w) refl)
  where
    chain :
        (r : Option (Context × World))
        → flush_refresh p c w ≡ r
        → disconnect_from p c w ≡ some (record c₃ { session = none }, w₄)
    chain none e = cc (first, e)
    chain (some (c₁, w₁)) e = ground arith

module _ (w : World) (p : ℕ) (c : Context) (s : Session) (v : IsValid w) (e : w.heap p ≡ some s)
    (held : 0 < s.refcount) where
  flushed_refcount : (flushed w c s).refcount ≡ s.refcount
  unfolding flushed
  flushed_refcount = ground arith

  settled_refcount : (settled w c s).refcount ≡ s.refcount
  unfolding settled
  settled_refcount = ground (arith, flushed_refcount)

  settle_world-IsValid : IsValid (settle_world w p c s)
  unfolding settle_world
  settle_world-IsValid = elim (Bool-cases (asks_close c)) [
    | inr stay ↦ rw stay (flush_world-IsValid w p c s v e)
    | inl shut ↦ rw shut (
        client_close-IsValid _ p (flushed w c s) (flush_world-IsValid w p c s v e)
          (unfold flush_world in update_hit w.heap p _))
  ]

  settle_world_live : (settle_world w p c s).heap p ≡ some (settled w c s)
  unfolding settle_world settled flush_world close_world
  settle_world_live = ground (arith, flushed_refcount)

  settle_world_other : (q : ℕ) → q ≢ p → (settle_world w p c s).heap q ≡ w.heap q
  unfolding settle_world flush_world close_world
  settle_world_other q h = ground arith

  flush_run :
      (flush_refresh p c >>= λ c₁. flush_loa p c₁) w
      ≡ some (
        record c {
          refreshed = c.refreshed || c.refreshing;
          loa_changed = c.loa_changed || c.loa_changing;
        },
        flush_world w p c s,
      )
  unfolding flush_world flushed
  flush_run =
      let s₁ = if asks_token c then renewed w s else s in
      let c₁ = if asks_token c then record c { refreshed = true } else c in
      let w₁ = record w {
        heap = update w.heap p (some s₁);
        draws = if asks_token c then suc w.draws else w.draws;
      } in
      ground (
        arith,
        flush_token_run w p c s e,
        flush_loa_run w₁ p c₁ s₁ (update_hit w.heap p (some s₁)),
        update-update w.heap p (some s₁)
            (some (if asks_loa c then record s₁ { loa = c.loa_out } else s₁)),
      )

  disconnect_run :
      c.session ≡ some p
      → context_disconnect c w
        ≡ some (left_context c, unref_world (settle_world w p c s) p (settled w c s))
  unfolding context_disconnect settle_world left_context settled
  disconnect_run own =
      let c₂ = record c {
        refreshed = c.refreshed || c.refreshing;
        loa_changed = c.loa_changed || c.loa_changing;
      } in
      let flush = flush_world w p c s in
      disconnect_chain w flush (settle_world w p c s) _ p c c₂ _ own flush_run
        (flush_close_run flush p c₂ (flushed w c s) (flush_world-IsValid w p c s v e)
          (unfold flush_world in update_hit w.heap p _))
        (client_unref_run (settle_world w p c s) p (settled w c s) settle_world-IsValid
          settle_world_live (omega (arith, settled_refcount)))
      ∙ ground arith

-- afb_context_disconnect on a context that holds a reference to a live session never faults and
-- leaves the store valid. The session first gets the token, the level and the closing that were
-- asked for and not done yet. Then one reference is dropped: the session is freed if that was the
-- last one and the session is closed, and otherwise it stays, with one reference less. The context
-- lets go of the session, and no other session changes.
pub context_disconnect_lem :
    (w : World) (p : ℕ) (c : Context) (s : Session)
    → IsValid w
    → c.session ≡ some p
    → w.heap p ≡ some s
    → 0 < s.refcount
    → (c' : Context) × (w' : World) × (context_disconnect c w ≡ some (c', w'))
      × (c'.session ≡ none)
      × IsValid w'
      × (w'.heap p ≡ (
          if (s.refcount == 1) && is_empty (settled w c s).uuid
          then none
          else some (record (settled w c s) { refcount = s.refcount - 1 })))
      × ((q : ℕ) → q ≢ p → w'.heap q ≡ w.heap q)
unfolding unref_world left_context
context_disconnect_lem w p c s v own e held =
    let count = settled_refcount w p c s v e held in
    let live = settle_world_live w p c s v e held in
    (
      left_context c,
      unref_world (settle_world w p c s) p (settled w c s),
      disconnect_run w p c s v e held own,
      refl,
      unref_world-IsValid _ p (settled w c s) (settle_world-IsValid w p c s v e held) live
          (omega (arith, count)),
      ground (arith, count),
      λ q h. ground (arith, settle_world_other w p c s v e held q h),
    )
