-- ===== src/Http/Choice.antt =====
-- Which handler takes a request.
use app_framework_binder.Base.{
  ℕ, ◌≡◌, refl, ◌∙◌, Bool, true, false, none, some, List, [], ◌∷◌, ◌++◌, arith,
}
use app_framework_binder.Http.Request.{Request, unprefix}
use app_framework_binder.Http.Handlers.{Handler, suspend, try_handlers, scan}

-- The request once access_handler has begun to look for a handler.
abbrev pub begin : {W : Type 0} → Request × W → Request × W
begin state = (record (state.0) { scanned = true }, state.1)

-- The functions of the handlers and the answer of an error are the server's.
module _ {W : Type 0} (call : ℕ → ℕ → Request × W → Bool × (Request × W))
    (reply_error : ℕ → Request × W → Request × W) where
  -- What is left when a handler did not match a request, or was called and did not take it.
  unfoldable pub pass_by : Handler → Request × W → Request × W
  pass_by h state = elim (unprefix state.0 h.prefix h.len) [
    | none ↦ state
    | some found ↦
        let called = (call h.handler h.data_ (found, state.1)).1 in
        (record (called.0) { tail = called.0.url }, called.1)
  ]

  unfoldable pub takes : Handler → Request × W → Bool
  takes h state = elim (unprefix state.0 h.prefix h.len) [
    | none ↦ false
    | some found ↦ (call h.handler h.data_ (found, state.1)).0
  ]

  -- What a handler that takes a request leaves, the connection suspended if it did not answer.
  unfoldable pub finish : Handler → Request × W → Request × W
  finish h state = elim (unprefix state.0 h.prefix h.len) [
    | none ↦ state
    | some found ↦
        let called = (call h.handler h.data_ (found, state.1)).1 in (suspend called.0, called.1)
  ]

  unfoldable pub passed : List Handler → Request × W → Request × W
  passed [] state = state
  passed (h ∷ handlers) state = passed handlers (pass_by h state)

  unfoldable pub NoneTakes : List Handler → Request × W → Type 0
  NoneTakes [] state = Unit
  NoneTakes (h ∷ handlers) state = (takes h state ≡ false) × NoneTakes handlers (pass_by h state)

  try_passed :
      (front rest : List Handler) (state : Request × W)
      → NoneTakes front state
      → try_handlers call reply_error (front ++ rest) state
        ≡ try_handlers call reply_error rest (passed front state)
  unfolding try_handlers NoneTakes passed takes pass_by
  try_passed [] rest state all = refl
  try_passed (h ∷ front) rest state (first, all) =
      ground (arith, first, try_passed front rest (pass_by h state) all)

  try_taken :
      (h : Handler) (back : List Handler) (state : Request × W)
      → takes h state ≡ true
      → try_handlers call reply_error (h ∷ back) state ≡ finish h state
  unfolding try_handlers takes finish
  try_taken h back state taken = ground (arith, taken)

  try_none :
      (handlers : List Handler) (state : Request × W)
      → NoneTakes handlers state
      → try_handlers call reply_error handlers state ≡ reply_error 404 (passed handlers state)
  unfolding try_handlers NoneTakes passed takes pass_by
  try_none [] state all = refl
  try_none (h ∷ handlers) state (first, all) =
      ground (arith, first, try_none handlers (pass_by h state) all)

  -- A request that no handler takes is answered by the error 404, after all that match were called.
  pub scan_nobody :
      (handlers : List Handler) (state : Request × W)
      → state.0.scanned ≡ false
      → NoneTakes handlers (begin state)
      → scan call reply_error handlers state ≡ reply_error 404 (passed handlers (begin state))
  unfolding scan
  scan_nobody handlers state fresh all = rw fresh (try_none handlers (begin state) all)

  -- If a handler takes a request that was not scanned before, and none of those in front of it does,
  -- then those in front of it that match are called, and it is the last: what is behind it does not
  -- matter.
  pub scan_first :
      (front back : List Handler) (h : Handler) (state : Request × W)
      → state.0.scanned ≡ false
      → NoneTakes front (begin state)
      → takes h (passed front (begin state)) ≡ true
      → scan call reply_error (front ++ (h ∷ back)) state ≡ finish h (passed front (begin state))
  unfolding scan
  scan_first front back h state fresh all taken = rw fresh (
      try_passed front (h ∷ back) (begin state) all
      ∙ try_taken h back (passed front (begin state)) taken)
