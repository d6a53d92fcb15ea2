-- ===== src/Websock/Payload.antt =====
-- Reading the payload of a frame, and dropping it.
use app_framework_binder.Base.{
  ℕ, zero, suc, ◌+◌, ◌≤◌, ◌<◌, ◌≡◌, ◌≢◌, ◌⊎◌, inl, inr, refl, ap, ◌∙◌, Bool, true, false, none,
  some, List, [], ◌∷◌, ltb, ◌==◌, if◌then◌else◌, length, arith, Bool-cases, Option-cases,
}
use app_framework_binder.Websock.Data.{State, Conn, Itf}
use app_framework_binder.Websock.Mask.{Mask, rotate, is_zero}
use app_framework_binder.Websock.Mask.Chunks.{masked, rotated, unmask-eq-masked}
use app_framework_binder.Websock.Reading.{read, drop}

length-masked : (bs : List ℕ) (m : Mask) → length (masked m bs) ≡ length bs
unfolding masked
length-masked [] m = refl
length-masked (b ∷ bs) m = ap suc (length-masked bs (rotate m))

length_positive : (bs : List ℕ) → bs ≢ [] → 0 < length bs
length_positive [] h = absurd (h refl)
length_positive (b ∷ bs) h = omega arith

-- What afb-ws.c promises of readv: what it reads is not more than what it is asked for.
abbrev pub IsBounded : {C : Type 0} → Itf C → Type 0
IsBounded {C} itf =
    (c : C) (n : ℕ) (bytes : List ℕ) → (itf.readv c n).0 ≡ some bytes → length bytes ≤ n

-- And it fails rather than read nothing at all.
abbrev pub IsProgressing : {C : Type 0} → Itf C → Type 0
IsProgressing {C} itf = (c : C) (n : ℕ) → (itf.readv c n).0 ≢ some []

module _ {C : Type 0} (itf : Itf C) (address : ℕ) (bounded : IsBounded itf) where
  -- When the state is STATE_DATA and readv, asked for no more than the rest of the frame, gives bytes,
  -- then websock_read gives these bytes, unmasked as RFC 6455 says if the mask is not 0, and no more
  -- than it was asked for. The frame has that many bytes less, the mask is turned by as many, and the
  -- state stays.
  pub read_lem :
      (conn : Conn C) (addr size : ℕ) (bytes : List ℕ)
      → conn.ws.state ≡ State.data_
      → (itf.readv conn.closure (if ltb conn.ws.length size then conn.ws.length else size)).0
        ≡ some bytes
      → let plain = if is_zero conn.ws.mask then bytes else masked conn.ws.mask bytes in
        ((read itf address conn addr size).0 ≡ some plain)
        × (length bytes ≤ size)
        × ((read itf address conn addr size).1.ws.length + length bytes ≡ conn.ws.length)
        × ((read itf address conn addr size).1.ws.mask
            ≡ (if is_zero conn.ws.mask then conn.ws.mask else rotated conn.ws.mask bytes))
        × ((read itf address conn addr size).1.ws.state ≡ State.data_)
  unfolding read masked rotated
  read_lem conn addr size [] st given =
      ground (arith, st, given, unmask-eq-masked addr (conn.ws.mask) [])
  read_lem conn addr size (b ∷ bs) st given =
      let asked = if ltb conn.ws.length size then conn.ws.length else size in
      ground (
        arith,
        st,
        given,
        bounded conn.closure asked (b ∷ bs) given,
        unmask-eq-masked addr (conn.ws.mask) (b ∷ bs),
        length-masked bs (rotate (conn.ws.mask)),
      )

  read_fails :
      (conn : Conn C) (addr size : ℕ)
      → conn.ws.state ≡ State.data_
      → (itf.readv conn.closure (if ltb conn.ws.length size then conn.ws.length else size)).0 ≡ none
      → ((read itf address conn addr size).0 ≡ none)
        × ((read itf address conn addr size).1.ws ≡ conn.ws)
  unfolding read
  read_fails conn addr size st given = ground (arith, st, given)

  module _ (progressing : IsProgressing itf) where
    -- If readv gives no more than it is asked for and fails rather than give nothing, websock_drop
    -- comes to an end in STATE_DATA: fuel for one turn more than there are bytes left is enough. It
    -- fails, or nothing of the payload is left.
    pub drop_ends :
        (fuel : ℕ) (conn : Conn C)
        → conn.ws.state ≡ State.data_
        → conn.ws.length < fuel
        → (rc : Bool) × (conn' : Conn C) × (drop itf address fuel conn ≡ some (rc, conn'))
          × ((rc ≡ false) ⊎ (conn'.ws.length ≡ 0))
          × (conn'.ws.state ≡ State.data_)
    unfolding drop
    drop_ends zero conn st enough = absurd (omega arith)
    drop_ends (suc fuel) conn st enough =
        let got = read itf address conn address 8000 in
        let asked = if ltb conn.ws.length 8000 then conn.ws.length else 8000 in
        elim (Bool-cases (conn.ws.length == 0)) [
          | inl over ↦ (true, conn, ground (arith, over), inr (ground (arith, over)), st)
          | inr more ↦ elim (Option-cases (itf.readv conn.closure asked).0) [
            | inl failed ↦
                let (gives, kept) = read_fails conn address 8000 st failed in
                (false, got.1, ground (arith, more, gives), inl refl, ground (arith, kept, st))
            | inr (bytes, given) ↦
                let (gives, fits, shorter, turned, still) =
                  read_lem conn address 8000 bytes st given in
                let filled : 0 < length bytes =
                  length_positive bytes (λ e. progressing conn.closure asked (given ∙ ap some e)) in
                let (rc, last, ends, done, state) =
                  drop_ends fuel got.1 still (omega (arith, shorter, enough, filled)) in
                (rc, last, ground (arith, more, gives, ends), done, state)
          ]
        ]
