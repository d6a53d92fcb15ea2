-- ===== src/Websock/Lengths.antt =====
-- The header of a frame is read as it was written.
use Prim.Native.Nat.{bit_or}
use app_framework_binder.Base.{
  ℕ, ◌+◌, ◌-◌, ◌*◌, ◌^◌, ◌<◌, ◌≡◌, ◌≢◌, inl, inr, refl, ◌∙◌, List, ◌++◌, ltb, ◌==◌, if◌then◌else◌,
  length, get_or, arith, Bool-cases,
}
use app_framework_binder.Base.Bits.{bit_or_apart, bit_or_zero}
use app_framework_binder.Websock.Frame.{
  get_opcode, get_mask, set_length, make_header, read_length, u64_mod,
}
use app_framework_binder.Websock.Reading.{length_growth, frame_length, frame_mask}
use app_framework_binder.Websock.Mask.{zero_mask}

or_next : (width x top low : ℕ) → x ≡ top * 2 ^ width → low < 2 ^ width → bit_or x low ≡ x + low
or_next width x top low e small = rw e (bit_or_apart width top low small)

-- Eight bytes put together are the number that they are the digits of.
read_eight :
    (h₂ h₃ h₄ h₅ h₆ h₇ h₈ h₉ : ℕ)
    → h₃ < 256
    → h₄ < 256
    → h₅ < 256
    → h₆ < 256
    → h₇ < 256
    → h₈ < 256
    → h₉ < 256
    → read_length 127 h₂ h₃ h₄ h₅ h₆ h₇ h₈ h₉
      ≡ h₂ * 2 ^ 56
        + h₃ * 2 ^ 48
        + h₄ * 2 ^ 40
        + h₅ * 2 ^ 32
        + h₆ * 2 ^ 24
        + h₇ * 2 ^ 16
        + h₈ * 2 ^ 8
        + h₉
unfolding read_length
read_eight h₂ h₃ h₄ h₅ h₆ h₇ h₈ h₉ b₃ b₄ b₅ b₆ b₇ b₈ b₉ =
    let x₂ = h₂ * 2 ^ 56 in
    let x₃ = x₂ + h₃ * 2 ^ 48 in
    let x₄ = x₃ + h₄ * 2 ^ 40 in
    let x₅ = x₄ + h₅ * 2 ^ 32 in
    let x₆ = x₅ + h₆ * 2 ^ 24 in
    let x₇ = x₆ + h₇ * 2 ^ 16 in
    let x₈ = x₇ + h₈ * 2 ^ 8 in
    let t₃ = h₂ * 256 + h₃ in
    let t₄ = t₃ * 256 + h₄ in
    let t₅ = t₄ * 256 + h₅ in
    let t₆ = t₅ * 256 + h₆ in
    let t₇ = t₆ * 256 + h₇ in
    let t₈ = t₇ * 256 + h₈ in
    rw (or_next 56 x₂ h₂ (h₃ * 2 ^ 48) refl (omega arith)) (
      rw (or_next 48 x₃ t₃ (h₄ * 2 ^ 40) (omega arith) (omega arith)) (
        rw (or_next 40 x₄ t₄ (h₅ * 2 ^ 32) (omega arith) (omega arith)) (
          rw (or_next 32 x₅ t₅ (h₆ * 2 ^ 24) (omega arith) (omega arith)) (
            rw (or_next 24 x₆ t₆ (h₇ * 2 ^ 16) (omega arith) (omega arith)) (
              rw (or_next 16 x₇ t₇ (h₈ * 2 ^ 8) (omega arith) (omega arith))
                (rw (or_next 8 x₈ t₈ h₉ (omega arith) (omega arith)) refl))))))

read_small :
    (size h₂ h₃ h₄ h₅ h₆ h₇ h₈ h₉ : ℕ)
    → size < 126
    → read_length size h₂ h₃ h₄ h₅ h₆ h₇ h₈ h₉ ≡ size
unfolding read_length
read_small size h₂ h₃ h₄ h₅ h₆ h₇ h₈ h₉ small = ground arith

read_medium :
    (size h₄ h₅ h₆ h₇ h₈ h₉ : ℕ)
    → size < 65536
    → read_length 126 (set_length size 1) (set_length size 0) h₄ h₅ h₆ h₇ h₈ h₉ ≡ size
unfolding read_length
read_medium size h₄ h₅ h₆ h₇ h₈ h₉ small =
    or_next 8 (set_length size 1 * 2 ^ 8) (set_length size 1) (set_length size 0) refl (omega arith)
    ∙ omega arith

read_large :
    (size : ℕ)
    → size < u64_mod
    → read_length 127
        (set_length size 7)
        (set_length size 6)
        (set_length size 5)
        (set_length size 4)
        (set_length size 3)
        (set_length size 2)
        (set_length size 1)
        (set_length size 0)
      ≡ size
read_large size small =
    read_eight (set_length size 7) (set_length size 6) (set_length size 5) (set_length size 4)
      (set_length size 3) (set_length size 2) (set_length size 1) (set_length size 0) (omega arith)
      (omega arith) (omega arith) (omega arith) (omega arith) (omega arith) (omega arith)
    ∙ omega arith

-- The length in a header.
abbrev raw_length : List ℕ → ℕ
raw_length h =
    read_length (get_or h 1 0) (get_or h 2 0) (get_or h 3 0) (get_or h 4 0) (get_or h 5 0)
      (get_or h 6 0) (get_or h 7 0) (get_or h 8 0) (get_or h 9 0)

-- What a header says, if it starts with `first`, is followed by `rest`, and goes unmasked.
abbrev Says : ℕ → ℕ → List ℕ → List ℕ → Type 0
Says first size header rest =
    (raw_length (header ++ rest) ≡ size)
    × (get_or (header ++ rest) 0 0 ≡ first)
    × (get_mask (get_or (header ++ rest) 1 0) ≡ 0)
    × (length header ≡ 2 + length_growth (get_or (header ++ rest) 1 0))

make_header_lem :
    (first size : ℕ) (rest : List ℕ)
    → size < u64_mod
    → Says first size (make_header first size) rest
unfolding make_header length_growth
make_header_lem first size rest small = elim (Bool-cases (ltb size 126)) [
  | inl short ↦
      let less : size < 126 = ground (arith, short) in
      let low : set_length size 0 ≡ size = omega (arith, less) in
      rw (short, bit_or_zero (set_length size 0), low)
        (read_small size _ _ _ _ _ _ _ _ less, refl, omega (arith, less), ground (arith, less))
  | inr long ↦ elim (Bool-cases (ltb size 65536)) [
    | inl medium ↦
        rw (long, medium) (read_medium size _ _ _ _ _ _ (ground (arith, medium)), refl, refl, refl)
    | inr large ↦ rw (long, large) (read_large size small, refl, refl, refl)
  ]
]

-- A header that make_header writes for a payload of less than 2^64 bytes, whatever bytes follow: its
-- first byte is there, no mask is found, length_growth asks for the bytes behind the first two, and
-- frame_length is the length of the payload, less the two bytes of the code in a frame of opcode 8,
-- which has no payload of one byte.
pub frame_length-make_header :
    (first size : ℕ) (rest : List ℕ) (szhead : ℕ)
    → size < u64_mod
    → (get_opcode first ≡ 8 → size ≢ 1)
    → let header = make_header first size ++ rest in
      (frame_length header ≡ (if get_opcode first == 8 then size - 2 else size))
      × (frame_mask header szhead ≡ zero_mask)
      × (get_or header 0 0 ≡ first)
      × (2 + length_growth (get_or header 1 0) ≡ length (make_header first size))
unfolding frame_length frame_mask
frame_length-make_header first size rest szhead small coded =
    let says = make_header_lem first size rest small in ground (arith, says, coded)

-- check_control_header lets pass what websock_close, websock_ping and websock_pong write: control
-- frames of at most 125 bytes, and no close frame of one byte.
