-- ===== src/Websock/Frame.antt =====
-- src/websock.c: the bits of a frame's header, and the header that is written and read.
use Prim.Native.Nat.{bit_or}
use app_framework_binder.Base.{ℕ, ◌*◌, ◌/◌, ◌%◌, ◌^◌, List, [], ◌∷◌, ◌++◌, ltb, ◌==◌, if◌then◌else◌}

-- The macros FRAME_GET_…, on a byte.
abbrev pub get_fin : ℕ → ℕ
get_fin byte = byte / 2 ^ 7 % 2

abbrev pub get_rsv1 : ℕ → ℕ
get_rsv1 byte = byte / 2 ^ 6 % 2

abbrev pub get_rsv2 : ℕ → ℕ
get_rsv2 byte = byte / 2 ^ 5 % 2

abbrev pub get_rsv3 : ℕ → ℕ
get_rsv3 byte = byte / 2 ^ 4 % 2

abbrev pub get_opcode : ℕ → ℕ
get_opcode byte = byte % 16

abbrev pub get_mask : ℕ → ℕ
get_mask byte = byte / 2 ^ 7 % 2

abbrev pub get_payload_len : ℕ → ℕ
get_payload_len byte = byte % 128

-- The macros FRAME_SET_…. FRAME_SET_LENGTH takes a byte of a 64 bit number.
abbrev pub set_fin : ℕ → ℕ
set_fin byte = byte % 2 * 2 ^ 7

abbrev pub set_rsv1 : ℕ → ℕ
set_rsv1 byte = byte % 2 * 2 ^ 6

abbrev pub set_opcode : ℕ → ℕ
set_opcode byte = byte % 16

abbrev pub set_mask : ℕ → ℕ
set_mask byte = byte % 2 * 2 ^ 7

abbrev pub set_length : ℕ → ℕ → ℕ
set_length x64 idx = x64 / 2 ^ (idx * 8) % 256

abbrev pub u64_mod : ℕ
u64_mod = 2 ^ 64

abbrev pub opcode_continuation : ℕ
opcode_continuation = 0

abbrev pub opcode_text : ℕ
opcode_text = 1

abbrev pub opcode_binary : ℕ
opcode_binary = 2

abbrev pub opcode_close : ℕ
opcode_close = 8

abbrev pub opcode_ping : ℕ
opcode_ping = 9

abbrev pub opcode_pong : ℕ
opcode_pong = 10

-- The first byte, as websock_send and websock_send_v compute it; all three reserved bits go
-- through FRAME_SET_RSV1 there.
unfoldable pub first_byte : ℕ → ℕ → ℕ → ℕ → ℕ → ℕ
first_byte last rsv1 rsv2 rsv3 opcode =
    bit_or (bit_or (bit_or (bit_or (set_fin last) (set_rsv1 rsv1)) (set_rsv1 rsv2)) (set_rsv1 rsv3))
      (set_opcode opcode)

-- The header of a frame that websock_send_internal_v makes.
unfoldable pub make_header : ℕ → ℕ → List ℕ
make_header first size =
    if ltb size 126
    then first ∷ bit_or (set_mask 0) (set_length size 0) ∷ []
    else (if ltb size 65536
        then first ∷ bit_or (set_mask 0) 126 ∷ []
        else first
          ∷ bit_or (set_mask 0) 127
          ∷ set_length size 7
          ∷ set_length size 6
          ∷ set_length size 5
          ∷ set_length size 4
          ∷ set_length size 3
          ∷ set_length size 2
          ∷ [])
      ++ (set_length size 1 ∷ set_length size 0 ∷ [])

-- The length that the STATE_LENGTH part of websock_dispatch reads from bytes 1 to 9 of a header.
unfoldable pub read_length : ℕ → ℕ → ℕ → ℕ → ℕ → ℕ → ℕ → ℕ → ℕ → ℕ
read_length h₁ h₂ h₃ h₄ h₅ h₆ h₇ h₈ h₉ =
    if get_payload_len h₁ == 127
    then bit_or
        (bit_or
          (bit_or
            (bit_or
              (bit_or (bit_or (bit_or (h₂ * 2 ^ 56) (h₃ * 2 ^ 48)) (h₄ * 2 ^ 40)) (h₅ * 2 ^ 32))
              (h₆ * 2 ^ 24))
            (h₇ * 2 ^ 16))
          (h₈ * 2 ^ 8))
        h₉
    else if get_payload_len h₁ == 126
    then bit_or (h₂ * 2 ^ 8) h₃
    else get_payload_len h₁
