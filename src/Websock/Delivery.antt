-- ===== src/Websock/Delivery.antt =====
-- src/websock.c: how websock_dispatch takes in the headers that make_header writes.
use mathlib.Core.Path.{subst}
use app_framework_binder.Base.{
  ℕ, zero, suc, ◌+◌, ◌<◌, ◌≡◌, ap, sym, ◌∙◌, none, some, ◌++◌, List, ltb, if◌then◌else◌, length,
  get_or, arith,
}
use app_framework_binder.Websock.Frame.{
  get_fin, get_rsv1, get_rsv2, get_rsv3, get_opcode, make_header, u64_mod,
}
use app_framework_binder.Websock.Data.{State, Conn, Itf}
use app_framework_binder.Websock.Reading.{length_growth, frame_length, frame_mask, opcode_growth}
use app_framework_binder.Websock.Mask.{zero_mask}
use app_framework_binder.Websock.Dispatch.{
  again, too_long_error, turn_sizes, turn_length, turn_frame, turn_plain, turn_opcode,
}
use app_framework_binder.Websock.Lengths.{frame_length-make_header}

-- The callbacks for the opcodes of data: 0 continues a message, 1 is a text and 2 is binary.
abbrev pub on_data : {C : Type 0} → Itf C → ℕ → Conn C → ℕ → ℕ → Conn C
on_data itf zero = itf.on_continue
on_data itf (suc zero) = itf.on_text
on_data itf (suc (suc n)) = itf.on_binary

abbrev pub with_sizes : {C : Type 0} → Conn C → ℕ → Conn C
with_sizes conn size = record conn { ws = record (conn.ws) { szhead = size; state = State.length } }

abbrev pub with_length : {C : Type 0} → Conn C → ℕ → Conn C
with_length conn size = record conn { ws = record (conn.ws) { length = size } }

abbrev pub with_payload : {C : Type 0} → Conn C → ℕ → Conn C
with_payload conn size = record conn {
  ws = record (conn.ws) { length = size; mask = zero_mask; state = State.data_ };
}

opcode_growth-data : (first second : ℕ) → get_opcode first < 3 → opcode_growth first second ≡ some 0
unfolding opcode_growth
opcode_growth-data first second small = ground arith

module _ {C : Type 0} (itf : Itf C) (address fuel : ℕ) where
  turn_opcode-on_data :
      (conn : Conn C) (first : ℕ)
      → get_or conn.ws.header 0 0 ≡ first
      → get_opcode first < 3
      → turn_opcode itf address fuel conn
        ≡ again (on_data itf (get_opcode first) conn (get_fin first) conn.ws.length)
  unfolding turn_opcode
  turn_opcode-on_data conn first is small = ground arith

  turn_frame-on_data :
      (conn : Conn C) (first size : ℕ)
      → itf.on_extension ≡ none
      → get_or conn.ws.header 0 0 ≡ first
      → get_opcode first < 3
      → get_rsv1 first ≡ 0
      → get_rsv2 first ≡ 0
      → get_rsv3 first ≡ 0
      → frame_length conn.ws.header ≡ size
      → frame_mask conn.ws.header conn.ws.szhead ≡ zero_mask
      → turn_frame itf address fuel conn ≡ (
          if ltb conn.ws.maxlength size
          then too_long_error itf address (with_length conn size)
          else again (on_data itf (get_opcode first) (with_payload conn size) (get_fin first) size))
  unfolding turn_frame turn_plain
  turn_frame-on_data conn first size plain is small r₁ r₂ r₃ sized bare =
      rw (plain, sized, bare)
        (ground (
          arith,
          is,
          small,
          r₁,
          r₂,
          r₃,
          turn_opcode-on_data (with_payload conn size) first is small,
        ))

  turn_sizes-with_sizes :
      (conn : Conn C) (n : ℕ)
      → conn.ws.szhead ≡ 2
      → get_opcode (get_or conn.ws.header 0 0) < 3
      → 2 + length_growth (get_or conn.ws.header 1 0) ≡ n
      → turn_sizes itf address fuel conn ≡ turn_length itf address fuel (with_sizes conn n)
  unfolding turn_sizes
  turn_sizes-with_sizes conn n two small grows =
      rw
        (
          opcode_growth-data (get_or conn.ws.header 0 0) (get_or conn.ws.header 1 0) small,
          turn_sizes,
        )
        (ap (λ k. turn_length itf address fuel (with_sizes conn k)) (omega (arith, grows, two)))

  -- A frame of data whose header make_header writes, with no reserved bit and a payload of less than
  -- 2^64 bytes, is taken in by websock_dispatch, whatever bytes follow, when the connection asks for
  -- no extension. Once its first two bytes are there, whatever stands behind them, STATE_START asks
  -- for exactly the bytes of the header. Once these are there, the callback of its opcode gets the
  -- last-frame bit and the length of the payload, with that length left to read and no mask, unless
  -- the length is more than maxlength, which is the error of a message that is too large.
  pub data_frame_lem :
      (early conn : Conn C) (first size : ℕ) (rest : List ℕ)
      → itf.on_extension ≡ none
      → conn.ws.header ≡ make_header first size ++ rest
      → early.ws.szhead ≡ 2
      → get_or early.ws.header 0 0 ≡ get_or conn.ws.header 0 0
      → get_or early.ws.header 1 0 ≡ get_or conn.ws.header 1 0
      → size < u64_mod
      → get_opcode first < 3
      → get_rsv1 first ≡ 0
      → get_rsv2 first ≡ 0
      → get_rsv3 first ≡ 0
      → (turn_sizes itf address fuel early
          ≡ turn_length itf address fuel (with_sizes early (length (make_header first size))))
        × (turn_frame itf address fuel conn ≡ (
            if ltb conn.ws.maxlength size
            then too_long_error itf address (with_length conn size)
            else again
                (on_data itf (get_opcode first) (with_payload conn size) (get_fin first) size)))
  data_frame_lem early conn first size rest plain is two b₀ b₁ small data_opcode r₁ r₂ r₃ =
      let (sized, bare, head, measured) =
        frame_length-make_header first size rest conn.ws.szhead small
          (λ h. absurd (omega (arith, h, data_opcode))) in
      let whole : frame_length (make_header first size ++ rest) ≡ size =
        ground (arith, sized, data_opcode) in
      let starts : get_or conn.ws.header 0 0 ≡ first = ap (λ h. get_or h 0 0) is ∙ head in
      (
        turn_sizes-with_sizes early (length (make_header first size)) two
            (subst (λ b. get_opcode b < 3) (sym (b₀ ∙ starts)) data_opcode)
            (ap (λ b. 2 + length_growth b) b₁
              ∙ ap (λ h. 2 + length_growth (get_or h 1 0)) is
              ∙ measured),
        turn_frame-on_data conn first size plain starts data_opcode r₁ r₂ r₃
            (ap frame_length is ∙ whole) (ap (λ h. frame_mask h conn.ws.szhead) is ∙ bare),
      )
