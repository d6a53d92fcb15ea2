-- ===== src/Websock/Reading.antt =====
-- src/websock.c: reading the bytes of a header and of a payload.
use Prim.Native.Nat.{bit_or}
use app_framework_binder.Base.{
  ℕ, zero, suc, ◌+◌, ◌-◌, ◌*◌, ◌%◌, ◌^◌, Bool, true, false, ◌&&◌, ◌||◌, not, Option, none, some,
  List, [], ◌∷◌, ltb, ◌==◌, if◌then◌else◌, length, get_or,
}
use app_framework_binder.Websock.Frame.{
  get_rsv1, get_rsv2, get_rsv3, get_opcode, get_mask, get_payload_len, read_length, u64_mod,
}
use app_framework_binder.Websock.Mask.{Mask, zero_mask, is_zero, unmask}
use app_framework_binder.Websock.Data.{State, Conn, Itf, code_not_set}

-- Bytes written into an array from an index on. A byte beyond the end makes the list longer, so that
-- an array that has kept its length was not written past its end.
unfoldable pub put_at : List ℕ → ℕ → ℕ → List ℕ
put_at [] i b = b ∷ []
put_at (x ∷ xs) zero b = b ∷ xs
put_at (x ∷ xs) (suc i) b = x ∷ put_at xs i b

unfoldable pub write_at : List ℕ → ℕ → List ℕ → List ℕ
write_at array i [] = array
write_at array i (b ∷ bs) = write_at (put_at array i b) (i + 1) bs

-- check_control_header, on the first two bytes.
unfoldable pub check_control_header : ℕ → ℕ → Bool
check_control_header h₀ h₁ =
    if not (get_rsv1 h₀ == 0) || not (get_rsv2 h₀ == 0) || not (get_rsv3 h₀ == 0)
    then false
    else if ltb 125 (get_payload_len h₁)
    then false
    else if get_opcode h₀ == 8
    then not (get_payload_len h₁ == 1)
    else true

-- What STATE_START adds to the size of the header: `none` is a protocol error.
unfoldable pub opcode_growth : ℕ → ℕ → Option ℕ
opcode_growth h₀ h₁ =
    if get_opcode h₀ == 8
    then (if check_control_header h₀ h₁
        then some (if get_payload_len h₁ == 0 then 0 else 2)
        else none)
    else if get_opcode h₀ == 9 || get_opcode h₀ == 10
    then (if check_control_header h₀ h₁ then some 0 else none)
    else some 0

unfoldable pub length_growth : ℕ → ℕ
length_growth h₁ =
    if get_payload_len h₁ == 127
    then 6 + 2 + 4 * get_mask h₁
    else if get_payload_len h₁ == 126
    then 2 + 4 * get_mask h₁
    else 4 * get_mask h₁

-- The length of the payload that is still to be read once the header is.
unfoldable pub frame_length : List ℕ → ℕ
unfolding read_length
frame_length h =
    let raw =
      read_length (get_or h 1 0) (get_or h 2 0) (get_or h 3 0) (get_or h 4 0) (get_or h 5 0)
        (get_or h 6 0) (get_or h 7 0) (get_or h 8 0) (get_or h 9 0) in
    if (get_opcode (get_or h 0 0) == 8) && not (raw == 0)
    then (raw + u64_mod - 2) % u64_mod
    else raw

unfoldable pub frame_mask : List ℕ → ℕ → Mask
frame_mask h szhead = if get_mask (get_or h 1 0) == 0 then zero_mask else record {
  m₀ = get_or h (szhead - 4) 0;
  m₁ = get_or h (szhead - 3) 0;
  m₂ = get_or h (szhead - 2) 0;
  m₃ = get_or h (szhead - 1) 0;
}

-- The code that a frame of opcode 8 hands to `on_close`.
unfoldable pub close_code : List ℕ → ℕ → ℕ → ℕ
close_code h szhead len =
    if len == 0
    then code_not_set
    else bit_or (get_or h (szhead - 2) 0 * 2 ^ 8 % 2 ^ 16) (get_or h (szhead - 1) 0)

-- The interface, and the address of the buffer of websock_drop.
module _ {C : Type 0} (itf : Itf C) (address : ℕ) where
  unfoldable pub read_header : Conn C → Bool × Conn C
  read_header conn =
      let ws = conn.ws in
      if ltb ws.lenhead ws.szhead
      then (let got = itf.readv conn.closure (ws.szhead - ws.lenhead) in
          elim got.0 [
            | none ↦ (false, record conn { closure = got.1 })
            | some bytes ↦ (
              true,
              record {
                ws = record ws {
                  header = write_at ws.header ws.lenhead bytes;
                  lenhead = ws.lenhead + length bytes;
                };
                closure = got.1;
              },
            )
          ])
      else (true, conn)

  -- websock_read, into a buffer at an address: `none` for -1, else the bytes that the buffer gets.
  unfoldable pub read : Conn C → ℕ → ℕ → Option (List ℕ) × Conn C
  read conn addr size = elim conn.ws.state [
    | State.data_ ↦
        let ws = conn.ws in
        let got = itf.readv conn.closure (if ltb ws.length size then ws.length else size) in
        elim got.0 [
          | none ↦ (none, record conn { closure = got.1 })
          | some bytes ↦
              let clear = unmask addr ws.mask bytes in
              if length bytes == 0
              then (some [], record conn { closure = got.1 })
              else if is_zero ws.mask
              then (
                some bytes,
                record { ws = record ws { length = ws.length - length bytes }; closure = got.1 },
              )
              else (
                some clear.0,
                record {
                  ws = record ws { length = ws.length - length bytes; mask = clear.1 };
                  closure = got.1;
                },
              )
        ]
    | _ ↦ (some [], conn)
  ]

  -- websock_drop: `none` when the fuel runs out, else whether it returns 0.
  unfoldable pub drop : ℕ → Conn C → Option (Bool × Conn C)
  drop zero conn = none
  drop (suc fuel) conn = elim (conn.ws.length == 0) [
    | true ↦ some (true, conn)
    | false ↦
        let got = read conn address 8000 in
        elim got.0 [ none ↦ some (false, got.1) | some _ ↦ drop fuel got.1 ]
  ]
