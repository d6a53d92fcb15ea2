-- ===== src/Websock/Closing.antt =====
-- What becomes of the code of websock_close at the other end.
use Prim.Native.Nat.{bit_or}
use app_framework_binder.Base.{
  ℕ, ◌+◌, ◌*◌, ◌/◌, ◌%◌, ◌^◌, ◌≤◌, ◌<◌, ◌≡◌, refl, ap, ◌∙◌, false, some, List, [], ◌∷◌, ◌++◌, ltb,
  ◌==◌, if◌then◌else◌, length, get_or, arith,
}
use app_framework_binder.Base.Bits.{bit_or_apart, bit_or_zero}
use app_framework_binder.Websock.Frame.{u64_mod, make_header, first_byte}
use app_framework_binder.Websock.Data.{Conn, Itf, code_not_set}
use app_framework_binder.Websock.Send.{close, send_v, send_internal_v, total_size, gather}
use app_framework_binder.Websock.Reading.{
  close_code, frame_length, opcode_growth, length_growth, check_control_header,
}
use app_framework_binder.Websock.Lengths.{frame_length-make_header}

-- The bytes of a close frame with a code.
unfoldable pub close_frame : ℕ → List ℕ → List ℕ
close_frame code reason =
    make_header 136 (2 + length reason) ++ (code / 2 ^ 8 % 256 ∷ code % 256 ∷ reason)

append_nil : (xs : List ℕ) → xs ++ [] ≡ xs
append_nil [] = refl
append_nil (x ∷ xs) = ap (λ ys. x ∷ ys) (append_nil xs)

module _ {C : Type 0} (itf : Itf C) where
  close_writes :
      (conn : Conn C) (code : ℕ) (reason : List ℕ)
      → length reason ≤ 123
      → (code == code_not_set) ≡ false
      → close itf conn code reason ≡ (
        (itf.writev conn.closure (close_frame code reason)).0,
        record conn { closure = (itf.writev conn.closure (close_frame code reason)).1 },
      )
  unfolding close send_v send_internal_v total_size gather close_frame first_byte
  close_writes conn code reason short coded =
      let total : (2 + (length reason + 0) % u64_mod) % u64_mod ≡ 2 + length reason = omega arith in
      let let_through : ltb 123 (length reason) ≡ false = ground arith in
      rw (append_nil reason, total, coded, let_through) refl

close_code_byte :
    (code : ℕ) → code < 65536 → bit_or (code / 2 ^ 8 % 256 * 2 ^ 8 % 2 ^ 16) (code % 256) ≡ code
close_code_byte code small =
    let top = code / 2 ^ 8 % 256 in
    let fits : top * 2 ^ 8 % 2 ^ 16 ≡ top * 2 ^ 8 = omega arith in
    rw (fits, bit_or_apart 8 top (code % 256) (omega arith)) (omega arith)

close_code_lem :
    (code : ℕ) (reason : List ℕ)
    → code < 65536
    → length reason ≤ 123
    → let header = close_frame code reason in
      (opcode_growth (get_or header 0 0) (get_or header 1 0) ≡ some 2)
      × (length_growth (get_or header 1 0) ≡ 0)
      × (frame_length header ≡ length reason)
      × (close_code header 4 (length reason) ≡ (if length reason == 0 then code_not_set else code))
unfolding close_code close_frame make_header opcode_growth check_control_header length_growth
close_code_lem code reason small short =
    let size = 2 + length reason in
    let reads =
      frame_length-make_header 136 size (code / 2 ^ 8 % 256 ∷ code % 256 ∷ reason) 4 (omega arith)
        (λ h. omega arith) in
    ground (arith, reads, close_code_byte code small, bit_or_zero (size % 256))

-- What websock_close sends for a code of 16 bits that is not 1005 and a reason of at most 123 bytes is one
-- frame. The other end reads from it a header of four bytes with the code in the last two, and the
-- length of the reason. It gives the code to on_close if there is a reason, and 1005 if there is
-- none.
pub close_lem :
    {C : Type 0} (itf : Itf C) (conn : Conn C) (code : ℕ) (reason : List ℕ)
    → code < 65536
    → (code == code_not_set) ≡ false
    → length reason ≤ 123
    → let frame = close_frame code reason in
      (close itf conn code reason ≡ (
        (itf.writev conn.closure frame).0,
        record conn { closure = (itf.writev conn.closure frame).1 },
      ))
      × (opcode_growth (get_or frame 0 0) (get_or frame 1 0) ≡ some 2)
      × (length_growth (get_or frame 1 0) ≡ 0)
      × (frame_length frame ≡ length reason)
      × (close_code frame 4 (frame_length frame)
          ≡ (if length reason == 0 then code_not_set else code))
close_lem itf conn code reason small coded short =
    let (grows, unmasked, left, handed) = close_code_lem code reason small short in
    (
      close_writes itf conn code reason short coded,
      grows,
      unmasked,
      left,
      ap (close_code (close_frame code reason) 4) left ∙ handed,
    )
