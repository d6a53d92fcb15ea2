-- ===== src/Websock/Send.antt =====
-- src/websock.c: the functions that write frames. The result is `true` for 0 and `false` for -1.
use app_framework_binder.Base.{
  ℕ, ◌+◌, ◌/◌, ◌%◌, ◌^◌, Bool, false, ◌&&◌, none, some, List, [], ◌∷◌, ◌++◌, ltb, ◌==◌,
  if◌then◌else◌, length,
}
use app_framework_binder.Websock.Frame.{
  first_byte, make_header, u64_mod, opcode_continuation, opcode_text, opcode_binary, opcode_close,
  opcode_ping, opcode_pong,
}
use app_framework_binder.Websock.Data.{Conn, Itf, code_not_set}

-- The loop that computes the size, and the bytes of the buffers one after the other.
unfoldable pub total_size : List (List ℕ) → ℕ
total_size [] = 0
total_size (buffer ∷ rest) = (length buffer + total_size rest) % u64_mod

unfoldable pub gather : List (List ℕ) → List ℕ
gather [] = []
gather (buffer ∷ rest) = buffer ++ gather rest

module _ {C : Type 0} (itf : Itf C) where
  -- websock_send_internal_v: EINVAL for more than 31 buffers.
  unfoldable pub send_internal_v : Conn C → ℕ → List (List ℕ) → Bool × Conn C
  send_internal_v conn first iovec =
      if ltb 32 (length iovec + 1)
      then (false, conn)
      else let sent =
          itf.writev conn.closure (make_header first (total_size iovec) ++ gather iovec) in
        (sent.0, record conn { closure = sent.1 })

  -- websock_send_v and websock_send, the latter by websock_send_internal. The reserved bits are 0 in
  -- every call.
  unfoldable pub send_v : Conn C → ℕ → ℕ → List (List ℕ) → Bool × Conn C
  send_v conn last opcode iovec = send_internal_v conn (first_byte last 0 0 0 opcode) iovec

  unfoldable pub send : Conn C → ℕ → ℕ → List ℕ → Bool × Conn C
  send conn last opcode buffer = send_internal_v conn (first_byte last 0 0 0 opcode) (buffer ∷ [])

  -- websock_close
  unfoldable pub close : Conn C → ℕ → List ℕ → Bool × Conn C
  close conn code reason =
      if (code == code_not_set) && (length reason == 0)
      then send conn 1 opcode_close []
      else if ltb 123 (length reason)
      then (false, conn)
      else send_v conn 1 opcode_close ((code / 2 ^ 8 % 256 ∷ code % 256 ∷ []) ∷ reason ∷ [])

  -- websock_close_empty
  unfoldable pub close_empty : Conn C → Bool × Conn C
  close_empty conn = close conn code_not_set []

  -- websock_ping and websock_pong
  unfoldable pub ping : Conn C → List ℕ → Bool × Conn C
  ping conn bytes = if ltb 125 (length bytes) then (false, conn) else send conn 1 opcode_ping bytes

  unfoldable pub pong : Conn C → List ℕ → Bool × Conn C
  pong conn bytes = if ltb 125 (length bytes) then (false, conn) else send conn 1 opcode_pong bytes

  -- websock_text, websock_binary and websock_continue, and their forms for several buffers
  unfoldable pub text : Conn C → ℕ → List ℕ → Bool × Conn C
  text conn last bytes = send conn last opcode_text bytes

  unfoldable pub text_v : Conn C → ℕ → List (List ℕ) → Bool × Conn C
  text_v conn last iovec = send_v conn last opcode_text iovec

  unfoldable pub binary : Conn C → ℕ → List ℕ → Bool × Conn C
  binary conn last bytes = send conn last opcode_binary bytes

  unfoldable pub binary_v : Conn C → ℕ → List (List ℕ) → Bool × Conn C
  binary_v conn last iovec = send_v conn last opcode_binary iovec

  unfoldable pub continue : Conn C → ℕ → List ℕ → Bool × Conn C
  continue conn last bytes = send conn last opcode_continuation bytes

  unfoldable pub continue_v : Conn C → ℕ → List (List ℕ) → Bool × Conn C
  continue_v conn last iovec = send_v conn last opcode_continuation iovec

  -- websock_error
  unfoldable pub error : Conn C → ℕ → List ℕ → Bool × Conn C
  error conn code reason =
      let closed = close conn code reason in
      elim itf.on_error [
        | none ↦ closed
        | some on_error ↦ (closed.0, on_error closed.1 code reason)
      ]
