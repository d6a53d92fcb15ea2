-- ===== src/Websock/Dispatch.antt =====
-- src/websock.c: websock_dispatch is a loop over turns. A turn starts at the state of the connection
-- and runs, through the states that follow, to a return or to `goto loop`.
use app_framework_binder.Base.{
  ℕ, zero, suc, ◌+◌, Bool, true, false, ◌||◌, not, Option, none, some, [], ltb, ◌==◌, if◌then◌else◌,
  get_or,
}
use app_framework_binder.Websock.Frame.{get_fin, get_rsv1, get_rsv2, get_rsv3, get_opcode}
use app_framework_binder.Websock.Data.{
  State, Conn, Itf, code_protocol_error, code_message_too_large,
}
use app_framework_binder.Websock.Send.{error, pong}
use app_framework_binder.Websock.Reading.{
  opcode_growth, length_growth, frame_length, frame_mask, close_code, read_header, drop,
}

-- How a turn ends: with a return (`true` for 0), with `goto loop`, or not within its fuel.
pub data Turn (C : Type 0) : Type 0 where
  stop : Bool → Conn C → Turn C
  again : Conn C → Turn C
  spin : Turn C

abbrev pub with_state : {C : Type 0} → State → Conn C → Conn C
with_state s conn = record conn { ws = record (conn.ws) { state = s } }

module _ {C : Type 0} (itf : Itf C) (address : ℕ) where
  unfoldable pub too_long_error : Conn C → Turn C
  too_long_error conn = stop true (error itf conn code_message_too_large []).1

  unfoldable pub protocol_error : Conn C → Turn C
  protocol_error conn = stop true (error itf conn code_protocol_error []).1

  -- The parts of STATE_LENGTH for a ping and for a pong.
  unfoldable pub turn_ping : ℕ → Conn C → Turn C
  turn_ping fuel conn = elim itf.on_ping [
    | some on_ping ↦ again (with_state State.init (on_ping conn conn.ws.length))
    | none ↦ elim (drop itf address fuel conn) [
      | none ↦ spin
      | some dropped ↦ again (with_state State.init (pong itf dropped.1 []).1)
    ]
  ]

  unfoldable pub turn_pong : ℕ → Conn C → Turn C
  turn_pong fuel conn = elim itf.on_pong [
    | some on_pong ↦ again (with_state State.init (on_pong conn conn.ws.length))
    | none ↦ elim (drop itf address fuel conn) [
      | none ↦ spin
      | some dropped ↦ again (with_state State.init dropped.1)
    ]
  ]

  -- The switch on the opcode at the end of STATE_LENGTH.
  unfoldable pub turn_opcode : ℕ → Conn C → Turn C
  turn_opcode fuel conn =
      let ws = conn.ws in
      let h₀ = get_or ws.header 0 0 in
      if get_opcode h₀ == 0
      then again (itf.on_continue conn (get_fin h₀) ws.length)
      else if get_opcode h₀ == 1
      then again (itf.on_text conn (get_fin h₀) ws.length)
      else if get_opcode h₀ == 2
      then again (itf.on_binary conn (get_fin h₀) ws.length)
      else if get_opcode h₀ == 8
      then stop true (itf.on_close conn (close_code ws.header ws.szhead ws.length) ws.length)
      else if get_opcode h₀ == 9
      then turn_ping fuel conn
      else if get_opcode h₀ == 10
      then turn_pong fuel conn
      else protocol_error conn

  -- What follows the extension's callback: the reserved bits must be 0.
  unfoldable pub turn_plain : ℕ → Conn C → Turn C
  turn_plain fuel conn =
      let h₀ = get_or conn.ws.header 0 0 in
      if not (get_rsv1 h₀ == 0) || not (get_rsv2 h₀ == 0) || not (get_rsv3 h₀ == 0)
      then protocol_error conn
      else turn_opcode fuel conn

  -- STATE_LENGTH once the header is complete.
  unfoldable pub turn_frame : ℕ → Conn C → Turn C
  turn_frame fuel conn =
      let ws = conn.ws in
      let h₀ = get_or ws.header 0 0 in
      let sized = record conn { ws = record ws { length = frame_length ws.header } } in
      let known = record conn {
        ws = record ws {
          length = frame_length ws.header;
          mask = frame_mask ws.header ws.szhead;
          state = State.data_;
        };
      } in
      if ltb ws.maxlength (frame_length ws.header)
      then too_long_error sized
      else elim itf.on_extension [
        | none ↦ turn_plain fuel known
        | some on_extension ↦
            let asked =
              on_extension known (get_fin h₀) (get_rsv1 h₀) (get_rsv2 h₀) (get_rsv3 h₀)
                (get_opcode h₀) (frame_length ws.header) in
            if asked.0 then stop true asked.1 else turn_plain fuel asked.1
      ]

  -- STATE_LENGTH
  unfoldable pub turn_length : ℕ → Conn C → Turn C
  turn_length fuel conn =
      let got = read_header itf address conn in
      if not got.0
      then stop false got.1
      else if ltb got.1.ws.lenhead got.1.ws.szhead
      then stop true got.1
      else turn_frame fuel got.1

  -- STATE_START once the first two bytes are there.
  unfoldable pub turn_sizes : ℕ → Conn C → Turn C
  turn_sizes fuel conn =
      let ws = conn.ws in
      let h₁ = get_or ws.header 1 0 in
      elim (opcode_growth (get_or ws.header 0 0) h₁) [
        | none ↦ protocol_error conn
        | some more ↦ turn_length fuel (record conn {
          ws = record ws { szhead = ws.szhead + more + length_growth h₁; state = State.length };
        })
      ]

  -- STATE_START
  unfoldable pub turn_start : ℕ → Conn C → Turn C
  turn_start fuel conn =
      let got = read_header itf address conn in
      if not got.0
      then stop false got.1
      else if ltb got.1.ws.lenhead got.1.ws.szhead
      then stop true got.1
      else turn_sizes fuel got.1

  -- One turn, by the state.
  unfoldable pub turn : ℕ → Conn C → Turn C
  turn fuel conn = elim conn.ws.state [
    | State.init ↦
        turn_start fuel
          (record conn { ws = record (conn.ws) { lenhead = 0; szhead = 2; state = State.start } })
    | State.start ↦ turn_start fuel conn
    | State.length ↦ turn_length fuel conn
    | State.data_ ↦
        if not (conn.ws.length == 0) then stop true conn else again (with_state State.init conn)
  ]

  -- websock_dispatch: `none` when the fuel runs out.
  unfoldable pub dispatch : ℕ → Conn C → Option (Bool × Conn C)
  dispatch zero conn = none
  dispatch (suc fuel) conn = elim (turn fuel conn) [
    | stop rc conn' ↦ some (rc, conn')
    | again conn' ↦ dispatch fuel conn'
    | spin ↦ none
  ]
