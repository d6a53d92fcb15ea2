-- ===== src/Websock/Headers.antt =====
-- The header of a frame never gets past the 14 bytes that struct websock keeps for it.
use app_framework_binder.Base.{
  ℕ, zero, suc, ◌+◌, ◌-◌, ◌≤◌, ◌<◌, ◌≡◌, inl, inr, refl, ap, ◌∙◌, Bool, Option, none, some, List,
  [], ◌∷◌, length, get_or, arith, Option-cases,
}
use app_framework_binder.Websock.Data.{
  State, Conn, Itf, code_protocol_error, code_message_too_large,
}
use app_framework_binder.Websock.Frame.{get_fin, get_rsv1, get_rsv2, get_rsv3, get_opcode}
use app_framework_binder.Websock.Send.{error, pong, close, send, send_v, send_internal_v}
use app_framework_binder.Websock.Reading.{
  put_at, close_code, frame_length, frame_mask, write_at, check_control_header, opcode_growth,
  length_growth, read_header, read, drop,
}
use app_framework_binder.Websock.Dispatch.{
  stop, again, spin, Turn, too_long_error, protocol_error, turn_ping, turn_pong, turn_opcode,
  turn_plain, turn_frame, turn_length, turn_sizes, turn_start, turn, dispatch,
}

-- The bytes of a header that are there fit, and before the first two of them are there no more is
-- asked for.
pub record Fits {C : Type 0} (conn : Conn C) : Type 0 where
  pub room : length (conn.ws.header) ≡ 14
  pub filled : conn.ws.lenhead ≤ conn.ws.szhead
  pub bounded : conn.ws.szhead ≤ 14
  pub first : conn.ws.state ≡ State.start → conn.ws.szhead ≡ 2

abbrev pub Keeps : {C : Type 0} → (Conn C → Conn C) → Type 0
Keeps {C} f = (c : Conn C) → Fits c → Fits (f c)

-- What is asked of an interface: readv gives no more than it is asked for, and no callback changes
-- the header but through the functions of the file.
pub record IsSafe {C : Type 0} (itf : Itf C) : Type 0 where
  pub reads : (c : C) (n : ℕ) (bytes : List ℕ) → (itf.readv c n).0 ≡ some bytes → length bytes ≤ n
  pub pings : (f : Conn C → ℕ → Conn C) (n : ℕ) → itf.on_ping ≡ some f → Keeps (λ c. f c n)
  pub pongs : (f : Conn C → ℕ → Conn C) (n : ℕ) → itf.on_pong ≡ some f → Keeps (λ c. f c n)
  pub closes : (code : ℕ) (n : ℕ) → Keeps (λ c. itf.on_close c code n)
  pub texts : (last : ℕ) (n : ℕ) → Keeps (λ c. itf.on_text c last n)
  pub binaries : (last : ℕ) (n : ℕ) → Keeps (λ c. itf.on_binary c last n)
  pub continues : (last : ℕ) (n : ℕ) → Keeps (λ c. itf.on_continue c last n)
  pub extensions :
      (f : Conn C → ℕ → ℕ → ℕ → ℕ → ℕ → ℕ → Bool × Conn C) (a : ℕ) (b : ℕ) (c : ℕ) (d : ℕ) (e : ℕ)
      (n : ℕ)
      → itf.on_extension ≡ some f
      → Keeps (λ conn. (f conn a b c d e n).1)
  pub errors :
      (f : Conn C → ℕ → List ℕ → Conn C) (code : ℕ) (reason : List ℕ)
      → itf.on_error ≡ some f
      → Keeps (λ c. f c code reason)

length-put_at :
    (array : List ℕ) (i b : ℕ) → i < length array → length (put_at array i b) ≡ length array
unfolding put_at
length-put_at [] i b inside = absurd (omega arith)
length-put_at (x ∷ xs) zero b inside = refl
length-put_at (x ∷ xs) (suc i) b inside = ap suc (length-put_at xs i b (omega arith))

length-write_at :
    (array : List ℕ) (i : ℕ) (bytes : List ℕ)
    → i + length bytes ≤ length array
    → length (write_at array i bytes) ≡ length array
unfolding write_at
length-write_at array i [] inside = refl
length-write_at array i (b ∷ bs) inside =
    let same = length-put_at array i b (omega arith) in
    length-write_at (put_at array i b) (i + 1) bs (omega (arith, same)) ∙ same

-- STATE_START asks for at most twelve bytes more.
growth_bound : (h₀ h₁ more : ℕ) → opcode_growth h₀ h₁ ≡ some more → more + length_growth h₁ ≤ 12
unfolding opcode_growth length_growth check_control_header
growth_bound h₀ h₁ more e = ground arith

-- A turn ends with a connection whose header fits, if it ends.
unfoldable pub EndsWell : {C : Type 0} → Turn C → Type 0
EndsWell (Turn.stop rc conn) = Fits conn
EndsWell (Turn.again conn) = Fits conn
EndsWell Turn.spin = Unit

module _ {C : Type 0} (itf : Itf C) (address : ℕ) (safe : IsSafe itf) where
  send_internal_v-Fits :
      (conn : Conn C) (first : ℕ) (iovec : List (List ℕ))
      → Fits conn
      → Fits (send_internal_v itf conn first iovec).1
  unfolding send_internal_v
  send_internal_v-Fits conn first iovec fits = ground arith

  read_header-Fits : (conn : Conn C) → Fits conn → Fits (read_header itf address conn).1
  unfolding read_header
  read_header-Fits conn fits =
      let asked = conn.ws.szhead - conn.ws.lenhead in
      elim (Option-cases (itf.readv conn.closure asked).0) [
        | inl none_read ↦ ground (arith, none_read)
        | inr (bytes, some_read) ↦ ground (
          arith,
          some_read,
          safe.reads conn.closure asked bytes some_read,
          length-write_at (conn.ws.header) (conn.ws.lenhead) bytes,
        )
      ]

  read-Fits : (conn : Conn C) (addr size : ℕ) → Fits conn → Fits (read itf address conn addr size).1
  unfolding read
  read-Fits conn addr size fits = ground arith

  drop-Fits :
      (fuel : ℕ) (conn : Conn C) (rc : Bool) (conn' : Conn C)
      → drop itf address fuel conn ≡ some (rc, conn')
      → Fits conn
      → Fits conn'
  unfolding drop
  drop-Fits zero conn rc conn' e fits = ground arith
  drop-Fits (suc fuel) conn rc conn' e fits =
      let got = read itf address conn address 8000 in
      ground (arith, read-Fits conn address 8000 fits, drop-Fits fuel got.1 rc conn')

  close-Fits :
      (conn : Conn C) (code : ℕ) (reason : List ℕ) → Fits conn → Fits (close itf conn code reason).1
  unfolding close send send_v send_internal_v
  close-Fits conn code reason fits = ground arith

  pong-Fits : (conn : Conn C) (bytes : List ℕ) → Fits conn → Fits (pong itf conn bytes).1
  unfolding pong send send_internal_v
  pong-Fits conn bytes fits = ground arith

  error-Fits :
      (conn : Conn C) (code : ℕ) (reason : List ℕ) → Fits conn → Fits (error itf conn code reason).1
  unfolding error
  error-Fits conn code reason fits =
      let closed = close itf conn code reason in
      elim (Option-cases itf.on_error) [
        | inl without ↦ ground (arith, without, close-Fits conn code reason fits)
        | inr (f, with_it) ↦ ground (
          arith,
          with_it,
          safe.errors f code reason with_it closed.1 (close-Fits conn code reason fits),
        )
      ]

  turn_ping-EndsWell :
      (fuel : ℕ) (conn : Conn C) → Fits conn → EndsWell (turn_ping itf address fuel conn)
  unfolding turn_ping EndsWell
  turn_ping-EndsWell fuel conn fits = elim (Option-cases itf.on_ping) [
    | inl without ↦ elim (Option-cases (drop itf address fuel conn)) [
      | inl spins ↦ ground (arith, without, spins)
      | inr (dropped, e) ↦ ground (
        arith,
        without,
        e,
        pong-Fits dropped.1 [] (drop-Fits fuel conn dropped.0 dropped.1 e fits),
      )
    ]
    | inr (f, with_it) ↦ ground (arith, with_it, safe.pings f conn.ws.length with_it conn fits)
  ]

  turn_pong-EndsWell :
      (fuel : ℕ) (conn : Conn C) → Fits conn → EndsWell (turn_pong itf address fuel conn)
  unfolding turn_pong EndsWell
  turn_pong-EndsWell fuel conn fits = elim (Option-cases itf.on_pong) [
    | inl without ↦ elim (Option-cases (drop itf address fuel conn)) [
      | inl spins ↦ ground (arith, without, spins)
      | inr (dropped, e) ↦
          ground (arith, without, e, drop-Fits fuel conn dropped.0 dropped.1 e fits)
    ]
    | inr (f, with_it) ↦ ground (arith, with_it, safe.pongs f conn.ws.length with_it conn fits)
  ]

  turn_opcode-EndsWell :
      (fuel : ℕ) (conn : Conn C) → Fits conn → EndsWell (turn_opcode itf address fuel conn)
  unfolding turn_opcode EndsWell protocol_error
  turn_opcode-EndsWell fuel conn fits =
      let n = conn.ws.length in
      let last = get_fin (get_or (conn.ws.header) 0 0) in
      ground (
        arith,
        turn_ping-EndsWell fuel conn fits,
        turn_pong-EndsWell fuel conn fits,
        safe.continues last n conn fits,
        safe.texts last n conn fits,
        safe.binaries last n conn fits,
        safe.closes (close_code (conn.ws.header) conn.ws.szhead n) n conn fits,
        error-Fits conn code_protocol_error [] fits,
      )

  turn_plain-EndsWell :
      (fuel : ℕ) (conn : Conn C) → Fits conn → EndsWell (turn_plain itf address fuel conn)
  unfolding turn_plain EndsWell protocol_error
  turn_plain-EndsWell fuel conn fits =
      ground
        (arith, turn_opcode-EndsWell fuel conn fits, error-Fits conn code_protocol_error [] fits)

  turn_frame-EndsWell :
      (fuel : ℕ) (conn : Conn C) → Fits conn → EndsWell (turn_frame itf address fuel conn)
  unfolding turn_frame too_long_error EndsWell
  turn_frame-EndsWell fuel conn fits =
      let ws = conn.ws in
      let h₀ = get_or (ws.header) 0 0 in
      let n = frame_length (ws.header) in
      let sized = record conn { ws = record ws { length = n } } in
      let known = record conn {
        ws = record ws { length = n; mask = frame_mask (ws.header) ws.szhead; state = State.data_ };
      } in
      let known-Fits : Fits known = ground arith in
      let refused = error-Fits sized code_message_too_large [] (ground arith) in
      elim (Option-cases itf.on_extension) [
        | inl without ↦ ground (arith, without, refused, turn_plain-EndsWell fuel known known-Fits)
        | inr (f, with_it) ↦
            let asked =
              f known (get_fin h₀) (get_rsv1 h₀) (get_rsv2 h₀) (get_rsv3 h₀) (get_opcode h₀) n in
            let asked-Fits =
              safe.extensions f (get_fin h₀) (get_rsv1 h₀) (get_rsv2 h₀) (get_rsv3 h₀)
                (get_opcode h₀) n with_it known known-Fits in
            ground
              (arith, with_it, refused, asked-Fits, turn_plain-EndsWell fuel asked.1 asked-Fits)
      ]

  turn_length-EndsWell :
      (fuel : ℕ) (conn : Conn C) → Fits conn → EndsWell (turn_length itf address fuel conn)
  unfolding turn_length EndsWell
  turn_length-EndsWell fuel conn fits =
      let got-Fits = read_header-Fits conn fits in
      ground (arith, got-Fits, turn_frame-EndsWell fuel (read_header itf address conn).1 got-Fits)

  turn_sizes-EndsWell :
      (fuel : ℕ) (conn : Conn C)
      → conn.ws.state ≡ State.start
      → Fits conn
      → EndsWell (turn_sizes itf address fuel conn)
  unfolding turn_sizes EndsWell protocol_error
  turn_sizes-EndsWell fuel conn started fits =
      let ws = conn.ws in
      let h₁ = get_or (ws.header) 1 0 in
      elim (Option-cases (opcode_growth (get_or (ws.header) 0 0) h₁)) [
        | inl refused ↦ ground (arith, refused, error-Fits conn code_protocol_error [] fits)
        | inr (more, e) ↦
            let grown = record conn {
              ws = record ws { szhead = ws.szhead + more + length_growth h₁; state = State.length };
            } in
            let grown-Fits : Fits grown =
              ground (arith, growth_bound _ _ more e, fits.first started) in
            ground (arith, e, turn_length-EndsWell fuel grown grown-Fits)
      ]

  read_header_state : (conn : Conn C) → (read_header itf address conn).1.ws.state ≡ conn.ws.state
  unfolding read_header
  read_header_state conn = ground arith

  turn_start-EndsWell :
      (fuel : ℕ) (conn : Conn C)
      → conn.ws.state ≡ State.start
      → Fits conn
      → EndsWell (turn_start itf address fuel conn)
  unfolding turn_start EndsWell
  turn_start-EndsWell fuel conn started fits =
      let got-Fits = read_header-Fits conn fits in
      ground (
        arith,
        got-Fits,
        turn_sizes-EndsWell fuel (read_header itf address conn).1 (read_header_state conn ∙ started)
            got-Fits,
      )

  pub turn-EndsWell : (fuel : ℕ) (conn : Conn C) → Fits conn → EndsWell (turn itf address fuel conn)
  unfolding turn EndsWell
  turn-EndsWell fuel conn fits =
      let begun = record conn {
        ws = record (conn.ws) { lenhead = 0; szhead = 2; state = State.start };
      } in
      let begun-Fits : Fits begun = ground arith in
      ground (
        arith,
        turn_start-EndsWell fuel begun refl begun-Fits,
        λ (h : conn.ws.state ≡ State.start). turn_start-EndsWell fuel conn h fits,
        turn_length-EndsWell fuel conn fits,
      )

  -- From a connection whose header fits, a dispatch that returns has written no byte past the 14 that
  -- are kept for a header, and leaves a connection whose header fits: the bytes that are there and
  -- those still asked for are at most 14. The callbacks of the interface must leave a header that
  -- fits, and readv must give no more than it is asked for.
  pub dispatch-Fits :
      (fuel : ℕ) (conn : Conn C) (rc : Bool) (conn' : Conn C)
      → Fits conn
      → dispatch itf address fuel conn ≡ some (rc, conn')
      → Fits conn'
  unfolding dispatch EndsWell
  dispatch-Fits zero conn rc conn' fits e = ground arith
  dispatch-Fits (suc fuel) conn rc conn' fits e =
      after (turn itf address fuel conn) (turn-EndsWell fuel conn fits) e
        (λ next. dispatch-Fits fuel next rc conn')
    where
      after :
          (ended : Turn C)
          → EndsWell ended
          → ◌≡◌ {A = Option (Bool × Conn C)}
              (elim ended [
                | stop rc' conn'' ↦ some (rc', conn'')
                | again conn'' ↦ dispatch itf address fuel conn''
                | spin ↦ none
              ])
              (some (rc, conn'))
          → ((next : Conn C)
              → Fits next
              → dispatch itf address fuel next ≡ some (rc, conn')
              → Fits conn')
          → Fits conn'
      after (stop rc' conn'') well e' on = ground (arith, well, e')
      after (again conn'') well e' on = on conn'' well e'
      after spin well e' on = ground (arith, e')
