-- ===== src/Tests/Frames.antt =====
use app_framework_binder.Base.{
  ℕ, zero, suc, ◌+◌, ◌≤◌, ◌≡◌, ◌⊎◌, false, refl, Bool, true, Option, none, some, List, [], ◌∷◌,
  ◌++◌, if◌then◌else◌, length, get_or, ltb, arith,
}
use app_framework_binder.Websock.Data.{State, Conn, Itf}
use app_framework_binder.Websock.Frame.{make_header, read_length}
use app_framework_binder.Websock.Mask.{Mask, zero_mask, unmask}
use app_framework_binder.Websock.Mask.Chunks.{masked, rotated, unmask-eq-masked}
use app_framework_binder.Websock.Reading.{
  frame_length, frame_mask, length_growth, read, drop, read_header, put_at, write_at, opcode_growth,
  check_control_header, close_code,
}
use app_framework_binder.Websock.Send.{pong, send, send_internal_v}
use app_framework_binder.Websock.Closing.{close_frame, close_lem}
use app_framework_binder.Websock.Send.{close}
use app_framework_binder.Websock.Dispatch.{
  again, too_long_error, turn, dispatch, turn_start, turn_sizes, turn_length, turn_frame,
  turn_plain, turn_opcode, turn_ping,
}
use app_framework_binder.Websock.Delivery.{
  on_data, with_sizes, with_length, with_payload, data_frame_lem,
}
use app_framework_binder.Websock.Payload.{IsBounded, IsProgressing, read_lem, drop_ends}
use app_framework_binder.Websock.Headers.{Fits, IsSafe, dispatch-Fits}

abbrev mask : Mask
mask = record { m₀ = 1; m₁ = 2; m₂ = 3; m₃ = 4 }

abbrev bytes : List ℕ
bytes = 10 ∷ 20 ∷ 30 ∷ 40 ∷ 50 ∷ 60 ∷ 70 ∷ []

unmask-eq-masked_example : unmask 3 mask bytes ≡ (masked mask bytes, rotated mask bytes)
unmask-eq-masked_example = unmask-eq-masked 3 mask bytes

-- A peer whose bytes come two by two.
abbrev give_two : List ℕ → ℕ → Option (List ℕ) × List ℕ
give_two [] n = (none, [])
give_two (b ∷ bs) zero = (none, b ∷ bs)
give_two (b ∷ []) (suc n) = (some (b ∷ []), [])
give_two (b ∷ b' ∷ bs) (suc zero) = (some (b ∷ []), b' ∷ bs)
give_two (b ∷ b' ∷ bs) (suc (suc n)) = (some (b ∷ b' ∷ []), bs)

abbrev itf : Itf (List ℕ)
itf = record {
  writev = λ c sent. (true, c);
  readv = give_two;
  on_ping = none;
  on_pong = none;
  on_close = λ conn code n. conn;
  on_text = λ conn last n. conn;
  on_binary = λ conn last n. conn;
  on_continue = λ conn last n. conn;
  on_extension = none;
  on_error = none;
}

itf-IsBounded : IsBounded itf
itf-IsBounded [] n given e = ground (arith, e)
itf-IsBounded (b ∷ bs) zero given e = ground (arith, e)
itf-IsBounded (b ∷ []) (suc n) given e = ground (arith, e)
itf-IsBounded (b ∷ b' ∷ bs) (suc zero) given e = ground (arith, e)
itf-IsBounded (b ∷ b' ∷ bs) (suc (suc n)) given e = ground (arith, e)

itf-IsProgressing : IsProgressing itf
itf-IsProgressing [] n e = ground (arith, e)
itf-IsProgressing (b ∷ bs) zero e = ground (arith, e)
itf-IsProgressing (b ∷ []) (suc n) e = ground (arith, e)
itf-IsProgressing (b ∷ b' ∷ bs) (suc zero) e = ground (arith, e)
itf-IsProgressing (b ∷ b' ∷ bs) (suc (suc n)) e = ground (arith, e)

abbrev waiting : Conn (List ℕ)
waiting = record {
  ws = record {
    state = State.init;
    maxlength = 65536;
    lenhead = 0;
    szhead = 0;
    length = 0;
    mask = zero_mask;
    header = 0 ∷ 0 ∷ 0 ∷ 0 ∷ 0 ∷ 0 ∷ 0 ∷ 0 ∷ 0 ∷ 0 ∷ 0 ∷ 0 ∷ 0 ∷ 0 ∷ [];
  };
  closure = 137 ∷ 2 ∷ 5 ∷ 6 ∷ 129 ∷ 3 ∷ 7 ∷ 8 ∷ 9 ∷ [];
}

abbrev reading : Conn (List ℕ)
reading = record waiting {
  ws = record (waiting.ws) { state = State.data_; length = 3; mask = mask };
}

-- The header of a text of 300 bytes is there.
abbrev announced : Conn (List ℕ)
announced = record waiting {
  ws = record (waiting.ws) {
    state = State.length;
    lenhead = 4;
    szhead = 4;
    header = make_header 129 300 ++ bytes;
  };
}

-- Its first two bytes are there.
abbrev begun : Conn (List ℕ)
begun = record waiting {
  ws = record (waiting.ws) {
    state = State.start;
    lenhead = 2;
    szhead = 2;
    header = 129 ∷ 126 ∷ [];
  };
}

data_frame_lem_example :
    (turn_sizes itf 0 5 begun
      ≡ turn_length itf 0 5 (with_sizes begun (length (make_header 129 300))))
    × (turn_frame itf 0 5 announced ≡ (
        if ltb 65536 300
        then too_long_error itf 0 (with_length announced 300)
        else again (on_data itf 1 (with_payload announced 300) 1 300)))
unfolding make_header
data_frame_lem_example =
    data_frame_lem itf 0 5 begun announced 129 300 bytes refl refl refl refl refl (omega arith)
      (omega arith) refl refl refl

itf-IsSafe : IsSafe itf
itf-IsSafe = record {
  reads = itf-IsBounded;
  pings = λ f n e c fits. absurd (ground (arith, e));
  pongs = λ f n e c fits. absurd (ground (arith, e));
  closes = λ code n c fits. fits;
  texts = λ last n c fits. fits;
  binaries = λ last n c fits. fits;
  continues = λ last n c fits. fits;
  extensions = λ f a b c d e n h conn fits. absurd (ground (arith, h));
  errors = λ f code reason e c fits. absurd (ground (arith, e));
}

read_lem_example :
    ((read itf 0 reading 1 8).0 ≡ some (masked mask (137 ∷ 2 ∷ [])))
    × (length {A = ℕ} (137 ∷ 2 ∷ []) ≤ 8)
    × ((read itf 0 reading 1 8).1.ws.length + length {A = ℕ} (137 ∷ 2 ∷ []) ≡ 3)
    × ((read itf 0 reading 1 8).1.ws.mask ≡ rotated mask (137 ∷ 2 ∷ []))
    × ((read itf 0 reading 1 8).1.ws.state ≡ State.data_)
read_lem_example = read_lem itf 0 itf-IsBounded reading 1 8 (137 ∷ 2 ∷ []) refl refl

drop_ends_example :
    (rc : Bool) × (conn' : Conn (List ℕ)) × (drop itf 0 4 reading ≡ some (rc, conn'))
    × ((rc ≡ false) ⊎ (conn'.ws.length ≡ 0))
    × (conn'.ws.state ≡ State.data_)
drop_ends_example = drop_ends itf 0 itf-IsBounded itf-IsProgressing 4 reading refl (omega arith)

-- A ping of two bytes is dropped and answered, and the text after it is handed over.
abbrev handed : Conn (List ℕ)
handed = record {
  ws = record {
    state = State.data_;
    maxlength = 65536;
    lenhead = 2;
    szhead = 2;
    length = 3;
    mask = zero_mask;
    header = 129 ∷ 3 ∷ 0 ∷ 0 ∷ 0 ∷ 0 ∷ 0 ∷ 0 ∷ 0 ∷ 0 ∷ 0 ∷ 0 ∷ 0 ∷ 0 ∷ [];
  };
  closure = 7 ∷ 8 ∷ 9 ∷ [];
}

dispatch_run : dispatch itf 0 10 waiting ≡ some (true, handed)
unfolding dispatch turn turn_start turn_sizes turn_length turn_frame turn_plain turn_opcode
    turn_ping read_header drop read put_at write_at frame_length frame_mask opcode_growth
    length_growth check_control_header unmask read_length pong send send_internal_v
dispatch_run = refl

dispatch-Fits_example : Fits handed
dispatch-Fits_example =
    dispatch-Fits itf 0 itf-IsSafe 10 waiting true handed
      (record {
        room = refl;
        filled = omega arith;
        bounded = omega arith;
        first = λ e. absurd (ground (arith, e));
      })
      dispatch_run

-- The code 1000 without a reason: the other end is told 1005.
close_lem_example :
    (close itf waiting 1000 [] ≡ (true, waiting))
    × (opcode_growth (get_or (close_frame 1000 []) 0 0) (get_or (close_frame 1000 []) 1 0) ≡ some 2)
    × (length_growth (get_or (close_frame 1000 []) 1 0) ≡ 0)
    × (frame_length (close_frame 1000 []) ≡ 0)
    × (close_code (close_frame 1000 []) 4 (frame_length (close_frame 1000 [])) ≡ 1005)
close_lem_example = close_lem itf waiting 1000 [] (omega arith) refl (omega arith)
