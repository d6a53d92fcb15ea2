-- ===== src/Websock/Data.antt =====
-- src/websock.c: the state of a connection, and what it calls.
use app_framework_binder.Base.{ℕ, Bool, Option, none, some, List, [], ◌∷◌, if◌then◌else◌}
use app_framework_binder.Websock.Mask.{Mask, zero_mask}

pub data State : Type 0 where
  init start length data_ : State

-- struct websock, less the interface and its closure.
pub record Ws : Type 0 where
  pub state : State
  pub maxlength : ℕ
  pub lenhead : ℕ
  pub szhead : ℕ
  pub length : ℕ
  pub mask : Mask
  pub header : List ℕ

-- A connection and the closure that the interface works on.
pub record Conn (C : Type 0) : Type 0 where
  pub ws : Ws
  pub closure : C

-- struct websock_itf. A callback may use the connection, so it takes and gives the whole of it.
-- `writev` says whether it wrote; it is handed all the bytes of its buffers. `readv` is asked for a
-- number of bytes: it gives what it has read, or `none` on a failure. The address of the buffer that
-- it reads to is known by its remainder by four.
pub record Itf (C : Type 0) : Type 0 where
  pub writev : C → List ℕ → Bool × C
  pub readv : C → ℕ → Option (List ℕ) × C
  pub on_ping : Option (Conn C → ℕ → Conn C)
  pub on_pong : Option (Conn C → ℕ → Conn C)
  pub on_close : Conn C → ℕ → ℕ → Conn C
  pub on_text : Conn C → ℕ → ℕ → Conn C
  pub on_binary : Conn C → ℕ → ℕ → Conn C
  pub on_continue : Conn C → ℕ → ℕ → Conn C
  pub on_extension : Option (Conn C → ℕ → ℕ → ℕ → ℕ → ℕ → ℕ → Bool × Conn C)
  pub on_error : Option (Conn C → ℕ → List ℕ → Conn C)

-- The codes of websock.h that the file uses.
abbrev pub code_not_set : ℕ
code_not_set = 1005

abbrev pub code_protocol_error : ℕ
code_protocol_error = 1002

abbrev pub code_message_too_large : ℕ
code_message_too_large = 1009

-- websock_create_v13: calloc, which may fail, gives a state of INIT.
unfoldable pub create_v13 : {C : Type 0} → Bool → C → Option (Conn C)
create_v13 allocated closure =
    if allocated
    then some (record {
      ws = record {
        state = State.init;
        maxlength = 65000;
        lenhead = 0;
        szhead = 0;
        length = 0;
        mask = zero_mask;
        header = 0 ∷ 0 ∷ 0 ∷ 0 ∷ 0 ∷ 0 ∷ 0 ∷ 0 ∷ 0 ∷ 0 ∷ 0 ∷ 0 ∷ 0 ∷ 0 ∷ [];
      };
      closure = closure;
    })
    else none
