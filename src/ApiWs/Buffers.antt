-- ===== src/ApiWs/Buffers.antt =====
-- src/afb-api-ws.c: the serialisation part.
use app_framework_binder.Base.{
  ℕ, ◌+◌, ◌-◌, ◌*◌, ◌/◌, ◌%◌, ◌^◌, Bool, true, false, ◌&&◌, not, Option, none, some, List, [], ◌∷◌,
  ◌++◌, ltb, ◌==◌, if◌then◌else◌, length, take, drop, get_or,
}
use app_framework_binder.Base.Text.{Str, str_eq}

-- struct readbuf is the list of the bytes from `head` to `end`; `none` is the result 0.
abbrev pub Reader : Type 0 → Type 0
Reader A = Str → Option (A × Str)

infixl 5 ◌>>=◌ ◌>>◌
abbrev pub ◌>>=◌ : {A B : Type 0} → Reader A → (A → Reader B) → Reader B
◌>>=◌ m f rb = elim (m rb) [ none ↦ none | some got ↦ f got.0 got.1 ]

abbrev pub ◌>>◌ : {B : Type 0} → Reader (Unit {0}) → Reader B → Reader B
◌>>◌ m k = m >>= λ _. k

abbrev pub pure : {A : Type 0} → A → Reader A
pure a rb = some (a, rb)

abbrev pub check : Bool → Reader (Unit {0})
check true rb = some (tt, rb)
check false rb = none

-- api_ws_read_get
unfoldable pub read_get : ℕ → Reader Str
read_get len rb = if ltb (length rb) len then none else some (take len rb, drop len rb)

-- api_ws_read_uint32
unfoldable pub read_uint32 : Reader ℕ
read_uint32 [] = none
read_uint32 (a ∷ []) = none
read_uint32 (a ∷ b ∷ []) = none
read_uint32 (a ∷ b ∷ c ∷ []) = none
read_uint32 (a ∷ b ∷ c ∷ d ∷ rb) = some (a + b * 2 ^ 8 + c * 2 ^ 16 + d * 2 ^ 24, rb)

-- api_ws_read_string: the bytes in front of the last one, which is 0; their count is `length`.
unfoldable pub read_string : Reader Str
read_string = do
  len ← read_uint32
  check (not (len == 0))
  value ← read_get len
  check (get_or value (len - 1) 1 == 0)
  pure (take (len - 1) value)

-- What a function that takes a C string reads of it.
unfoldable pub c_string : Str → Str
c_string [] = []
c_string (c ∷ cs) = let rest = c_string cs in if c == 0 then [] else c ∷ rest

abbrev pub null_text : Str
null_text = 110 ∷ 117 ∷ 108 ∷ 108 ∷ []

abbrev pub is_some : {A : Type 0} → Option A → Bool
is_some none = false
is_some (some a) = true

-- What the file uses of json-c, for its objects, where `none` is a NULL object.
pub record JsonLib (Json : Type 0) : Type 0 where
  pub to_string : Option Json → Option Str
  pub parse : Str → Option Json

-- api_ws_read_object
unfoldable pub read_object : {Json : Type 0} → JsonLib Json → Reader (Option Json)
read_object lib = do
  text ← read_string
  let string = c_string text
  let object = lib.parse string
  check (if is_some object then not (str_eq string null_text) else str_eq string null_text)
  pure object

-- struct writebuf is the list of the parts, at most 32.
abbrev pub writebuf_count_max : ℕ
writebuf_count_max = 32

abbrev pub Writer : Type 0
Writer = List Str → Option (List Str)

infixl 35 ◌then_write◌
abbrev pub ◌then_write◌ : Writer → Writer → Writer
◌then_write◌ w v wb = elim (w wb) [ none ↦ none | some wb' ↦ v wb' ]

abbrev pub fails : Writer
fails wb = none

-- api_ws_write_put, and the two that keep their value in the buffer
unfoldable pub write_put : Str → Writer
write_put value wb = if length wb == writebuf_count_max then none else some (wb ++ (value ∷ []))

unfoldable pub write_char : ℕ → Writer
unfolding write_put
write_char value = write_put (value % 2 ^ 8 ∷ [])

abbrev pub le32 : ℕ → Str
le32 value =
    value % 2 ^ 8 ∷ value / 2 ^ 8 % 2 ^ 8 ∷ value / 2 ^ 16 % 2 ^ 8 ∷ value / 2 ^ 24 % 2 ^ 8 ∷ []

unfoldable pub write_uint32 : ℕ → Writer
unfolding write_put
write_uint32 value = write_put (le32 value)

-- api_ws_write_string_nz, of a value with no NUL behind it
unfoldable pub write_string_nz : Str → Writer
unfolding write_put write_char write_uint32
write_string_nz value =
    if ltb (length value) (2 ^ 32) && not ((length value + 1) % 2 ^ 32 == 0)
    then write_uint32 (length value + 1) then_write write_put value then_write write_char 0
    else fails

-- api_ws_write_string_length and api_ws_write_string; the byte behind the value, which is sent too, is
-- a NUL
unfoldable pub write_string : Str → Writer
unfolding write_put write_uint32
write_string value =
    if ltb (length value + 1) (2 ^ 32)
    then write_uint32 (length value + 1) then_write write_put (value ++ (0 ∷ []))
    else fails

-- api_ws_write_object
unfoldable pub write_object : {Json : Type 0} → JsonLib Json → Option Json → Writer
write_object lib object = elim (lib.to_string object) [
  | none ↦ fails
  | some string ↦ write_string string
]
