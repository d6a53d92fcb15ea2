-- ===== src/ApiWs/Strings.antt =====
-- A number and a string are read as they were written.
use mathlib.Core.List.{append_assoc, append-nil}
use mathlib.Core.Path.{subst}
use app_framework_binder.Base.{
  ℕ, ◌+◌, ◌-◌, ◌*◌, ◌/◌, ◌%◌, ◌^◌, ◌≤◌, ◌<◌, ◌≡◌, refl, sym, ap, ◌∙◌, true, false, ◌&&◌, not,
  Option, some, List, [], ◌∷◌, ◌++◌, ltb, ◌==◌, length, length-append, take, drop, get_or, arith,
}
use app_framework_binder.Base.Text.{Str}
use app_framework_binder.Websock.Send.{gather}
use app_framework_binder.ApiWs.Buffers.{
  read_get, read_uint32, read_string, JsonLib, writebuf_count_max, Writer, ◌then_write◌, write_put,
  write_char, le32, write_uint32, write_string_nz, write_string, write_object,
}

-- The bytes of a string in a message.
abbrev pub string_bytes : Str → Str
string_bytes value = le32 (length value + 1) ++ (value ++ (0 ∷ []))

pub read_uint32-le32 :
    (value : ℕ) (rest : Str)
    → value < 2 ^ 32
    → read_uint32 (le32 value ++ rest) ≡ some (value, rest)
unfolding read_uint32
read_uint32-le32 value rest small =
    let whole : value % 2 ^ 8
          + value / 2 ^ 8 % 2 ^ 8 * 2 ^ 8
          + value / 2 ^ 16 % 2 ^ 8 * 2 ^ 16
          + value / 2 ^ 24 % 2 ^ 8 * 2 ^ 24
        ≡ value =
      omega arith in
    ap (λ n. some (n, rest)) whole

take-append : (xs ys : Str) → take (length xs) (xs ++ ys) ≡ xs
take-append [] ys = refl
take-append (x ∷ xs) ys = ap (λ zs. x ∷ zs) (take-append xs ys)

drop-append : (xs ys : Str) → drop (length xs) (xs ++ ys) ≡ ys
drop-append [] ys = refl
drop-append (x ∷ xs) ys = drop-append xs ys

read_get-append :
    (xs rest : Str) (n : ℕ) → n ≡ length xs → read_get n (xs ++ rest) ≡ some (xs, rest)
unfolding read_get
read_get-append xs rest n e =
    let long : ltb (length (xs ++ rest)) (length xs) ≡ false =
      ground (arith, length-append xs rest) in
    rw (e, long, take-append xs rest, drop-append xs rest) refl

get_or_last : (xs : Str) → get_or (xs ++ (0 ∷ [])) (length xs) 1 ≡ 0
get_or_last [] = refl
get_or_last (x ∷ xs) = get_or_last xs

pub read_string_bytes :
    (value rest : Str)
    → length value + 1 < 2 ^ 32
    → read_string (string_bytes value ++ rest) ≡ some (value, rest)
unfolding read_string
read_string_bytes value rest small =
    let len = length value + 1 in
    let text = value ++ (0 ∷ []) in
    let split : string_bytes value ++ rest ≡ le32 len ++ (text ++ rest) = refl in
    let first = read_uint32-le32 len (text ++ rest) small in
    let second = read_get-append text rest len (omega (arith, length-append value (0 ∷ []))) in
    let last : length value + 1 - 1 ≡ length value = omega arith in
    ground (arith, first, second, get_or_last value, take-append value (0 ∷ []), last)

-- A writer that puts bytes into a message, in a number of parts.
pub record Writes (w : Writer) (bytes : Str) (parts : ℕ) : Type 0 where
  pub runs :
      (wb : List Str)
      → length wb + parts ≤ writebuf_count_max
      → (wb' : List Str) × (w wb ≡ some wb')
        × (gather wb' ≡ gather wb ++ bytes)
        × (length wb' ≡ length wb + parts)

gather-append : (wb : List Str) (value : Str) → gather (wb ++ (value ∷ [])) ≡ gather wb ++ value
unfolding gather
gather-append [] value = append-nil value
gather-append (part ∷ wb) value =
    ap (λ bs. part ++ bs) (gather-append wb value) ∙ sym (append_assoc part (gather wb) value)

pub Writes-put : (value : Str) → Writes (write_put value) value 1
unfolding write_put
Writes-put value = record {
  runs = λ wb room. (
    wb ++ (value ∷ []),
    ground (arith, room),
    gather-append wb value,
    length-append wb (value ∷ []),
  );
}

then_write_run :
    (w v : Writer) (wb wb' wb'' : List Str)
    → w wb ≡ some wb'
    → v wb' ≡ some wb''
    → (w then_write v) wb ≡ some wb''
then_write_run w v wb wb' wb'' e e' = rw (e, ◌then_write◌) e'

pub Writes-then :
    {w v : Writer} {xs ys : Str} {m n : ℕ}
    → Writes w xs m
    → Writes v ys n
    → Writes (w then_write v) (xs ++ ys) (m + n)
Writes-then {w} {v} {xs} {ys} {m} {n} first second = record {
  runs = λ wb room.
      let (wb', e, bytes, count) = first.runs wb (omega (arith, room)) in
      let (wb'', e', bytes', count') = second.runs wb' (omega (arith, room, count)) in
      (
        wb'',
        then_write_run w v wb wb' wb'' e e',
        bytes' ∙ ap (λ bs. bs ++ ys) bytes ∙ append_assoc (gather wb) xs ys,
        omega (arith, count, count'),
      );
}

pub Writes-char : (value : ℕ) → value < 2 ^ 8 → Writes (write_char value) (value ∷ []) 1
unfolding write_char
Writes-char value small =
    subst (λ bs. Writes (write_put (value % 2 ^ 8 ∷ [])) bs 1)
      (ap (λ (n : ℕ). n ∷ []) (omega arith)) (Writes-put (value % 2 ^ 8 ∷ []))

pub Writes-uint32 : (value : ℕ) → Writes (write_uint32 value) (le32 value) 1
unfolding write_uint32
Writes-uint32 value = Writes-put (le32 value)

pub Writes-string :
    (value : Str) → length value + 1 < 2 ^ 32 → Writes (write_string value) (string_bytes value) 2
unfolding write_string
Writes-string value small =
    let passes : ltb (length value + 1) (2 ^ 32) ≡ true = ground arith in
    rw passes (Writes-then (Writes-uint32 (length value + 1)) (Writes-put (value ++ (0 ∷ []))))

pub Writes-string_nz :
    (value : Str)
    → length value + 1 < 2 ^ 32
    → Writes (write_string_nz value) (string_bytes value) 3
unfolding write_string_nz
Writes-string_nz value small =
    let passes : (ltb (length value) (2 ^ 32) && not ((length value + 1) % 2 ^ 32 == 0)) ≡ true =
      ground arith in
    rw passes (
      Writes-then (Writes-then (Writes-uint32 (length value + 1)) (Writes-put value))
        (Writes-char 0 (omega arith)))

pub write_object_run :
    {Json : Type 0} (lib : JsonLib Json) (object : Option Json) (text : Str)
    → lib.to_string object ≡ some text
    → write_object lib object ≡ write_string text
unfolding write_object
write_object_run lib object text prints = rw (prints, write_object) refl

pub Writes-object :
    {Json : Type 0} (lib : JsonLib Json) (object : Option Json) (text : Str)
    → lib.to_string object ≡ some text
    → length text + 1 < 2 ^ 32
    → Writes (write_object lib object) (string_bytes text) 2
Writes-object lib object text prints small =
    subst (λ w. Writes w (string_bytes text) 2) (sym (write_object_run lib object text prints))
      (Writes-string text small)
