-- ===== src/Http/Request.antt =====
-- src/afb-method.c and src/afb-hreq.c: the method of a request, the tail of its URL and subpaths.
use app_framework_binder.Base.{
  ℕ, zero, suc, ◌+◌, ◌-◌, ◌/◌, ◌%◌, Bool, true, false, ◌&&◌, ◌||◌, not, Option, none, some, List,
  [], ◌∷◌, ◌++◌, ltb, ◌==◌, if◌then◌else◌, length, drop,
}
use app_framework_binder.Base.Text.{Str, strncase_eq, strcase_eq, char_at}

-- enum afb_method
pub data Method : Type 0 where
  method_none method_get method_post method_head method_connect method_delete method_options
        method_patch method_put method_trace :
      Method

-- c & ~' ', on a byte
abbrev pub fold_case : ℕ → ℕ
fold_case c = if c / 32 % 2 == 1 then c - 32 else c

unfoldable pub get_method : Str → Method
get_method method =
    let first = fold_case (char_at method 0) in
    let second = fold_case (char_at method 1) in
    if first == 67
    then method_connect
    else if first == 68
    then method_delete
    else if first == 71
    then method_get
    else if first == 72
    then method_head
    else if first == 79
    then method_options
    else if first == 80
    then (if second == 65
        then method_patch
        else if second == 79
        then method_post
        else if second == 85
        then method_put
        else method_none)
    else if first == 84
    then method_trace
    else method_none

-- get_method_name, with the names of the HTTP library; `none` is NULL.
unfoldable pub get_method_name : Method → Option Str
get_method_name method_none = none
get_method_name method_get = some (71 ∷ 69 ∷ 84 ∷ [])
get_method_name method_post = some (80 ∷ 79 ∷ 83 ∷ 84 ∷ [])
get_method_name method_head = some (72 ∷ 69 ∷ 65 ∷ 68 ∷ [])
get_method_name method_connect = some (67 ∷ 79 ∷ 78 ∷ 78 ∷ 69 ∷ 67 ∷ 84 ∷ [])
get_method_name method_delete = some (68 ∷ 69 ∷ 76 ∷ 69 ∷ 84 ∷ 69 ∷ [])
get_method_name method_options = some (79 ∷ 80 ∷ 84 ∷ 73 ∷ 79 ∷ 78 ∷ 83 ∷ [])
get_method_name method_patch = some (80 ∷ 65 ∷ 84 ∷ 67 ∷ 72 ∷ [])
get_method_name method_put = some (80 ∷ 85 ∷ 84 ∷ [])
get_method_name method_trace = some (84 ∷ 82 ∷ 65 ∷ 67 ∷ 69 ∷ [])

-- The part of struct afb_hreq that finds a handler: the URL and its tail, whose lengths are those of
-- the lists, and what was done with the request.
pub record Request : Type 0 where
  pub url : Str
  pub tail : Str
  pub scanned : Bool
  pub replied : Bool
  pub suspended : Bool

-- The loop of afb_hreq_unprefix that passes over slashes that follow each other: the length.
unfoldable pub pass_slashes : Str → ℕ → ℕ
pass_slashes [] length_ = length_
pass_slashes (c ∷ cs) length_ =
    let more = pass_slashes cs (length_ + 1) in if char_at cs 0 == 47 then more else length_

-- afb_hreq_unprefix: the request with its new tail, or `none` for 0.
unfoldable pub unprefix : Request → Str → ℕ → Option Request
unprefix hreq prefix len =
    if ltb (length hreq.tail) len
      || (not (char_at hreq.tail len == 0) && not (char_at hreq.tail len == 47))
      || not (strncase_eq len prefix hreq.tail)
    then none
    else some (record hreq { tail = drop (pass_slashes (drop len hreq.tail) len) hreq.tail })

-- The inner loop of validsubpath.
unfoldable pub skip_name : Str → Str
skip_name [] = []
skip_name (c ∷ cs) = if c == 47 then c ∷ cs else skip_name cs

-- --l < 0 returns 0.
unfoldable pub go_up : ℕ → Str → Option (ℕ × Str)
go_up zero rest = none
go_up (suc l) rest = some (l, rest)

-- What follows "..", and ".", in the switch of validsubpath.
unfoldable pub after_dots : ℕ → Str → Option (ℕ × Str)
after_dots l [] = go_up l []
after_dots l (c ∷ cs) = if c == 47 then go_up l cs else some (l + 1, skip_name cs)

unfoldable pub after_dot : ℕ → Str → Option (ℕ × Str)
after_dot l [] = some (l, [])
after_dot l (c ∷ cs) =
    if c == 47
    then some (l, cs)
    else if c == 46
    then after_dots l cs
    else some (l + 1, skip_name cs)

-- One turn of the outer loop, at a byte and those that follow it.
unfoldable pub subpath_turn : ℕ → ℕ → Str → Option (ℕ × Str)
subpath_turn l c cs =
    if c == 46 then after_dot l cs else if c == 47 then some (l, cs) else some (l + 1, skip_name cs)

-- The outer loop; `none` when the fuel runs out.
unfoldable pub subpath_loop : ℕ → ℕ → Str → Option Bool
subpath_loop zero l s = none
subpath_loop (suc fuel) l [] = some true
subpath_loop (suc fuel) l (c ∷ cs) = elim (subpath_turn l c cs) [
  | none ↦ some false
  | some next ↦ subpath_loop fuel next.0 next.1
]

-- validsubpath and afb_hreq_valid_tail
unfoldable pub validsubpath : Str → Option Bool
validsubpath subpath = subpath_loop (length subpath + 1) 0 subpath

unfoldable pub valid_tail : Request → Option Bool
valid_tail hreq = validsubpath hreq.tail

-- struct hreq_data: a part of the body of a post. Its path, length and size are not used here.
pub record Part : Type 0 where
  pub key : Str
  pub value : Str

-- get_data: the list of the parts, and the index of the part that is found in it or put in front of
-- it. The two allocations may fail, and there is no index then.
unfoldable pub find_part : List Part → Str → Option ℕ
find_part [] key = none
find_part (part ∷ parts) key =
    let later = find_part parts key in
    if strcase_eq part.key key then some 0 else elim later [ none ↦ none | some i ↦ some (suc i) ]

unfoldable pub get_data : Bool → Bool → List Part → Str → Bool → List Part × Option ℕ
get_data part_allocated key_allocated parts key create = elim (find_part parts key) [
  | some i ↦ (parts, some i)
  | none ↦
      if create && part_allocated && key_allocated
      then (record { key = key; value = [] } ∷ parts, some 0)
      else (parts, none)
]

-- afb_hreq_redirect_to_ending_slash_if_needed: the URL to go to, or `none` for 0. The URL of a
-- request is not empty.
unfoldable pub ending_slash : Str → Option Str
ending_slash url = if char_at url (length url - 1) == 47 then none else some (url ++ (47 ∷ []))
