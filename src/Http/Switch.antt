-- ===== src/Http/Switch.antt =====
-- src/afb-hswitch.c: the handlers of API calls, of one page applications and of WebSocket upgrades.
use app_framework_binder.Base.{
  ℕ, suc, ◌+◌, ◌-◌, Bool, ◌&&◌, not, Option, none, some, [], ◌∷◌, ◌++◌, leb, ◌==◌, if◌then◌else◌,
  length, take, drop,
}
use app_framework_binder.Base.Text.{Str, char_at, is_empty}

-- &s[strspn(s, "/")] and strcspn(s, "/")
unfoldable pub skip_slashes : Str → Str
skip_slashes [] = []
skip_slashes (c ∷ cs) = let rest = skip_slashes cs in if c == 47 then rest else c ∷ cs

unfoldable pub name_length : Str → ℕ
name_length [] = 0
name_length (c ∷ cs) = let more = name_length cs in if c == 47 then 0 else suc more

-- The names that afb_hswitch_apis finds in a tail, each with its length; `none` is the result 0.
pub record Named : Type 0 where
  pub api : Str
  pub lenapi : ℕ
  pub verb : Str
  pub lenverb : ℕ

unfoldable pub split_call : Str → Option Named
split_call tail =
    let api = skip_slashes tail in
    let lenapi = name_length api in
    let verb = skip_slashes (drop lenapi api) in
    let lenverb = name_length verb in
    if not (is_empty api) && not (is_empty verb) && not (lenapi == 0) && not (lenverb == 0)
    then some (record { api = api; lenapi = lenapi; verb = verb; lenverb = lenverb })
    else none

-- What a handler does: it leaves the request, answers an error, redirects, calls an API, or upgrades
-- the connection.
pub data Answer : Type 0 where
  leaves upgrades : Answer
  fails : ℕ → Answer
  redirects : Str → Answer
  calls : Named → Answer

-- afb_hswitch_apis; whether the context of the request could be made is a parameter.
unfoldable pub hswitch_apis : Bool → Str → Answer
hswitch_apis context_made tail = elim (split_call tail) [
  | none ↦ leaves
  | some named ↦ if context_made then calls named else fails 500
]

-- afb_hswitch_one_page_api_redirect. If the tail is empty the NUL of the URL is copied in front of
-- the two bytes that are added, and ends the text.
unfoldable pub one_page_api_redirect : Str → Str → Answer
one_page_api_redirect url tail =
    if leb 2 (length tail) && (char_at tail 1 == 35)
    then leaves
    else if length tail == 0
    then redirects url
    else redirects (take (length url - length tail + 1) url ++ (35 ∷ 33 ∷ drop 1 tail))

-- afb_hswitch_websocket_switch
unfoldable pub websocket_switch : Bool → Bool → Str → Answer
websocket_switch context_made validated tail =
    if not (length tail == 0)
    then leaves
    else if not context_made
    then fails 500
    else if not validated
    then fails 401
    else upgrades
