-- ===== src/Http/Prefixes.antt =====
-- What afb_hreq_unprefix takes from the tail of a request.
use app_framework_binder.Base.{
  ℕ, ◌≤◌, ◌≡◌, ◌≢◌, ◌⊎◌, Bool, true, ◌&&◌, ◌||◌, not, ltb, ◌==◌, length, drop,
}
use app_framework_binder.Base.Text.{Str, char_at, strncase_eq}
use app_framework_binder.Http.Request.{Request}

-- The prefix is there, up to the case of its letters, and a slash or the end follows it.
abbrev pub Matches : Request → Str → ℕ → Type 0
Matches hreq prefix len =
    (len ≤ length hreq.tail)
    × ((char_at hreq.tail len ≡ 0) ⊎ (char_at hreq.tail len ≡ 47))
    × (strncase_eq len prefix hreq.tail ≡ true)

-- What is left of a request: the tail from a place on, which is a slash or the end, and no slash
-- follows the first byte.
pub record Cut (hreq : Request) (len : ℕ) (left : Request) : Type 0 where
  pub place : ℕ
  pub beyond : len ≤ place
  pub within : len ≤ length hreq.tail
  pub tail : left ≡ record hreq { tail = drop place hreq.tail }
  pub starts : (char_at (drop place hreq.tail) 0 ≡ 0) ⊎ (char_at (drop place hreq.tail) 0 ≡ 47)
  pub single : char_at (drop place hreq.tail) 1 ≢ 47

abbrev refuses : Request → Str → ℕ → Bool
refuses hreq prefix len =
    ltb (length hreq.tail) len
    || (not (char_at hreq.tail len == 0) && not (char_at hreq.tail len == 47))
    || not (strncase_eq len prefix hreq.tail)
