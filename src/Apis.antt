-- ===== src/Apis.antt =====
-- src/afb-apis.c: the table of APIs, and how a call finds its API.
-- An API's own functions are not in the model: an entry keeps what tells it from the others.
pub mod Names
pub mod Registry
use app_framework_binder.Base.{
  ℕ, zero, suc, ◌+◌, ◌≡◌, Bool, true, false, ◌&&◌, ◌||◌, not, Option, none, some, List, [], ◌∷◌,
  ◌++◌, ltb, leb, ◌==◌, if◌then◌else◌, length,
}
use app_framework_binder.Base.Text.{Str, strcase_eq, strncase_eq}

-- struct api_desc. `api` stands for the closure and the functions of the API.
pub record ApiDesc : Type 0 where
  pub api : ℕ
  pub name : Str
  pub namelen : ℕ

-- The characters that afb_apis_is_valid_api_name refuses: those up to the space, and
-- " # % & ' / ? ` \ and DEL. Bytes from 128 on are accepted.
unfoldable pub is_forbidden : ℕ → Bool
is_forbidden c =
    ltb c 128
    && (leb c 32
        || c == 34
        || c == 35
        || c == 37
        || c == 38
        || c == 39
        || c == 47
        || c == 63
        || c == 96
        || c == 92
        || c == 127)

-- The loop of afb_apis_is_valid_api_name.
unfoldable pub all_allowed : Str → Bool
all_allowed [] = true
all_allowed (c ∷ cs) = not (is_forbidden c) && all_allowed cs

unfoldable pub is_valid_api_name : Str → Bool
is_valid_api_name [] = false
is_valid_api_name (c ∷ cs) = all_allowed (c ∷ cs)

-- Is there an API of that name already, whatever the case?
unfoldable pub is_known : List ApiDesc → Str → Bool
is_known [] name = false
is_known (a ∷ rest) name = strcase_eq a.name name || is_known rest name

-- afb_apis_add: the table and `true` for 0, `false` for -1. `alloc` is the answer of realloc.
unfoldable pub apis_add : Bool → List ApiDesc → Str → ℕ → List ApiDesc × Bool
apis_add alloc apis name api =
    if not (is_valid_api_name name)
    then (apis, false)
    else if is_known apis name
    then (apis, false)
    else if not alloc
    then (apis, false)
    else (apis ++ (record { api = api; name = name; namelen = length name } ∷ []), true)

-- The loop of afb_apis_call, from an index on: the index and the entry of the first API whose name
-- is the `lenapi` bytes of `api`.
unfoldable pub find_api : List ApiDesc → Str → ℕ → ℕ → Option (ℕ × ApiDesc)
find_api [] api lenapi i = none
find_api (a ∷ rest) api lenapi i =
    if (a.namelen == lenapi) && strncase_eq lenapi a.name api
    then some (i, a)
    else find_api rest api lenapi (i + 1)

-- The loop of afb_apis_start_service, which compares whole names.
unfoldable pub find_service : List ApiDesc → Str → Option ApiDesc
find_service [] name = none
find_service (a ∷ rest) name = if strcase_eq a.name name then some a else find_service rest name

-- afb_apis_start_all_services: the services are started in order until one answers a negative
-- number. `fails` says which APIs answer one, and the result lists the APIs that were started.
unfoldable pub start_all : (ℕ → Bool) → List ApiDesc → List ℕ × Bool
start_all fails [] = ([], true)
start_all fails (a ∷ rest) =
    let later = start_all fails rest in
    if fails a.api then (a.api ∷ [], false) else (a.api ∷ later.0, later.1)
