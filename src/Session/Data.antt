-- ===== src/Session/Data.antt =====
-- The types of src/session.c, and the memory that its functions work on.
-- A session lives at an address of the heap, a number; NULL is `none` where the code allows it.
-- Values and keys that bindings hand over are opaque pointers, 0 for NULL, and the functions that
-- free them are numbers, `none` for NULL. Times are seconds and are not negative.
use app_framework_binder.Base.{
  ℕ, suc, ◌-◌, ◌^◌, Bool, Option, none, some, List, [], ◌∷◌, ◌==◌, if◌then◌else◌, replicate, ◌≡◌,
}
use app_framework_binder.Base.Text.{Str}

-- struct client_value
pub record ClientValue : Type 0 where
  pub value : ℕ
  pub free_value : Option ℕ

-- struct cookie; the links between cookies are a list.
pub record Cookie : Type 0 where
  pub key : ℕ
  pub value : ℕ
  pub free_value : Option ℕ

abbrev pub new_cookie : ℕ → ℕ → Option ℕ → Cookie
new_cookie key value free_value = record { key = key; value = value; free_value = free_value }

-- struct AFB_clientCtx
pub record Session : Type 0 where
  pub refcount : ℕ
  pub loa : ℕ
  pub timeout : ℕ
  pub expiration : ℕ
  pub access : ℕ
  pub uuid : Str
  pub token : Str
  pub values : List ClientValue
  pub cookies : List Cookie

pub data Errno : Type 0 where
  unset einval enomem eexist : Errno

-- What the code calls outside: uuid_generate with uuid_unparse_lower, and whether the allocator
-- answers the n-th call.
pub record Env : Type 0 where
  pub uuid : ℕ → Str
  pub alloc : ℕ → Bool

-- The static `sessions` of the file, with what the code reaches outside it: the heap and its next
-- address, the clock, the calls of freeing functions so far, and errno.
pub record World : Type 0 where
  pub env : Env
  pub store : List (Option ℕ)
  pub count : ℕ
  pub max : ℕ
  pub timeout : ℕ
  pub apicount : ℕ
  pub initok : Str
  pub heap : ℕ → Option Session
  pub next : ℕ
  pub clock : ℕ
  pub draws : ℕ
  pub allocs : ℕ
  pub freed : List (ℕ × ℕ)
  pub errno : Errno

abbrev pub null_value : ClientValue
null_value = record { value = 0; free_value = none }

abbrev pub u32_mod : ℕ
u32_mod = 2 ^ 32

-- The largest time_t.
abbrev pub time_max : ℕ
time_max = 2 ^ 63 - 1

-- A call on a world either faults (an assertion fails, or a pointer that is not live is followed),
-- or it gives an answer and the next world.
abbrev pub M : Type 0 → Type 0
M Answer = World → Option (Answer × World)

abbrev pub fault : {A : Type 0} → M A
fault world = none

abbrev pub pure : {A : Type 0} → A → M A
pure answer world = some (answer, world)

infixl 5 ◌>>◌
infixl 5 ◌>>=◌
abbrev pub ◌>>=◌ {ℓ} : {A : Type 0} {B : Type ℓ} → M A → (A → World → Option B) → World → Option B
◌>>=◌ call next world = elim (call world) [
  | some (answer, world') ↦ next answer world'
  | none ↦ none
]

abbrev pub ◌>>◌ {ℓ} : {B : Type ℓ} → M (Unit {0}) → (World → Option B) → World → Option B
call >> next = call >>= λ _. next

-- One step of a chain, from what its first part does.
pub bind_run :
    {A B : Type 0} (m : M A) (f : A → M B) {w w' : World} {a : A}
    → m w ≡ some (a, w')
    → (m >>= f) w ≡ f a w'
bind_run m f e = rw (e, ◌>>=◌)

abbrev pub get : M World
get w = some (w, w)

abbrev pub put : World → M (Unit {0})
put w' w = some (tt, w')

abbrev pub when : Bool → M (Unit {0}) → M (Unit {0})
when b m = if b then m else pure tt

abbrev pub assert : Bool → M (Unit {0})
assert b = if b then pure tt else fault

abbrev pub update : (ℕ → Option Session) → ℕ → Option Session → ℕ → Option Session
update heap p cell q = if q == p then cell else heap q

abbrev pub load : ℕ → M Session
load p w = elim (w.heap p) [ none ↦ none | some s ↦ some (s, w) ]

-- A write through a pointer, and `free`.
abbrev pub save : ℕ → Session → M (Unit {0})
save p s w = elim (w.heap p) [
  | none ↦ none
  | some _ ↦ some (tt, record w { heap = update w.heap p (some s) })
]

abbrev pub release : ℕ → M (Unit {0})
release p w = elim (w.heap p) [
  | none ↦ none
  | some _ ↦ some (tt, record w { heap = update w.heap p none })
]

abbrev pub set_errno : Errno → M (Unit {0})
set_errno e w = some (tt, record w { errno = e })

-- The call of a freeing function, if there is one.
abbrev pub call_free : Option ℕ → ℕ → M (Unit {0})
call_free none value w = some (tt, w)
call_free (some f) value w = some (tt, record w { freed = (f, value) ∷ w.freed })

-- new_uuid
abbrev pub new_uuid : M Str
new_uuid w = some (w.env.uuid w.draws, record w { draws = suc w.draws })

abbrev pub now : M ℕ
now w = some (w.clock, w)

-- What calloc gives: all zero, with room for the values of `apicount` APIs.
abbrev pub initial_session : ℕ → Session
initial_session apicount = record {
  refcount = 0;
  loa = 0;
  timeout = 0;
  expiration = 0;
  access = 0;
  uuid = [];
  token = [];
  values = replicate apicount null_value;
  cookies = [];
}
