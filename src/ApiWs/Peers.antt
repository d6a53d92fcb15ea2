-- ===== src/ApiWs/Peers.antt =====
-- A peer of the service lives until it has hung up and its last request is done, and no longer.
use app_framework_binder.Base.{
  ℕ, ◌+◌, ◌-◌, ◌≡◌, refl, ap, ◌∙◌, Bool, true, false, Option, none, some, List, [], ◌∷◌, ◌==◌,
  if◌then◌else◌, length, inl, inr, arith, Bool-cases,
}
use app_framework_binder.Base.Text.{Str}
use app_framework_binder.Events.Structs.{at, write, free}
use app_framework_binder.Events.Store.{◌>>=◌}
use app_framework_binder.ApiWs.Messages.{Call, read_call}
use app_framework_binder.ApiWs.Server.{
  Request, Peer, use_peer, client_unref, give_up, serve_call, server_called, req_addref, req_unref,
  on_hangup, accepted,
}

-- What happens to a peer: a message, a reference on a request taken or given back, the end of the
-- connection.
pub data Happening : Type 0 where
  message : Option ℕ → Bool → Str → Happening
  reference release : ℕ → Happening
  hangup : Happening

unfoldable pub run : Happening → Peer → Option Peer
run (message allocated connected bytes) p = server_called allocated connected bytes p
run (reference r) p = req_addref r p
run (release r) p = req_unref r p
run hangup p = on_hangup p

-- Messages come and the hangup is told while the connection is open; references are those of requests
-- that are there.
unfoldable pub IsAllowed : Happening → Peer → Type 0
IsAllowed (message allocated connected bytes) p = p.is_open ≡ true
IsAllowed (reference r) p = (wreq : Request) × (at r p.requests ≡ some wreq)
IsAllowed (release r) p = (wreq : Request) × (at r p.requests ≡ some wreq)
IsAllowed hangup p = p.is_open ≡ true

-- How many messages have come.
abbrev pub received : Happening → ℕ → ℕ
received (message allocated connected bytes) n = n + 1
received (reference r) n = n
received (release r) n = n
received hangup n = n

abbrev pub one_if_open : Peer → ℕ
one_if_open p = if p.is_open then 1 else 0

-- The references are those of the requests and of the connection, the peer is freed with the last, and
-- each message that came is freed or kept by one request.
unfoldable pub Kept : ℕ → Peer → Type 0
Kept n p =
    (p.refcount ≡ length p.requests + one_if_open p)
    × (p.freed ≡ (p.refcount == 0))
    × (n ≡ p.data_freed + length p.requests)

length-free :
    {A : Type 0} (r : ℕ) (xs : List (ℕ × A)) (a : A)
    → at r xs ≡ some a
    → length (free r xs) + 1 ≡ length xs
unfolding at free
length-free r [] a e = ground (arith, e)
length-free r ((q, b) ∷ xs) a e = ground (arith, e, length-free r xs a)

length-write : {A : Type 0} (r : ℕ) (v : A) (xs : List (ℕ × A)) → length (write r v xs) ≡ length xs
unfolding write
length-write r v [] = refl
length-write r v ((q, b) ∷ xs) = ground (arith, length-write r v xs)

use_peer_live : {A : Type 0} (p : Peer) (a : A) → p.freed ≡ false → use_peer p a ≡ some a
use_peer_live p a live = ap (λ b. if b then none else some a) live

-- A reference to the peer that is one too many is given back.
client_unref-Kept :
    (n : ℕ) (p : Peer)
    → p.freed ≡ false
    → p.refcount ≡ length p.requests + one_if_open p + 1
    → n ≡ p.data_freed + length p.requests
    → (q : Peer) × (client_unref p ≡ some q) × Kept n q
unfolding client_unref Kept
client_unref-Kept n p live count held = elim (Bool-cases (p.refcount == 1)) [
  | inl last ↦
      let q = record p { refcount = 0; freed = true } in
      (
        q,
        use_peer_live p _ live
            ∙ ap (λ b. some (if b then q else record p { refcount = p.refcount - 1 })) last,
        (ground (arith, count, last), ground arith, held),
      )
  | inr more ↦
      let q = record p { refcount = p.refcount - 1 } in
      (
        q,
        use_peer_live p _ live
            ∙ ap (λ b. some (if b then record p { refcount = 0; freed = true } else q)) more,
        (ground (arith, count, more), ground (arith, live, count, more), held),
      )
]

give_up-Kept :
    (n : ℕ) (p : Peer)
    → Kept n p
    → p.is_open ≡ true
    → (q : Peer) × (give_up (record p { refcount = p.refcount + 1 }) ≡ some q) × Kept (n + 1) q
unfolding give_up Kept
give_up-Kept n p (count, alive, held) opened =
    client_unref-Kept (n + 1)
      (record p { refcount = p.refcount + 1; data_freed = p.data_freed + 1 })
      (ground (arith, alive, count, opened)) (omega (arith, count)) (omega (arith, held))

serve_call-Kept :
    (n : ℕ) (p : Peer) (r : ℕ) (connected : Bool) (got : Option (Call × Str))
    → Kept n p
    → p.is_open ≡ true
    → (q : Peer) × (serve_call r connected got (record p { refcount = p.refcount + 1 }) ≡ some q)
      × Kept (n + 1) q
unfolding serve_call Kept
serve_call-Kept n p r connected none kept opened = give_up-Kept n p kept opened
serve_call-Kept n p r false (some (call, rest)) kept opened = give_up-Kept n p kept opened
serve_call-Kept n p r true (some (call, rest)) (count, alive, held) opened =
    (_, refl, (omega (arith, count), ground (arith, alive, count, opened), omega (arith, held)))

server_called-Kept :
    (n : ℕ) (p : Peer) (allocated : Option ℕ) (connected : Bool) (bytes : Str)
    → Kept n p
    → p.is_open ≡ true
    → (q : Peer) × (server_called allocated connected bytes p ≡ some q) × Kept (n + 1) q
unfolding server_called give_up serve_call Kept
server_called-Kept n p none connected bytes (count, alive, held) opened =
    let live : p.freed ≡ false = ground (arith, alive, count, opened) in
    let (q, ran, kept) = give_up-Kept n p (count, alive, held) opened in
    (q, ap (λ o. o >>= give_up) (use_peer_live p _ live) ∙ ran, kept)
server_called-Kept n p (some r) connected bytes (count, alive, held) opened =
    let live : p.freed ≡ false = ground (arith, alive, count, opened) in
    let (q, ran, kept) =
      serve_call-Kept n p r connected (read_call bytes) (count, alive, held) opened in
    (
      q,
      ap (λ o. o >>= serve_call r connected (read_call bytes)) (use_peer_live p _ live) ∙ ran,
      kept,
    )

req_addref-Kept :
    (n : ℕ) (p : Peer) (r : ℕ) (wreq : Request)
    → Kept n p
    → at r p.requests ≡ some wreq
    → (q : Peer) × (req_addref r p ≡ some q) × Kept n q
unfolding req_addref Kept
req_addref-Kept n p r wreq (count, alive, held) here =
    let same = length-write r (record wreq { refcount = wreq.refcount + 1 }) p.requests in
    (
      record p { requests = write r (record wreq { refcount = wreq.refcount + 1 }) p.requests },
      rw (here, req_addref) refl,
      (omega (arith, count, same), alive, omega (arith, held, same)),
    )

req_unref-Kept :
    (n : ℕ) (p : Peer) (r : ℕ) (wreq : Request)
    → Kept n p
    → at r p.requests ≡ some wreq
    → (q : Peer) × (req_unref r p ≡ some q) × Kept n q
unfolding req_unref Kept
req_unref-Kept n p r wreq (count, alive, held) here = elim (Bool-cases (wreq.refcount == 1)) [
  | inl last ↦
      let fewer = length-free r p.requests wreq here in
      let live : p.freed ≡ false = ground (arith, alive, count, fewer) in
      let (q, ran, kept) =
        client_unref-Kept n
          (record p { requests = free r p.requests; data_freed = p.data_freed + 1 }) live
          (omega (arith, count, fewer)) (omega (arith, held, fewer)) in
      (q, rw (here, req_unref) (rw last ran), kept)
  | inr more ↦
      let same = length-write r (record wreq { refcount = wreq.refcount - 1 }) p.requests in
      (
        record p { requests = write r (record wreq { refcount = wreq.refcount - 1 }) p.requests },
        rw (here, req_unref) (rw more refl),
        (omega (arith, count, same), alive, omega (arith, held, same)),
      )
]

on_hangup-Kept :
    (n : ℕ) (p : Peer)
    → Kept n p
    → p.is_open ≡ true
    → (q : Peer) × (on_hangup p ≡ some q) × Kept n q
unfolding on_hangup Kept
on_hangup-Kept n p (count, alive, held) opened =
    let live : p.freed ≡ false = ground (arith, alive, count, opened) in
    let (q, ran, kept) =
      client_unref-Kept n (record p { is_open = false }) live (ground (arith, count, opened))
        held in
    (q, ap (λ o. o >>= client_unref) (use_peer_live p _ live) ∙ ran, kept)

run-Kept :
    (h : Happening) (n : ℕ) (p : Peer)
    → Kept n p
    → IsAllowed h p
    → (q : Peer) × (run h p ≡ some q) × Kept (received h n) q
unfolding run IsAllowed
run-Kept (message allocated connected bytes) n p kept opened =
    server_called-Kept n p allocated connected bytes kept opened
run-Kept (reference r) n p kept (wreq, here) = req_addref-Kept n p r wreq kept here
run-Kept (release r) n p kept (wreq, here) = req_unref-Kept n p r wreq kept here
run-Kept hangup n p kept opened = on_hangup-Kept n p kept opened

-- The states of a peer from its acceptance on, with the count of the messages that came.
pub data Reach : ℕ → Peer → Type 0 where
  start : Reach 0 accepted
  next :
      {n : ℕ} {p q : Peer} (h : Happening)
      → Reach n p
      → IsAllowed h p
      → run h p ≡ some q
      → Reach (received h n) q

Reach-Kept : {n : ℕ} {p : Peer} → Reach n p → Kept n p
unfolding Kept
Reach-Kept start = (refl, refl, refl)
Reach-Kept (next {n} {p} {q} h before allowed ran) =
    let (q', also, kept) = run-Kept h n p (Reach-Kept before) allowed in
    let same : q ≡ q' = ground (arith, also, ran) in rw same kept

-- Whatever messages come from a peer of the service, whatever references its requests get and whenever
-- it hangs up, with or without memory, no step uses the peer after it was freed; and after each step
-- the references of the peer are one for each of its requests and one for the connection while it is
-- open, the peer is freed exactly if there are none, and every message that came was freed once or is
-- kept by one request. Messages and the hangup come while the connection is open, and references are
-- those of requests that are there.
pub peer_outlives :
    (h : Happening) {n : ℕ} {p : Peer}
    → Reach n p
    → IsAllowed h p
    → (q : Peer) × (run h p ≡ some q)
      × (q.refcount ≡ length q.requests + one_if_open q)
      × (q.freed ≡ (q.refcount == 0))
      × (received h n ≡ q.data_freed + length q.requests)
unfolding Kept
peer_outlives h reached allowed =
    let (q, ran, (count, alive, held)) = run-Kept h _ _ (Reach-Kept reached) allowed in
    (q, ran, count, alive, held)
