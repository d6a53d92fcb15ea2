-- ===== src/Tests/Peers.antt =====
-- A peer of the service calls, hangs up, and is freed with its last request.
use app_framework_binder.Base.{◌+◌, ◌≡◌, refl, true, false, some, [], ◌∷◌, ◌==◌, length}
use app_framework_binder.Base.Text.{Str}
use app_framework_binder.Events.Structs.{at, free}
use app_framework_binder.ApiWs.Buffers.{read_uint32, read_string, read_get}
use app_framework_binder.ApiWs.Messages.{Call, read_call}
use app_framework_binder.ApiWs.Server.{
  Peer, client_unref, serve_call, server_called, req_unref, on_hangup, accepted,
}
use app_framework_binder.ApiWs.Peers.{
  message, release, hangup, run, IsAllowed, one_if_open, Reach, start, next, peer_outlives,
}

-- The call 7 of the verb "g", with no uuid and the text "1".
abbrev call_bytes_7 : Str
call_bytes_7 =
    7 ∷ 0 ∷ 0 ∷ 0 ∷ 0 ∷ 0 ∷ 0 ∷ 0 ∷ 2 ∷ 0 ∷ 0 ∷ 0 ∷ b'g' ∷ 0 ∷ 1 ∷ 0 ∷ 0 ∷ 0 ∷ 0 ∷ 2 ∷ 0 ∷ 0 ∷ 0
    ∷ b'1' ∷ 0 ∷ []

abbrev call_7 : Call
call_7 = record { msgid = 7; flags = 0; verb = b'g' ∷ []; uuid = []; request = b'1' ∷ [] }

abbrev called : Peer
called = record accepted {
  refcount = 2;
  requests = (40, record { call = call_7; refcount = 1 }) ∷ [];
  calls = call_7 ∷ [];
}

abbrev hung_up : Peer
hung_up = record called { refcount = 1; is_open = false }

called-run : run (message (some 40) true call_bytes_7) accepted ≡ some called
unfolding run server_called serve_call read_call read_uint32 read_string read_get
called-run = refl

hung_up-run : run hangup called ≡ some hung_up
unfolding run on_hangup client_unref
hung_up-run = refl

opened : IsAllowed (message (some 40) true call_bytes_7) accepted
unfolding IsAllowed
opened = refl

still_open : IsAllowed hangup called
unfolding IsAllowed
still_open = refl

hung_up-Reach : Reach 1 hung_up
hung_up-Reach =
    next hangup (next (message (some 40) true call_bytes_7) start opened called-run) still_open
      hung_up-run

request_there : IsAllowed (release 40) hung_up
unfolding IsAllowed at
request_there = (record { call = call_7; refcount = 1 }, refl)

peer_outlives_example :
    (q : Peer) × (run (release 40) hung_up ≡ some q)
    × (q.refcount ≡ length q.requests + one_if_open q)
    × (q.freed ≡ (q.refcount == 0))
    × (1 ≡ q.data_freed + length q.requests)
peer_outlives_example = peer_outlives (release 40) hung_up-Reach request_there

-- The last request frees the peer.
peer_freed :
    run (release 40) hung_up
    ≡ some (record hung_up { refcount = 0; freed = true; requests = []; data_freed = 1 })
unfolding run req_unref client_unref at free
peer_freed = refl
