-- ===== src/Lib.antt =====
-- A model of app-framework-binder, the daemon that gives applications access to APIs over HTTP,
-- WebSocket and D-Bus, with what its parts promise.
--
-- Base holds what the modules share: tests on numbers, lists, and C strings as lists of bytes with
-- the functions of the C library that the program calls on them.
--
-- Session (src/session.c) is the store of client sessions. Session/Data.antt has the structures and a
-- state monad over the heap, in which an access to freed memory or a failed assertion is a fault.
-- Session/Slots.antt is the array of the store; Session/Store.antt, Create.antt and Clients.antt are
-- the functions of the file, named without their prefix `ctx` (ctxClientGetSession is
-- client_get_session). Session/Table.antt states the invariant of the store. Each call is one step:
-- the mutex of the file is not modelled. The clock, the uuids that are generated and the answers of
-- the allocator are part of the world.
--
-- Context (src/afb-context.c) is what a request holds of its session. It runs over the world of
-- Session: connecting takes a reference, disconnecting writes back what the request asked for, and
-- Context/Connection.antt joins the two.
--
-- ApiSo (src/afb-api-so.c) has the search of a verb and the session check that stands before its
-- call. Apis (src/afb-apis.c) is the table of APIs and the search of an API by name; Apis/Names.antt says
-- what a name is without the program's scans.
--
-- Websock (src/websock.c) is the WebSocket protocol. Websock/Frame.antt has the bits of a header,
-- Mask.antt the unmasking, Send.antt the functions that write frames, Reading.antt those that read,
-- and Dispatch.antt the function websock_dispatch, as a loop over turns; Lengths.antt and Delivery.antt
-- join the writers and the readers of a header. The functions are named
-- without their prefix `websock_`. The interface of callbacks is a parameter, a record Itf; a callback
-- takes and gives the whole connection. websock_dispatch and websock_drop loop as long as bytes come,
-- so they run on fuel: one turn of a loop takes one unit. A drop needs one unit more than there are
-- bytes left, since each turn reads at least one.
--
-- Http has src/afb-method.c, and of src/afb-hreq.c, src/afb-hsrv.c and src/afb-hswitch.c the way from
-- a URL to its handler: Http/Request.antt has prefixes, subpaths and the parts of a post,
-- Handlers.antt the table of handlers and the end of access_handler, Switch.antt the handlers of API
-- calls, of one page applications and of upgrades. The functions of the handlers and the replies are
-- parameters. The scan of a subpath runs on as much fuel as the text has bytes, and one more.
--
-- Threads (src/afb-thread.c) is the pool of threads that run jobs. Threads/Queue.antt is the queue with
-- its groups, Pool.antt the state that the mutex guards and the functions, each as the step between two
-- locks of the mutex, and Timer.antt the timer of a thread. What a callback does is not part of it; the
-- results of malloc, calloc, pthread_create and of the timer calls are arguments. Order.antt is the
-- order of a group, Places.antt where a request is, Invariant.antt what holds in each state of the pool.
--
-- ApiWs (src/afb-api-ws.c) carries the calls of an API to another process. Buffers.antt has the readers,
-- functions on the list of the bytes that are left, and the writers, on the list of at most 32 parts;
-- Messages.antt the messages of both ends; State.antt and Client.antt the client, named without its
-- prefix `api_ws_client_`, which logs what it does to the requests, contexts and events of the daemon;
-- Server.antt the service, a peer with its requests, where a use of a freed peer is `none`; a call is
-- served in two steps, up to the return of the API and the release of the request after it;
-- json-c is a parameter, a record JsonLib, and what the code relies on is the record
-- IsJsonLib. The search for the id of a call has as much fuel as there are memos, and one unit more:
-- among so many ids one is free. A memo is removed by its id, which is that of no other. Balance.antt
-- and Follows.antt count the calls that wait and those that were answered; Peers.antt has the references
-- of a peer.
--
-- Events (src/afb-evt.c) has the events, their listeners and the watches that join them, as structures
-- at addresses: Structs.antt is the memory, in which a read of what is not allocated gives `none`, and
-- the chains of links. Store.antt and Watching.antt have the functions, named without their prefix
-- (afb_evt_remove_watch is `unwatch`, remove_watch keeps its name). The lists of the events and of the
-- listeners have the order in which these were allocated, the last first, so the memory is the list. The
-- calls of callbacks are noted, and a callback does not call back. The loops that remove watches have as
-- much fuel as there are, and one unit more; so has the search for the number of an event, which ends
-- with fewer than 2^31 - 1026 events. Links.antt states what the chains hold, and Histories.antt the
-- calls in any order.
--
-- Tests has runs at concrete inputs, and the theorems applied there.
--
-- Not modelled: the libraries that the program calls (libmicrohttpd, json-c, systemd, libuuid), the
-- loading of shared objects, sockets, the D-Bus transport of APIs, the adapters of WebSocket
-- (src/afb-ws.c, src/afb-wsj1.c), localised files, the command line and the bindings that come with the
-- daemon.
pub mod Base
pub mod Websock
pub mod Http
pub mod Threads
pub mod ApiWs
pub mod Session
pub mod Context
pub mod Events
pub mod ApiSo
pub mod Apis
mod Tests
