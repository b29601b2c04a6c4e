-- ===== src/Lib.antt =====
-- Models of the programs of p1, p2 and p3 and the theorems about them.
--
-- The flight reservation system (p3) is a set of airline servers, each with a Paxos peer. A call of
-- a user becomes an operation that the server proposes for its next slot; the server applies the
-- operations of all slots in order until its own has been decided. The tribbler (p2) keeps its data
-- in a ring of storage servers that lend leases to the caching clients (libstore). The Live Sequence
-- Protocol (p1) carries messages in order over UDP, with a sliding window of messages not yet
-- acknowledged, and a bitcoin server on top of it shares the requests of clients among miners.
--
--   Common     shared names, association lists (Dict), native integers (Int) and small lemmas.
--   Paxos      p3/src/github.com/cmu440/flight_reservation/paxos/paxos.go: Rpc has the messages,
--              Replica the peer and the calls it serves (Prepare is `prepare`, and so on), Proposer
--              the rounds of StartHelper, Admin the calls that walk the slots. A Go map is an
--              association list. A handler runs under its slot's lock, so it is one step. Cluster
--              has all peers of one slot as a step relation: a step is one answered call, one new
--              proposal, or one delivered decision, and a reply may be used at any later step or
--              never. Quorum has majorities.
--   Flight     p3/src/github.com/cmu440/flight_reservation/server/server_impl.go: Operations has the
--              state and the helpers that change it, Server the loop that replays the log.
--   Storage    p2/src/github.com/cmu440/tribbler/storageserver/storageserver_impl.go: Server has the
--              state and the leases, Calls the rpc calls, Ring the registration.
--   Tribbler   p2/src/github.com/cmu440/tribbler/tribserver/tribserver_impl.go: Store is the interface
--              of the libstore and what the server relies on, Server the calls. Backend, Backing and
--              Lawful show that a libstore without leases and the one storage server of its ring, over
--              a network that answers, are such a store. Reading, Posting,
--              Following and Subscribing are about them, and Fixture has concrete stand-ins for the
--              parameters.
--   Lsp        p1/src/github.com/cmu440/lsp: Message has message.go and params.go, Buffer buffer.go,
--              Client and Arrivals the handlers of client_impl.go, EventLoop its loop; Moves is the
--              loop's turn as a step relation. A handler's sends on the network and on channels are
--              its list of outputs.
--   Libstore   p2/src/github.com/cmu440/tribbler/libstore/libstore_impl.go: Cache has the state and the
--              timers, Calls the calls, Route the routing of a key; what the storage servers answer is
--              the parameter `Network`. Coherence has a storage server with its libstores as a step
--              relation, over the calls of Storage and of Libstore.
--   Bitcoin    p1/src/github.com/cmu440/bitcoin/server/server.go and message.go: Server has the state,
--              the handlers and a turn of the loop. Miner has miner/miner.go and hash.go.
--
-- Loops over the network take what happens as data: a round of a proposal is a record of the replies
-- and of the calls that the peer serves meanwhile, and a list of rounds that is too short gives the
-- result `pending` or `none`, never a wrong one. The walk of MinUndecidedSlot has the fuel
-- `max_decided_slot + 2`, which is enough because no later slot is decided. The event loop of LSP is
-- run for a number of turns over a queue of requests, which stands for all orders of calls, epochs
-- and messages; a queue of `n` requests is served in at most `2 * n` turns. A bitcoin miner's loop has fuel for one round
-- more than there are nonces. A difference of two
-- numbers is compared as a sum on the other side. Go's int and int64 are natural numbers or integers
-- without a bound, but for proposal numbers, which wrap around. A lease
-- holder is a function from its host to what its rpc client does.
--
-- Not modelled: sockets, rpc registration, goroutine scheduling inside a handler, sends on channels and
-- locks that make it wait, the client of the
-- bitcoin cluster, the LSP server, the administrators, the echo server of p0, the runners and the test
-- programs.
pub mod Common
pub mod Paxos
pub mod Flight
pub mod Storage
pub mod Libstore
pub mod Bitcoin
pub mod Lsp
pub mod Tribbler
