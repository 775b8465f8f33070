-- ===== src/Lib.antt =====
-- Verification library of dmail, a mail system of signed and encrypted packets over a DHT.
--
-- A packet (pkg/packet) carries a payload that is encrypted and signed with the keys of pkg/crypto,
-- and a proof of work (pkg/pow). A node (pkg/node) stores packets and name records (pkg/names) in a
-- DHT. A daemon (pkg/daemon) keeps messages in a store (pkg/store), for one user or for the users of
-- a server, which log in (pkg/auth) and whose servers reach one another by HTTP (federation.go). Each
-- kind of daemon answers the requests of an HTTP API (api.go, api_multi.go).
--
-- The files and the code they model, by their paths:
--   Prelude     no code: tests, lists, Go strings as lists of bytes, results, bits
--   Pow         pkg/pow/pow.go; Pow/Zeros and Pow/Search have its theorems
--   Crypto      pkg/crypto: Crypto/Keys is keys.go and Crypto/Encrypt is encrypt.go;
--               Crypto/Assumptions states what is relied on of the packages that they call
--   Clock       package time, as far as the program uses it
--   Pb          internal/pb/dmail.pb.go: the message types; their encoding is a parameter
--   Packet      pkg/packet/packet.go (Decrypt is `open_payload`)
--   Names       pkg/names/names.go
--   Node        pkg/node/node.go: the validators, Push, Poll, RegisterName, ResolveName
--   Sql         what the SQL statements of the store mean on lists of rows
--   Store       pkg/store: Store/Single is store.go, Store/Multi is store_multi.go
--   Auth        pkg/auth: auth.go, and session_cache.go in Auth/Sessions
--   Federation  pkg/daemon/federation.go, its outbound half; the handlers of the inbound half are in
--               MultiTenant/Federated
--   Daemon      pkg/daemon/daemon.go: sending and registering, with their goroutines, and polling;
--               Daemon/Jobs has the goroutines that are under way and their count
--   MultiTenant pkg/daemon/multi_tenant.go: sending, with a task for each goroutine; names, waiting
--               packets and polling are in MultiTenant/Inbox
--   Api         pkg/daemon/api.go: the replies; its handlers are in Api/Single, and those of
--               pkg/daemon/api_multi.go in Api/Accounts (requireAuth, signup, login), Api/Mailbox
--               (the handlers on the store alone), Api/Site (those that use the network or start a
--               goroutine) and Api/Serve (the patterns); the other files below Api are proofs
--   Start       cmd/dmaild/main.go: the identity that a start takes; New and Close of both daemons
--               in Start/Daemons, and pollLoop as a list of ticks in Start/Polling; the other files
--               below Start are proofs
--   Tests       runs of all this at concrete inputs
-- A function of the source has its name in lower case with underscores. Its errors are the
-- constructors of a type `Error` in its module, and `Result` is Go's pair of a value and an error. The
-- clock and the values read from the source of randomness are arguments, with `none` for a failure. A
-- function that changes a store, a network or a cache takes its state and returns the new one.
--
-- Where the source drops the error of a look-up, the model goes on with the empty user or message that
-- Go returns beside it. A panic is the error `panicked`. It ends the polling of the server, as it ends
-- the program; elsewhere it goes the way of the other errors of its caller, and that net/http drops the
-- connection then, or that the program ends, is left out.
--
-- Numbers are natural numbers; a number of the wire format is bounded where a theorem depends on it.
-- `Compute` has one round for each nonce below 2^64 - 1, as in the source, so its recursion needs no
-- other bound; the other loops are structural.
--
-- Cryptography, the JWT package, base58, BIP39, protobuf, the DHT, HTTP and the tables of Unicode are
-- parameters; the laws that a theorem needs of them are its hypotheses, and Tests/Toys fills them. The
-- statements of the store fail where the parameter `fault` says so.
--
-- A request of the API is the pattern that it matched, with the values that its handler reads; a reply
-- is a status and a body, and the text of an error is left out. A server with many users is a `Site`:
-- its daemon, the registrations of names under way and the users whose packets are to be fetched.
--
-- Not modelled: net/http with its ServeMux and the JSON codec, the content of the files of the
-- front end, the flags and the data directory of the command line, the intervals of the timers, the
-- opening of the database and of the libp2p host, and the shutdown by a signal.
mod Prelude
pub mod Pow
pub mod Crypto
pub mod Clock
pub mod Pb
pub mod Packet
pub mod Names
pub mod Node
pub mod Sql
pub mod Store
pub mod Auth
pub mod Federation
pub mod Daemon
pub mod MultiTenant
pub mod Api
pub mod Start
pub mod Tests
