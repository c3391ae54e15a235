-- ===== src/Lib.antt =====
-- Verification of unisockets: the signaling of a virtual subnet of WebAssembly programs, whose
-- sockets run over WebRTC (pkg/web in the repository).
--
-- The program's parts. A signaling server gives each client that knocks an address in a subnet,
-- keeps which client has bound which alias, and passes on the messages by which clients find each
-- other. A signaling client turns what the server sends into callbacks and into promises of bind,
-- shutdown, accept and connect. The transporter holds the WebRTC connections, and the sockets give
-- a WebAssembly program the calls that stand on both. In the web runner each thread of the program
-- is a worker with a signaling client and sockets of its own, and the page's thread holds the
-- transporter and the bindings and aliases that the threads share.
--
-- Which file models what:
--   Signaling/Operation, Errors    pkg/web/signaling/operations, errors: the messages
--   Signaling/Service              services/signaling-service.ts: receive, send
--   Signaling/Address              parseIPAddress, toIPAddress, parseTCPAddress, toTCPAddress of
--                                  services/signaling-server.ts
--   Signaling/Subnets              its address pool: createIPAddress, createTCPAddress,
--                                  claimTCPAddress, removeIPAddress, removeTCPAddress; runs of
--                                  them (Calls)
--   Signaling/Server               its state (Action), its handlers (Handlers), and the listener of
--                                  a socket that closes (Goodbye)
--   Signaling/Server/Owners        its runs, and who has bound an alias
--   Signaling/Server/Concurrent    handleBind again, with other calls of it at its awaits
--   Signaling/Server/Knocks        handleKnock again, with other calls of it at its awaits
--   Signaling/Client               services/signaling-client.ts: handleOperation, the keys, and the
--                                  listeners of bind, shutdown, accept and connect
--   Signaling/Server/Process       the listeners of open in services/signaling-server.ts: connections,
--                                  pongs, messages, the interval, and sockets that close
--   Signaling/Client/Connection    the client's socket: open, close, the reconnection, and what each
--                                  method sends
--   Signaling/Session              the client's promises and its knocks against the server's handlers
--   Signaling/Examples             a small network, and the theorems at it
--   Transport                      transport/transporter.ts: candidates, messages, shutdown,
--                                  offers (Offer), and the sends and recvs that wait
--                                  (Sending, Receiving)
--   Sockets/Memory, SockAddr       a program's memory and the `struct sockaddr_in` in it, as
--                                  sockets/sockets.ts reads and writes them; utils/htons.ts,
--                                  utils/getAsBinary.ts
--   Sockets/Calls                  the methods of Sockets, and sockets/bind.ts
--   Sockets/Imports                the functions of getImports, which a program calls
--   Runner/Main, Runner/Worker     cmd/unisockets_runner_web: main.ts and worker.ts; a bind from
--                                  a program's memory to the server (Worker/Binding), and the
--                                  routes that a connection leaves (Worker/Routes)
--   Runner/Command                 cmd/unisockets_runner/main.ts: the table of aliases (Aliases), and
--                                  what is started for which options (Start)
--   Run                            actions on a state that may throw, and their invariants
--   Map, Number, Text, Prelude     JavaScript's Map, its numbers as far as addresses need them, split
--                                  and join, and the shared names
--
-- How the model corresponds. A string is the list of its code units. A Map is an association list
-- in insertion order. A number is NaN, a natural number or a negative one; parseInt is written out
-- with its prefixes. A method that throws returns `err` beside the state that it leaves, so an
-- update before a throw stays. A socket is a number, and what is sent goes to the end of the field
-- `sent`, in order. A call of Sockets to the outside is a parameter that acts on the whole state,
-- since messages of other threads arrive while it is awaited. A memory is known by its buffer,
-- which programs share. Handlers of the server run one after another: an await in a handler is not
-- a point where another handler runs, but for calls of handleBind among themselves, and of handleKnock
-- among themselves (Concurrent, Knocks).
-- All recursion is on lists or on the rounds of a loop, so nothing needs fuel but the printing of a
-- number, whose fuel is the number itself: each digit divides by ten, so a number has no more
-- digits than that.
--
-- Not modelled: JSON, the libraries of WebSockets and options, and logging, which are input and
-- output; how the server begins to listen and ends; of the transporter, what happens while an offer
-- awaits; the examples, the C and Go bindings and the vendored runtimes, which are not part of the
-- TypeScript library. A UUID is an argument, and RTCPeerConnection a parameter with the laws that
-- the transporter needs, whose promises may be rejected. The pings and the waits of the reconnection
-- are events without a time; a wait ends only if it was begun.
pub mod Prelude
pub mod Map
pub mod Number
pub mod Text
pub mod Run
pub mod Signaling
pub mod Transport
pub mod Sockets
pub mod Runner
