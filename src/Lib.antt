-- ===== src/Lib.antt =====
-- A SOCKS5 proxy with a management port, in C: one thread, a selector over `select`, and for each
-- connection a state machine whose states read, parse, process and reply; and a client of that port.
--
-- How the parts interact. The selector (src/selector.c) keeps a table of descriptors and calls the
-- handlers of the descriptors that are ready. A handler runs the engine (src/stm.c), which runs the
-- callback of the connection's current state and goes to the state that it returns. The callbacks of
-- src/Etapas move bytes between sockets and the two buffers of the connection (src/buffer.c), feed
-- them to parsers, change the globals, and tell the selector what to wait for next.
--
-- Which file models which part:
--   Prelude          lists, options as faults, tests and integers over the native numbers
--   Bytes            a write to a C array
--   Buffer           src/buffer.c: `struct buffer` with its array; below it the invariant (Valid),
--                    the bytes that wait (Window, Fifo), and the loops that parse from it (Drain)
--   Trace            sequences of the calls that use a buffer
--   Socket           `recv` and `send`: what the peer offers and takes is an argument
--   Selector         src/selector.c: the table, its growth, registration and interest; below it the
--                    capacity, the consistency of the table, registration, descriptors in use or free
--                    (Open), and the event loop (Loop, Iteration) with the callbacks and the state
--                    that they share as a record of operations (`Host`)
--   Stm              src/stm.c, over any table of callbacks; Run is what it guarantees
--   SocksState, MngState   the numbers of the states, of include/socks5nio.h and include/mng_nio.h
--   Connection       `struct socks5` and the selector key; Io is how handlers receive and send
--   Hello            src/Etapas/hello.c
--   RequestParser    src/Etapas/request_parser.c
--   Request          src/Etapas/request.c; Lifecycle is the start and the end of the stage
--   Connecting       src/Etapas/connecting.c, how the stage starts; below it its handler and what
--                    follows a resolved name in src/Etapas/resolv.c (Writing), what happens when the
--                    origin answers (Outcome), when it does not (Fallback, Tries), and where `connect`
--                    answers at once (AtOnce)
--   Resolver         the thread of src/Etapas/resolv.c that resolves a name
--   Pool             the pool of objects of src/socks5nio.c and src/mng_nio.c
--   Proxy            src/socks5nio.c: the table of states as an instance of Stm; Lifetime is accepting,
--                    the events and the end of a connection, the others are what follows of them
--                    (Resolving: with the thread and the queue of notifications; Serving: with
--                    `selector_select`)
--   MngNio           src/mng_nio.c, in the same way
--   MyParser         src/myParser.c: the parser that runs a list of sub-states
--   Users, Globals   the table of users and the globals of src/main.c; lookup, insertion and deletion
--                    of src/Etapas/authentication.c and src/Etapas/mng_request.c
--   Auth             src/Etapas/authentication.c
--   Copy             src/Etapas/copy.c
--   Dissector        src/password_dissector/dissec_parser.c
--   Mng              src/Etapas/mng_request.c
--   Args             src/args.c and src/address_utils.c: the options, and the credentials that
--                    src/main.c reads
--   Server           the sockets of src/socket_utils.c, and the start and the loop of src/main.c; Start is
--                    what the selector holds after it, Finish the end of `main`, and Balance what it
--                    gives back
--   Client           src/client/clientUtils.c: the messages; below it what the client makes of a reply
--                    (Reply), src/client/clientArgs.c (Args) and src/client/client.c (Session), what
--                    follows for the client alone (Encode, Requests, Order), and the client with the
--                    handlers of the server on the same bytes (Entering, Adding, Counting, Naming)
--   Netutils         src/netutils.c: the sending loops, what they send (Sending), the text of an address
--                    (Human) and what it shows (Shown)
--   Tests            the theorems at concrete inputs
--
-- How the code is read. A function that changes an object takes it and gives it back; the objects
-- that a handler reaches through its key are the fields of one record. An operation that can stop
-- the program or leave defined behaviour (a failed `assert`, `abort`, an access outside an array, a
-- use of NULL) gives an `Option`, and is `none` there. Where an allocation is tested its success is
-- an argument; where it is not, it succeeds. Numbers are natural numbers; a fixed width is written
-- as a remainder, and a descriptor is an integer. Text for the log is left out, and with it
-- the lines that src/Etapas/connecting.c prints of a connection.
--
-- Fuel. The loops that parse from a buffer run on one more than the number of bytes that wait, and
-- each round takes one, so they end before the fuel does (Buffer/Drain). The loop of `next_capacity`
-- runs on 64, the width of a `size_t`. The digits of a port run on 5, which a 16-bit number has at
-- most. The sending loops run on the number of bytes that wait; each round that goes on sends one at
-- least (Netutils/Sending). All other loops are recursions on what they run over, or on how many are
-- left.
--
-- Where a stage keeps its state in a union, the model has a field for each stage, set on arrival. What
-- the system answers to the calls of one event (`recv`, `send`, `socket`, `connect`, `getsockopt`, `accept`,
-- `malloc`) is an argument or a record of answers. Objects are told apart by number, and the
-- descriptors that are closed are listed.
--
-- Not modelled: `select` itself, `getaddrinfo` and signals;
-- src/client/tcpClientUtil.c, which nothing calls; functions that only free memory.
pub mod Args
pub mod Auth
pub mod Buffer
pub mod Bytes
pub mod Client
pub mod Connecting
pub mod Connection
pub mod Copy
pub mod Dissector
pub mod Globals
pub mod Hello
pub mod Mng
pub mod MngNio
pub mod MngState
pub mod MyParser
pub mod Netutils
pub mod Pool
pub mod Prelude
pub mod Proxy
pub mod Request
pub mod RequestParser
pub mod Resolver
pub mod Selector
pub mod Server
pub mod Socket
pub mod SocksState
pub mod Stm
pub mod Tests
pub mod Trace
pub mod Users
