-- ===== src/Lib.antt =====
-- A model of the Bramble SDK for Go: the client library that talks JSON-RPC 2.0 to the nodes of a
-- Bramble mesh over a serial line, a WebSocket or Bluetooth Low Energy.
--
-- The program's parts, and the files that model them:
--   protocol.go     Protocol. `Protocol` numbers its calls, keeps a channel for each in `pending`,
--                   and has a reader goroutine that hands responses to the calls and notifications
--                   to a channel of 64. The model is a step function: `step` takes an `Event`, one
--                   atomic action of a call, of the reader or of the consumer, and a `State`; a
--                   `run` is any interleaving. A call is a `Stage`, the reader a `Reader`. The
--                   reader's exit at the top of its loop is the event `receive_error` after `stop`.
--                   Protocol/Shared is what the goroutines share, and the map of pending calls;
--                   Protocol/Rules reduces a property of all steps to the kinds of change;
--                   Protocol/Answers says what a call's answer has to be; Protocol/Sending is the
--                   loop of `Call` around `Send`, over any transport that keeps the contract.
--   client.go       Client: the helpers that all methods share; Client/Connection: `NewClient`,
--                   `Connect` and `Close`; Client/Queries, Client/Commands, Client/Messages and
--                   Client/Location: one function per method, over the call as a parameter;
--                   Client/Notify: one round of `notifyLoop` as the list of what it does, and the
--                   registration of callbacks.
--   types.go        Wire: the structs, each as a record and as the list of its fields, with
--                   `LocationTier`; Json: how encoding/json reads and writes such fields; Action:
--                   the text of /me messages. The structs on which client.go computes stand with
--                   its methods.
--   screenshot.go   Screenshot: `assembleScreenshot` over an abstract fetch; Screenshot/Remote:
--                   `Client.Screenshot`, whose fetches are calls.
--   version.go      Version: the parsing and comparison of protocol versions.
--   anchor.go       Anchor: the trust anchor's keys, endorsements and backup text.
--   network_key.go  NetworkKey: the network key and its share text.
--   transport/transport.go, transport/auth.go  Transport: the errors and the handshake that
--                   transports share; Transport/Contract: the interface, as far as `Call` relies on
--                   it, which the `Contract` modules of the four transports fill.
--   transport/options.go  Options: the options, and the constructors that apply them.
--   transport/serial.go  Serial: the port, the handshake, `reconnect`, `Send`, `Receive` and
--                   `Close`; Serial/Reading: the reader; Scanner: the `bufio.Scanner` that it reads
--                   through.
--   transport/websocket.go  WebSocket: the same for a socket; WebSocket/Loops: its critical
--                   sections as steps, in any order. Backoff is the loop in which both reconnect.
--   transport/ble.go  Ble: chunked writes, the lines from notifications, the token handshake;
--                   Ble/Connect: `Connect`, from the scan to the handshake; Ble/Link: the flags of
--                   the connection and the goroutines that reconnect, as a step function on the
--                   critical sections of the mutex; Ble/Recovery: `reconnectLoop` with its delays.
--   transport/transporttest/mock.go  Mock: the transport in memory, and its goroutines, each with
--                   the time at which it wakes up.
-- A client sends through the protocol, and the protocol through a transport; what a transport's
-- `Send` and `Receive` return is an event of Protocol. Serial/Roundtrip and Ble/Roundtrip put two
-- ends of a transport together, and Wire/Interleaved and Wire/Replies a method of the client, the
-- protocol and a struct. Runs has what all step functions share. The functions of Go's standard
-- library that the source calls stand in Text (strings), Hex, Base64, Query (net/url), Json
-- (encoding/json), Scanner (bufio) and Client/Messages (fmt).
--
-- Texts and byte slices are lists of natural numbers; a Go `int` is an integer without bounds,
-- except for the call ids, which wrap at 64 bits, the parsed numbers and the integers in JSON, which
-- have Go's range. A pair of a value and an error is a `Result`. What a part does to the outside is
-- a state or a world that it passes on, of a type that is a parameter.
--
-- Parameters: the parser and printer of JSON texts, what JSON makes of a value of type `any`,
-- Ed25519, SHA-256 and the random source, the serial port, the WebSocket and the Bluetooth stack,
-- the clock and the choice of a ready case in a `select`.
--
-- Fuel: the loop over screenshot chunks gets as much fuel as the frame has bytes, and each round
-- adds a byte or ends; the loop over BLE chunks gets the payload's length, and each round drops a
-- byte at least; so do the loops that skip white space. The loops that only the outside ends, which
-- are those of `reconnect`, `reconnectLoop`, the serial reader and its handshake, and `Call`,
-- take the number of their rounds, and the theorems on them say how many are enough.
--
-- Not modelled: the locking of the client's callbacks; read deadlines and the timeouts of contexts,
-- other than as something that a world does; the texts of errors, other than those that the code
-- searches; `Info` of the serial transport; how JSON reads a member that comes twice into a slice;
-- examples, scripts and workflows, which are glue and output.
pub mod Prelude
pub mod Text
pub mod Version
pub mod Hex
pub mod Anchor
pub mod Query
pub mod NetworkKey
pub mod Base64
pub mod Screenshot
pub mod Runs
pub mod Backoff
pub mod Transport
pub mod Protocol
pub mod Client
pub mod Ble
pub mod Scanner
pub mod Serial
pub mod WebSocket
pub mod Mock
pub mod Options
pub mod Json
pub mod Wire
pub mod Action
