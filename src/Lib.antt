-- ===== src/Lib.antt =====
-- A verification library for the Mini-Tor overlay. One proxy reads echo requests from a tunnel
-- device and sends them over a circuit of routers, each a process of its own, out to the world;
-- the replies come back on the same circuit. What the program does depends on its stage (1 to 6):
-- in stages 2 to 4 packets go to one router in the clear, in stage 5 they travel in Mini-Tor frames
-- over a circuit, and in stage 6 under one layer of AES for each router of the circuit.
--
-- The parts, and where they are modelled:
-- - Message: `Message` of SocketAPI.h, an array of 500 bytes with a length. A buffer is a function
--   from the index to the byte; reads and writes of 16 and 32 bits are little-endian, as on the host
--   of the recorded logs. Message/Laws has the lemmas on slices and copies.
-- - Base/Outcome: code that may stop the process. A failed assertion, an access outside an array, a
--   null pointer and a call of exit are values, and the code behind them does not run.
-- - Text: the C library's decimal numbers, strings and formats, as far as the program uses them. A
--   text is the list of its bytes. Text/Numbers and Text/Formats have their lemmas.
-- - Config: the configuration file, `MyFile::readNextLine` of File.cc and `main` of Stage1.cc up to the
--   processes that it forks: Main has `main`, Forked the routers' identifiers.
-- - Checksum: `csum` of MyDEBUG.cc. Checksum/Reference has the definition that it is compared with.
-- - Aes: aes_jh.c. Key: `MyKEY` of SocketAPI.cc. Onion: `OnionEncrypt` and `OnionDecrypt` of proxy.cc.
-- - Socket: `UDPSocket` and `RawSockets` of SocketAPI.cc. Open has what their constructors, `PrintPort`
--   and `BindSocketForListening` make of the answers of the system.
-- - LogFile: what `MyFile` of File.cc and `MyDEBUG` write. HexText reads a dump back.
-- - Trace: what a process sends, writes and logs. Both processes carry their list of events, the
--   newest first.
-- - Router: router.cc. State has its globals, Packet the functions on IP packets, Wrap the Mini-Tor
--   frame, Relay `RelayThisStuff`, Relay6 `RelayThisStuff6`, Create the circuit messages of stage 5 in
--   `Handler`, Create6 `CCtCreation_6`, and Handler the loop, one step for each readable socket.
--   Start has `Router`, the process up to its loop. Contract is what a round of the loop does to
--   the router's circuit, by the message that it receives.
-- - Proxy: proxy.cc. State has its globals, Hops `RandomlySelectHops2`, Register
--   `EnterTainRouterUpMsges`, Build `Build_An_Circuit`, Onion `CreateOnionEncryptMessages`, Build6
--   `Build_An_Circuit_6`, Tunnel the reactions of `tunnelPlusSock_reader` to what it reads, and
--   Loop the function itself, descriptor by descriptor. Start has `Proxy`, the process up to its
--   loop.
-- - Circuit: no code of its own. It joins routers to a network: what one of them sends is handled by
--   the next one, if it has the port that was sent to. Forward, Backward, Reply, Ping and Home are about
--   packets on a circuit that is there; Handshake and Extend are about building one: Links has what
--   one router does, Route a chain of them, Establish a round of the proxy's loop, Plan and Build
--   all rounds, Table and Whole the function with its selection of hops, WayBack the routers in the
--   opposite order, Session what stays of a circuit that is in use, Echo a packet and its reply,
--   and Journey all of this from the building on. Plain is the same for stage 5: the requests over a
--   chain of routers, a round of the proxy's loop, all rounds, the function with its selection, a
--   packet on the circuit (Relay, Data and Journey) and one back from outside (Back what a router makes
--   of its header, Reply one router, Pong the way to the proxy's tunnel). Startup is about a router's start.
-- - System: no code of its own either. It joins the processes that `main` starts: Reported has the
--   routers at their start, Registered the proxy's table once they have reported, Selected the hops,
--   and Whole the circuit that is built over them and an echo on it.
-- - Examples: a small overlay with a simple cipher.
--
-- Parameters. `Machine` has what the program takes from outside: OpenSSL's AES functions (`Aes`,
-- whose documented behaviour in CBC mode is `IsAes`), the bytes of an object that was not written to
-- yet, and the addresses of the interfaces. What `recvfrom`, `read` and `rand` give are arguments of
-- the operations. Sending never fails.
--
-- Bounds. Every array of the source is bounded as it is there: a message has 500 bytes, the table of
-- senders ten places. A frame takes 23 bytes and each layer of encryption 1 to 16 more, which is where
-- `107 + 16 * length ks <= 500` comes from for packets of 84 bytes. Loops are structural recursion on
-- their number of rounds or on the list of inputs; the endless loop of `SetRandomReceiver` runs over a
-- list of values of `rand()` and says so when these are used up. The configuration file is read on
-- fuel, one more than its bytes: each line takes one at least.
--
-- Not modelled: `fork`, signals, the opening and closing of files, a failing `sendto`, and printed
-- debug output of the processes. A log line of a process is a value that holds what is printed. The
-- circuit table is its entry 0, which is the only one that the source uses. Of numbers scanned with
-- `%hu` the sign is left out. The test program behind IS_LIBRARY of aes_jh.c is not built.
pub mod Base
pub mod Message
pub mod Text
pub mod Checksum
pub mod Aes
pub mod Machine
pub mod Key
pub mod Onion
pub mod Socket
pub mod Config
pub mod Trace
pub mod LogFile
pub mod Router
pub mod Proxy
pub mod System
pub mod Circuit
pub mod Examples
