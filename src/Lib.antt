-- ===== src/Lib.antt =====
-- The models of a peer of a BitTorrent-like network over UDP, with a window of packets in flight and
-- congestion control, and the theorems about them.
--
-- The program (peer.c) reads its configuration, the list of the peers and its tables of chunks, and
-- runs a loop over datagrams, its user's lines and timeouts. It keeps a table of the chunks that it has
-- and a request for chunks that it wants. It asks all other peers for the chunks of the request
-- (WHOHAS), is told who has them (IHAVE), picks a chunk for a peer and asks for it (GET), and receives
-- it in up to 354 packets (DATA), each of which it acknowledges (ACK). As a sender it keeps, for each
-- stream, the queue of packets that wait for their acknowledgement, and a congestion window that
-- bounds it.
--
-- Files, and the code that each is about:
--   Base            numbers of fixed width, Boolean tests, lists over the native numbers, byte orders,
--                   and `Outcome`, the result of code that may fault
--   Tracker         keep_track.c, keep_track.h: the streams. Receive is `track_data_packet` and
--                   `add_record`, Send is `wait_ack`, `receive_ack`, `get_timeout_seq` and `infer_RTT`,
--                   Streams is the start, end and clean-up of streams; Slots and Send/Lookup are lemmas
--                   on the arrays; Receive/InOrder, Send/Window, Streams/Reach and Streams/Fresh are
--                   theorems; Exchange puts a sender and a receiver on a network that loses
--                   packets, Exchange/Estimate and Exchange/Progress are about
--                   their turns
--                   Send/Nodes is the queue of packets as it lies in memory; its Chain, Drop, Stored,
--                   Enqueue, Acked and Shorter are lemmas, Calls is any calls on a stream, and Refine,
--                   Safe and Separate have the theorems
--   Congestion      congestion_control.c, window_log.c; Growth, Windows and Runs have the theorems
--   Chunks          util.c: tables of chunks, `pick_a_chunk` and its two variants, `save_data_packet`,
--                   `save_chunk`, `update_ihave_table`; Save, Pick and Tables have the theorems
--   Connections     util.c: `update_connections`, `packet_contain_chunk`, `pick_a_chunk_after_crash`
--   ConnectionWindow  connection.c, which the program does not use; Consistent has the theorem
--   ChunkFiles      util.c: `parse_has_get_chunk_file`, `parse_total_chunk_file`; chunk.c's `make_chunks`
--                   and the list that make_chunks.c prints; Listing and Bounds have the theorems
--   Hex             chunk.c: `binary2hex` and `hex2binary`; RoundTrip is about both
--   Text            `fgets`, `%d` and `%s` of the C library, on lists of bytes; Decimal, Lines and Words
--                   are lemmas
--   Config          bt_parse.c: the lookups of peers. PeerList is `bt_parse_peer_list`, CommandLine is
--                   `bt_init`, `bt_parse_command_line` and debug.c's `set_debug`; PeerList/Listing and
--                   CommandLine/Accept have the theorems
--   UserInput       input_buffer.c; Split is the text that a buffer stands for, Refine and Reads have the
--                   theorems
--   Files           file.c, on a map from names to bytes; Blocks, Access and Deposit have the theorems
--   Spiffy          spiffy.c; Envelope has the theorem
--   Wire            network.c: headers and `validate_packet`; Build is `make_packet`, one function for
--                   each type; Print is what is printed of a packet, with its theorem; RoundTrip has lemmas,
--                   Whohas and Ihave have the theorems
--   Peer            peer.c: the global variables. Inbound is `process_inbound_udp`, one function for
--                   each case of its `switch`; Transmit is network.c's `send_data_packets`; Loop is
--                   `process_get`, network.c's `whohas_flooding` and util.c's `download_peer_crash`;
--                   Inbound/Receive, Inbound/Complete, Inbound/Acknowledge, Inbound/Printing,
--                   Transmit/Decide, Transmit/Flow, Transmit/Collapse and Transmit/Cover have the
--                   theorems; Inbound/Whole is all datagrams of a chunk, Whole/Completed and
--                   Whole/Judged are lemmas, and Whole/Transfer has the theorems.
--                   Startup is `main` and `peer_run` up to the loop, and `handle_user_input`; Run is a
--                   round of the loop of `peer_run`; Startup/Asking, Startup/Tables,
--                   Startup/Identity and Run/Typed have the theorems
--   Tests           a small peer, and the theorems at concrete inputs
--
-- How state and operations correspond to the code. The parallel arrays that are indexed by stream
-- are one list of records; a chain of nodes is a list, and `sent_queue_tail` is the number in the
-- node that it points at. Tracker/Send/Nodes has the chain of packets as it is instead: a memory of
-- nodes by address, where `malloc` returns an address that is given, and a node that is not
-- allocated cannot be read or freed. The global variables are the record `Peer`. An operation is a
-- function from the state to the new state and what it returns; packets sent and blocks written are
-- a list of effects. An `int` or `unsigned` is its bit pattern, a number below 2^32, so that -1 is
-- 2^32 - 1; the arithmetic wraps around as C's does, and signed comparisons are written out.
-- Pointers that are `NULL` are `none`. A dereference of `NULL`, a copy outside of a block, `exit`,
-- the use of a freed node and a loop without end are the crashes of `Outcome`; a read of the
-- receive buffer is a fault where it leaves the bytes that are given.
--
-- Bounds and fuel. The count of the chunks not started (network.c, `make_packet`) takes fuel, since
-- its counter is an `unsigned char`; more fuel than there are chunks is enough below 256 chunks,
-- and no fuel is from there on. The loop over the lines of the input buffer takes fuel, since what
-- `memmove` leaves behind is text again; more fuel than there are bytes of text is enough for up to
-- 4096 of them. `fgets` takes as many lines as a file has bytes, and a number as many digits as its
-- value and one more, which always is enough. The loop of `receive_ack` over nodes in memory takes
-- fuel; more than the packets of the queue and the calls is enough. The print functions have more
-- rounds than their `unsigned short` counter takes below 65520, and a buffer of 1500 bytes ends
-- them before. All other loops recur on the list that they walk. The clock is an argument: an event
-- reads it once, where the code reads it several times within the event.
--
-- Parameters: the smoothing of the round-trip estimate (C's `double` arithmetic), the SHA-1
-- function, the bytes that `read_file` leaves in its buffer, what `getopt`, `gethostbyname`,
-- `inet_aton`, `getenv`, `sendto`, `recvfrom`, `select` and `read` of the input return, and what
-- files hold. Memory from `malloc` and the allocations themselves always succeed; what fresh arrays
-- hold is an argument. A write to a file is whole. Texts have no NUL in them.
-- The program is built with TESTING, as its Makefile does, so that `main` sets an identity and two
-- file names before it reads the command line.
--
-- Not modelled: sockets and their set-up, printing (debug.c but for `set_debug`, the print
-- functions of util.c, the texts around what those of network.c read, the help), the freeing of
-- memory other than the sent packets', sha.c (a library), the second connection_timeout_sender of
-- connection.c, which calls functions that are not there, and the stand-alone programs server.c,
-- client.c and test_input_buffer.c.
pub mod Base
pub mod ChunkFiles
pub mod Chunks
pub mod Config
pub mod Congestion
pub mod ConnectionWindow
pub mod Connections
pub mod Files
pub mod Hex
pub mod Peer
pub mod Spiffy
pub mod Tests
pub mod Text
pub mod Tracker
pub mod UserInput
pub mod Wire
