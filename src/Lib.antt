-- ===== src/Lib.antt =====
-- Emulator NetworkAccess: a protocol over TCP by which tools talk to emulators, with a server in
-- C that an emulator includes. This library models the server and proves what its parts promise.
--
-- The program's parts, and the files that model them:
-- - Protocol: c_includes/emulator_network_access_defines.h, the commands, the kinds of error and
--   the tables of their names. Constructors are the C names in lower case; `core_write` is
--   bCORE_WRITE.
-- - World: what the C code acts on. A call of `write` or of `close` is an event of a trace, in
--   which the callbacks of the embedding program may leave events, too; the state of the emulator
--   is a parameter. A result is a value, a fault (an operation that C leaves undefined, by its
--   kind) or, for a loop, the end of its fuel.
-- - Reply: generic poll server/generic_poll_server.c, the functions that write replies
--   (`__send_hash_reply` is `send_pairs`, a round of its loop `send_pair`). Reply/Sent and
--   Reply/Parse prove what a client reads of them.
-- - Client: generic poll server/generic_poll_server.h, `generic_poll_server_client`. An array
--   with a counter is the list of its bytes in use.
-- - Command: the part of `process_command` that cuts a line; Command/Format has the lines that
--   the protocol defines.
-- - Dispatch: `execute_command`, over the maps of the embedding program, which are the parameter
--   `Emulator`. Dispatch/Names says which function a name calls, Dispatch/Keeps what the
--   functions of the maps keep.
-- - Offset: `generic_poll_server_get_offset`, with what `sscanf` and `atoll` read; Offset/Print
--   has the numbers that a client prints.
-- - MemoryArgument: `generic_poll_server_parse_memory_argument` and `..._free_memory_argument`;
--   Pairs has the lists of ranges that clients send, Free what is freed.
-- - Process: `process_binary_block`, the rest of `process_command`, and what `preprocess_data`
--   does at the end of a block (`end_block`) and of a command (`end_command`).
-- - Framing: `preprocess_data`. Parts has the parts of the loop's body in the order of the code,
--   Loop the body and the loop. Feed describes the framing byte by byte, with no notion of a
--   read. Phases, Body, Stuck, Progress, Advance, BlockFeed, Rounds and Bytewise prove that the
--   loop does what Feed says; Valid, Reads, Overflow, Lines, Blocks, Exchange, CoreWrite, Plain
--   and Hang draw the consequences. Owned is about the client's socket and what the emulator's
--   functions keep.
-- - Clients: the table `clients` with `get_client`, `add_to_clients` and `remove_client`, and the
--   callbacks. Clients/Sockets sees the table as the set of its open sockets; Clients/Valid has
--   its invariant.
-- - Poll: `read_client_data`, and the part of `generic_poll_server_start` that follows a `poll`:
--   `new_client` for a connection, `scan` for the loop over `poll_fds` and `visit` for its body.
--   Poll/Reading and Poll/Scan compare `poll_fds` with the table; Poll/Visits has the visits of the
--   entries one by one, Poll/Entries the client of an entry; Poll/Kept has the number of the slots
--   and what the embedding program's functions keep.
-- - Serve: `generic_poll_server_start` as a whole, and `generic_poll_server_add_callback`. The
--   answers of the operating system are a `Host` before the main loop and a `Turn` for each round
--   of it: `round` is the loop's body, `serve` the loop. Serve/Binding, Serve/Rounds and
--   Serve/Stopping are about the port, the rounds and the stop.
-- - Dummy: dummy/Dummy Emulator/dummy.c, a program that includes the server. Memory has its
--   variables and `hexString`, Commands the functions of the commands, WriteBlock
--   `write_to_memory`, Machine the map, Savestate the reading of the files, Program `main`.
--   Reading and Writing are about reads and writes of a memory, CoreRead and Exchange about those
--   through the server; Sizes and Whole about the files and the sizes of the memories; Control, Status and
--   Silent about the other commands; Loading and Layout about savestates.
-- - Tests: runs, and the theorems at concrete inputs.
--
-- How the parts interact: the server reads at most 2048 bytes of a socket and hands them to
-- `preprocess_data` with the client of that socket. It collects a command up to its newline, or a
-- block up to its size, and calls `execute_command` or the emulator's write function, which may
-- write to the socket. `false` from `preprocess_data` closes the client.
--
-- Bounds and fuel. Bytes are numbers, unsigned; a 32-bit value is written `% 2 ^ 32`. The buffer
-- of `send_pair`, of `size_kv + 3` bytes, is as large as what is printed into it, except where
-- that sum wraps, for strings of nearly 2^32 bytes, which is not modelled. An access outside of
-- an array is a fault, as are a NULL pointer and a read of memory that was never written.
-- `preprocess_data` gives its loop 2 * n + 2 rounds for n bytes: a round reads at least one byte,
-- or closes a block of size 0 and leaves a client that waits for a command, except where a block
-- of size 0 stays open and no number of rounds is enough. `scan` has a round for each entry.
--
-- A `Turn` stands for each round that `poll` lets begin. The loop over the sections of a
-- savestate has one round more than the file has bytes.
--
-- Not modelled: what the operating system does with sockets; debug output, but for the text of
-- `hexString`; failures of `malloc` in the server and the results of `write`, which the code does
-- not look at; the Rust validator (proto-validator). The static variable
-- `generic_poll_server_stop` is an argument of a round, for it is set outside of this code.
-- dummy.c does not define the map `custom_emu_nwa_map`, so it is an argument. `readed_data` and
-- `readed_size` are the argument of `preprocess_data`.
pub mod Prelude
pub mod Protocol
pub mod World
pub mod Reply
pub mod Offset
pub mod MemoryArgument
pub mod Client
pub mod Command
pub mod Dispatch
pub mod Process
pub mod Clients
pub mod Framing
pub mod Poll
pub mod Serve
pub mod Dummy
mod Tests
