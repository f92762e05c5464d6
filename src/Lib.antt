-- ===== src/Lib.antt =====
-- A verification library for libcpp-core, a C++ library of operating system wrappers.
--
-- The program's parts are the socket addresses and masks of src/Sock.h and src/Sock.cpp, the
-- streams over file descriptors (src/FD.*, src/FDStream.*, src/StreamBuf.*, src/Pipe.*), the
-- manipulators of src/IOManip.*, the wrappers of processes, signals, the file creation mask and TLS
-- (src/Process.*, src/Signal.*, src/UMask.*, src/SSL.*), the program's name and directories
-- (src/App.*), and the log of src/Log.*, whose `logexc` and `logsxc` throw the exceptions of all the
-- others. NetMask is built on NetAddr; SockAddr and SockFN stand beside them; Sock is built on
-- SockFN, FD and FDStream.
--
-- Which file models which part:
-- - Base: natural numbers, lists and bytes; `ntohl`, `htonl` and `memcmp` on blocks of memory
--   (Base/Memory), and the bits of such blocks, most significant first (Base/Bits).
-- - Log: the exceptions of src/Log.h and src/Log.cpp; a message is its kind. A function that may
--   throw returns `Except`. Log/Device: the stream that is logged to, and how a message is collected,
--   logged and thrown. Action: a method that may throw in the middle and leaves the object as
--   it is then.
-- - Platform: address families, `struct addrinfo`, and the record of the system's functions, which
--   are parameters (`inet_pton`, `inet_ntop`, `getaddrinfo`).
-- - Text: `isspace`, `isdigit`, `strchr`, the printing of decimal numbers.
-- - NetAddr: class NetAddr of src/Sock.h and src/Sock.cpp: the object, and its assignments
--   (NetAddr), its operations on single addresses (NetAddr/Bits), its operators on two addresses
--   (NetAddr/Pairs), what an address stands for (NetAddr/View), and the constructors of NetAddrData
--   (NetAddr/Made).
-- - NetMask: class NetMask: the object and `ScanAddr`, `ScanCIDR`, `ScanName` (NetMask),
--   `operator=` and `reset` (NetMask/Assign), `valid`, `match` and the printing of addresses and
--   masks (NetMask/Match).
-- - IoManip: `get_cstr` and `put_cstr` of src/IOManip.h, on streams that take every character;
--   `get_cint` (IoManip/Cint) over a `num_get` that is a parameter.
-- - SockAddr: class SockAddr: the object and its assignments; the split of a text into a path, or a
--   node and a service, which SockFN shares, and the printing of an address (SockAddr/Text); the
--   constructors of SockAddrData (SockAddr/Made).
-- - SockFn: class SockFN: `AddrLen`, `AddrDomain`, `AddrList`; `Connect` and `Listen` with the
--   descriptors that are open as their state (SockFn/Connect). The system calls on sockets are the
--   record Kernel, a parameter.
-- - StreamBuf: the two buffers of src/StreamBuf.h, with a write outside of the buffer as a result.
-- - Process: src/Process.h and src/Process.cpp on the side of the parent; the replies of `waitpid` are
--   given as a list, on which the loop of `Wait` is structural recursion. Process/Child: what the
--   child does before it runs a program or a function.
-- - App: the three functions of src/App.cpp, what they keep (App_name_ and the others), and
--   App_cleanup.
-- - Scope: src/Signal.* and src/UMask.h: sets of signals, and the objects that change the masks of
--   the process in a scope.
-- - Pipe: struct PFD of src/FD.* and src/Pipe.h, on the descriptors that are open.
-- - Fd: class FD of src/FD.h and src/FD.cpp, on two objects and the descriptors that are open.
-- - BasicSock: how src/Sock.h shuts down the two directions of a socket; its constructors, and which
--   descriptors they open (BasicSock/Made).
-- - Ssl: class SSLH and BasicSSLSock of src/SSL.h and src/SSL.cpp, over the operations of OpenSSL,
--   which are a record with a state of its own: the constructors, the destructor and the moves
--   (Ssl/Handle), the methods on a session (Ssl/Session), `verify` (Ssl/Verify), the socket with its
--   buffers (Ssl/Sock). What the documentation says of OpenSSL are laws that a theorem takes: of
--   references (Ssl/Counts), of answers that ask for more (Ssl/Falls), of the shutdown flags
--   (Ssl/Closed), of the bytes that go through (Ssl/Piped).
-- - Examples: a platform to evaluate with, and the theorems at concrete addresses and texts.
--
-- Conventions. A `uint32_t` in network order is kept as the four bytes of its memory. The two
-- address blocks of the union of `sockaddr_in` and `sockaddr_in6` are kept apart, as they lie at
-- different offsets (4 to 7 and 8 to 23). A character is its byte.
--
-- Fuel: `while_set` runs the loop of `getmsbit` on fuel, 33 for a word and 9 for a byte: the mask
-- bit is 0 after 32 and 8 steps, and the loop then stops; `NetAddr.Bits.Laws.getmsbit_lem` gives
-- the result without a condition on the fuel. `decimal` prints n on fuel n + 1, as each step
-- divides. `connect_loop` calls `connect` again after EINTR on fuel: its theorems ask that one of
-- the first calls, as many as the fuel, is not interrupted, and show that it then returns. The
-- `while (1)` of src/SSL.cpp is `loop` of Ssl/Loop on fuel; `Ssl.Returns.calls-Return` shows that
-- it returns for a library that asks for more only so often, and `drain` takes one step more than
-- the library holds errors. All other loops are structural recursion on bytes, on a list of results or on a list of replies.
--
-- Not modelled: output streams that fail; the text of the lines that the components log;
-- sin6_flowinfo and sin6_scope_id; the values of the bytes that the code leaves as they are in a union whose family is AF_UNSPEC, beyond the two address blocks. `close` and
-- `putback` are taken to succeed where a module says so.
pub mod Base
pub mod Log
pub mod Platform
pub mod Action
pub mod Text
pub mod NetAddr
pub mod NetMask
pub mod SockAddr
pub mod SockFn
pub mod IoManip
pub mod StreamBuf
pub mod Ssl
pub mod Process
pub mod BasicSock
pub mod Fd
pub mod Pipe
pub mod App
pub mod Scope
mod Examples
