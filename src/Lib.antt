-- ===== src/Lib.antt =====
-- A verification library for libuv-rs, the Rust interface to libuv.
--
-- The crate wraps each C structure of libuv in a small type that holds a raw pointer. A request is
-- allocated with the allocator, given a boxed `ReqData` through its user pointer, handed to libuv,
-- and destroyed by a C callback once libuv reports it, or at once where libuv refuses it or the
-- call is synchronous. This library models that life over an explicit heap.
--
--   * Error, HandleType, ReqType, DirentType, FsType: the enumerations of src/error.inc.rs,
--     src/handles/handle_types.inc.rs, src/requests/req_types.inc.rs, src/fs/dirent_types.inc.rs
--     and src/fs/fs_types.inc.rs. The numbers of the constants come from the bindings and are a
--     parameter; each match is a list of arms, tried in order.
--   * FsStat: `Stat`, `TimeSpec` and `StatFs` (src/fs/stat.rs, src/fs/timespec.rs, src/fs/statfs.rs).
--   * Memory: pointers, blocks and the heap; Memory/Effect: programs over it, which end with a
--     value, an error or a fault (a null or dangling pointer, a block of the wrong kind, a pointer
--     that was never written), with `uvret` of src/lib.rs and the callbacks of the macros.
--     Memory/Boxed, Memory/Frame and Memory/Apart: a C structure with the box that its user pointer
--     leads to, beside other blocks and other structures.
--   * Req: `Req` (src/requests/req.rs), and the allocation that all requests share; Req/Owned: what
--     a live request owns.
--   * Req/Fs: `FsReq` and `uv_fs_cb` (src/requests/fs.rs).
--   * Buf: the ranges of src/buf.rs. Buf/Storage: `Buf` and `ReadonlyBuf` with their memory, of the
--     same file; Buf/Owned, Buf/Make and Buf/Change: live buffers, making them, changing them.
--     BufVec: the array of `uv_buf_t`, also of src/buf.rs.
--   * Texts: the texts that libuv writes into a buffer of the caller, with `getpath` of
--     src/handles/fs_event.rs and src/handles/fs_poll.rs. CStrings: the C strings of src/handles/process.rs.
--   * Fs and its children: the operations of src/fs/mod.rs. `_fs_close` is `do_fs_close`, and so
--     on: Files, Paths, Owners, Pairs and Queries have the operations that take descriptors and
--     paths, Bufs reading and writing, Scandir and ReadDir the directory listings. Fs/Ops names
--     thirty-one of them as one family, Fs/Spec says what they promise, and Fs/Traces runs them
--     with the reports of libuv in any order, over the invariant of Fs/Live. Fs/DirEntries is the
--     vector of entries of src/fs/dir.rs, and Fs/Cwd the directory and the executable of src/fs/misc.rs.
--   * Req/Write and Req/UdpSend: `WriteReq` and `UdpSendReq` (src/requests/write.rs and
--     src/requests/udp_send.rs), which also own the array of buffers. Req/Shutdown, Req/Connect and
--     Req/Work: the requests of src/requests/shutdown.rs, src/requests/connect.rs and
--     src/requests/work.rs, the last with `queue_work`.
--   * Req/GetNameInfo: the names of an address, src/requests/getnameinfo.rs. Req/Random: random
--     bytes, src/requests/random.rs; the bytes stay in the heap when a closure is given their Vec.
--     Req/GetAddrInfo: the addresses of a name, src/requests/getaddrinfo.rs.
--   * Net: the types of addresses; Net/AddrInfos: the lists of src/net/addrinfo.rs; Net/Interfaces:
--     the interfaces of src/net/misc.rs.
--   * Handle: `Handle` (src/handles/handle.rs) with its data box, `close` and `uv_close_cb`, and the
--     bodies that the constructors, the starters and the C callbacks of all kinds share. Its
--     children Timer, Check, Prepare, Idle, Signal, Poll, FsEvent, FsPoll and Async are the files of
--     those names in src/handles, and Tcp, Pipe, Tty and Udp those in src/handles/streams.
--     Handle/Process is src/handles/process.rs, with Spawn, Make and Exit beside it.
--     Handle/Conversion is `try_from`. Handle/Ops names the operations of all kinds as four
--     families, Handle/Spec says what they promise, and Handle/Makes, Handle/Starts and
--     Handle/Fires that they do. Handle/Live is the memory that a table of handles describes,
--     Handle/Steps each operation on it, Handle/Traces programs as sequences of steps, and
--     Handle/Reached what holds in the states that they reach.
--   * Stream: `shutdown`, `write`, `write2` and `try_write` of src/handles/streams/stream.rs;
--     Stream/Data: the data of a stream, listening and reading; Stream/Alloc: `uv_alloc_cb`.
--   * Loop: src/loop.rs, with its data box, its ownership (Loop/Laws) and `walk` (Loop/Walks).
--   * Misc: the process title and some queries of src/misc/mod.rs; Misc/Os: the users, priorities
--     and the system of src/misc/os.rs, and the resources of src/misc/mod.rs.
--   * Enumerations: the four enumerations of handles, requests and files, together.
--   * Socket: `fill_sockaddr` of src/inner.rs, and connecting and sending in
--     src/handles/streams/tcp.rs, src/handles/streams/pipe.rs and src/handles/streams/udp.rs.
--     Socket/Address reads an address back and gives the names of both ends, Socket/Options binds
--     and sets options, Socket/TrySend sends at once, all in these files.
--   * Tests: a concrete allocator and libuv, with runs of the code on them.
--
-- libuv is a parameter: `Uv` gives the code that each call returns and the fields that it leaves,
-- `UvStream` and `UvSocket` the codes of the calls on streams and sockets, `UvHandle`, `UvLoop` and
-- `UvMisc` those on handles and loops and of the queries, which may depend on all that happened.
-- A program on handles is a sequence of steps: it makes, starts and closes handles, and libuv
-- reports any open handle, or one that it owes the closing of. That an open handle is closed once,
-- and that a closure does not itself close its handle, is how the steps are chosen.
-- The allocator is a parameter with the hypothesis `IsAllocator`: an address that it returns is not
-- in use. A closure of the user is a number; that it is called is recorded in a log, and what it
-- does besides is not modelled. Texts are lists of character codes. Bounds of ranges wrap at
-- 2 ^ 64.
-- The loops that read the process title and the path of the executable have fuel, and Misc/Title
-- and Fs/Cwd/Laws say how much is enough; the walk over a list of addresses has one more than
-- there are live blocks, since a longer list comes back to one of them. The other loops are over lists.
-- Making, initialising and deleting an event loop are programs of libuv's own over the memory. A
-- structure that is written through a pointer is checked against the room that the pointer has.
-- An error code of libuv fits into 32 bits, so that the casts of codes to uv_errno_t are left out.
-- What libuv documents of its texts, of its lists and of a sockaddr is a hypothesis with a name.
--
-- Not modelled: the generated bindings, libuv itself, and the parts of the crate that only pass
-- a call on: the getters of handles and requests, the modes of terminals, the sizes of queues, the
-- pending handles of pipes, shared libraries and the version. `setup_args`, the conversions of
-- buffers to texts and the constants of the flags are left out, too. What a closure does to the
-- handles and buffers that it is given is the user's.
pub mod Buf
pub mod BufVec
pub mod CStrings
pub mod Common
pub mod DirentType
pub mod Enumerations
pub mod Error
pub mod Fs
pub mod FsStat
pub mod FsType
pub mod Handle
pub mod HandleType
pub mod Loop
pub mod Memory
pub mod Misc
pub mod Net
pub mod Req
pub mod ReqType
pub mod Socket
pub mod Stream
pub mod Tests
pub mod Texts
