-- ===== src/Memory.antt =====
-- What the crate keeps outside of Rust's ownership: blocks taken from the allocator and from
-- `Box::into_raw`, whose addresses the C structures hold. Reading or freeing an address that does
-- not hold the block asked for is a fault, which stands for the undefined behaviour it would be.
pub mod Apart
pub mod Boxed
pub mod Effect
pub mod Frame
pub mod Laws
use libuv_rs.Common.{ℕ, Bool, Option, none, some, List, [], ◌∷◌, ◌==◌, if◌then◌else◌}
use libuv_rs.Common.Int.{ℤ}
use libuv_rs.FsStat.{UvStat}

abbrev pub Ptr : Type 0
Ptr = ℕ

abbrev pub null : Ptr
null = 0

-- The C structures that the crate allocates, by their Rust layout.
pub data Layout : Type 0 where
  uv_async_t uv_check_t uv_fs_event_t uv_fs_poll_t uv_handle_t uv_idle_t uv_pipe_t : Layout
  uv_poll_t uv_prepare_t uv_process_t uv_signal_t uv_stream_t uv_tcp_t uv_timer_t : Layout
  uv_tty_t uv_udp_t uv_connect_t uv_fs_t uv_getaddrinfo_t uv_getnameinfo_t uv_random_t : Layout
  uv_shutdown_t uv_udp_send_t uv_work_t uv_write_t uv_loop_t : Layout

abbrev pub layout_tag : Layout → ℕ
layout_tag uv_async_t = 0
layout_tag uv_check_t = 1
layout_tag uv_fs_event_t = 2
layout_tag uv_fs_poll_t = 3
layout_tag uv_handle_t = 4
layout_tag uv_idle_t = 5
layout_tag uv_pipe_t = 6
layout_tag uv_poll_t = 7
layout_tag uv_prepare_t = 8
layout_tag uv_process_t = 9
layout_tag uv_signal_t = 10
layout_tag uv_stream_t = 11
layout_tag uv_tcp_t = 12
layout_tag uv_timer_t = 13
layout_tag uv_tty_t = 14
layout_tag uv_udp_t = 15
layout_tag uv_connect_t = 16
layout_tag uv_fs_t = 17
layout_tag uv_getaddrinfo_t = 18
layout_tag uv_getnameinfo_t = 19
layout_tag uv_random_t = 20
layout_tag uv_shutdown_t = 21
layout_tag uv_udp_send_t = 22
layout_tag uv_work_t = 23
layout_tag uv_write_t = 24
layout_tag uv_loop_t = 25

-- A closure of the user, by its identity, or none: what the macro `callbacks!` declares.
-- `scandir_cb` is the closure of the user inside the one that `fs_scandir` makes, which hands it an
-- iterator and drops that.
pub data Callback : Type 0 where
  cb : ℕ → Callback
  scandir_cb : ℕ → Callback
  nil : Callback

-- The C functions that the crate hands to libuv.
pub data CCallback : Type 0 where
  uv_fs_cb uv_write_cb uv_shutdown_cb uv_connect_cb uv_udp_send_cb uv_work_cb : CCallback
  uv_after_work_cb uv_random_cb uv_getaddrinfo_cb uv_getnameinfo_cb uv_close_cb : CCallback
  uv_timer_cb uv_idle_cb uv_prepare_cb uv_check_cb uv_async_cb uv_signal_cb : CCallback
  uv_connection_cb uv_alloc_cb uv_read_cb uv_udp_recv_cb uv_poll_cb uv_fs_event_cb : CCallback
  uv_fs_poll_cb uv_exit_cb : CCallback

-- `uv_buf_t`.
pub record UvBuf : Type 0 where
  pub base : Ptr
  pub len : ℕ

-- The enum `ReqData` and the structs that its variants hold.
pub data ReqData : Type 0 where
  connect_data : (connect_cb : Callback) → ReqData
  fs_data : (fs_cb : Callback) → ReqData
  get_addr_info_data : (cb : Callback) → ReqData
  get_name_info_data : (cb : Callback) → ReqData
  random_data : (random_cb : Callback) → ReqData
  shutdown_data : (shutdown_cb : Callback) → ReqData
  udp_send_data : (bufs_ptr : Ptr) (bufs_len bufs_capacity : ℕ) (udp_send_cb : Callback) → ReqData
  work_data : (work_cb after_work_cb : Callback) → ReqData
  write_data : (bufs_ptr : Ptr) (bufs_len bufs_capacity : ℕ) (write_cb : Callback) → ReqData

-- The enum `AddlStreamData`.
pub data AddlStreamData : Type 0 where
  no_addl_stream_data : AddlStreamData
  udp_data : (recv_cb : Callback) → AddlStreamData

-- The enum `AddlHandleData` and the structs that its variants hold.
pub data AddlHandleData : Type 0 where
  async_data : (async_cb : Callback) → AddlHandleData
  check_data : (check_cb : Callback) → AddlHandleData
  fs_event_data : (fs_event_cb : Callback) → AddlHandleData
  fs_poll_data : (fs_poll_cb : Callback) → AddlHandleData
  idle_data : (idle_cb : Callback) → AddlHandleData
  poll_data : (poll_cb : Callback) → AddlHandleData
  prepare_data : (prepare_cb : Callback) → AddlHandleData
  process_data : (exit_cb : Callback) → AddlHandleData
  signal_data : (signal_cb : Callback) → AddlHandleData
  stream_data : (alloc_cb connection_cb read_cb : Callback) (addl : AddlStreamData) → AddlHandleData
  timer_data : (timer_cb : Callback) → AddlHandleData

-- The struct `HandleData`.
pub record HandleData : Type 0 where
  pub close_cb : Callback
  pub addl : AddlHandleData

-- The fields of a C structure that libuv fills in and the crate reads.
pub record Fields : Type 0 where
  pub type_ : ℤ
  pub result : ℤ
  pub path : List ℕ
  pub ptr : Ptr
  pub host : List ℕ
  pub service : List ℕ
  pub addrinfo : Ptr
  pub statbuf : UvStat

-- `struct addrinfo`, a node of a list; a structure `sockaddr` is the list of its bytes.
pub record UvAddrInfo : Type 0 where
  pub ai_flags : ℤ
  pub ai_family : ℤ
  pub ai_socktype : ℤ
  pub ai_protocol : ℤ
  pub ai_canonname : Option (List ℕ)
  pub ai_addr : Option (List ℕ)
  pub ai_next : Ptr

-- `uv_dirent_t`.
pub record UvDirent : Type 0 where
  pub name : List ℕ
  pub type_ : ℤ

-- `data` is the user pointer of the structure, absent before its first write.
pub record Struct : Type 0 where
  pub data_ptr : Option Ptr
  pub fields : Fields

pub data Block : Type 0 where
  struct : Layout → Struct → Block
  req_data : ReqData → Block
  handle_data : HandleData → Block
  buf_vec : (capacity : ℕ) → List UvBuf → Block
  loop_data : (walk_cb : Option ℕ) → Block
  uv_buf : UvBuf → Block
  -- So many bytes, absent where nothing was written yet.
  byte_array : (size : ℕ) (byte_at : ℕ → Option ℕ) → Block
  c_string : List ℕ → Block
  addr_info : UvAddrInfo → Block
  -- `uv_dir_t`, and the vector of entries that it leads to.
  dir_block : (dirents : Ptr) (nentries : ℕ) → Block
  dirent_vec : (capacity : ℕ) → List UvDirent → Block

-- The live blocks, the newest first.
abbrev pub Heap : Type 0
Heap = List (Ptr × Block)

unfoldable pub lookup : Ptr → Heap → Option Block
lookup p [] = none
lookup p ((q, b) ∷ h) = if q == p then some b else lookup p h

unfoldable pub erase : Ptr → Heap → Heap
erase p [] = []
erase p ((q, b) ∷ h) = if q == p then h else (q, b) ∷ erase p h

unfoldable pub update : Ptr → Block → Heap → Heap
update p b [] = []
update p b ((q, c) ∷ h) = if q == p then (q, b) ∷ h else (q, c) ∷ update p b h
