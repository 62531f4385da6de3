-- ===== src/Handle/Ops.antt =====
-- src/handles: every kind of handle at once: the constructors, the starters, the calls that only
-- give a code, and the C callbacks, each by the function of its module.

use libuv_rs.Common.{ℕ, Bool, Option, List}
use libuv_rs.Common.Int.{ℤ}
use libuv_rs.FsStat.{UvStat}
use libuv_rs.Memory.{Ptr, Callback, UvBuf}
use libuv_rs.Memory.Effect.{Eff, Env}
use libuv_rs.Handle.{UvHandle}
use libuv_rs.Handle.Timer
use libuv_rs.Handle.Check
use libuv_rs.Handle.Prepare
use libuv_rs.Handle.Idle
use libuv_rs.Handle.Signal
use libuv_rs.Handle.Poll
use libuv_rs.Handle.FsEvent
use libuv_rs.Handle.FsPoll
use libuv_rs.Handle.Async
use libuv_rs.Handle.Tcp
use libuv_rs.Handle.Pipe
use libuv_rs.Handle.Tty
use libuv_rs.Handle.Udp
use libuv_rs.Socket.Address.{UvAddress}
use libuv_rs.Stream.Data

pub data NewOp : Type 0 where
  new_timer new_check new_prepare new_idle new_signal new_fs_event new_fs_poll : NewOp
  new_tcp new_udp : NewOp
  new_poll new_poll_socket new_tty : (fd : ℤ) → NewOp
  new_tcp_ex new_udp_ex : (flags : ℕ) → NewOp
  new_pipe : (ipc : Bool) → NewOp
  new_async : (async_cb : Callback) → NewOp

pub data StartOp : Type 0 where
  start_timer : (timeout repeat : ℕ) (f : Callback) → StartOp
  start_check start_prepare start_idle : (f : Callback) → StartOp
  start_signal start_signal_oneshot : (signum : ℤ) (f : Callback) → StartOp
  start_poll : (events : ℕ) (f : Callback) → StartOp
  start_fs_event : (path : List ℕ) (flags : ℕ) (f : Callback) → StartOp
  start_fs_poll : (path : List ℕ) (interval : ℕ) (f : Callback) → StartOp
  start_listen : (backlog : ℤ) (f : Callback) → StartOp
  start_read start_recv : (alloc_cb f : Callback) → StartOp

pub data CodeOp : Type 0 where
  stop_timer again stop_check stop_prepare stop_idle stop_signal stop_poll : CodeOp
  stop_fs_event stop_fs_poll send_async stop_read stop_recv : CodeOp
  accept : (client : Ptr) → CodeOp
  set_blocking : (blocking : Bool) → CodeOp

-- The reports of libuv, with what it hands to the C callback.
pub data FireOp : Type 0 where
  fire_timer fire_check fire_prepare fire_idle fire_async : FireOp
  fire_signal : (signum : ℤ) → FireOp
  fire_poll : (status : ℤ) (events : ℕ) → FireOp
  fire_fs_event : (filename : Option (List ℕ)) (events : ℕ) (status : ℤ) → FireOp
  fire_fs_poll : (status : ℤ) (prev curr : UvStat) → FireOp
  fire_connection : (status : ℤ) → FireOp
  fire_read : (nread : ℤ) (buf : UvBuf) → FireOp
  fire_recv : (nread : ℤ) (buf : UvBuf) (addr : Option (List ℕ)) (flags : ℕ) → FireOp

module _ (libuv : UvHandle) (env : Env) (lp : Ptr) where
  unfoldable pub make : NewOp → Eff Ptr
  make new_timer = Timer.new libuv env lp
  make new_check = Check.new libuv env lp
  make new_prepare = Prepare.new libuv env lp
  make new_idle = Idle.new libuv env lp
  make new_signal = Signal.new libuv env lp
  make new_fs_event = FsEvent.new libuv env lp
  make new_fs_poll = FsPoll.new libuv env lp
  make new_tcp = Tcp.new libuv env lp
  make new_udp = Udp.new libuv env lp
  make (new_poll fd) = Poll.new libuv env lp fd
  make (new_poll_socket fd) = Poll.new_socket libuv env lp fd
  make (new_tty fd) = Tty.new libuv env lp fd
  make (new_tcp_ex flags) = Tcp.new_ex libuv env lp flags
  make (new_udp_ex flags) = Udp.new_ex libuv env lp flags
  make (new_pipe ipc) = Pipe.new libuv env lp ipc
  make (new_async f) = Async.new libuv env lp f

module _ (libuv : UvHandle) (env : Env) where
  unfoldable pub start : StartOp → Ptr → Eff (Unit {0})
  start (start_timer timeout repeat f) p = Timer.start libuv env p timeout repeat f
  start (start_check f) p = Check.start libuv env p f
  start (start_prepare f) p = Prepare.start libuv env p f
  start (start_idle f) p = Idle.start libuv env p f
  start (start_signal signum f) p = Signal.start libuv env p signum f
  start (start_signal_oneshot signum f) p = Signal.start_oneshot libuv env p signum f
  start (start_poll events f) p = Poll.start libuv env p events f
  start (start_fs_event path flags f) p = FsEvent.start libuv env p path flags f
  start (start_fs_poll path interval f) p = FsPoll.start libuv env p path interval f
  start (start_listen backlog f) p = Data.listen libuv env p backlog f
  start (start_read a f) p = Data.read_start libuv env p a f
  start (start_recv a f) p = Udp.recv_start libuv env p a f

  unfoldable pub control : CodeOp → Ptr → Eff (Unit {0})
  control stop_timer p = Timer.stop libuv env p
  control again p = Timer.again libuv env p
  control stop_check p = Check.stop libuv env p
  control stop_prepare p = Prepare.stop libuv env p
  control stop_idle p = Idle.stop libuv env p
  control stop_signal p = Signal.stop libuv env p
  control stop_poll p = Poll.stop libuv env p
  control stop_fs_event p = FsEvent.stop libuv env p
  control stop_fs_poll p = FsPoll.stop libuv env p
  control send_async p = Async.send libuv env p
  control stop_read p = Data.read_stop libuv env p
  control stop_recv p = Udp.recv_stop libuv env p
  control (accept client) p = Data.accept libuv env p client
  control (set_blocking b) p = Data.set_blocking libuv env p b

-- `all_flags` are the bits of the flag sets that have a name: of poll events, file system events
-- and datagram flags.
module _ (env : Env) (all_poll all_fs_event all_udp : ℕ) (address : UvAddress) where
  unfoldable pub fire : FireOp → Ptr → Eff (Unit {0})
  fire fire_timer p = Timer.uv_timer_cb p
  fire fire_check p = Check.uv_check_cb p
  fire fire_prepare p = Prepare.uv_prepare_cb p
  fire fire_idle p = Idle.uv_idle_cb p
  fire fire_async p = Async.uv_async_cb p
  fire (fire_signal signum) p = Signal.uv_signal_cb p signum
  fire (fire_poll status events) p = Poll.uv_poll_cb env all_poll p status events
  fire (fire_fs_event filename events status) p =
      FsEvent.uv_fs_event_cb env all_fs_event p filename events status
  fire (fire_fs_poll status prev curr) p = FsPoll.uv_fs_poll_cb env p status prev curr
  fire (fire_connection status) p = Data.uv_connection_cb env p status
  fire (fire_read nread buf) p = Data.uv_read_cb env p nread buf
  fire (fire_recv nread buf addr flags) p =
      Udp.uv_udp_recv_cb env address all_udp p nread buf addr flags
