-- ===== src/Handle/Spec/Fire.antt =====
-- src/handles: whom a report of libuv calls and with what, for every kind of handle.
use libuv_rs.Common.{ℕ, Bool, true, false, Option, none, some, List}
use Prim.Native.Nat.{bit_and}
use libuv_rs.FsStat.{stat_of}
use libuv_rs.Memory.{
  Ptr, UvBuf, Callback, cb, scandir_cb, nil, AddlHandleData, stream_data, udp_data,
}
use libuv_rs.Memory.Effect.{Env, Call, Result, Args, status_of, note_args}
use libuv_rs.Net.{SocketAddr}
use libuv_rs.Net.AddrInfos.Laws.{addr_of}
use libuv_rs.Socket.Address.{UvAddress}
use libuv_rs.Handle.Ops.{
  FireOp, fire_timer, fire_check, fire_prepare, fire_idle, fire_async, fire_signal, fire_poll,
  fire_fs_event, fire_fs_poll, fire_connection, fire_read, fire_recv,
}

-- A report of a datagram without an address to a UDP handle: the null pointer is followed.
abbrev pub unaddressed : FireOp → AddlHandleData → Bool
unaddressed (fire_recv _ _ none _) (stream_data a c r (udp_data f)) = true
unaddressed _ _ = false

-- The closure for datagrams is called if the address of the sender can be read.
abbrev pub heard : Callback → Option SocketAddr → Callback
heard f (some addr) = f
heard f none = nil

abbrev pub recv_from : UvBuf → Option SocketAddr → ℕ → Args
recv_from buf (some addr) flags = Args.recv_args buf addr flags
recv_from buf none flags = Args.no_args

-- The calls of the user, with one more in front if there is a closure.
abbrev pub noted_args : Callback → Ptr → Option (Result ℕ) → Args → List Call → List Call
noted_args (cb n) p st a log = note_args n p st a log
noted_args (scandir_cb n) p st a log = note_args n p st a log
noted_args nil p st a log = log

module _ (env : Env) (all_poll all_fs_event all_udp : ℕ) (address : UvAddress) where
  -- Whom a report calls, by the data of the handle.
  abbrev pub called : FireOp → AddlHandleData → Callback
  called fire_timer (AddlHandleData.timer_data f) = f
  called fire_check (AddlHandleData.check_data f) = f
  called fire_prepare (AddlHandleData.prepare_data f) = f
  called fire_idle (AddlHandleData.idle_data f) = f
  called fire_async (AddlHandleData.async_data f) = f
  called (fire_signal _) (AddlHandleData.signal_data f) = f
  called (fire_poll _ _) (AddlHandleData.poll_data f) = f
  called (fire_fs_event _ _ _) (AddlHandleData.fs_event_data f) = f
  called (fire_fs_poll _ _ _) (AddlHandleData.fs_poll_data f) = f
  called (fire_connection _) (stream_data a c r x) = c
  called (fire_read _ _) (stream_data a c r x) = r
  called (fire_recv _ _ addr _) (stream_data a c r (udp_data f)) =
      heard f (addr_of env address addr)
  called _ _ = nil

  abbrev pub status_of_fire : FireOp → Option (Result ℕ)
  status_of_fire (fire_poll status _) = some (status_of env status)
  status_of_fire (fire_fs_event _ _ status) = some (status_of env status)
  status_of_fire (fire_fs_poll status _ _) = some (status_of env status)
  status_of_fire (fire_connection status) = some (status_of env status)
  status_of_fire (fire_read nread _) = some (status_of env nread)
  status_of_fire (fire_recv nread _ _ _) = some (status_of env nread)
  status_of_fire _ = none

  abbrev pub args_of_fire : FireOp → Args
  args_of_fire (fire_signal signum) = Args.signal_args signum
  args_of_fire (fire_poll _ events) = Args.poll_args (bit_and events all_poll)
  args_of_fire (fire_fs_event filename events _) =
      Args.fs_event_args filename (bit_and events all_fs_event)
  args_of_fire (fire_fs_poll _ prev curr) = Args.fs_poll_args (stat_of prev) (stat_of curr)
  args_of_fire (fire_read _ buf) = Args.read_args buf
  args_of_fire (fire_recv _ buf addr flags) =
      recv_from buf (addr_of env address addr) (bit_and flags all_udp)
  args_of_fire _ = Args.no_args
