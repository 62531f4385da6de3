-- ===== src/Memory/Effect/State.antt =====
-- The states of programs over the memory, with the errors, faults and calls of the user.
use libuv_rs.Common.{ℕ, Option, List}
use libuv_rs.Common.Int.{ℤ}
use libuv_rs.Error.{Error}
use libuv_rs.Memory.{Ptr, CCallback, Heap, UvBuf}
use libuv_rs.FsStat.{Stat}
use libuv_rs.Net.{SocketAddr, AddrInfo}

-- The errors that the crate returns, boxed or not.
pub data Failure : Type 0 where
  uv : Error → Failure
  nul_error parse_error : Failure

-- `crate::Result`, and `std::result::Result` with a boxed error.
pub data Result (A : Type 0) : Type 0 where
  ok : A → Result A
  err : Failure → Result A

-- What undefined behaviour would be, a panic, or a loop that does not end.
pub data Fault : Type 0 where
  null_pointer dangling_pointer wrong_block uninitialised : Fault
  zero_size too_large overlapping out_of_bounds panic endless : Fault

-- What a closure gets beside its request or handle and the status.
pub data Args : Type 0 where
  no_args : Args
  signal_args : (signum : ℤ) → Args
  poll_args : (events : ℕ) → Args
  fs_event_args : (filename : Option (List ℕ)) (events : ℕ) → Args
  fs_poll_args : (prev curr : Stat) → Args
  exit_args : (exit_status : ℤ) (term_signal : ℤ) → Args
  alloc_args : (suggested_size : ℕ) → Args
  read_args : (buf : UvBuf) → Args
  recv_args : (buf : UvBuf) (addr : SocketAddr) (flags : ℕ) → Args
  name_args : (hostname service : List ℕ) → Args
  addr_args : (res : List AddrInfo) → Args
  random_args : (buf : Ptr) (len : ℕ) → Args

-- A call of a closure of the user: which, on which request or handle, with which status.
pub record Call : Type 0 where
  pub closure : ℕ
  pub subject : Ptr
  pub status : Option (Result ℕ)
  pub args : Args

-- `pending` holds what libuv has accepted and has still to report.
pub record World : Type 0 where
  pub heap : Heap
  pub pending : List (Ptr × CCallback)
  pub log : List Call

pub data Run (A : Type 0) : Type 0 where
  done : A → World → Run A
  fails : Failure → World → Run A
  fault : Fault → Run A
