-- ===== src/Tests.antt =====
-- A concrete allocator, concrete constants and a concrete libuv, for runs of the code.
pub mod Addresses
pub mod Buffers
pub mod Handles
pub mod Loops
pub mod Processes
pub mod Runs
pub mod Storage
pub mod Streams
pub mod Tables
pub mod Texts
use libuv_rs.Common.{
  ℕ, zero, suc, ◌+◌, ◌<◌, ◌≡◌, ◌≢◌, refl, none, List, [], ◌∷◌, ◌==◌, arith, true, false, Bool-cases,
  inl, inr,
}
use libuv_rs.Common.Int.{ℤ, pos, negsuc}
use libuv_rs.Error.{UvErrno}
use libuv_rs.Error.Places.{place}
use libuv_rs.FsStat.{UvStat, UvStatFs, UvTimeSpec}
use libuv_rs.FsType.{UvFsType}
use libuv_rs.FsType.RoundTrip.{place as type_place}
use libuv_rs.Memory.{Ptr, Heap, Fields, lookup, erase}
use libuv_rs.Memory.Effect.{Env, IsAllocator, World}
use libuv_rs.Req.Fs.{Uv, FsCall}

-- An address above all that are taken.
unfoldable pub next_ptr : Heap → Ptr
next_ptr [] = 100
next_ptr ((p, b) ∷ h) = suc (p + next_ptr h)

lookup-above : (p : Ptr) (h : Heap) → next_ptr h < suc p → lookup p h ≡ none
unfolding lookup next_ptr
lookup-above p [] above = refl
lookup-above p ((q, b) ∷ h) above = ground (arith, lookup-above p h)

lookup-erase_above : (p q : Ptr) (h : Heap) → next_ptr h < suc p → lookup p (erase q h) ≡ none
unfolding lookup next_ptr erase
lookup-erase_above p q [] above = refl
lookup-erase_above p q ((r, b) ∷ h) above = elim (Bool-cases (r == q)) [
  | inl same ↦ rw (same) (lookup-above p h (ground arith))
  | inr other ↦ rw (other) (ground (arith, lookup-erase_above p q h))
]

next_ptr-not_null : (h : Heap) → next_ptr h ≢ 0
unfolding next_ptr
next_ptr-not_null [] = ground arith
next_ptr-not_null ((p, b) ∷ h) = ground arith

abbrev pub epoch : UvTimeSpec
epoch = record { tv_sec = pos 0; tv_nsec = pos 0 }

abbrev pub zero_stat : UvStat
zero_stat = record {
  st_dev = 0;
  st_mode = 0;
  st_nlink = 0;
  st_uid = 0;
  st_gid = 0;
  st_rdev = 0;
  st_ino = 0;
  st_size = 0;
  st_blksize = 0;
  st_blocks = 0;
  st_flags = 0;
  st_gen = 0;
  st_atim = epoch;
  st_mtim = epoch;
  st_ctim = epoch;
  st_birthtim = epoch;
}

abbrev pub blank : Fields
blank = record {
  type_ = pos 0;
  result = pos 5;
  path = [];
  ptr = 0;
  host = [];
  service = [];
  addrinfo = 0;
  statbuf = zero_stat;
}

abbrev pub errno : UvErrno → ℤ
errno c = negsuc (place c)

abbrev pub env : Env
env = record {
  alloc = λ h _. next_ptr h;
  box_new = next_ptr;
  alloc_bytes = λ h _. next_ptr h;
  realloc = λ h _ _. next_ptr h;
  garbage = blank;
  capacity = λ n. n;
  errno = errno;
}

pub env-IsAllocator : IsAllocator env
env-IsAllocator = record {
  alloc_fresh = λ h l _. lookup-above (next_ptr h) h (ground arith);
  box_fresh = λ h. lookup-above (next_ptr h) h (ground arith);
  box_not_null = next_ptr-not_null;
  bytes_fresh = λ h n _. lookup-above (next_ptr h) h (ground arith);
  realloc_fresh = λ h p n _. lookup-erase_above (next_ptr h) p h (ground arith);
  capacity_enough = λ n. ground arith;
}

abbrev pub no_statfs : UvStatFs
no_statfs = record {
  f_type = 0;
  f_bsize = 0;
  f_blocks = 0;
  f_bfree = 0;
  f_bavail = 0;
  f_files = 0;
  f_ffree = 0;
  f_spare = [];
}

-- Accepts every call and leaves the fields as they are.
abbrev pub libuv : Uv
libuv = record {
  uv_fs = λ _ _ _ f. (pos 0, f);
  uv_fs_req_cleanup = λ f. f;
  fs_type = λ t. pos (type_place t);
  c_str_at = λ _. [];
  statfs_at = λ _. no_statfs;
}

abbrev pub empty : World
empty = record { heap = []; pending = []; log = [] }
