-- ===== src/Req/Fs.antt =====
-- src/requests/fs.rs: file system requests.
pub mod Laws
use libuv_rs.Common.{ℕ, List, not, Option, none, some, ◌==◌, if◌then◌else◌}
use libuv_rs.Common.Int.{ℤ, is_neg, to_nat}
use libuv_rs.Memory.{
  Ptr, null, uv_fs_t, Callback, CCallback, scandir_cb, ReqData, fs_data, Fields, Struct, struct,
}
use libuv_rs.Memory.Effect.{
  Eff, pure, ◌>>=◌, ◌>>◌, when, Env, load_struct, store, std_dealloc, uvret, call,
}
use libuv_rs.FsStat.{UvStatFs, StatFs, Stat, stat_of, stat_fs_of}
use libuv_rs.FsType.{FsType, UvFsType, from_inner as fs_type_from_inner}
use libuv_rs.Req.{new_request, get_data, load_data, free_data}

pub record FsReq : Type 0 where
  pub req : Ptr

-- The file system calls of libuv, one constructor for each `uv_fs_*` function with the arguments
-- that the crate hands on. The times are the bits of an `f64`.
pub data FsCall : Type 0 where
  uv_fs_close : (file : ℤ) → FsCall
  uv_fs_open : (path : List ℕ) (flags : ℤ) (mode : ℤ) → FsCall
  uv_fs_read : (file : ℤ) (bufs_ptr : Ptr) (bufs_len : ℕ) (offset : ℤ) → FsCall
  uv_fs_unlink : (path : List ℕ) → FsCall
  uv_fs_write : (file : ℤ) (bufs_ptr : Ptr) (bufs_len : ℕ) (offset : ℤ) → FsCall
  uv_fs_mkdir : (path : List ℕ) (mode : ℤ) → FsCall
  uv_fs_mkdtemp : (tpl : List ℕ) → FsCall
  uv_fs_mkstemp : (tpl : List ℕ) → FsCall
  uv_fs_rmdir : (path : List ℕ) → FsCall
  uv_fs_opendir : (path : List ℕ) → FsCall
  uv_fs_closedir : (dir : Ptr) → FsCall
  uv_fs_readdir : (dir : Ptr) → FsCall
  uv_fs_scandir : (path : List ℕ) (flags : ℤ) → FsCall
  uv_fs_stat : (path : List ℕ) → FsCall
  uv_fs_fstat : (file : ℤ) → FsCall
  uv_fs_lstat : (path : List ℕ) → FsCall
  uv_fs_statfs : (path : List ℕ) → FsCall
  uv_fs_rename : (path : List ℕ) (new_path : List ℕ) → FsCall
  uv_fs_fsync : (file : ℤ) → FsCall
  uv_fs_fdatasync : (file : ℤ) → FsCall
  uv_fs_ftruncate : (file : ℤ) (offset : ℤ) → FsCall
  uv_fs_copyfile : (path : List ℕ) (new_path : List ℕ) (flags : ℤ) → FsCall
  uv_fs_sendfile : (out_file : ℤ) (in_file : ℤ) (offset : ℤ) (len : ℕ) → FsCall
  uv_fs_access : (path : List ℕ) (mode : ℤ) → FsCall
  uv_fs_chmod : (path : List ℕ) (mode : ℤ) → FsCall
  uv_fs_fchmod : (file : ℤ) (mode : ℤ) → FsCall
  uv_fs_utime : (path : List ℕ) (atime : ℕ) (mtime : ℕ) → FsCall
  uv_fs_futime : (file : ℤ) (atime : ℕ) (mtime : ℕ) → FsCall
  uv_fs_link : (path : List ℕ) (new_path : List ℕ) → FsCall
  uv_fs_symlink : (path : List ℕ) (new_path : List ℕ) (flags : ℤ) → FsCall
  uv_fs_readlink : (path : List ℕ) → FsCall
  uv_fs_realpath : (path : List ℕ) → FsCall
  uv_fs_chown : (path : List ℕ) (uid : ℕ) (gid : ℕ) → FsCall
  uv_fs_fchown : (file : ℤ) (uid : ℕ) (gid : ℕ) → FsCall
  uv_fs_lchown : (path : List ℕ) (uid : ℕ) (gid : ℕ) → FsCall

-- The part of libuv that these functions call. `uv_fs` is the return code of a call, given the loop,
-- the callback and the request's fields, with the fields that it leaves; `uv_fs_req_cleanup` frees
-- what libuv stored in the request; the last three are the enumeration of request types, and what
-- a result pointer leads to.
pub record Uv : Type 0 where
  pub uv_fs : Ptr → FsCall → Option CCallback → Fields → ℤ × Fields
  pub uv_fs_req_cleanup : Fields → Fields
  pub fs_type : UvFsType → ℤ
  pub c_str_at : Ptr → List ℕ
  pub statfs_at : Ptr → UvStatFs

-- `src/fs/dir.rs`: a directory stream. The crate's copy of its length starts at zero.
pub record Dir : Type 0 where
  pub dir : Ptr
  pub len : ℕ
  pub capacity : ℕ

abbrev pub dir_of : Ptr → Dir
dir_of p = record { dir = p; len = 0; capacity = 0 }

abbrev pub dir_for : FsType → Ptr → Option Dir
dir_for FsType.opendir p = some (dir_of p)
dir_for FsType.readdir p = some (dir_of p)
dir_for _ p = none

module _ (env : Env) (libuv : Uv) where
  open libuv use {uv_fs_req_cleanup}

  unfoldable pub new : Callback → Eff FsReq
  unfolding new_request
  new fs_cb = do req ← new_request env uv_fs_t (fs_data fs_cb); pure (record { req = req })

  unfoldable pub cleanup : Ptr → Eff (Unit {0})
  unfolding load_struct store
  cleanup p = do
    (l, s) ← load_struct p
    store p (struct l (record s { fields = uv_fs_req_cleanup s.fields }))

  -- The request forgets its address, so that a second call does nothing.
  unfoldable pub destroy : FsReq → Eff FsReq
  unfolding free_data cleanup std_dealloc
  destroy r = if r.req == null then pure r else do
    free_data r.req
    cleanup r.req
    std_dealloc r.req uv_fs_t
    pure (record { req = null })

  unfoldable pub result : FsReq → Eff ℕ
  unfolding load_struct uvret
  result r = do (_, s) ← load_struct r.req; uvret env s.fields.result; pure (to_nat s.fields.result)

  unfoldable pub fields_of : FsReq → Eff Fields
  unfolding load_struct
  fields_of r = do (_, s) ← load_struct r.req; pure s.fields

  unfoldable pub request_type : FsReq → Eff FsType
  unfolding fields_of fs_type_from_inner
  request_type r = do f ← fields_of r; pure (fs_type_from_inner libuv.fs_type f.type_)

  unfoldable pub dir : FsReq → Eff (Option Dir)
  unfolding request_type
  dir r = do t ← request_type r; f ← fields_of r; pure (dir_for t f.ptr)

  abbrev pub statfs_for : FsType → Ptr → Option StatFs
  unfolding stat_fs_of
  statfs_for FsType.statfs p = some (stat_fs_of (libuv.statfs_at p))
  statfs_for _ p = none

  unfoldable pub statfs : FsReq → Eff (Option StatFs)
  unfolding request_type statfs_for
  statfs r = do t ← request_type r; f ← fields_of r; pure (statfs_for t f.ptr)

  abbrev pub real_path_for : FsType → Ptr → Option (List ℕ)
  real_path_for FsType.readlink p = some (libuv.c_str_at p)
  real_path_for FsType.realpath p = some (libuv.c_str_at p)
  real_path_for _ p = none

  unfoldable pub real_path : FsReq → Eff (Option (List ℕ))
  unfolding request_type
  real_path r = do t ← request_type r; f ← fields_of r; pure (real_path_for t f.ptr)

  unfoldable pub path : FsReq → Eff (List ℕ)
  unfolding fields_of
  path r = do f ← fields_of r; pure f.path

  unfoldable pub stat : FsReq → Eff Stat
  unfolding fields_of stat_of
  stat r = do f ← fields_of r; pure (stat_of f.statbuf)

  -- The closure that `fs_scandir` makes drops its iterator, which destroys the request.
  unfoldable pub call_fs_cb : Callback → Ptr → Eff (Unit {0})
  unfolding call destroy
  call_fs_cb (scandir_cb f) req = do
    call (scandir_cb f) req none
    destroy (record { req = req })
    pure tt
  call_fs_cb f req = call f req none

  abbrev pub run_fs_data : ReqData → Ptr → Eff (Unit {0})
  unfolding call_fs_cb
  run_fs_data (fs_data fs_cb) req = call_fs_cb fs_cb req
  run_fs_data _ req = pure tt

  -- The C callback of every asynchronous file system call.
  unfoldable pub uv_fs_cb : Ptr → Eff (Unit {0})
  unfolding get_data load_data run_fs_data destroy
  uv_fs_cb req = do
    dataptr ← get_data req
    when (not (dataptr == null)) do d ← load_data dataptr; run_fs_data d req
    destroy (record { req = req })
    pure tt
