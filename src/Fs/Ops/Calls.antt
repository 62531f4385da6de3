-- ===== src/Fs/Ops/Calls.antt =====
-- src/fs/mod.rs: the file system operations as a type, with the texts and the call of libuv of each.
use libuv_rs.Common.{ℕ, List, [], ◌∷◌}
use libuv_rs.Common.Int.{ℤ}
use libuv_rs.FsStat.{Stat, StatFs}
use libuv_rs.Memory.{Ptr}
use libuv_rs.Req.Fs.{FsCall, Dir}

-- An operation with its arguments.
pub data Op : Type 0 where
  op_close : (file : ℤ) → Op
  op_fsync : (file : ℤ) → Op
  op_fdatasync : (file : ℤ) → Op
  op_ftruncate : (file : ℤ) → (offset : ℤ) → Op
  op_sendfile : (out_file : ℤ) → (in_file : ℤ) → (offset : ℤ) → (len : ℕ) → Op
  op_fchmod : (file : ℤ) → (mode : ℤ) → Op
  op_futime : (file : ℤ) → (atime : ℕ) → (mtime : ℕ) → Op
  op_closedir : (dir : Ptr) → Op
  op_unlink : (path : List ℕ) → Op
  op_mkdir : (path : List ℕ) → (mode : ℤ) → Op
  op_mkdtemp : (tpl : List ℕ) → Op
  op_mkstemp : (tpl : List ℕ) → Op
  op_rmdir : (path : List ℕ) → Op
  op_access : (path : List ℕ) → (mode : ℤ) → Op
  op_chmod : (path : List ℕ) → (mode : ℤ) → Op
  op_utime : (path : List ℕ) → (atime : ℕ) → (mtime : ℕ) → Op
  op_open : (path : List ℕ) → (flags : ℤ) → (mode : ℤ) → Op
  op_chown : (path : List ℕ) → (uid : ℕ) → (gid : ℕ) → Op
  op_fchown : (file : ℤ) → (uid : ℕ) → (gid : ℕ) → Op
  op_lchown : (path : List ℕ) → (uid : ℕ) → (gid : ℕ) → Op
  op_rename : (path : List ℕ) → (new_path : List ℕ) → Op
  op_copyfile : (path : List ℕ) → (new_path : List ℕ) → (flags : ℤ) → Op
  op_link : (path : List ℕ) → (new_path : List ℕ) → Op
  op_symlink : (path : List ℕ) → (new_path : List ℕ) → (flags : ℤ) → Op
  op_stat : (path : List ℕ) → Op
  op_fstat : (file : ℤ) → Op
  op_lstat : (path : List ℕ) → Op
  op_statfs : (path : List ℕ) → Op
  op_readlink : (path : List ℕ) → Op
  op_realpath : (path : List ℕ) → Op
  op_opendir : (path : List ℕ) → Op

-- What the synchronous operations return.
pub data Outcome : Type 0 where
  status : ℕ → Outcome
  descriptor : ℤ → Outcome
  text : List ℕ → Outcome
  file_stat : Stat → Outcome
  stream : Dir → Outcome
  system_stat : StatFs → Outcome

-- The paths among the arguments, in the order in which they are checked.
unfoldable pub texts : Op → List (List ℕ)
texts (op_close _) = []
texts (op_fsync _) = []
texts (op_fdatasync _) = []
texts (op_ftruncate _ _) = []
texts (op_sendfile _ _ _ _) = []
texts (op_fchmod _ _) = []
texts (op_futime _ _ _) = []
texts (op_closedir _) = []
texts (op_unlink path) = path ∷ []
texts (op_mkdir path _) = path ∷ []
texts (op_mkdtemp tpl) = tpl ∷ []
texts (op_mkstemp tpl) = tpl ∷ []
texts (op_rmdir path) = path ∷ []
texts (op_access path _) = path ∷ []
texts (op_chmod path _) = path ∷ []
texts (op_utime path _ _) = path ∷ []
texts (op_open path _ _) = path ∷ []
texts (op_chown path _ _) = path ∷ []
texts (op_fchown _ _ _) = []
texts (op_lchown path _ _) = path ∷ []
texts (op_rename path new_path) = path ∷ new_path ∷ []
texts (op_copyfile path new_path _) = path ∷ new_path ∷ []
texts (op_link path new_path) = path ∷ new_path ∷ []
texts (op_symlink path new_path _) = path ∷ new_path ∷ []
texts (op_stat path) = path ∷ []
texts (op_fstat _) = []
texts (op_lstat path) = path ∷ []
texts (op_statfs path) = path ∷ []
texts (op_readlink path) = path ∷ []
texts (op_realpath path) = path ∷ []
texts (op_opendir path) = path ∷ []

-- The call of libuv that an operation stands for.
unfoldable pub call_of : Op → FsCall
call_of (op_close file) = FsCall.uv_fs_close file
call_of (op_fsync file) = FsCall.uv_fs_fsync file
call_of (op_fdatasync file) = FsCall.uv_fs_fdatasync file
call_of (op_ftruncate file offset) = FsCall.uv_fs_ftruncate file offset
call_of (op_sendfile out_file in_file offset len) =
    FsCall.uv_fs_sendfile out_file in_file offset len
call_of (op_fchmod file mode) = FsCall.uv_fs_fchmod file mode
call_of (op_futime file atime mtime) = FsCall.uv_fs_futime file atime mtime
call_of (op_closedir dir) = FsCall.uv_fs_closedir dir
call_of (op_unlink path) = FsCall.uv_fs_unlink path
call_of (op_mkdir path mode) = FsCall.uv_fs_mkdir path mode
call_of (op_mkdtemp tpl) = FsCall.uv_fs_mkdtemp tpl
call_of (op_mkstemp tpl) = FsCall.uv_fs_mkstemp tpl
call_of (op_rmdir path) = FsCall.uv_fs_rmdir path
call_of (op_access path mode) = FsCall.uv_fs_access path mode
call_of (op_chmod path mode) = FsCall.uv_fs_chmod path mode
call_of (op_utime path atime mtime) = FsCall.uv_fs_utime path atime mtime
call_of (op_open path flags mode) = FsCall.uv_fs_open path flags mode
call_of (op_chown path uid gid) = FsCall.uv_fs_chown path uid gid
call_of (op_fchown file uid gid) = FsCall.uv_fs_fchown file uid gid
call_of (op_lchown path uid gid) = FsCall.uv_fs_lchown path uid gid
call_of (op_rename path new_path) = FsCall.uv_fs_rename path new_path
call_of (op_copyfile path new_path flags) = FsCall.uv_fs_copyfile path new_path flags
call_of (op_link path new_path) = FsCall.uv_fs_link path new_path
call_of (op_symlink path new_path flags) = FsCall.uv_fs_symlink path new_path flags
call_of (op_stat path) = FsCall.uv_fs_stat path
call_of (op_fstat file) = FsCall.uv_fs_fstat file
call_of (op_lstat path) = FsCall.uv_fs_lstat path
call_of (op_statfs path) = FsCall.uv_fs_statfs path
call_of (op_readlink path) = FsCall.uv_fs_readlink path
call_of (op_realpath path) = FsCall.uv_fs_realpath path
call_of (op_opendir path) = FsCall.uv_fs_opendir path
