-- ===== src/Fs/Ops.antt =====
-- src/fs/mod.rs: the file system operations as one family, to state of all of them what they share.
pub mod Keeps
pub mod Laws
mod Calls
unfoldable pub use Calls.*
use libuv_rs.Common.{ℕ, List, [], ◌∷◌}
use libuv_rs.FsStat.{stat_of}
use libuv_rs.FsType.{from_inner as fs_type_from_inner}
use libuv_rs.Memory.{Ptr, Callback, Fields}
use libuv_rs.Memory.Effect.{Eff, pure, ◌>>=◌, Env, World, Run, Result, ok, err, status_of}
use libuv_rs.Req.Fs.{FsReq, Uv, dir_for, statfs_for, real_path_for}
use libuv_rs.Fs.{ok_or_einval}
use libuv_rs.Fs.Spec.{with_text}
use libuv_rs.Fs.Finish.{file_result}
use libuv_rs.Fs.Files.{
  fs_close, fs_close_sync, fs_fsync, fs_fsync_sync, fs_fdatasync, fs_fdatasync_sync, fs_ftruncate,
  fs_ftruncate_sync, fs_sendfile, fs_sendfile_sync, fs_fchmod, fs_fchmod_sync, fs_futime,
  fs_futime_sync, fs_closedir, fs_closedir_sync,
}
use libuv_rs.Fs.Paths.{
  fs_unlink, fs_unlink_sync, fs_mkdir, fs_mkdir_sync, fs_mkdtemp, fs_mkdtemp_sync, fs_mkstemp,
  fs_mkstemp_sync, fs_rmdir, fs_rmdir_sync, fs_access, fs_access_sync, fs_chmod, fs_chmod_sync,
  fs_utime, fs_utime_sync, fs_open, fs_open_sync,
}
use libuv_rs.Fs.Owners.{
  fs_chown, fs_chown_sync, fs_fchown, fs_fchown_sync, fs_lchown, fs_lchown_sync,
}
use libuv_rs.Fs.Pairs.{
  fs_rename, fs_rename_sync, fs_copyfile, fs_copyfile_sync, fs_link, fs_link_sync, fs_symlink,
  fs_symlink_sync,
}
use libuv_rs.Fs.Queries.{
  fs_stat, fs_stat_sync, fs_fstat, fs_fstat_sync, fs_lstat, fs_lstat_sync, fs_statfs,
  fs_statfs_sync, fs_readlink, fs_readlink_sync, fs_realpath, fs_realpath_sync, fs_opendir,
  fs_opendir_sync,
}

-- Any text with an inner zero byte is refused.
abbrev pub with_all_texts : {A : Type 0} → List (List ℕ) → World → Run A → Run A
with_all_texts [] w r = r
with_all_texts (s ∷ ss) w r = with_text s w (with_all_texts ss w r)

abbrev pub map_result : {A B : Type 0} → (A → B) → Result A → Result B
map_result k (ok a) = ok (k a)
map_result k (err e) = err e

module _ (env : Env) (libuv : Uv) where
  -- What an operation reads from its finished request.
  unfoldable pub answer : Op → Fields → Result Outcome
  answer (op_close _) g = map_result status (status_of env g.result)
  answer (op_fsync _) g = map_result status (status_of env g.result)
  answer (op_fdatasync _) g = map_result status (status_of env g.result)
  answer (op_ftruncate _ _) g = map_result status (status_of env g.result)
  answer (op_sendfile _ _ _ _) g = map_result status (status_of env g.result)
  answer (op_fchmod _ _) g = map_result status (status_of env g.result)
  answer (op_futime _ _ _) g = map_result status (status_of env g.result)
  answer (op_closedir _) g = map_result status (status_of env g.result)
  answer (op_unlink _) g = map_result status (status_of env g.result)
  answer (op_mkdir _ _) g = map_result status (status_of env g.result)
  answer (op_mkdtemp _) g = map_result text (ok g.path)
  answer (op_mkstemp _) g = map_result status (status_of env g.result)
  answer (op_rmdir _) g = map_result status (status_of env g.result)
  answer (op_access _ _) g = map_result status (status_of env g.result)
  answer (op_chmod _ _) g = map_result status (status_of env g.result)
  answer (op_utime _ _ _) g = map_result status (status_of env g.result)
  answer (op_open _ _ _) g = map_result descriptor (file_result (status_of env g.result))
  answer (op_chown _ _ _) g = map_result status (status_of env g.result)
  answer (op_fchown _ _ _) g = map_result status (status_of env g.result)
  answer (op_lchown _ _ _) g = map_result status (status_of env g.result)
  answer (op_rename _ _) g = map_result status (status_of env g.result)
  answer (op_copyfile _ _ _) g = map_result status (status_of env g.result)
  answer (op_link _ _) g = map_result status (status_of env g.result)
  answer (op_symlink _ _ _) g = map_result status (status_of env g.result)
  answer (op_stat _) g = map_result file_stat (ok (stat_of g.statbuf))
  answer (op_fstat _) g = map_result file_stat (ok (stat_of g.statbuf))
  answer (op_lstat _) g = map_result file_stat (ok (stat_of g.statbuf))
  answer (op_statfs _) g =
      map_result system_stat
        (ok_or_einval (statfs_for env libuv (fs_type_from_inner libuv.fs_type g.type_) g.ptr))
  answer (op_readlink _) g =
      map_result text
        (ok_or_einval (real_path_for env libuv (fs_type_from_inner libuv.fs_type g.type_) g.ptr))
  answer (op_realpath _) g =
      map_result text
        (ok_or_einval (real_path_for env libuv (fs_type_from_inner libuv.fs_type g.type_) g.ptr))
  answer (op_opendir _) g =
      map_result stream (ok_or_einval (dir_for (fs_type_from_inner libuv.fs_type g.type_) g.ptr))

  module _ (lp : Ptr) where
    unfoldable pub start : Op → Callback → Eff FsReq
    start (op_close file) f = fs_close env libuv lp file f
    start (op_fsync file) f = fs_fsync env libuv lp file f
    start (op_fdatasync file) f = fs_fdatasync env libuv lp file f
    start (op_ftruncate file offset) f = fs_ftruncate env libuv lp file offset f
    start (op_sendfile out_file in_file offset len) f =
        fs_sendfile env libuv lp out_file in_file offset len f
    start (op_fchmod file mode) f = fs_fchmod env libuv lp file mode f
    start (op_futime file atime mtime) f = fs_futime env libuv lp file atime mtime f
    start (op_closedir dir) f = fs_closedir env libuv lp dir f
    start (op_unlink path) f = fs_unlink env libuv lp path f
    start (op_mkdir path mode) f = fs_mkdir env libuv lp path mode f
    start (op_mkdtemp tpl) f = fs_mkdtemp env libuv lp tpl f
    start (op_mkstemp tpl) f = fs_mkstemp env libuv lp tpl f
    start (op_rmdir path) f = fs_rmdir env libuv lp path f
    start (op_access path mode) f = fs_access env libuv lp path mode f
    start (op_chmod path mode) f = fs_chmod env libuv lp path mode f
    start (op_utime path atime mtime) f = fs_utime env libuv lp path atime mtime f
    start (op_open path flags mode) f = fs_open env libuv lp path flags mode f
    start (op_chown path uid gid) f = fs_chown env libuv lp path uid gid f
    start (op_fchown file uid gid) f = fs_fchown env libuv lp file uid gid f
    start (op_lchown path uid gid) f = fs_lchown env libuv lp path uid gid f
    start (op_rename path new_path) f = fs_rename env libuv lp path new_path f
    start (op_copyfile path new_path flags) f = fs_copyfile env libuv lp path new_path flags f
    start (op_link path new_path) f = fs_link env libuv lp path new_path f
    start (op_symlink path new_path flags) f = fs_symlink env libuv lp path new_path flags f
    start (op_stat path) f = fs_stat env libuv lp path f
    start (op_fstat file) f = fs_fstat env libuv lp file f
    start (op_lstat path) f = fs_lstat env libuv lp path f
    start (op_statfs path) f = fs_statfs env libuv lp path f
    start (op_readlink path) f = fs_readlink env libuv lp path f
    start (op_realpath path) f = fs_realpath env libuv lp path f
    start (op_opendir path) f = fs_opendir env libuv lp path f

    unfoldable pub run_sync : Op → Eff Outcome
    run_sync (op_close file) = fs_close_sync env libuv lp file >>= λ a. pure (status a)
    run_sync (op_fsync file) = fs_fsync_sync env libuv lp file >>= λ a. pure (status a)
    run_sync (op_fdatasync file) = fs_fdatasync_sync env libuv lp file >>= λ a. pure (status a)
    run_sync (op_ftruncate file offset) =
        fs_ftruncate_sync env libuv lp file offset >>= λ a. pure (status a)
    run_sync (op_sendfile out_file in_file offset len) =
        fs_sendfile_sync env libuv lp out_file in_file offset len >>= λ a. pure (status a)
    run_sync (op_fchmod file mode) = fs_fchmod_sync env libuv lp file mode >>= λ a. pure (status a)
    run_sync (op_futime file atime mtime) =
        fs_futime_sync env libuv lp file atime mtime >>= λ a. pure (status a)
    run_sync (op_closedir dir) = fs_closedir_sync env libuv lp dir >>= λ a. pure (status a)
    run_sync (op_unlink path) = fs_unlink_sync env libuv lp path >>= λ a. pure (status a)
    run_sync (op_mkdir path mode) = fs_mkdir_sync env libuv lp path mode >>= λ a. pure (status a)
    run_sync (op_mkdtemp tpl) = fs_mkdtemp_sync env libuv lp tpl >>= λ a. pure (text a)
    run_sync (op_mkstemp tpl) = fs_mkstemp_sync env libuv lp tpl >>= λ a. pure (status a)
    run_sync (op_rmdir path) = fs_rmdir_sync env libuv lp path >>= λ a. pure (status a)
    run_sync (op_access path mode) = fs_access_sync env libuv lp path mode >>= λ a. pure (status a)
    run_sync (op_chmod path mode) = fs_chmod_sync env libuv lp path mode >>= λ a. pure (status a)
    run_sync (op_utime path atime mtime) =
        fs_utime_sync env libuv lp path atime mtime >>= λ a. pure (status a)
    run_sync (op_open path flags mode) =
        fs_open_sync env libuv lp path flags mode >>= λ a. pure (descriptor a)
    run_sync (op_chown path uid gid) =
        fs_chown_sync env libuv lp path uid gid >>= λ a. pure (status a)
    run_sync (op_fchown file uid gid) =
        fs_fchown_sync env libuv lp file uid gid >>= λ a. pure (status a)
    run_sync (op_lchown path uid gid) =
        fs_lchown_sync env libuv lp path uid gid >>= λ a. pure (status a)
    run_sync (op_rename path new_path) =
        fs_rename_sync env libuv lp path new_path >>= λ a. pure (status a)
    run_sync (op_copyfile path new_path flags) =
        fs_copyfile_sync env libuv lp path new_path flags >>= λ a. pure (status a)
    run_sync (op_link path new_path) =
        fs_link_sync env libuv lp path new_path >>= λ a. pure (status a)
    run_sync (op_symlink path new_path flags) =
        fs_symlink_sync env libuv lp path new_path flags >>= λ a. pure (status a)
    run_sync (op_stat path) = fs_stat_sync env libuv lp path >>= λ a. pure (file_stat a)
    run_sync (op_fstat file) = fs_fstat_sync env libuv lp file >>= λ a. pure (file_stat a)
    run_sync (op_lstat path) = fs_lstat_sync env libuv lp path >>= λ a. pure (file_stat a)
    run_sync (op_statfs path) = fs_statfs_sync env libuv lp path >>= λ a. pure (system_stat a)
    run_sync (op_readlink path) = fs_readlink_sync env libuv lp path >>= λ a. pure (text a)
    run_sync (op_realpath path) = fs_realpath_sync env libuv lp path >>= λ a. pure (text a)
    run_sync (op_opendir path) = fs_opendir_sync env libuv lp path >>= λ a. pure (stream a)
