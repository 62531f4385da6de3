-- ===== src/Fs/Ops/Laws.antt =====
-- src/fs/mod.rs: what all these operations share.
use libuv_rs.Common.{◌≡◌, refl, inl, inr, Bool-cases, ℕ, List, [], ◌∷◌, ◌==◌}
use libuv_rs.Common.Int.{is_neg}
use libuv_rs.Memory.{Ptr, null, Callback, nil, Fields, uv_fs_t}
use libuv_rs.Memory.Effect.{
  Env, World, Run, IsAllocator, Result, ok, err, pure, and_then, has_nul, give_back,
}
use libuv_rs.Req.Fs.{Uv, FsCall}
use libuv_rs.Fs.Spec.{submit_spec, sync_spec, reply}
use libuv_rs.Fs.Files.Laws.{
  fs_close_lem, fs_close_sync_lem, fs_fsync_lem, fs_fsync_sync_lem, fs_fdatasync_lem,
  fs_fdatasync_sync_lem, fs_ftruncate_lem, fs_ftruncate_sync_lem, fs_sendfile_lem,
  fs_sendfile_sync_lem, fs_fchmod_lem, fs_fchmod_sync_lem, fs_futime_lem, fs_futime_sync_lem,
  fs_closedir_lem, fs_closedir_sync_lem,
}
use libuv_rs.Fs.Paths.Laws.{
  fs_unlink_lem, fs_unlink_sync_lem, fs_mkdir_lem, fs_mkdir_sync_lem, fs_mkdtemp_lem,
  fs_mkdtemp_sync_lem, fs_mkstemp_lem, fs_mkstemp_sync_lem, fs_rmdir_lem, fs_rmdir_sync_lem,
  fs_access_lem, fs_access_sync_lem, fs_chmod_lem, fs_chmod_sync_lem, fs_utime_lem,
  fs_utime_sync_lem, fs_open_lem, fs_open_sync_lem,
}
use libuv_rs.Fs.Owners.Laws.{
  fs_chown_lem, fs_chown_sync_lem, fs_fchown_lem, fs_fchown_sync_lem, fs_lchown_lem,
  fs_lchown_sync_lem,
}
use libuv_rs.Fs.Pairs.Laws.{
  fs_rename_lem, fs_rename_sync_lem, fs_copyfile_lem, fs_copyfile_sync_lem, fs_link_lem,
  fs_link_sync_lem, fs_symlink_lem, fs_symlink_sync_lem,
}
use libuv_rs.Fs.Queries.Laws.{
  fs_stat_lem, fs_stat_sync_lem, fs_fstat_lem, fs_fstat_sync_lem, fs_lstat_lem, fs_lstat_sync_lem,
  fs_statfs_lem, fs_statfs_sync_lem, fs_readlink_lem, fs_readlink_sync_lem, fs_realpath_lem,
  fs_realpath_sync_lem, fs_opendir_lem, fs_opendir_sync_lem,
}
use libuv_rs.Fs.Ops.{
  Op, status, descriptor, text, file_stat, stream, system_stat, texts, call_of, with_all_texts,
  map_result, answer, start, run_sync, op_close, op_fsync, op_fdatasync, op_ftruncate, op_sendfile,
  op_fchmod, op_futime, op_closedir, op_unlink, op_mkdir, op_mkdtemp, op_mkstemp, op_rmdir,
  op_access, op_chmod, op_utime, op_open, op_chown, op_fchown, op_lchown, op_rename, op_copyfile,
  op_link, op_symlink, op_stat, op_fstat, op_lstat, op_statfs, op_readlink, op_realpath, op_opendir,
}

module _ {A B : Type 0} (k : A → B) (w : World) where
  map_with_text :
      (ss : List (List ℕ)) (r : Run A) (r' : Run B)
      → and_then r (λ a. pure (k a)) ≡ r'
      → and_then (with_all_texts ss w r) (λ a. pure (k a)) ≡ with_all_texts ss w r'
  map_with_text [] r r' e = e
  map_with_text (s ∷ ss) r r' e = elim (Bool-cases (has_nul s)) [
    | inl bad ↦ simp bad
    | inr good ↦ simp good (map_with_text ss r r' e)
  ]

  map_give_back :
      (a : Result A) → and_then (give_back a w) (λ a. pure (k a)) ≡ give_back (map_result k a) w
  map_give_back (ok a) = refl
  map_give_back (err e) = refl

  module _ (env : Env) (libuv : Uv) (lp : Ptr) (c : FsCall) where
    map_sync_spec :
        (read : Fields → Result A)
        → and_then (sync_spec env libuv lp c w read) (λ a. pure (k a))
          ≡ sync_spec env libuv lp c w (λ g. map_result k (read g))
    unfolding sync_spec
    map_sync_spec read = elim (Bool-cases (env.alloc w.heap uv_fs_t == null)) [
      | inl gone ↦ simp gone
      | inr got ↦ elim (Bool-cases (is_neg (reply env libuv lp c w nil).0)) [
        | inl bad ↦ simp (got, bad)
        | inr good ↦ simp (got, good) (map_give_back (read (reply env libuv lp c w nil).1))
      ]
    ]

    mapped :
        (ss : List (List ℕ)) (read : Fields → Result A) (r : Run A)
        → r ≡ with_all_texts ss w (sync_spec env libuv lp c w read)
        → and_then r (λ a. pure (k a))
          ≡ with_all_texts ss w (sync_spec env libuv lp c w (λ g. map_result k (read g)))
    mapped ss read r e = rw e (map_with_text ss _ _ (map_sync_spec read))

module _ (env : Env) (law : IsAllocator env) (libuv : Uv) (lp : Ptr) (w : World) where
  -- Every asynchronous operation of the family implements one specification: refused paths, a
  -- failed allocation and a negative code of the matching libuv call give their error and leave
  -- the state as it was, and an accepted call leaves one new request with its data, owed a
  -- callback exactly if one was given.
  pub start_lem :
      (op : Op) (f : Callback)
      → start env libuv lp op f w
        ≡ with_all_texts (texts op) w (submit_spec env libuv lp (call_of op) w f)
  unfolding start texts call_of
  start_lem (op_close file) f = fs_close_lem env law libuv lp w file f
  start_lem (op_fsync file) f = fs_fsync_lem env law libuv lp w file f
  start_lem (op_fdatasync file) f = fs_fdatasync_lem env law libuv lp w file f
  start_lem (op_ftruncate file offset) f = fs_ftruncate_lem env law libuv lp w file offset f
  start_lem (op_sendfile out_file in_file offset len) f =
      fs_sendfile_lem env law libuv lp w out_file in_file offset len f
  start_lem (op_fchmod file mode) f = fs_fchmod_lem env law libuv lp w file mode f
  start_lem (op_futime file atime mtime) f = fs_futime_lem env law libuv lp w file atime mtime f
  start_lem (op_closedir dir) f = fs_closedir_lem env law libuv lp w dir f
  start_lem (op_unlink path) f = fs_unlink_lem env law libuv lp w path f
  start_lem (op_mkdir path mode) f = fs_mkdir_lem env law libuv lp w path mode f
  start_lem (op_mkdtemp tpl) f = fs_mkdtemp_lem env law libuv lp w tpl f
  start_lem (op_mkstemp tpl) f = fs_mkstemp_lem env law libuv lp w tpl f
  start_lem (op_rmdir path) f = fs_rmdir_lem env law libuv lp w path f
  start_lem (op_access path mode) f = fs_access_lem env law libuv lp w path mode f
  start_lem (op_chmod path mode) f = fs_chmod_lem env law libuv lp w path mode f
  start_lem (op_utime path atime mtime) f = fs_utime_lem env law libuv lp w path atime mtime f
  start_lem (op_open path flags mode) f = fs_open_lem env law libuv lp w path flags mode f
  start_lem (op_chown path uid gid) f = fs_chown_lem env law libuv lp w path uid gid f
  start_lem (op_fchown file uid gid) f = fs_fchown_lem env law libuv lp w file uid gid f
  start_lem (op_lchown path uid gid) f = fs_lchown_lem env law libuv lp w path uid gid f
  start_lem (op_rename path new_path) f = fs_rename_lem env law libuv lp w path new_path f
  start_lem (op_copyfile path new_path flags) f =
      fs_copyfile_lem env law libuv lp w path new_path flags f
  start_lem (op_link path new_path) f = fs_link_lem env law libuv lp w path new_path f
  start_lem (op_symlink path new_path flags) f =
      fs_symlink_lem env law libuv lp w path new_path flags f
  start_lem (op_stat path) f = fs_stat_lem env law libuv lp w path f
  start_lem (op_fstat file) f = fs_fstat_lem env law libuv lp w file f
  start_lem (op_lstat path) f = fs_lstat_lem env law libuv lp w path f
  start_lem (op_statfs path) f = fs_statfs_lem env law libuv lp w path f
  start_lem (op_readlink path) f = fs_readlink_lem env law libuv lp w path f
  start_lem (op_realpath path) f = fs_realpath_lem env law libuv lp w path f
  start_lem (op_opendir path) f = fs_opendir_lem env law libuv lp w path f

  -- Every synchronous operation of the family of thirty-one implements one specification: a path
  -- with an inner zero byte is refused first, in the order of the arguments, then a failed
  -- allocation gives ENOMEM, then a negative return code of the matching libuv call gives its
  -- error, and else the outcome is read from the fields that libuv left.
  pub run_sync_lem :
      (op : Op)
      → run_sync env libuv lp op w
        ≡ with_all_texts (texts op) w (sync_spec env libuv lp (call_of op) w (answer env libuv op))
  unfolding run_sync texts call_of answer
  run_sync_lem (op_close file) =
      mapped status w env libuv lp _ ([]) _ _ (fs_close_sync_lem env law libuv lp w file)
  run_sync_lem (op_fsync file) =
      mapped status w env libuv lp _ ([]) _ _ (fs_fsync_sync_lem env law libuv lp w file)
  run_sync_lem (op_fdatasync file) =
      mapped status w env libuv lp _ ([]) _ _ (fs_fdatasync_sync_lem env law libuv lp w file)
  run_sync_lem (op_ftruncate file offset) =
      mapped status w env libuv lp _ ([]) _ _ (fs_ftruncate_sync_lem env law libuv lp w file offset)
  run_sync_lem (op_sendfile out_file in_file offset len) =
      mapped status w env libuv lp _ ([]) _ _
        (fs_sendfile_sync_lem env law libuv lp w out_file in_file offset len)
  run_sync_lem (op_fchmod file mode) =
      mapped status w env libuv lp _ ([]) _ _ (fs_fchmod_sync_lem env law libuv lp w file mode)
  run_sync_lem (op_futime file atime mtime) =
      mapped status w env libuv lp _ ([]) _ _
        (fs_futime_sync_lem env law libuv lp w file atime mtime)
  run_sync_lem (op_closedir dir) =
      mapped status w env libuv lp _ ([]) _ _ (fs_closedir_sync_lem env law libuv lp w dir)
  run_sync_lem (op_unlink path) =
      mapped status w env libuv lp _ (path ∷ []) _ _ (fs_unlink_sync_lem env law libuv lp w path)
  run_sync_lem (op_mkdir path mode) =
      mapped status w env libuv lp _ (path ∷ []) _ _
        (fs_mkdir_sync_lem env law libuv lp w path mode)
  run_sync_lem (op_mkdtemp tpl) =
      mapped text w env libuv lp _ (tpl ∷ []) _ _ (fs_mkdtemp_sync_lem env law libuv lp w tpl)
  run_sync_lem (op_mkstemp tpl) =
      mapped status w env libuv lp _ (tpl ∷ []) _ _ (fs_mkstemp_sync_lem env law libuv lp w tpl)
  run_sync_lem (op_rmdir path) =
      mapped status w env libuv lp _ (path ∷ []) _ _ (fs_rmdir_sync_lem env law libuv lp w path)
  run_sync_lem (op_access path mode) =
      mapped status w env libuv lp _ (path ∷ []) _ _
        (fs_access_sync_lem env law libuv lp w path mode)
  run_sync_lem (op_chmod path mode) =
      mapped status w env libuv lp _ (path ∷ []) _ _
        (fs_chmod_sync_lem env law libuv lp w path mode)
  run_sync_lem (op_utime path atime mtime) =
      mapped status w env libuv lp _ (path ∷ []) _ _
        (fs_utime_sync_lem env law libuv lp w path atime mtime)
  run_sync_lem (op_open path flags mode) =
      mapped descriptor w env libuv lp _ (path ∷ []) _ _
        (fs_open_sync_lem env law libuv lp w path flags mode)
  run_sync_lem (op_chown path uid gid) =
      mapped status w env libuv lp _ (path ∷ []) _ _
        (fs_chown_sync_lem env law libuv lp w path uid gid)
  run_sync_lem (op_fchown file uid gid) =
      mapped status w env libuv lp _ ([]) _ _ (fs_fchown_sync_lem env law libuv lp w file uid gid)
  run_sync_lem (op_lchown path uid gid) =
      mapped status w env libuv lp _ (path ∷ []) _ _
        (fs_lchown_sync_lem env law libuv lp w path uid gid)
  run_sync_lem (op_rename path new_path) =
      mapped status w env libuv lp _ (path ∷ new_path ∷ []) _ _
        (fs_rename_sync_lem env law libuv lp w path new_path)
  run_sync_lem (op_copyfile path new_path flags) =
      mapped status w env libuv lp _ (path ∷ new_path ∷ []) _ _
        (fs_copyfile_sync_lem env law libuv lp w path new_path flags)
  run_sync_lem (op_link path new_path) =
      mapped status w env libuv lp _ (path ∷ new_path ∷ []) _ _
        (fs_link_sync_lem env law libuv lp w path new_path)
  run_sync_lem (op_symlink path new_path flags) =
      mapped status w env libuv lp _ (path ∷ new_path ∷ []) _ _
        (fs_symlink_sync_lem env law libuv lp w path new_path flags)
  run_sync_lem (op_stat path) =
      mapped file_stat w env libuv lp _ (path ∷ []) _ _ (fs_stat_sync_lem env law libuv lp w path)
  run_sync_lem (op_fstat file) =
      mapped file_stat w env libuv lp _ ([]) _ _ (fs_fstat_sync_lem env law libuv lp w file)
  run_sync_lem (op_lstat path) =
      mapped file_stat w env libuv lp _ (path ∷ []) _ _ (fs_lstat_sync_lem env law libuv lp w path)
  run_sync_lem (op_statfs path) =
      mapped system_stat w env libuv lp _ (path ∷ []) _ _
        (fs_statfs_sync_lem env law libuv lp w path)
  run_sync_lem (op_readlink path) =
      mapped text w env libuv lp _ (path ∷ []) _ _ (fs_readlink_sync_lem env law libuv lp w path)
  run_sync_lem (op_realpath path) =
      mapped text w env libuv lp _ (path ∷ []) _ _ (fs_realpath_sync_lem env law libuv lp w path)
  run_sync_lem (op_opendir path) =
      mapped stream w env libuv lp _ (path ∷ []) _ _ (fs_opendir_sync_lem env law libuv lp w path)
