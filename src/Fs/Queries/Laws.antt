-- ===== src/Fs/Queries/Laws.antt =====
-- The operations of this group meet their specification.
use libuv_rs.Common.{◌≡◌, ℕ, List}
use libuv_rs.Common.Int.{ℤ}
use libuv_rs.FsStat.{stat_of}
use libuv_rs.FsType.{from_inner as fs_type_from_inner}
use libuv_rs.Memory.{Ptr, Callback}
use libuv_rs.Memory.Effect.{Env, World, IsAllocator, ok, c_string_new}
use libuv_rs.Req.Fs.{
  Uv, dir_for, statfs_for, real_path_for, uv_fs_stat, uv_fs_fstat, uv_fs_lstat, uv_fs_statfs,
  uv_fs_readlink, uv_fs_realpath, uv_fs_opendir,
}
use libuv_rs.Fs.{ok_or_einval}
use libuv_rs.Fs.Spec.{submit_spec, sync_spec, with_text, by_text, by_text_then}
use libuv_rs.Fs.Laws.{submit_lem, sync_lem}
use libuv_rs.Fs.Finish.{then_stat_lem, then_dir_lem, then_statfs_lem, then_real_path_lem}
use libuv_rs.Fs.Queries.{
  fs_stat, fs_stat_sync, fs_fstat, fs_fstat_sync, fs_lstat, fs_lstat_sync, fs_statfs,
  fs_statfs_sync, fs_readlink, fs_readlink_sync, fs_realpath, fs_realpath_sync, fs_opendir,
  fs_opendir_sync,
}

module _ (env : Env) (law : IsAllocator env) (libuv : Uv) (lp : Ptr) (w : World) where
  pub fs_stat_lem :
      (path : List ℕ) (fs_cb : Callback)
      → fs_stat env libuv lp path fs_cb w
        ≡ with_text path w (submit_spec env libuv lp (uv_fs_stat path) w fs_cb)
  unfolding fs_stat c_string_new
  fs_stat_lem path fs_cb = by_text path w _ (submit_lem env law libuv lp w (uv_fs_stat path) fs_cb)

  pub fs_fstat_lem :
      (file : ℤ) (fs_cb : Callback)
      → fs_fstat env libuv lp file fs_cb w ≡ submit_spec env libuv lp (uv_fs_fstat file) w fs_cb
  unfolding fs_fstat
  fs_fstat_lem file fs_cb = submit_lem env law libuv lp w (uv_fs_fstat file) fs_cb

  pub fs_lstat_lem :
      (path : List ℕ) (fs_cb : Callback)
      → fs_lstat env libuv lp path fs_cb w
        ≡ with_text path w (submit_spec env libuv lp (uv_fs_lstat path) w fs_cb)
  unfolding fs_lstat c_string_new
  fs_lstat_lem path fs_cb =
      by_text path w _ (submit_lem env law libuv lp w (uv_fs_lstat path) fs_cb)

  pub fs_statfs_lem :
      (path : List ℕ) (fs_cb : Callback)
      → fs_statfs env libuv lp path fs_cb w
        ≡ with_text path w (submit_spec env libuv lp (uv_fs_statfs path) w fs_cb)
  unfolding fs_statfs c_string_new
  fs_statfs_lem path fs_cb =
      by_text path w _ (submit_lem env law libuv lp w (uv_fs_statfs path) fs_cb)

  pub fs_readlink_lem :
      (path : List ℕ) (fs_cb : Callback)
      → fs_readlink env libuv lp path fs_cb w
        ≡ with_text path w (submit_spec env libuv lp (uv_fs_readlink path) w fs_cb)
  unfolding fs_readlink c_string_new
  fs_readlink_lem path fs_cb =
      by_text path w _ (submit_lem env law libuv lp w (uv_fs_readlink path) fs_cb)

  pub fs_realpath_lem :
      (path : List ℕ) (fs_cb : Callback)
      → fs_realpath env libuv lp path fs_cb w
        ≡ with_text path w (submit_spec env libuv lp (uv_fs_realpath path) w fs_cb)
  unfolding fs_realpath c_string_new
  fs_realpath_lem path fs_cb =
      by_text path w _ (submit_lem env law libuv lp w (uv_fs_realpath path) fs_cb)

  pub fs_opendir_lem :
      (path : List ℕ) (fs_cb : Callback)
      → fs_opendir env libuv lp path fs_cb w
        ≡ with_text path w (submit_spec env libuv lp (uv_fs_opendir path) w fs_cb)
  unfolding fs_opendir c_string_new
  fs_opendir_lem path fs_cb =
      by_text path w _ (submit_lem env law libuv lp w (uv_fs_opendir path) fs_cb)

  pub fs_stat_sync_lem :
      (path : List ℕ)
      → fs_stat_sync env libuv lp path w
        ≡ with_text path w
            (sync_spec env libuv lp (uv_fs_stat path) w (λ g. ok (stat_of g.statbuf)))
  unfolding fs_stat_sync c_string_new
  fs_stat_sync_lem path =
      by_text_then _ path w _
        (sync_lem env law libuv lp w (uv_fs_stat path) _ _ (then_stat_lem env libuv))

  pub fs_fstat_sync_lem :
      (file : ℤ)
      → fs_fstat_sync env libuv lp file w
        ≡ sync_spec env libuv lp (uv_fs_fstat file) w (λ g. ok (stat_of g.statbuf))
  unfolding fs_fstat_sync
  fs_fstat_sync_lem file =
      sync_lem env law libuv lp w (uv_fs_fstat file) _ _ (then_stat_lem env libuv)

  pub fs_lstat_sync_lem :
      (path : List ℕ)
      → fs_lstat_sync env libuv lp path w
        ≡ with_text path w
            (sync_spec env libuv lp (uv_fs_lstat path) w (λ g. ok (stat_of g.statbuf)))
  unfolding fs_lstat_sync c_string_new
  fs_lstat_sync_lem path =
      by_text_then _ path w _
        (sync_lem env law libuv lp w (uv_fs_lstat path) _ _ (then_stat_lem env libuv))

  pub fs_statfs_sync_lem :
      (path : List ℕ)
      → fs_statfs_sync env libuv lp path w
        ≡ with_text path w (
            sync_spec env libuv lp (uv_fs_statfs path) w (λ g.
              ok_or_einval (statfs_for env libuv (fs_type_from_inner libuv.fs_type g.type_) g.ptr)))
  unfolding fs_statfs_sync c_string_new
  fs_statfs_sync_lem path =
      by_text_then _ path w _
        (sync_lem env law libuv lp w (uv_fs_statfs path) _ _ (then_statfs_lem env libuv))

  pub fs_readlink_sync_lem :
      (path : List ℕ)
      → fs_readlink_sync env libuv lp path w
        ≡ with_text path w (
            sync_spec env libuv lp (uv_fs_readlink path) w (λ g.
              ok_or_einval
                (real_path_for env libuv (fs_type_from_inner libuv.fs_type g.type_) g.ptr)))
  unfolding fs_readlink_sync c_string_new
  fs_readlink_sync_lem path =
      by_text_then _ path w _
        (sync_lem env law libuv lp w (uv_fs_readlink path) _ _ (then_real_path_lem env libuv))

  pub fs_realpath_sync_lem :
      (path : List ℕ)
      → fs_realpath_sync env libuv lp path w
        ≡ with_text path w (
            sync_spec env libuv lp (uv_fs_realpath path) w (λ g.
              ok_or_einval
                (real_path_for env libuv (fs_type_from_inner libuv.fs_type g.type_) g.ptr)))
  unfolding fs_realpath_sync c_string_new
  fs_realpath_sync_lem path =
      by_text_then _ path w _
        (sync_lem env law libuv lp w (uv_fs_realpath path) _ _ (then_real_path_lem env libuv))

  pub fs_opendir_sync_lem :
      (path : List ℕ)
      → fs_opendir_sync env libuv lp path w
        ≡ with_text path w (
            sync_spec env libuv lp
              (uv_fs_opendir path)
              w
              (λ g. ok_or_einval (dir_for (fs_type_from_inner libuv.fs_type g.type_) g.ptr)))
  unfolding fs_opendir_sync c_string_new
  fs_opendir_sync_lem path =
      by_text_then _ path w _
        (sync_lem env law libuv lp w (uv_fs_opendir path) _ _ (then_dir_lem env libuv))
