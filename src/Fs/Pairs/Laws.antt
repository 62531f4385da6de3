-- ===== src/Fs/Pairs/Laws.antt =====
-- The operations of this group meet their specification.
use libuv_rs.Common.{◌≡◌, ℕ, List}
use libuv_rs.Common.Int.{ℤ}
use libuv_rs.Memory.{Ptr, Callback}
use libuv_rs.Memory.Effect.{Env, World, IsAllocator, status_of, c_string_new}
use libuv_rs.Req.Fs.{Uv, uv_fs_rename, uv_fs_copyfile, uv_fs_link, uv_fs_symlink}
use libuv_rs.Fs.Spec.{submit_spec, sync_spec, with_texts, by_texts, by_texts_then}
use libuv_rs.Fs.Laws.{submit_lem, sync_lem}
use libuv_rs.Fs.Finish.{destroy_req_return_boxed_result_lem}
use libuv_rs.Fs.Pairs.{
  fs_rename, fs_rename_sync, fs_copyfile, fs_copyfile_sync, fs_link, fs_link_sync, fs_symlink,
  fs_symlink_sync,
}

module _ (env : Env) (law : IsAllocator env) (libuv : Uv) (lp : Ptr) (w : World) where
  pub fs_rename_lem :
      (path : List ℕ) (new_path : List ℕ) (fs_cb : Callback)
      → fs_rename env libuv lp path new_path fs_cb w
        ≡ with_texts path new_path w (submit_spec env libuv lp (uv_fs_rename path new_path) w fs_cb)
  unfolding fs_rename c_string_new
  fs_rename_lem path new_path fs_cb =
      by_texts path new_path w _ (submit_lem env law libuv lp w (uv_fs_rename path new_path) fs_cb)

  pub fs_copyfile_lem :
      (path : List ℕ) (new_path : List ℕ) (flags : ℤ) (fs_cb : Callback)
      → fs_copyfile env libuv lp path new_path flags fs_cb w
        ≡ with_texts path new_path w
            (submit_spec env libuv lp (uv_fs_copyfile path new_path flags) w fs_cb)
  unfolding fs_copyfile c_string_new
  fs_copyfile_lem path new_path flags fs_cb =
      by_texts path new_path w _
        (submit_lem env law libuv lp w (uv_fs_copyfile path new_path flags) fs_cb)

  pub fs_link_lem :
      (path : List ℕ) (new_path : List ℕ) (fs_cb : Callback)
      → fs_link env libuv lp path new_path fs_cb w
        ≡ with_texts path new_path w (submit_spec env libuv lp (uv_fs_link path new_path) w fs_cb)
  unfolding fs_link c_string_new
  fs_link_lem path new_path fs_cb =
      by_texts path new_path w _ (submit_lem env law libuv lp w (uv_fs_link path new_path) fs_cb)

  pub fs_symlink_lem :
      (path : List ℕ) (new_path : List ℕ) (flags : ℤ) (fs_cb : Callback)
      → fs_symlink env libuv lp path new_path flags fs_cb w
        ≡ with_texts path new_path w
            (submit_spec env libuv lp (uv_fs_symlink path new_path flags) w fs_cb)
  unfolding fs_symlink c_string_new
  fs_symlink_lem path new_path flags fs_cb =
      by_texts path new_path w _
        (submit_lem env law libuv lp w (uv_fs_symlink path new_path flags) fs_cb)

  pub fs_rename_sync_lem :
      (path : List ℕ) (new_path : List ℕ)
      → fs_rename_sync env libuv lp path new_path w
        ≡ with_texts path new_path w
            (sync_spec env libuv lp (uv_fs_rename path new_path) w (λ g. status_of env g.result))
  unfolding fs_rename_sync c_string_new
  fs_rename_sync_lem path new_path = by_texts_then _ path new_path w _ (
      sync_lem env law libuv lp w (uv_fs_rename path new_path) _ _
        (destroy_req_return_boxed_result_lem env libuv))

  pub fs_copyfile_sync_lem :
      (path : List ℕ) (new_path : List ℕ) (flags : ℤ)
      → fs_copyfile_sync env libuv lp path new_path flags w
        ≡ with_texts path new_path w (
            sync_spec env libuv lp
              (uv_fs_copyfile path new_path flags)
              w
              (λ g. status_of env g.result))
  unfolding fs_copyfile_sync c_string_new
  fs_copyfile_sync_lem path new_path flags = by_texts_then _ path new_path w _ (
      sync_lem env law libuv lp w (uv_fs_copyfile path new_path flags) _ _
        (destroy_req_return_boxed_result_lem env libuv))

  pub fs_link_sync_lem :
      (path : List ℕ) (new_path : List ℕ)
      → fs_link_sync env libuv lp path new_path w
        ≡ with_texts path new_path w
            (sync_spec env libuv lp (uv_fs_link path new_path) w (λ g. status_of env g.result))
  unfolding fs_link_sync c_string_new
  fs_link_sync_lem path new_path = by_texts_then _ path new_path w _ (
      sync_lem env law libuv lp w (uv_fs_link path new_path) _ _
        (destroy_req_return_boxed_result_lem env libuv))

  pub fs_symlink_sync_lem :
      (path : List ℕ) (new_path : List ℕ) (flags : ℤ)
      → fs_symlink_sync env libuv lp path new_path flags w
        ≡ with_texts path new_path w (
            sync_spec env libuv lp
              (uv_fs_symlink path new_path flags)
              w
              (λ g. status_of env g.result))
  unfolding fs_symlink_sync c_string_new
  fs_symlink_sync_lem path new_path flags = by_texts_then _ path new_path w _ (
      sync_lem env law libuv lp w (uv_fs_symlink path new_path flags) _ _
        (destroy_req_return_boxed_result_lem env libuv))
