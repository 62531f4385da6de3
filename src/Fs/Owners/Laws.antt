-- ===== src/Fs/Owners/Laws.antt =====
-- The operations of this group meet their specification.
use libuv_rs.Common.{◌≡◌, ℕ, List}
use libuv_rs.Common.Int.{ℤ}
use libuv_rs.Memory.{Ptr, Callback}
use libuv_rs.Memory.Effect.{Env, World, IsAllocator, status_of, c_string_new}
use libuv_rs.Req.Fs.{Uv, uv_fs_chown, uv_fs_fchown, uv_fs_lchown}
use libuv_rs.Fs.Spec.{submit_spec, sync_spec, with_text, by_text, by_text_then}
use libuv_rs.Fs.Laws.{submit_lem, sync_lem}
use libuv_rs.Fs.Finish.{destroy_req_return_result_lem, destroy_req_return_boxed_result_lem}
use libuv_rs.Fs.Owners.{
  fs_chown, fs_chown_sync, fs_fchown, fs_fchown_sync, fs_lchown, fs_lchown_sync,
}

module _ (env : Env) (law : IsAllocator env) (libuv : Uv) (lp : Ptr) (w : World) where
  pub fs_chown_lem :
      (path : List ℕ) (uid : ℕ) (gid : ℕ) (fs_cb : Callback)
      → fs_chown env libuv lp path uid gid fs_cb w
        ≡ with_text path w (submit_spec env libuv lp (uv_fs_chown path uid gid) w fs_cb)
  unfolding fs_chown c_string_new
  fs_chown_lem path uid gid fs_cb =
      by_text path w _ (submit_lem env law libuv lp w (uv_fs_chown path uid gid) fs_cb)

  pub fs_fchown_lem :
      (file : ℤ) (uid : ℕ) (gid : ℕ) (fs_cb : Callback)
      → fs_fchown env libuv lp file uid gid fs_cb w
        ≡ submit_spec env libuv lp (uv_fs_fchown file uid gid) w fs_cb
  unfolding fs_fchown
  fs_fchown_lem file uid gid fs_cb = submit_lem env law libuv lp w (uv_fs_fchown file uid gid) fs_cb

  pub fs_lchown_lem :
      (path : List ℕ) (uid : ℕ) (gid : ℕ) (fs_cb : Callback)
      → fs_lchown env libuv lp path uid gid fs_cb w
        ≡ with_text path w (submit_spec env libuv lp (uv_fs_lchown path uid gid) w fs_cb)
  unfolding fs_lchown c_string_new
  fs_lchown_lem path uid gid fs_cb =
      by_text path w _ (submit_lem env law libuv lp w (uv_fs_lchown path uid gid) fs_cb)

  pub fs_chown_sync_lem :
      (path : List ℕ) (uid : ℕ) (gid : ℕ)
      → fs_chown_sync env libuv lp path uid gid w
        ≡ with_text path w
            (sync_spec env libuv lp (uv_fs_chown path uid gid) w (λ g. status_of env g.result))
  unfolding fs_chown_sync c_string_new
  fs_chown_sync_lem path uid gid = by_text_then _ path w _ (
      sync_lem env law libuv lp w (uv_fs_chown path uid gid) _ _
        (destroy_req_return_boxed_result_lem env libuv))

  pub fs_fchown_sync_lem :
      (file : ℤ) (uid : ℕ) (gid : ℕ)
      → fs_fchown_sync env libuv lp file uid gid w
        ≡ sync_spec env libuv lp (uv_fs_fchown file uid gid) w (λ g. status_of env g.result)
  unfolding fs_fchown_sync
  fs_fchown_sync_lem file uid gid =
      sync_lem env law libuv lp w (uv_fs_fchown file uid gid) _ _
        (destroy_req_return_result_lem env libuv)

  pub fs_lchown_sync_lem :
      (path : List ℕ) (uid : ℕ) (gid : ℕ)
      → fs_lchown_sync env libuv lp path uid gid w
        ≡ with_text path w
            (sync_spec env libuv lp (uv_fs_lchown path uid gid) w (λ g. status_of env g.result))
  unfolding fs_lchown_sync c_string_new
  fs_lchown_sync_lem path uid gid = by_text_then _ path w _ (
      sync_lem env law libuv lp w (uv_fs_lchown path uid gid) _ _
        (destroy_req_return_boxed_result_lem env libuv))
