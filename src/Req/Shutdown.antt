-- ===== src/Req/Shutdown.antt =====
-- src/requests/shutdown.rs: shutdown requests.
pub mod Laws
use libuv_rs.Common.{some, not, ◌==◌}
use libuv_rs.Common.Int.{ℤ}
use libuv_rs.Memory.{Ptr, null, uv_shutdown_t, Callback, ReqData, shutdown_data}
use libuv_rs.Memory.Effect.{Eff, pure, ◌>>=◌, ◌>>◌, when, Env, status_of, call}
use libuv_rs.Req.{new_request, get_data, load_data, destroy_request}

unfoldable pub destroy : Ptr → Eff (Unit {0})
unfolding destroy_request
destroy req = destroy_request req uv_shutdown_t

module _ (env : Env) where
  unfoldable pub new : Callback → Eff Ptr
  unfolding new_request
  new shutdown_cb = new_request env uv_shutdown_t (shutdown_data shutdown_cb)

  abbrev pub run_shutdown_data : ℤ → Ptr → ReqData → Eff (Unit {0})
  unfolding status_of call
  run_shutdown_data status req (shutdown_data shutdown_cb) =
      call shutdown_cb req (some (status_of env status))
  run_shutdown_data status req _ = pure tt

  unfoldable pub uv_shutdown_cb : Ptr → ℤ → Eff (Unit {0})
  unfolding get_data load_data run_shutdown_data destroy
  uv_shutdown_cb req status = do
    dataptr ← get_data req
    when (not (dataptr == null)) (load_data dataptr >>= run_shutdown_data status req)
    destroy req
