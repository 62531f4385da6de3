-- ===== src/Req/Connect.antt =====
-- src/requests/connect.rs: connect requests.
pub mod Laws
use libuv_rs.Common.{some, not, ◌==◌}
use libuv_rs.Common.Int.{ℤ}
use libuv_rs.Memory.{Ptr, null, uv_connect_t, Callback, ReqData, connect_data}
use libuv_rs.Memory.Effect.{Eff, pure, ◌>>=◌, ◌>>◌, when, Env, status_of, call}
use libuv_rs.Req.{new_request, get_data, load_data, destroy_request}

unfoldable pub destroy : Ptr → Eff (Unit {0})
unfolding destroy_request
destroy req = destroy_request req uv_connect_t

module _ (env : Env) where
  unfoldable pub new : Callback → Eff Ptr
  unfolding new_request
  new connect_cb = new_request env uv_connect_t (connect_data connect_cb)

  abbrev pub run_connect_data : ℤ → Ptr → ReqData → Eff (Unit {0})
  unfolding status_of call
  run_connect_data status req (connect_data connect_cb) =
      call connect_cb req (some (status_of env status))
  run_connect_data status req _ = pure tt

  unfoldable pub uv_connect_cb : Ptr → ℤ → Eff (Unit {0})
  unfolding get_data load_data run_connect_data destroy
  uv_connect_cb req status = do
    dataptr ← get_data req
    when (not (dataptr == null)) (load_data dataptr >>= run_connect_data status req)
    destroy req
