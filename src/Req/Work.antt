-- ===== src/Req/Work.antt =====
-- src/requests/work.rs: work for the thread pool.
pub mod Laws
pub mod Queue
use libuv_rs.Common.{Option, some, none, not, ◌==◌}
use libuv_rs.Common.Int.{ℤ}
use libuv_rs.Memory.{Ptr, null, uv_work_t, Callback, CCallback, ReqData, work_data}
use libuv_rs.Memory.Effect.{
  Eff, pure, ◌>>=◌, ◌>>◌, attempt, is_err, when, Env, status_of, call, uvret, owe, use_c_callback,
}
use libuv_rs.Req.{new_request, get_data, load_data, destroy_request}
use libuv_rs.Memory.Effect.{Result, ok, err, throw}

unfoldable pub destroy : Ptr → Eff (Unit {0})
unfolding destroy_request
destroy req = destroy_request req uv_work_t

abbrev pub run_work_data : Ptr → ReqData → Eff (Unit {0})
unfolding call
run_work_data req (work_data work_cb _) = call work_cb req none
run_work_data req _ = pure tt

-- The C callback that runs on a thread of the pool: the request stays.
unfoldable pub uv_work_cb : Ptr → Eff (Unit {0})
unfolding get_data load_data run_work_data
uv_work_cb req = do
  dataptr ← get_data req
  when (not (dataptr == null)) (load_data dataptr >>= run_work_data req)

-- The end of `queue_work`: `result.map(|_| req)`.
abbrev pub map_req : Ptr → Result (Unit {0}) → Eff Ptr
map_req req (ok _) = pure req
map_req req (err e) = throw e

module _ (env : Env) where
  unfoldable pub new : Callback → Callback → Eff Ptr
  unfolding new_request
  new work_cb after_work_cb = new_request env uv_work_t (work_data work_cb after_work_cb)

  abbrev pub run_after_work_data : ℤ → Ptr → ReqData → Eff (Unit {0})
  unfolding status_of call
  run_after_work_data status req (work_data _ after_work_cb) =
      call after_work_cb req (some (status_of env status))
  run_after_work_data status req _ = pure tt

  unfoldable pub uv_after_work_cb : Ptr → ℤ → Eff (Unit {0})
  unfolding get_data load_data run_after_work_data destroy
  uv_after_work_cb req status = do
    dataptr ← get_data req
    when (not (dataptr == null)) (load_data dataptr >>= run_after_work_data status req)
    destroy req

  -- `Loop::queue_work`; `uv_queue_work` gives the code that libuv returns for the loop and the
  -- callback of the pool. The callback afterwards is always given.
  unfoldable pub queue_work : (Ptr → Option CCallback → ℤ) → Ptr → Callback → Callback → Eff Ptr
  unfolding uvret
  queue_work uv_queue_work lp work_cb after_work_cb = do
    let code = uv_queue_work lp (use_c_callback CCallback.uv_work_cb work_cb)
    req ← new work_cb after_work_cb
    owe req (some CCallback.uv_after_work_cb) code
    result ← attempt (uvret env code)
    when (is_err result) (destroy req)
    map_req req result
