-- ===== src/Req/Write.antt =====
-- src/requests/write.rs: write requests, which own the array of buffers that libuv reads.
pub mod Laws
use libuv_rs.Common.{List, some, not, ◌==◌, if◌then◌else◌}
use libuv_rs.Common.Int.{ℤ}
use libuv_rs.Error.{Error}
use libuv_rs.Memory.{Ptr, null, uv_write_t, Callback, UvBuf, ReqData, write_data}
use libuv_rs.Memory.Effect.{
  uv, Eff, pure, throw, ◌>>=◌, ◌>>◌, when, Env, std_alloc, std_dealloc, status_of, call,
}
use libuv_rs.BufVec.{bufs_into_inner, drop_vec}
use libuv_rs.Req.{initialize_data, get_data, load_data, free_data}

-- `bufs_ptr` is null in a request that was made from a bare pointer.
pub record WriteReq : Type 0 where
  pub req : Ptr
  pub bufs_ptr : Ptr

-- The arm of the destructor for this kind of data.
abbrev pub drop_bufs : ReqData → Eff (Unit {0})
unfolding drop_vec
drop_bufs (write_data bufs_ptr bufs_len bufs_capacity _) =
    when (not (bufs_ptr == null)) (drop_vec bufs_ptr bufs_len bufs_capacity)
drop_bufs _ = pure tt

unfoldable pub destroy : WriteReq → Eff (Unit {0})
unfolding get_data load_data drop_bufs free_data std_dealloc
destroy r = do
  dataptr ← get_data r.req
  when (not (dataptr == null)) (load_data dataptr >>= drop_bufs)
  free_data r.req
  std_dealloc r.req uv_write_t

module _ (env : Env) where
  unfoldable pub new : List UvBuf → Callback → Eff WriteReq
  unfolding std_alloc bufs_into_inner initialize_data
  new bufs write_cb = do
    req ← std_alloc env uv_write_t
    if req == null then throw (uv Error.enomem) else do
      (bufs_ptr, bufs_len, bufs_capacity) ← bufs_into_inner env bufs
      initialize_data env req (write_data bufs_ptr bufs_len bufs_capacity write_cb)
      pure (record { req = req; bufs_ptr = bufs_ptr })

  abbrev pub run_write_data : ℤ → Ptr → ReqData → Eff (Unit {0})
  unfolding status_of call
  run_write_data status req (write_data _ _ _ write_cb) =
      call write_cb req (some (status_of env status))
  run_write_data status req _ = pure tt

  unfoldable pub uv_write_cb : Ptr → ℤ → Eff (Unit {0})
  unfolding get_data load_data run_write_data destroy
  uv_write_cb req status = do
    dataptr ← get_data req
    when (not (dataptr == null)) (load_data dataptr >>= run_write_data status req)
    destroy (record { req = req; bufs_ptr = null })
