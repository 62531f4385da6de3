-- ===== src/Stream.antt =====
-- src/handles/streams/stream.rs: shutting a stream down and writing to it. The calls of libuv are a
-- parameter: each gives its return code from the stream and what it is asked to write.
pub mod Alloc
pub mod Data
pub mod Laws
use libuv_rs.Common.{ℕ, some, List, length}
use libuv_rs.Common.Int.{ℤ, is_neg, to_nat}
use libuv_rs.Memory.{Ptr, Callback, CCallback, UvBuf}
use libuv_rs.Memory.Effect.{Eff, pure, ◌>>=◌, ◌>>◌, attempt, is_err, when, Env, uvret, owe}
use libuv_rs.BufVec.{bufs_into_inner, drop_vec}
use libuv_rs.Req.Shutdown
use libuv_rs.Req.Write
use libuv_rs.Fs.{map_ok}

pub record UvStream : Type 0 where
  pub uv_shutdown : (stream : Ptr) → ℤ
  pub uv_write : (stream : Ptr) (bufs : Ptr) (nbufs : ℕ) → ℤ
  pub uv_write2 : (stream : Ptr) (bufs : Ptr) (nbufs : ℕ) (send_handle : Ptr) → ℤ
  pub uv_try_write : (stream : Ptr) (bufs : Ptr) (nbufs : ℕ) → ℤ

module _ (env : Env) (libuv : UvStream) (stream : Ptr) where
  unfoldable pub shutdown : Callback → Eff Ptr
  unfolding uvret
  shutdown f = do
    req ← Shutdown.new env f
    let code = libuv.uv_shutdown stream
    owe req (some CCallback.uv_shutdown_cb) code
    result ← attempt (uvret env code)
    when (is_err result) (Shutdown.destroy req)
    map_ok req result

  unfoldable pub write : List UvBuf → Callback → Eff Write.WriteReq
  unfolding uvret
  write bufs f = do
    r ← Write.new env bufs f
    let code = libuv.uv_write stream r.bufs_ptr (length bufs)
    owe r.req (some CCallback.uv_write_cb) code
    result ← attempt (uvret env code)
    when (is_err result) (Write.destroy r)
    map_ok r result

  unfoldable pub write2 : Ptr → List UvBuf → Callback → Eff Write.WriteReq
  unfolding uvret
  write2 send_handle bufs f = do
    r ← Write.new env bufs f
    let code = libuv.uv_write2 stream r.bufs_ptr (length bufs) send_handle
    owe r.req (some CCallback.uv_write_cb) code
    result ← attempt (uvret env code)
    when (is_err result) (Write.destroy r)
    map_ok r result

  -- A negative result is an error, any other the number of bytes.
  unfoldable pub try_write : List UvBuf → Eff ℕ
  unfolding uvret
  try_write bufs = do
    (bufs_ptr, bufs_len, bufs_capacity) ← bufs_into_inner env bufs
    let result = libuv.uv_try_write stream bufs_ptr bufs_len
    drop_vec bufs_ptr bufs_len bufs_capacity
    uvret env result
    pure (to_nat result)
