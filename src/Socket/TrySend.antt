-- ===== src/Socket/TrySend.antt =====
-- src/handles/streams/udp.rs: `try_send`, which is not queued.
use libuv_rs.Common.{ℕ, ◌≡◌, ◌==◌, false, Option, some, List, ◌∷◌, length}
use libuv_rs.Common.Int.{ℤ, to_nat}
use libuv_rs.Memory.{Ptr, UvBuf, buf_vec}
use libuv_rs.Memory.Effect.{Eff, World, Failure, fails, err, pure, ◌>>=◌, ◌>>◌, Env, uvret}
use libuv_rs.BufVec.{bufs_into_inner, drop_vec}
use libuv_rs.Socket.{SocketAddr, UvSocket, fill_optional}
use libuv_rs.Socket.Laws.{filled, fill_sockaddr_lem}

-- The code, or the number of bytes.
pub record UvTrySend : Type 0 where
  pub uv_udp_try_send : (handle bufs : Ptr) (nbufs : ℕ) → Option (List ℕ) → ℤ

unfoldable pub try_send : Env → UvSocket → UvTrySend → Ptr → Option SocketAddr → List UvBuf → Eff ℕ
unfolding uvret
try_send env sockets libuv handle addr bufs = do
  (bufs_ptr, bufs_len, bufs_capacity) ← bufs_into_inner env bufs
  sockaddr_ptr ← fill_optional env sockets addr
  let result = libuv.uv_udp_try_send handle bufs_ptr bufs_len sockaddr_ptr
  drop_vec bufs_ptr bufs_len bufs_capacity
  uvret env result
  pure (to_nat result)

module _ (env : Env) (sockets : UvSocket) (libuv : UvTrySend) (handle : Ptr) (addr : SocketAddr)
    (bufs : List UvBuf) (w : World) (some_bufs : (env.capacity (length bufs) == 0) ≡ false) where
  abbrev pub vec_at : Ptr
  vec_at = env.box_new w.heap

  -- The array stays.
  pub try_send-unfilled :
      (e : Failure)
      → filled env sockets sockets.size_of_sockaddr addr ≡ some (err e)
      → try_send env sockets libuv handle (some addr) bufs w
        ≡ fails e (record w { heap = (vec_at, buf_vec (env.capacity (length bufs)) bufs) ∷ w.heap })
  unfolding try_send fill_optional bufs_into_inner
  try_send-unfilled e bad = simp (some_bufs, fill_sockaddr_lem, bad)
