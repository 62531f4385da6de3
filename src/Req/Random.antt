-- ===== src/Req/Random.antt =====
-- src/requests/random.rs: random bytes. The buffer is a Vec that nobody owns while libuv fills it.
pub mod Laws
use libuv_rs.Common.{ℕ, Option, some, none, not, ◌==◌, if◌then◌else◌, ltb}
use libuv_rs.Common.Int.{ℤ}
use libuv_rs.Memory.{Ptr, null, uv_random_t, Callback, CCallback, ReqData, random_data, byte_array}
use libuv_rs.Memory.Effect.{
  World, Eff, pure, crash, Fault, ◌>>=◌, ◌>>◌, attempt, is_err, when, Env, status_of, call_with,
  uvret, owe, ask, store, box_into_raw, release, Args,
}
use libuv_rs.Req.{new_request, get_data, load_data, destroy_request}
use libuv_rs.Fs.{map_ok}
use libuv_rs.Buf.Storage.{isize_max, nothing_at}

-- The code of the call; and of the call without a loop, with the bytes that it writes.
pub record UvRandom : Type 0 where
  pub uv_random : World → (lp req buf : Ptr) (buflen flags : ℕ) → Option CCallback → ℤ
  pub uv_random_sync : World → (buf : Ptr) (buflen flags : ℕ) → ℤ × (ℕ → Option ℕ)

unfoldable pub destroy : Ptr → Eff (Unit {0})
unfolding destroy_request
destroy req = destroy_request req uv_random_t

-- The pointer of a Vec of bytes without capacity: not null, and to no block.
abbrev pub dangling : Ptr
dangling = 1

-- The memory of a Vec that is dropped.
unfoldable pub drop_vec : Ptr → ℕ → Eff (Unit {0})
unfolding release
drop_vec buf capacity = if capacity == 0 then pure tt else release buf

-- What libuv writes into a Vec of that capacity.
unfoldable pub fill : Ptr → ℕ → (ℕ → Option ℕ) → Eff (Unit {0})
unfolding store
fill buf capacity at = if capacity == 0 then pure tt else store buf (byte_array capacity at)

module _ (env : Env) where
  unfoldable pub new : Callback → Eff Ptr
  unfolding new_request
  new random_cb = new_request env uv_random_t (random_data random_cb)

  -- `Vec::with_capacity`, which panics for a capacity above `isize::MAX`.
  unfoldable pub vec_with_capacity : ℕ → Eff Ptr
  unfolding box_into_raw
  vec_with_capacity capacity =
      if ltb isize_max capacity
      then crash Fault.panic
      else if capacity == 0
      then pure dangling
      else box_into_raw env (byte_array capacity nothing_at)

  abbrev pub run_random_data : ℤ → Ptr → ℕ → Ptr → ReqData → Eff (Unit {0})
  unfolding status_of call_with
  run_random_data status buf buflen req (random_data f) =
      call_with f req (some (status_of env status)) (Args.random_args buf buflen)
  run_random_data status buf buflen req _ = pure tt

  -- The closure is given the Vec, whatever the status.
  unfoldable pub uv_random_cb : Ptr → ℤ → Ptr → ℕ → Eff (Unit {0})
  unfolding get_data load_data run_random_data destroy
  uv_random_cb req status buf buflen = do
    dataptr ← get_data req
    when (not (dataptr == null)) (load_data dataptr >>= run_random_data status buf buflen req)
    destroy req

  module _ (libuv : UvRandom) where
    unfoldable pub random : Ptr → ℕ → ℕ → Callback → Eff Ptr
    unfolding ask uvret
    random lp buflen flags f = do
      req ← new f
      buf ← vec_with_capacity buflen
      code ← ask (λ w. libuv.uv_random w lp req buf buflen flags (some CCallback.uv_random_cb))
      owe req (some CCallback.uv_random_cb) code
      result ← attempt (uvret env code)
      when (is_err result) (destroy req)
      map_ok req result

    unfoldable pub random_sync : ℕ → ℕ → Eff Ptr
    unfolding ask uvret fill drop_vec
    random_sync buflen flags = do
      buf ← vec_with_capacity buflen
      answer ← ask (λ w. libuv.uv_random_sync w buf buflen flags)
      fill buf buflen answer.1
      result ← attempt (uvret env answer.0)
      when (is_err result) (drop_vec buf buflen)
      map_ok buf result
