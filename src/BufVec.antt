-- ===== src/BufVec.antt =====
-- src/buf.rs, the last conversion: the array of `uv_buf_t` that a call with several buffers hands
-- to libuv, a vector that the crate takes apart into pointer, length and capacity.
use libuv_rs.Common.{ℕ, List, ◌==◌, if◌then◌else◌, length}
use libuv_rs.Memory.{Ptr, UvBuf, Block, buf_vec}
use libuv_rs.Memory.Effect.{Fault, Eff, pure, crash, ◌>>=◌, ◌>>◌, Env, done, load, release, place}

-- What an empty vector has for a pointer: not null, and never read.
abbrev pub dangling : Ptr
dangling = 8

unfoldable pub bufs_into_inner : Env → List UvBuf → Eff (Ptr × ℕ × ℕ)
unfolding place
bufs_into_inner env bufs w =
    let capacity = env.capacity (length bufs) in
    if capacity == 0
    then done (dangling, length bufs, capacity) w
    else (place (env.box_new w.heap) (buf_vec capacity bufs) >>= λ p.
          pure (p, length bufs, capacity))
        w

abbrev pub as_buf_vec : ℕ → Block → Eff (Unit {0})
as_buf_vec capacity (buf_vec c bufs) = if c == capacity then pure tt else crash Fault.wrong_block
as_buf_vec _ _ = crash Fault.wrong_block

-- `drop(Vec::from_raw_parts(ptr, len, capacity))`: the capacity must be that of the allocation.
unfoldable pub drop_vec : Ptr → ℕ → ℕ → Eff (Unit {0})
unfolding load release
drop_vec p len capacity =
    if capacity == 0 then pure tt else do b ← load p; as_buf_vec capacity b; release p
