-- ===== src/Texts.antt =====
-- The texts that libuv writes into a buffer of the caller: `getpath` of src/handles/fs_event.rs and
-- src/handles/fs_poll.rs, which ask for the size first, `gethostname` of src/misc/os.rs, and the
-- names of interfaces of src/net/misc.rs, which bring a buffer of a fixed size.
pub mod Laws
use libuv_rs.Common.{ℕ, ◌+◌, List, length, ltb, if◌then◌else◌, take}
use libuv_rs.Common.Int.{ℤ}
use libuv_rs.Error.{Error}
use libuv_rs.Memory.{Ptr}
use libuv_rs.Memory.Effect.{
  World, Fault, uv, Eff, pure, throw, crash, ◌>>=◌, ◌>>◌, attempt, Result, ok, err, Env, ask, uvret,
}
use libuv_rs.Buf.Storage.{isize_max}

pub data TextCall : Type 0 where
  uv_fs_event_getpath uv_fs_poll_getpath : (handle : Ptr) → TextCall
  uv_os_gethostname uv_cwd uv_cwd_null uv_exepath : TextCall
  uv_if_indextoname uv_if_indextoiid : (ifindex : ℕ) → TextCall

pub record UvText : Type 0 where
  -- The code, the size afterwards, and the bytes that stand in the buffer.
  pub uv_text : World → TextCall → (size : ℕ) → ℤ × ℕ × List ℕ
  pub uv_maxhostnamesize : ℕ
  pub uv_if_namesize : ℕ

-- `set_len(size + 1)` on a vector with that capacity, and the text up to the last byte: a fault
-- unless the vector has room for them and all of them were written.
unfoldable pub text_of : (capacity size : ℕ) → List ℕ → Eff (List ℕ)
text_of capacity size bytes =
    if ltb capacity (size + 1)
    then crash Fault.out_of_bounds
    else if ltb (length bytes) (size + 1)
    then crash Fault.uninitialised
    else pure (take size bytes)

module _ (env : Env) (libuv : UvText) where
  -- `Vec::with_capacity`, the call, and the text.
  unfoldable pub read_text : TextCall → (size : ℕ) → Eff (List ℕ)
  unfolding ask uvret text_of
  read_text c size = if ltb isize_max size then crash Fault.panic else (do
    answer ← ask (λ w. libuv.uv_text w c size)
    uvret env answer.0
    text_of size answer.1 answer.2)

  -- Every error but ENOBUFS ends `getpath`.
  abbrev pub size_of : ℕ → Result (Unit {0}) → Eff ℕ
  size_of size (ok _) = pure size
  size_of size (err (uv Error.enobufs)) = pure size
  size_of size (err e) = throw e

  -- The body of both `getpath`.
  unfoldable pub sized_text : TextCall → Eff (List ℕ)
  unfolding ask uvret read_text
  sized_text c = do
    answer ← ask (λ w. libuv.uv_text w c 0)
    result ← attempt (uvret env answer.0)
    size ← size_of answer.1 result
    read_text c size

  unfoldable pub fs_event_getpath : Ptr → Eff (List ℕ)
  unfolding sized_text
  fs_event_getpath handle = sized_text (uv_fs_event_getpath handle)

  unfoldable pub fs_poll_getpath : Ptr → Eff (List ℕ)
  unfolding sized_text
  fs_poll_getpath handle = sized_text (uv_fs_poll_getpath handle)

  unfoldable pub gethostname : Eff (List ℕ)
  unfolding read_text
  gethostname = read_text uv_os_gethostname libuv.uv_maxhostnamesize

  unfoldable pub if_indextoname : ℕ → Eff (List ℕ)
  unfolding read_text
  if_indextoname ifindex = read_text (uv_if_indextoname ifindex) libuv.uv_if_namesize

  unfoldable pub if_indexto_iid : ℕ → Eff (List ℕ)
  unfolding read_text
  if_indexto_iid ifindex = read_text (uv_if_indextoiid ifindex) libuv.uv_if_namesize
