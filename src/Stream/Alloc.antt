-- ===== src/Stream/Alloc.antt =====
-- src/handles/streams/stream.rs: the C callback that asks the user for a buffer. `answer` is the
-- `Buf` that the closure returns, by its container; libuv gets a copy of the container.
use libuv_rs.Common.{ℕ, ◌≡◌, sym, Option, none, some, if◌then◌else◌, ==_ne, refl, ◌∙◌}
use libuv_rs.Memory.{
  Ptr, null, Layout, Callback, cb, UvBuf, AddlStreamData, AddlHandleData, Fields, stream_data,
  erase, lookup, byte_array,
}
use libuv_rs.Memory.Effect.{Eff, World, pure, ◌>>=◌, ◌>>◌, call_with, Args, is_nil, done, note_args}
use libuv_rs.Memory.Laws.{lookup-erase_ne}
use libuv_rs.Buf.Storage.{load_buf, destroy_container}
use libuv_rs.Buf.Owned.{BufOwned}
use libuv_rs.Handle.{get_data, load_data}
use libuv_rs.Handle.Owned.{HandleOwned}

abbrev pub no_buf : UvBuf
no_buf = record { base = null; len = 0 }

-- `match new_buf.as_mut() { ... }`.
unfoldable pub take_buf : Option Ptr → Eff UvBuf
unfolding load_buf destroy_container
take_buf none = pure no_buf
take_buf (some b) = do u ← load_buf b; destroy_container b; pure u

-- `Nil` answers without a buffer.
abbrev pub answered_by : Callback → Option Ptr → Option Ptr
answered_by f answer = if is_nil f then none else answer

-- What is written to the structure of libuv, nothing if the data is not that of a stream.
unfoldable pub run_alloc_cb : ℕ → Option Ptr → Ptr → AddlHandleData → Eff (Option UvBuf)
unfolding call_with take_buf
run_alloc_cb size answer handle (stream_data a c r x) = do
  call_with a handle none (Args.alloc_args size)
  u ← take_buf (answered_by a answer)
  pure (some u)
run_alloc_cb size answer handle _ = pure none

unfoldable pub uv_alloc_cb : Ptr → ℕ → Option Ptr → Eff (Option UvBuf)
unfolding get_data load_data run_alloc_cb
uv_alloc_cb handle size answer = do
  dataptr ← get_data handle
  d ← load_data dataptr
  run_alloc_cb size answer handle d.addl

module _ {l : Layout} {p q b base : Ptr} {g c r : Callback} {x : AddlStreamData} {f : Fields}
    {n : ℕ} {at : ℕ → Option ℕ} (k : ℕ) (w : World)
    (o : HandleOwned w.heap l p q (record { close_cb = g; addl = stream_data (cb k) c r x }) f)
    (buf : BufOwned w.heap b base n at) where
  -- When libuv asks a live stream with a closure for a buffer and the closure answers with a live
  -- one, the closure is called exactly once with the suggested size, libuv gets the address and
  -- the length of the bytes, the container is freed and the bytes stay.
  pub uv_alloc_cb-BufOwned :
      (size : ℕ)
      → (v : World) × (uv_alloc_cb p size (some b) w
          ≡ done (some (record { base = base; len = n })) v)
        × (v.log ≡ note_args k p none (Args.alloc_args size) w.log)
        × (v.heap ≡ erase b w.heap)
        × (lookup base v.heap ≡ some (byte_array n at))
  unfolding uv_alloc_cb
  uv_alloc_cb-BufOwned size = (
    record w { heap = erase b w.heap; log = note_args k p none (Args.alloc_args size) w.log },
    simp (
      ==_ne p null o.p_not_null,
      o.p_holds,
      ==_ne q null o.q_not_null,
      o.q_holds,
      ==_ne b null buf.p_not_null,
      buf.p_holds,
    ),
    refl,
    refl,
    lookup-erase_ne base b w.heap (λ e. buf.apart (sym e)) ∙ buf.base_holds,
  )
