-- ===== src/Tests/Storage.antt =====
-- Buffers with their memory.
use libuv_rs.Common.{ℕ, ◌+◌, ◌^◌, ◌≡◌, refl, none, some, List, [], ◌∷◌, arith, leb, if◌then◌else◌}
use libuv_rs.Memory.{
  uv_buf, byte_array, lookup, erase, cb, nil, stream_data, AddlStreamData, AddlHandleData,
  handle_data, Layout, struct,
}
use libuv_rs.Memory.Effect.{World, Fault, Args, done, fault, note_args}
use libuv_rs.Buf.Storage.{
  with_capacity, new_from_bytes, index, destroy, byte_or_fault, nothing_at, resize,
}
use libuv_rs.Buf.Owned.{BufOwned, buf_world, buf_world-BufOwned}
use libuv_rs.Buf.Make.{terminated, new_from_bytes-index, with_capacity-destroy_large}
use libuv_rs.Buf.Change.{resize_spec, resize-BufOwned}
use libuv_rs.Stream.Alloc.{uv_alloc_cb, uv_alloc_cb-BufOwned}
use libuv_rs.Handle.Owned.{HandleOwned}
use libuv_rs.Tests.{env, env-IsAllocator, empty, next_ptr, blank}

abbrev hello : List ℕ
hello = 104 ∷ 105 ∷ []

abbrev hello_world : World
hello_world = buf_world env empty 3 (terminated env empty hello)

new_from_bytes-index_example :
    (new_from_bytes env hello empty ≡ done 201 hello_world)
    × ((i : ℕ)
        → index 201 i hello_world ≡ (
            if leb 3 i
            then fault Fault.panic
            else byte_or_fault (terminated env empty hello i) hello_world))
    × (destroy 201 hello_world ≡ done tt empty)
unfolding next_ptr
new_from_bytes-index_example =
    new_from_bytes-index env empty env-IsAllocator hello (ground arith) (λ e. ground arith)

hello_owned : BufOwned hello_world.heap 201 100 3 (terminated env empty hello)
unfolding next_ptr
hello_owned =
    buf_world-BufOwned env empty 3 (terminated env empty hello) env-IsAllocator (λ e. ground arith)
      (ground arith)

-- Four gibibytes and five bytes.
abbrev large : ℕ
large = 2 ^ 32 + 5

with_capacity-destroy_large_example :
    (with_capacity env large empty ≡ done 201 (buf_world env empty large nothing_at))
    × (destroy 201 (buf_world env empty large nothing_at) ≡ fault Fault.wrong_block)
unfolding next_ptr
with_capacity-destroy_large_example =
    with_capacity-destroy_large env empty env-IsAllocator large (ground arith) (ground arith)
      (λ e. ground arith)

resize-BufOwned_example : resize env 201 8 hello_world ≡ resize_spec env hello_world hello_owned 8
resize-BufOwned_example =
    resize-BufOwned env hello_world hello_owned 8 env-IsAllocator (λ e. ground arith) (ground arith)

-- Two buffers, and a stream with closure 4 for allocating.
abbrev stream_addl : AddlHandleData
stream_addl = stream_data (cb 4) nil nil AddlStreamData.no_addl_stream_data

abbrev two_bufs : World
two_bufs = record empty {
  heap =
      (1, uv_buf (record { base = 2; len = 3 }))
      ∷ (2, byte_array 3 nothing_at)
      ∷ (3, uv_buf (record { base = 4; len = 5 }))
      ∷ (4, byte_array 5 (terminated env empty hello))
      ∷ (5, struct Layout.uv_tcp_t (record { data_ptr = some 6; fields = blank }))
      ∷ (6, handle_data (record { close_cb = nil; addl = stream_addl }))
      ∷ [];
}

second_owned : BufOwned two_bufs.heap 3 4 5 (terminated env empty hello)
unfolding lookup erase
second_owned = record {
  p_not_null = λ e. ground arith;
  base_not_null = λ e. ground arith;
  apart = λ e. ground arith;
  fits = refl;
  p_holds = refl;
  base_holds = refl;
  base_once = refl;
}

stream_owned :
    HandleOwned two_bufs.heap Layout.uv_tcp_t 5 6
      (record { close_cb = nil; addl = stream_addl })
      blank
unfolding lookup erase
stream_owned = record {
  p_not_null = λ e. ground arith;
  q_not_null = λ e. ground arith;
  apart = λ e. ground arith;
  p_holds = refl;
  q_holds = refl;
  p_once = refl;
  q_once = refl;
}

uv_alloc_cb-BufOwned_example :
    (v : World) × (uv_alloc_cb 5 64 (some 3) two_bufs
      ≡ done (some (record { base = 4; len = 5 })) v)
    × (v.log ≡ note_args 4 5 none (Args.alloc_args 64) [])
    × (v.heap ≡ erase 3 two_bufs.heap)
    × (lookup 4 v.heap ≡ some (byte_array 5 (terminated env empty hello)))
uv_alloc_cb-BufOwned_example = uv_alloc_cb-BufOwned 4 two_bufs stream_owned second_owned 64
