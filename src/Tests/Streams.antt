-- ===== src/Tests/Streams.antt =====
-- Runs of writes and work.
use libuv_rs.Common.{◌≡◌, refl, none, some, Option, List, [], ◌∷◌}
use libuv_rs.Common.Int.{ℤ, pos, negsuc}
use libuv_rs.Memory.{Ptr, UvBuf, CCallback, cb, uv_work_t}
use libuv_rs.Memory.Effect.{done, note, status_of}
use libuv_rs.Req.Owned.{new_ptr}
use libuv_rs.Req.Write
use libuv_rs.Req.Write.Laws.{request, p}
use libuv_rs.Req.Work.{queue_work, uv_work_cb, uv_after_work_cb}
use libuv_rs.Req.Work.Queue.{queued, queue_work-uv_after_work_cb}
use libuv_rs.Stream.{UvStream, write}
use libuv_rs.Stream.Laws.{accepted_write, write-uv_write_cb}
use libuv_rs.Tests.{env, env-IsAllocator, next_ptr-not_null, empty}

-- Takes every write.
abbrev streams : UvStream
streams = record {
  uv_shutdown = λ _. pos 0;
  uv_write = λ _ _ _. pos 0;
  uv_write2 = λ _ _ _ _. negsuc 4;
  uv_try_write = λ _ _ _. pos 4;
}

abbrev one_buf : List UvBuf
one_buf = record { base = 300; len = 4 } ∷ []

write-uv_write_cb_example :
    (write env streams 90 one_buf (cb 5) empty
      ≡ done (request env one_buf (cb 5) empty) (accepted_write env one_buf (cb 5) empty))
    × (Write.uv_write_cb env
          (p env one_buf (cb 5) empty)
          (pos 0)
          (record (accepted_write env one_buf (cb 5) empty) { pending = [] })
        ≡ done tt (record empty {
          log = note 5 (p env one_buf (cb 5) empty) (some (status_of env (pos 0))) [];
        }))
write-uv_write_cb_example =
    write-uv_write_cb env env-IsAllocator streams 90 one_buf 5 empty (next_ptr-not_null []) (pos 0)
      refl

abbrev pool : Ptr → Option CCallback → ℤ
pool _ _ = pos 0

queue_work-uv_after_work_cb_example :
    (queue_work env pool 1 (cb 2) (cb 3) empty
      ≡ done (new_ptr env uv_work_t empty) (queued env env-IsAllocator pool 1 empty (cb 2) (cb 3)))
    × (uv_work_cb
          (new_ptr env uv_work_t empty)
          (queued env env-IsAllocator pool 1 empty (cb 2) (cb 3))
        ≡ done tt (record (queued env env-IsAllocator pool 1 empty (cb 2) (cb 3)) {
          log = note 2 (new_ptr env uv_work_t empty) none [];
        }))
    × (uv_after_work_cb env
          (new_ptr env uv_work_t empty)
          (pos 0)
          (record (queued env env-IsAllocator pool 1 empty (cb 2) (cb 3)) {
            pending = [];
            log = note 2 (new_ptr env uv_work_t empty) none [];
          })
        ≡ done tt (record empty {
          log =
              note 3
                (new_ptr env uv_work_t empty)
                (some (status_of env (pos 0)))
                (note 2 (new_ptr env uv_work_t empty) none []);
        }))
queue_work-uv_after_work_cb_example =
    queue_work-uv_after_work_cb env env-IsAllocator pool 1 empty 2 3 (pos 0) (next_ptr-not_null [])
      refl
