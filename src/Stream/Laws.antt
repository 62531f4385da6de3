-- ===== src/Stream/Laws.antt =====
-- src/handles/streams/stream.rs: the life of a write and of a shutdown.
use libuv_rs.Common.{
  ℕ, ◌≡◌, ◌≢◌, refl, inl, inr, false, some, List, ◌∷◌, ◌==◌, if◌then◌else◌, Bool-cases, length,
  ==_refl, ==_ne,
}
use libuv_rs.Common.Int.{ℤ, is_neg, to_nat}
use libuv_rs.Error.{Error, from_inner as error_from_inner}
use libuv_rs.Memory.{
  Ptr, null, uv_write_t, uv_shutdown_t, shutdown_data, Callback, cb, CCallback, UvBuf, lookup,
  erase,
}
use libuv_rs.Memory.Effect.{
  Env, IsAllocator, World, Run, done, fails, uv, uvret, status_of, note, attempt, is_err, when, owe,
  Eff, ◌>>=◌, ◌>>◌,
}
use libuv_rs.Memory.Laws.{owe-neg, owe-pos, ne_of_test}
use libuv_rs.BufVec.{dangling, bufs_into_inner, drop_vec}
use libuv_rs.Req.Shutdown
use libuv_rs.Req.Shutdown.Laws.{
  uv_shutdown_cb-Owned, new-null as shutdown_new-null, new-done, destroy-Owned,
}
use libuv_rs.Req.Owned.{new_ptr, new_heap, new_request-Owned, erase-new_heap}
use libuv_rs.Req.Write
use libuv_rs.Req.Write.Laws.{request, made, p, new-made, destroy-made, new-null, uv_write_cb-made}
use libuv_rs.Fs.{map_ok}
use libuv_rs.Stream.{UvStream, shutdown, write, write2, try_write}

module _ (env : Env) (bufs : List UvBuf) (f : Callback) (w : World) where
  abbrev pub accepted_write : World
  accepted_write = record (made env bufs f w) {
    pending = (p env bufs f w, CCallback.uv_write_cb) ∷ w.pending;
  }

  -- No memory, refused by libuv, or accepted; `code` is what libuv returns for the array.
  unfoldable pub write_spec : (Ptr → ℤ) → Run Write.WriteReq
  write_spec code =
      if p env bufs f w == null
      then fails (uv Error.enomem) w
      else if is_neg (code (request env bufs f w).bufs_ptr)
      then fails (uv (error_from_inner env.errno (code (request env bufs f w).bufs_ptr))) w
      else done (request env bufs f w) accepted_write

module _ (env : Env) (law : IsAllocator env) (libuv : UvStream) (stream : Ptr) (bufs : List UvBuf)
    (f : Callback) (w : World) where
  -- What both operations do with their new request.
  abbrev hand_over : (Ptr → ℤ) → Write.WriteReq → Eff Write.WriteReq
  unfolding uvret
  hand_over code r = do
    owe r.req (some CCallback.uv_write_cb) (code r.bufs_ptr)
    result ← attempt (uvret env (code r.bufs_ptr))
    when (is_err result) (Write.destroy r)
    map_ok r result

  hand_over_lem :
      (code : Ptr → ℤ) → (Write.new env bufs f >>= hand_over code) w ≡ write_spec env bufs f w code
  unfolding write_spec uvret
  hand_over_lem code = elim (Bool-cases (p env bufs f w == null)) [
    | inl gone ↦ simp (new-null env bufs f w gone, gone)
    | inr got ↦ elim (Bool-cases (is_neg (code (request env bufs f w).bufs_ptr))) [
      | inl bad ↦ simp (
        new-made env law bufs f w (ne_of_test got),
        got,
        owe-neg _ _ _ _ bad,
        bad,
        destroy-made env law bufs f w (ne_of_test got),
      )
      | inr good ↦
          simp (new-made env law bufs f w (ne_of_test got), got, owe-pos _ _ _ _ good, good)
    ]
  ]

  -- A write without memory gives ENOMEM, one that libuv refuses gives its error, both with the
  -- state as it was, and one that libuv accepts leaves a request that owns its data and its array
  -- of buffers, owed a callback.
  pub write_lem :
      write env libuv stream bufs f w
      ≡ write_spec env bufs f w (λ a. libuv.uv_write stream a (length bufs))
  unfolding write
  write_lem = hand_over_lem (λ a. libuv.uv_write stream a (length bufs))

  -- An extended write without memory gives ENOMEM, one that libuv refuses gives its error, both
  -- with the state as it was, and one that libuv accepts leaves a request that owns its data and
  -- its array of buffers, owed a callback.
  pub write2_lem :
      (send_handle : Ptr)
      → write2 env libuv stream send_handle bufs f w
        ≡ write_spec env bufs f w (λ a. libuv.uv_write2 stream a (length bufs) send_handle)
  unfolding write2
  write2_lem send_handle = hand_over_lem (λ a. libuv.uv_write2 stream a (length bufs) send_handle)

  -- Where the array of a write that is tried at once stands.
  abbrev pub tried_at : Ptr
  tried_at = if env.capacity (length bufs) == 0 then dangling else env.box_new w.heap

  -- A write that is tried at once gives the number of bytes or the error of libuv, and leaves the
  -- state as it was: the array of buffers is freed on both branches.
  pub try_write_lem : try_write env libuv stream bufs w ≡ (
      if is_neg (libuv.uv_try_write stream tried_at (length bufs))
      then fails
          (uv (error_from_inner env.errno (libuv.uv_try_write stream tried_at (length bufs))))
          w
      else done (to_nat (libuv.uv_try_write stream tried_at (length bufs))) w)
  unfolding try_write uvret bufs_into_inner drop_vec lookup erase
  try_write_lem = elim (Bool-cases (env.capacity (length bufs) == 0)) [
    | inl e ↦ rw e (elim (Bool-cases (is_neg (libuv.uv_try_write stream dangling (length bufs)))) [
      | inl bad ↦ simp (e, bad)
      | inr good ↦ simp (e, good)
    ])
    | inr e ↦
        rw e
          (elim (Bool-cases
            (is_neg (libuv.uv_try_write stream (env.box_new w.heap) (length bufs)))) [
              | inl bad ↦
                  simp (e, bad, ==_refl, ==_ne (env.box_new w.heap) null (law.box_not_null w.heap))
              | inr good ↦
                  simp (e, good, ==_refl, ==_ne (env.box_new w.heap) null (law.box_not_null w.heap))
            ])
  ]

module _ (env : Env) (law : IsAllocator env) (libuv : UvStream) (stream : Ptr) (bufs : List UvBuf)
    (n : ℕ) (w : World) (got : env.alloc w.heap uv_write_t ≢ null) where
  -- A write with a closure that gets its memory and that libuv accepts returns its request, and
  -- when libuv then reports it the closure is called exactly once with the status, and the
  -- request, its data and the array of buffers are all freed: the memory is as before the write.
  pub write-uv_write_cb :
      (status : ℤ)
      → is_neg (libuv.uv_write stream (request env bufs (cb n) w).bufs_ptr (length bufs)) ≡ false
      → (write env libuv stream bufs (cb n) w
          ≡ done (request env bufs (cb n) w) (accepted_write env bufs (cb n) w))
        × (Write.uv_write_cb env
              (p env bufs (cb n) w)
              status
              (record (accepted_write env bufs (cb n) w) { pending = w.pending })
            ≡ done tt (record w {
              log = note n (p env bufs (cb n) w) (some (status_of env status)) w.log;
            }))
  unfolding write_spec
  write-uv_write_cb status good = (
    rw (write_lem env law libuv stream bufs (cb n) w, ==_ne (p env bufs (cb n) w) null got, good)
        refl,
    uv_write_cb-made env law bufs n w got status _ refl,
  )

module _ (env : Env) (w : World) (f : Callback) where
  abbrev pub shutdown_ptr : Ptr
  shutdown_ptr = new_ptr env uv_shutdown_t w

  abbrev pub accepted_shutdown : World
  accepted_shutdown = record w {
    heap = new_heap env uv_shutdown_t w (shutdown_data f) env.garbage;
    pending = (shutdown_ptr, CCallback.uv_shutdown_cb) ∷ w.pending;
  }

module _ (env : Env) (law : IsAllocator env) (libuv : UvStream) (stream : Ptr) (w : World) where
  pub shutdown_lem :
      (f : Callback)
      → shutdown env libuv stream f w ≡ (
          if shutdown_ptr env w f == null
          then fails (uv Error.enomem) w
          else if is_neg (libuv.uv_shutdown stream)
          then fails (uv (error_from_inner env.errno (libuv.uv_shutdown stream))) w
          else done (shutdown_ptr env w f) (accepted_shutdown env w f))
  unfolding shutdown uvret
  shutdown_lem f = elim (Bool-cases (shutdown_ptr env w f == null)) [
    | inl gone ↦ simp (shutdown_new-null env f w gone, gone)
    | inr got ↦ elim (Bool-cases (is_neg (libuv.uv_shutdown stream))) [
      | inl bad ↦ simp (
        new-done env f w law (ne_of_test got),
        got,
        owe-neg _ _ _ _ bad,
        bad,
        destroy-Owned _ (
            new_request-Owned env law uv_shutdown_t (shutdown_data f) w (ne_of_test got)
              env.garbage),
        erase-new_heap,
      )
      | inr good ↦ simp (new-done env f w law (ne_of_test got), got, owe-pos _ _ _ _ good, good)
    ]
  ]

  -- A shutdown with a closure that gets its memory and that libuv accepts returns its request, and
  -- when libuv then reports it the closure is called exactly once with the status and the memory
  -- is as before.
  pub shutdown-uv_shutdown_cb :
      (n : ℕ) (status : ℤ)
      → shutdown_ptr env w (cb n) ≢ null
      → is_neg (libuv.uv_shutdown stream) ≡ false
      → (shutdown env libuv stream (cb n) w
          ≡ done (shutdown_ptr env w (cb n)) (accepted_shutdown env w (cb n)))
        × (Shutdown.uv_shutdown_cb env
              (shutdown_ptr env w (cb n))
              status
              (record (accepted_shutdown env w (cb n)) { pending = w.pending })
            ≡ done tt (record w {
              log = note n (shutdown_ptr env w (cb n)) (some (status_of env status)) w.log;
            }))
  shutdown-uv_shutdown_cb n status got good = (
    rw (shutdown_lem (cb n), ==_ne (shutdown_ptr env w (cb n)) null got, good) refl,
    rw
        (
          uv_shutdown_cb-Owned env (record (accepted_shutdown env w (cb n)) { pending = w.pending })
              status
              (new_request-Owned env law uv_shutdown_t (shutdown_data (cb n)) w got env.garbage),
          erase-new_heap env uv_shutdown_t w (shutdown_data (cb n)) env.garbage,
        )
        refl,
  )
