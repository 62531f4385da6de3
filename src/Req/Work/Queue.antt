-- ===== src/Req/Work/Queue.antt =====
-- src/requests/work.rs: the life of a piece of work, from the queue to its two callbacks.
use libuv_rs.Common.{
  ℕ, ◌≡◌, ◌≢◌, ◌==◌, false, refl, Option, some, none, ◌∷◌, inl, inr, Bool-cases, if◌then◌else◌,
  ==_ne,
}
use libuv_rs.Common.Int.{ℤ, is_neg}
use libuv_rs.Error.{Error, from_inner as error_from_inner}
use libuv_rs.Memory.{Ptr, null, uv_work_t, Callback, cb, CCallback, work_data}
use libuv_rs.Memory.Effect.{
  Env, IsAllocator, World, done, fails, uv, uvret, note, status_of, use_c_callback,
}
use libuv_rs.Memory.Laws.{owe-neg, owe-pos, ne_of_test}
use libuv_rs.Req.Owned.{new_ptr, new_heap, new_request-Owned, erase-new_heap}
use libuv_rs.Req.Work.{queue_work, uv_work_cb, uv_after_work_cb}
use libuv_rs.Req.Work.Laws.{new-null, new-done, destroy-Owned, uv_after_work_cb-Owned}

module _ (env : Env) (law : IsAllocator env) (uv_queue_work : Ptr → Option CCallback → ℤ) (lp : Ptr)
    (w : World) where
  abbrev pub work_code : Callback → ℤ
  work_code f = uv_queue_work lp (use_c_callback CCallback.uv_work_cb f)

  abbrev pub queued : Callback → Callback → World
  queued f k = record w {
    heap = new_heap env uv_work_t w (work_data f k) env.garbage;
    pending = (new_ptr env uv_work_t w, CCallback.uv_after_work_cb) ∷ w.pending;
  }

  -- Queueing work without memory gives ENOMEM, a refusal by libuv gives its error, both with the
  -- state as it was, and an accepted piece of work leaves a request with both closures, owed the
  -- callback afterwards.
  pub queue_work_lem :
      (f k : Callback)
      → queue_work env uv_queue_work lp f k w ≡ (
          if new_ptr env uv_work_t w == null
          then fails (uv Error.enomem) w
          else if is_neg (work_code f)
          then fails (uv (error_from_inner env.errno (work_code f))) w
          else done (new_ptr env uv_work_t w) (queued f k))
  unfolding queue_work uvret
  queue_work_lem f k = elim (Bool-cases (new_ptr env uv_work_t w == null)) [
    | inl gone ↦ simp (new-null env f k w gone, gone)
    | inr got ↦ elim (Bool-cases (is_neg (work_code f))) [
      | inl bad ↦ simp (
        new-done env f k w law (ne_of_test got),
        got,
        owe-neg _ _ _ _ bad,
        bad,
        destroy-Owned _
            (new_request-Owned env law uv_work_t (work_data f k) w (ne_of_test got) env.garbage),
        erase-new_heap,
      )
      | inr good ↦ simp (new-done env f k w law (ne_of_test got), got, owe-pos _ _ _ _ good, good)
    ]
  ]

  -- Queueing work with two closures, when the request gets its memory and libuv accepts, gives a
  -- request for which the callback of the pool calls the first closure and leaves the request
  -- alive, and the callback afterwards calls the second with the status and returns the memory to
  -- what it was before, with an allocator that returns fresh addresses.
  pub queue_work-uv_after_work_cb :
      (m n : ℕ) (status : ℤ)
      → new_ptr env uv_work_t w ≢ null
      → is_neg (work_code (cb m)) ≡ false
      → (queue_work env uv_queue_work lp (cb m) (cb n) w
          ≡ done (new_ptr env uv_work_t w) (queued (cb m) (cb n)))
        × (uv_work_cb (new_ptr env uv_work_t w) (queued (cb m) (cb n))
            ≡ done tt (record (queued (cb m) (cb n)) {
              log = note m (new_ptr env uv_work_t w) none w.log;
            }))
        × (uv_after_work_cb env (new_ptr env uv_work_t w) status (record (queued (cb m) (cb n)) {
          pending = w.pending;
          log = note m (new_ptr env uv_work_t w) none w.log;
        })
            ≡ done tt (record w {
              log =
                  note n
                    (new_ptr env uv_work_t w)
                    (some (status_of env status))
                    (note m (new_ptr env uv_work_t w) none w.log);
            }))
  unfolding uv_work_cb
  queue_work-uv_after_work_cb m n status got good =
      let o = new_request-Owned env law uv_work_t (work_data (cb m) (cb n)) w got env.garbage in
      (
        rw (queue_work_lem (cb m) (cb n), ==_ne (new_ptr env uv_work_t w) null got, good) refl,
        simp (
          ==_ne (new_ptr env uv_work_t w) null got,
          o.p_holds,
          ==_ne _ null o.q_not_null,
          o.q_holds,
        ),
        rw
            (
              uv_after_work_cb-Owned env
                  (record (queued (cb m) (cb n)) {
                    pending = w.pending;
                    log = note m (new_ptr env uv_work_t w) none w.log;
                  })
                  status o,
              erase-new_heap env uv_work_t w (work_data (cb m) (cb n)) env.garbage,
            )
            refl,
      )
