-- ===== src/Fs/Laws.antt =====
-- The shared end of the file system operations meets its specification.
use libuv_rs.Common.{
  ◌≡◌, ◌≢◌, inl, inr, true, none, some, ◌==◌, Bool-cases, if◌then◌else◌, ==_refl, ==_ne,
}
use libuv_rs.Common.Int.{is_neg}
use libuv_rs.Error.{Error, from_inner as error_from_inner}
use libuv_rs.Memory.{
  Ptr, null, Callback, CCallback, fs_data, Fields, uv_fs_t, struct, update, erase,
}
use libuv_rs.Memory.Effect.{
  uv, Env, World, done, fails, Result, Eff, ◌>>=◌, IsAllocator, give_back, use_c_callback, uvret,
}
use libuv_rs.Memory.Laws.{owe-neg, owe-pos, ne_of_test}
use libuv_rs.Req.Owned.{
  Owned, new_ptr, new_box, new_heap, new_request-done, new_request-Owned, erase-new_heap,
  update-new_heap,
}
use libuv_rs.Req.Fs.{FsReq, FsCall, Uv, new}
use libuv_rs.Req.Fs.Laws.{destroy-Owned}
use libuv_rs.Fs.{submit}
use libuv_rs.Fs.Spec.{submit_spec, sync_spec, reply, submitted}

-- A way to end a synchronous call that reads the request and destroys it, and does no more.
abbrev pub Finishes : {A : Type 0} → (FsReq → Eff A) → (Fields → Result A) → Type 0
Finishes finish read =
    (v : World) (p q : Ptr) (g : Fields)
    → Owned v.heap uv_fs_t p q (fs_data Callback.nil) g
    → finish (record { req = p }) v
      ≡ give_back (read g) (record v { heap = erase p (erase q v.heap) })

module _ (env : Env) (law : IsAllocator env) (libuv : Uv) (lp : Ptr) (w : World) where
  pub new-null :
      (f : Callback)
      → (env.alloc w.heap uv_fs_t == null) ≡ true
      → new env libuv f w ≡ fails (uv Error.enomem) w
  unfolding new
  new-null f e = simp (e, ==_refl)

  abbrev fs_ptr : Ptr
  fs_ptr = new_ptr env uv_fs_t w

  abbrev fs_box : Ptr
  fs_box = new_box env uv_fs_t w

  module _ (f : Callback) (got : env.alloc w.heap uv_fs_t ≢ null) where
    pub new-got :
        new env libuv f w
        ≡ done
            (record { req = new_ptr env uv_fs_t w })
            (record w { heap = new_heap env uv_fs_t w (fs_data f) env.garbage })
    unfolding new
    new-got = rw (new_request-done env law uv_fs_t (fs_data f) w got)

    owned :
        (g : Fields)
        → Owned (new_heap env uv_fs_t w (fs_data f) g) uv_fs_t fs_ptr fs_box (fs_data f) g
    owned = new_request-Owned env law uv_fs_t (fs_data f) w got

    written :
        (g : Fields)
        → update fs_ptr
            (struct uv_fs_t (record { data_ptr = some fs_box; fields = g }))
            (new_heap env uv_fs_t w (fs_data f) env.garbage)
          ≡ new_heap env uv_fs_t w (fs_data f) g
    written = update-new_heap env law uv_fs_t (fs_data f) w got env.garbage

    submit-got :
        (c : FsCall)
        → submit env libuv lp
            (record { req = new_ptr env uv_fs_t w })
            c
            (use_c_callback CCallback.uv_fs_cb f)
            (record w { heap = new_heap env uv_fs_t w (fs_data f) env.garbage })
          ≡ (if is_neg (reply env libuv lp c w f).0
              then fails (uv (error_from_inner env.errno (reply env libuv lp c w f).0)) w
              else done (record { req = new_ptr env uv_fs_t w }) (submitted env libuv lp c w f))
    unfolding submit uvret
    submit-got c = elim (Bool-cases (is_neg (reply env libuv lp c w f).0)) [
      | inl bad ↦ simp (
        ==_ne (new_ptr env uv_fs_t w) null got,
        (owned env.garbage).p_holds,
        written,
        owe-neg _ _ _ _ bad,
        bad,
        destroy-Owned env libuv _ (owned (reply env libuv lp c w f).1),
        erase-new_heap,
      )
      | inr good ↦ simp (
        ==_ne (new_ptr env uv_fs_t w) null got,
        (owned env.garbage).p_holds,
        written,
        owe-pos _ _ _ _ good,
        good,
      )
    ]

  pub submit_lem :
      (c : FsCall) (f : Callback)
      → (new env libuv f >>= λ req. submit env libuv lp req c (use_c_callback CCallback.uv_fs_cb f))
          w
        ≡ submit_spec env libuv lp c w f
  unfolding submit_spec
  submit_lem c f = elim (Bool-cases (env.alloc w.heap uv_fs_t == null)) [
    | inl gone ↦ rw (new-null f gone, gone)
    | inr got ↦ rw (new-got f (ne_of_test got), got) (submit-got f (ne_of_test got) c)
  ]

  pub sync_lem :
      {A : Type 0} (c : FsCall) (finish : FsReq → Eff A) (read : Fields → Result A)
      → Finishes finish read
      → (new env libuv Callback.nil >>= (λ req. submit env libuv lp req c none) >>= finish) w
        ≡ sync_spec env libuv lp c w read
  unfolding sync_spec submit_spec
  sync_lem c finish read ends = elim (Bool-cases (env.alloc w.heap uv_fs_t == null)) [
    | inl gone ↦ rw (submit_lem c Callback.nil) (simp gone)
    | inr got ↦
        rw (submit_lem c Callback.nil, got)
          (elim (Bool-cases (is_neg (reply env libuv lp c w Callback.nil).0)) [
            | inl bad ↦ simp bad
            | inr good ↦ rw (
              good,
              ends (submitted env libuv lp c w Callback.nil) _ _ _
                  (owned Callback.nil (ne_of_test got) (reply env libuv lp c w Callback.nil).1),
              erase-new_heap env uv_fs_t w (fs_data Callback.nil)
                  (reply env libuv lp c w Callback.nil).1,
            )
          ])
  ]
