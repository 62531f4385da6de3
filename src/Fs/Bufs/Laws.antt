-- ===== src/Fs/Bufs/Laws.antt =====
-- src/fs/mod.rs: what reading and writing with several buffers leaves in memory.
use libuv_rs.Common.{
  ℕ, List, ◌∷◌, ◌≡◌, ◌≢◌, ap, inl, inr, true, false, none, Bool-cases, if◌then◌else◌, ◌==◌, length,
}
use libuv_rs.Common.Int.{ℤ, is_neg}
use libuv_rs.Error.{Error, from_inner as error_from_inner}
use libuv_rs.Memory.{Ptr, null, nil, fs_data, Fields, uv_fs_t, buf_vec, UvBuf}
use libuv_rs.Memory.Effect.{
  Eff, ◌>>=◌, Env, World, Run, fails, IsAllocator, Result, give_back, uv, status_of,
}
use libuv_rs.Memory.Laws.{ne_of_test}
use libuv_rs.BufVec.{bufs_into_inner, dangling}
use libuv_rs.Req.Owned.{new_ptr, new_heap, new_request-Owned, erase-new_heap}
use libuv_rs.Memory.Frame.{Boxed-cons, erase-beside}
use libuv_rs.Req.Fs.{FsReq, FsCall, Uv, new, uv_fs_read, uv_fs_write}
use libuv_rs.Fs.{submit}
use libuv_rs.Fs.Laws.{Finishes, new-null, new-got}
use libuv_rs.Fs.Submit.{submit_finish}
use libuv_rs.Fs.Finish.{destroy_req_return_result_lem}
use libuv_rs.Fs.Bufs.{fs_read_sync, fs_write_sync}

module _ (env : Env) (libuv : Uv) (lp : Ptr) (bufs : List UvBuf) (w : World) where
  -- The address of the array, and the state in which nothing but the array is new.
  abbrev pub array : Ptr
  array = env.box_new (new_heap env uv_fs_t w (fs_data nil) env.garbage)

  abbrev pub array_ptr : Ptr
  array_ptr = if env.capacity (length bufs) == 0 then dangling else array

  abbrev pub array_left : World
  array_left =
      if env.capacity (length bufs) == 0
      then w
      else record w { heap = (array, buf_vec (env.capacity (length bufs)) bufs) ∷ w.heap }

  abbrev pub vec_reply : (Ptr → ℕ → FsCall) → ℤ × Fields
  vec_reply c = libuv.uv_fs lp (c array_ptr (length bufs)) none env.garbage

  vec_reply-empty :
      (c : Ptr → ℕ → FsCall)
      → (env.capacity (length bufs) == 0) ≡ true
      → vec_reply c ≡ libuv.uv_fs lp (c dangling (length bufs)) none env.garbage
  vec_reply-empty c empty =
      ap (λ b. libuv.uv_fs lp (c (if b then dangling else array) (length bufs)) none env.garbage)
        empty

  vec_reply-full :
      (c : Ptr → ℕ → FsCall)
      → (env.capacity (length bufs) == 0) ≡ false
      → vec_reply c ≡ libuv.uv_fs lp (c array (length bufs)) none env.garbage
  vec_reply-full c full =
      ap (λ b. libuv.uv_fs lp (c (if b then dangling else array) (length bufs)) none env.garbage)
        full

  unfoldable pub vec_spec : {A : Type 0} → (Ptr → ℕ → FsCall) → (Fields → Result A) → Run A
  vec_spec c read =
      if new_ptr env uv_fs_t w == null
      then fails (uv Error.enomem) w
      else if is_neg (vec_reply c).0
      then fails (uv (error_from_inner env.errno (vec_reply c).0)) array_left
      else give_back (read (vec_reply c).1) array_left

module _ (env : Env) (law : IsAllocator env) (libuv : Uv) (lp : Ptr) (bufs : List UvBuf)
    (w : World) where
  module _ {A : Type 0} (c : Ptr → ℕ → FsCall) (finish : FsReq → Eff A) (read : Fields → Result A)
      (ends : Finishes finish read) where
    abbrev with_vec : FsReq → Eff FsReq
    with_vec req = bufs_into_inner env bufs >>= λ t. submit env libuv lp req (c t.0 t.1) none

    vec-got :
        (got : env.alloc w.heap uv_fs_t ≢ null)
        → (with_vec (record { req = new_ptr env uv_fs_t w }) >>= finish)
            (record w { heap = new_heap env uv_fs_t w (fs_data nil) env.garbage })
          ≡ (if is_neg (vec_reply env libuv lp bufs w c).0
              then fails
                  (uv (error_from_inner env.errno (vec_reply env libuv lp bufs w c).0))
                  (array_left env libuv lp bufs w)
              else give_back
                  (read (vec_reply env libuv lp bufs w c).1)
                  (array_left env libuv lp bufs w))
    unfolding bufs_into_inner
    vec-got got = elim (Bool-cases (env.capacity (length bufs) == 0)) [
      | inl empty ↦
          rw (vec_reply-empty env libuv lp bufs w c empty, empty)
            (simp (
              erase-new_heap,
              submit_finish env libuv lp _
                  (new_request-Owned env law uv_fs_t (fs_data nil) w got env.garbage) _ finish read
                  ends,
            ))
      | inr full ↦
          rw (vec_reply-full env libuv lp bufs w c full, full)
            (simp (
              erase-new_heap,
              erase-beside (new_request-Owned env law uv_fs_t (fs_data nil) w got env.garbage)
                  (array env libuv lp bufs w) (buf_vec (env.capacity (length bufs)) bufs)
                  (law.box_fresh _),
              submit_finish env libuv lp _
                  (Boxed-cons (new_request-Owned env law uv_fs_t (fs_data nil) w got env.garbage)
                    (array env libuv lp bufs w) (buf_vec (env.capacity (length bufs)) bufs)
                    (law.box_fresh _))
                  _ finish read ends,
            ))
    ]

    pub vec_lem :
        (new env libuv nil >>= with_vec >>= finish) w ≡ vec_spec env libuv lp bufs w c read
    unfolding vec_spec
    vec_lem = elim (Bool-cases (env.alloc w.heap uv_fs_t == null)) [
      | inl gone ↦ simp (new-null env law libuv lp w nil gone, gone)
      | inr got ↦
          rw (new-got env law libuv lp w nil (ne_of_test got), got) (vec-got (ne_of_test got))
    ]

  -- fs_read_sync gives the result of the libuv call on the buffers, or its error, and frees its
  -- request; but whenever the request was allocated and the array of buffers has a capacity, the
  -- array stays in memory, on success and on error.
  pub fs_read_sync_lem :
      (file offset : ℤ)
      → fs_read_sync env libuv lp file bufs offset w
        ≡ vec_spec env libuv lp bufs w
            (λ p n. uv_fs_read file p n offset)
            (λ g. status_of env g.result)
  unfolding fs_read_sync
  fs_read_sync_lem file offset =
      vec_lem (λ p n. uv_fs_read file p n offset) _ _ (destroy_req_return_result_lem env libuv)

  -- fs_write_sync gives the result of the libuv call on the buffers, or its error, and frees its
  -- request; but whenever the request was allocated and the array of buffers has a capacity, the
  -- array stays in memory, on success and on error.
  pub fs_write_sync_lem :
      (file offset : ℤ)
      → fs_write_sync env libuv lp file bufs offset w
        ≡ vec_spec env libuv lp bufs w
            (λ p n. uv_fs_write file p n offset)
            (λ g. status_of env g.result)
  unfolding fs_write_sync
  fs_write_sync_lem file offset =
      vec_lem (λ p n. uv_fs_write file p n offset) _ _ (destroy_req_return_result_lem env libuv)
