-- ===== src/Fs/Lifecycle.antt =====
-- A request with a callback, from its submission to its report.
use libuv_rs.Common.{ℕ, ◌≡◌, ◌≢◌, refl, false, none, List, ==_ne, ◌∙◌}
use libuv_rs.Common.Int.{ℤ, is_neg}
use libuv_rs.Memory.{Ptr, null, Callback, cb, scandir_cb, Fields, fs_data, uv_fs_t}
use libuv_rs.Memory.Effect.{Env, World, done, fault, Fault, note, has_nul, IsAllocator}
use libuv_rs.Req.Owned.{new_ptr, new_heap, new_request-Owned, erase-new_heap}
use libuv_rs.Req.Fs.{FsCall, Uv, uv_fs_cb, uv_fs_scandir}
use libuv_rs.Req.Fs.Laws.{uv_fs_cb-Owned, uv_fs_cb-scandir}
use libuv_rs.Fs.Spec.{submitted, submit_spec, reply, by_text}
use libuv_rs.Fs.Laws.{submit_lem}
use libuv_rs.Fs.Scandir.{fs_scandir, do_fs_scandir}

module _ (env : Env) (law : IsAllocator env) (libuv : Uv) (lp : Ptr) (c : FsCall) (w : World)
    (n : ℕ) (got : env.alloc w.heap uv_fs_t ≢ null) where
  -- The state when libuv reports: it has filled in the request.
  abbrev pub reported : Callback → Fields → World
  reported f g = record (submitted env libuv lp c w f) {
    heap = new_heap env uv_fs_t w (fs_data f) g;
  }

  -- When libuv reports a request that was made with a closure, with any fields, the C callback
  -- calls that closure exactly once on that request and returns the memory to what it was before
  -- the request was made.
  pub uv_fs_cb-reported :
      (g : Fields)
      → uv_fs_cb env libuv (new_ptr env uv_fs_t w) (reported (cb n) g)
        ≡ done tt (record (submitted env libuv lp c w (cb n)) {
          heap = w.heap;
          log = note n (new_ptr env uv_fs_t w) none w.log;
        })
  uv_fs_cb-reported g = rw (
    uv_fs_cb-Owned env libuv (reported (cb n) g)
        (new_request-Owned env law uv_fs_t (fs_data (cb n)) w got g) n refl,
    erase-new_heap env uv_fs_t w (fs_data (cb n)) g,
  )

  pub uv_fs_cb-reported_scandir :
      (g : Fields)
      → uv_fs_cb env libuv (new_ptr env uv_fs_t w) (reported (scandir_cb n) g)
        ≡ fault Fault.dangling_pointer
  uv_fs_cb-reported_scandir g =
      uv_fs_cb-scandir env libuv (reported (scandir_cb n) g)
        (new_request-Owned env law uv_fs_t (fs_data (scandir_cb n)) w got g) n refl

module _ (env : Env) (law : IsAllocator env) (libuv : Uv) (lp : Ptr) (w : World) where
  -- An accepted fs_scandir with a closure, when libuv reports it, makes the C callback follow a
  -- dangling pointer: the iterator given to the closure frees the request when it is dropped, and
  -- the callback destroys it again.
  pub fs_scandir-uv_fs_cb :
      (path : List ℕ) (flags : ℤ) (n : ℕ) (g : Fields) (got : env.alloc w.heap uv_fs_t ≢ null)
      → has_nul path ≡ false
      → is_neg (reply env libuv lp (uv_fs_scandir path flags) w (scandir_cb n)).0 ≡ false
      → (fs_scandir env libuv lp path flags n w
          ≡ done
              (record { req = new_ptr env uv_fs_t w })
              (submitted env libuv lp (uv_fs_scandir path flags) w (scandir_cb n)))
        × (uv_fs_cb env libuv
              (new_ptr env uv_fs_t w)
              (reported env law libuv lp (uv_fs_scandir path flags) w n got (scandir_cb n) g)
            ≡ fault Fault.dangling_pointer)
  unfolding fs_scandir do_fs_scandir submit_spec
  fs_scandir-uv_fs_cb path flags n g got text good = (
    by_text path w _ (submit_lem env law libuv lp w (uv_fs_scandir path flags) (scandir_cb n))
        ∙ rw (text, ==_ne (new_ptr env uv_fs_t w) null got, good) refl,
    uv_fs_cb-reported_scandir env law libuv lp (uv_fs_scandir path flags) w n got g,
  )
