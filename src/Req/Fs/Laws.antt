-- ===== src/Req/Fs/Laws.antt =====
-- What the operations on a file system request do to the memory.
use libuv_rs.Common.{ℕ, ◌≡◌, none, ==_refl, ==_ne}
use libuv_rs.Memory.{Ptr, null, Callback, cb, scandir_cb, fs_data, Fields, uv_fs_t, erase}
use libuv_rs.Memory.Effect.{Env, World, done, fault, Fault, note}
use libuv_rs.Memory.Laws.{lookup-erase_ne, erase-update, update-update}
use libuv_rs.Req.Owned.{Owned, lookup-freed, lookup-destroyed}
use libuv_rs.Req.Fs.{Uv, destroy, uv_fs_cb}

module _ (env : Env) (libuv : Uv) {p q : Ptr} {f : Callback} {fields : Fields} (w : World)
    (o : Owned w.heap uv_fs_t p q (fs_data f) fields) where
  pub destroy-Owned :
      destroy env libuv (record { req = p }) w
      ≡ done (record { req = null }) (record w { heap = erase p (erase q w.heap) })
  unfolding destroy
  destroy-Owned = simp (
    ==_ne p null o.p_not_null,
    o.p_holds,
    ==_ne q null o.q_not_null,
    o.q_holds,
    lookup-erase_ne p q w.heap o.apart,
    lookup-freed w o,
    update-update,
    ==_refl,
    erase-update,
  )

  pub uv_fs_cb-Owned :
      (n : ℕ)
      → f ≡ cb n
      → uv_fs_cb env libuv p w
        ≡ done tt (record w { heap = erase p (erase q w.heap); log = note n p none w.log })
  unfolding uv_fs_cb
  uv_fs_cb-Owned n e = simp (
    ==_ne p null o.p_not_null,
    o.p_holds,
    ==_ne q null o.q_not_null,
    o.q_holds,
    e,
    lookup-erase_ne p q w.heap o.apart,
    lookup-freed w o,
    update-update,
    ==_refl,
    erase-update,
  )

  -- The iterator has already destroyed the request when the C callback destroys it again.
  pub uv_fs_cb-scandir :
      (n : ℕ) → f ≡ scandir_cb n → uv_fs_cb env libuv p w ≡ fault Fault.dangling_pointer
  unfolding uv_fs_cb
  uv_fs_cb-scandir n e = simp (
    ==_ne p null o.p_not_null,
    o.p_holds,
    ==_ne q null o.q_not_null,
    o.q_holds,
    e,
    lookup-erase_ne p q w.heap o.apart,
    lookup-freed w o,
    update-update,
    ==_refl,
    erase-update,
    lookup-destroyed w o,
  )
