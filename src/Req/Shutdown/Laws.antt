-- ===== src/Req/Shutdown/Laws.antt =====
-- src/requests/shutdown.rs: making a request, reporting it and destroying it.
use libuv_rs.Common.{ℕ, ◌≡◌, ◌≢◌, ◌==◌, true, some, ==_refl, ==_ne}
use libuv_rs.Common.Int.{ℤ}
use libuv_rs.Error.{Error}
use libuv_rs.Memory.{Ptr, null, uv_shutdown_t, Callback, cb, shutdown_data, Fields, erase}
use libuv_rs.Memory.Effect.{Env, IsAllocator, World, done, fails, uv, note, status_of}
use libuv_rs.Memory.Laws.{lookup-erase_ne, erase-update}
use libuv_rs.Req.Owned.{
  Owned, lookup-freed, new_ptr, new_heap, new_request-null, new_request-done, destroy_request-Owned,
}
use libuv_rs.Req.Shutdown.{new, destroy, uv_shutdown_cb}

module _ (env : Env) (f : Callback) (w : World) where
  pub new-null :
      (new_ptr env uv_shutdown_t w == null) ≡ true → new env f w ≡ fails (uv Error.enomem) w
  unfolding new
  new-null gone = new_request-null env uv_shutdown_t (shutdown_data f) w gone

  pub new-done :
      IsAllocator env
      → new_ptr env uv_shutdown_t w ≢ null
      → new env f w
        ≡ done
            (new_ptr env uv_shutdown_t w)
            (record w { heap = new_heap env uv_shutdown_t w (shutdown_data f) env.garbage })
  unfolding new
  new-done law got = new_request-done env law uv_shutdown_t (shutdown_data f) w got

pub destroy-Owned :
    {p q : Ptr} {f : Callback} {g : Fields} (w : World)
    → Owned w.heap uv_shutdown_t p q (shutdown_data f) g
    → destroy p w ≡ done tt (record w { heap = erase p (erase q w.heap) })
unfolding destroy
destroy-Owned w o = destroy_request-Owned w o

pub uv_shutdown_cb-Owned :
    (env : Env) {p q : Ptr} {n : ℕ} {g : Fields} (w : World) (status : ℤ)
    → Owned w.heap uv_shutdown_t p q (shutdown_data (cb n)) g
    → uv_shutdown_cb env p status w
      ≡ done tt (record w {
        heap = erase p (erase q w.heap);
        log = note n p (some (status_of env status)) w.log;
      })
unfolding uv_shutdown_cb
uv_shutdown_cb-Owned env {p} {q} w status o = simp (
  ==_ne p null o.p_not_null,
  o.p_holds,
  ==_ne q null o.q_not_null,
  o.q_holds,
  lookup-erase_ne p q w.heap o.apart,
  lookup-freed w o,
  ==_refl,
  erase-update,
)
