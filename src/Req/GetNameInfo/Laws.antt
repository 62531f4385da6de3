-- ===== src/Req/GetNameInfo/Laws.antt =====
-- src/requests/getnameinfo.rs: the life of a request, and asking synchronously.
use libuv_rs.Common.{
  ℕ, ◌≡◌, ◌==◌, none, some, List, inl, inr, Bool-cases, if◌then◌else◌, ==_refl, ==_ne,
}
use libuv_rs.Common.Int.{ℤ, is_neg}
use libuv_rs.Error.{Error, from_inner as error_from_inner}
use libuv_rs.Memory.{
  Ptr, null, uv_getnameinfo_t, cb, nil, get_name_info_data, Fields, erase, lookup, update,
}
use libuv_rs.Memory.Effect.{
  Env, IsAllocator, World, Run, Fault, fault, done, fails, uv, note_args, status_of, Args, uvret,
  owe,
}
use libuv_rs.Memory.Laws.{lookup-erase_ne, erase-update, ne_of_test}
use libuv_rs.Memory.Boxed.{fresh_ne}
use libuv_rs.Req.Owned.{Owned, lookup-freed, new_ptr, new_box, new_heap}
use libuv_rs.Socket.{SocketAddr, UvSocket, fill_sockaddr}
use libuv_rs.Req.GetNameInfo.{UvNameInfo, new, destroy, uv_getnameinfo_cb, getnameinfo_sync}

pub uv_getnameinfo_cb-Owned :
    (env : Env) {p q : Ptr} {n : ℕ} {g : Fields} (w : World) (status : ℤ) (host service : List ℕ)
    → Owned w.heap uv_getnameinfo_t p q (get_name_info_data (cb n)) g
    → uv_getnameinfo_cb env p status (some host) (some service) w
      ≡ done tt (record w {
        heap = erase p (erase q w.heap);
        log = note_args n p (some (status_of env status)) (Args.name_args host service) w.log;
      })
unfolding uv_getnameinfo_cb
uv_getnameinfo_cb-Owned env {p} {q} w status host service o = simp (
  ==_ne p null o.p_not_null,
  o.p_holds,
  ==_ne q null o.q_not_null,
  o.q_holds,
  lookup-erase_ne p q w.heap o.apart,
  lookup-freed w o,
  ==_refl,
  erase-update,
)

-- Without the names, the callback follows a null pointer before the closure is called.
pub uv_getnameinfo_cb-null :
    (env : Env) {p q : Ptr} {n : ℕ} {g : Fields} (w : World) (status : ℤ)
    → Owned w.heap uv_getnameinfo_t p q (get_name_info_data (cb n)) g
    → uv_getnameinfo_cb env p status none none w ≡ fault Fault.null_pointer
unfolding uv_getnameinfo_cb
uv_getnameinfo_cb-null env {p} {q} w status o =
    simp (==_ne p null o.p_not_null, o.p_holds, ==_ne q null o.q_not_null, o.q_holds, ==_refl)

module _ (env : Env) (law : IsAllocator env) (sockets : UvSocket) (libuv : UvNameInfo) (lp : Ptr)
    (w : World) (addr : SocketAddr) (flags : ℕ) (sockaddr : List ℕ)
    (filled : fill_sockaddr env sockets sockets.size_of_sockaddr addr w ≡ done sockaddr w) where
  abbrev pub name_ptr : Ptr
  name_ptr = new_ptr env uv_getnameinfo_t w

  abbrev pub name_box : Ptr
  name_box = new_box env uv_getnameinfo_t w

  -- What libuv answers about the new request.
  abbrev pub name_answer : ℤ × Fields
  name_answer =
      libuv.uv_getnameinfo
        (record w { heap = new_heap env uv_getnameinfo_t w (get_name_info_data nil) env.garbage })
        lp none sockaddr flags env.garbage

  abbrev pub sync_spec : Run (List ℕ × List ℕ)
  sync_spec =
      if name_ptr == null
      then fails (uv Error.enomem) w
      else if is_neg name_answer.0
      then fails (uv (error_from_inner env.errno name_answer.0)) w
      else done (name_answer.1.host, name_answer.1.service) w

  pub getnameinfo_sync_lem : getnameinfo_sync env sockets libuv lp addr flags w ≡ sync_spec
  unfolding getnameinfo_sync new destroy uvret owe lookup update erase
  getnameinfo_sync_lem = elim (Bool-cases (name_ptr == null)) [
    | inl gone ↦ simp (filled, gone, ==_refl)
    | inr got ↦
        let box_ne = ==_ne name_box null (law.box_not_null _) in
        let apart = fresh_ne env uv_getnameinfo_t env.garbage w.heap law (ne_of_test got) in
        elim (Bool-cases (is_neg name_answer.0)) [
          | inl bad ↦ simp (filled, got, bad, ==_refl, box_ne, apart)
          | inr good ↦ simp (filled, got, good, ==_refl, box_ne, apart)
        ]
  ]
