-- ===== src/Req/GetNameInfo.antt =====
-- src/requests/getnameinfo.rs: the names of an address. The request holds both texts.
pub mod Laws
use libuv_rs.Common.{ℕ, Option, some, none, not, ◌==◌, List}
use libuv_rs.Common.Int.{ℤ}
use libuv_rs.Memory.{
  Ptr, null, uv_getnameinfo_t, Callback, nil, CCallback, ReqData, get_name_info_data, Fields,
  struct,
}
use libuv_rs.Memory.Effect.{
  World, Eff, pure, crash, Fault, ◌>>=◌, ◌>>◌, attempt, is_err, when, Env, status_of, call_with,
  uvret, owe, use_c_callback, ask, load_struct, store, Args,
}
use libuv_rs.Req.{new_request, get_data, load_data, destroy_request}
use libuv_rs.Fs.{map_ok}
use libuv_rs.Socket.{SocketAddr, UvSocket, fill_sockaddr}

-- The code, and the fields that libuv leaves: with a callback they may change later.
pub record UvNameInfo : Type 0 where
  pub uv_getnameinfo :
      World → (lp : Ptr) → Option CCallback → (addr : List ℕ) (flags : ℕ) → Fields → ℤ × Fields

unfoldable pub destroy : Ptr → Eff (Unit {0})
unfolding destroy_request
destroy req = destroy_request req uv_getnameinfo_t

module _ (env : Env) where
  unfoldable pub new : Callback → Eff Ptr
  unfolding new_request
  new f = new_request env uv_getnameinfo_t (get_name_info_data f)

  -- libuv passes null pointers for the names where the status is an error.
  abbrev pub name_text : Option (List ℕ) → Eff (List ℕ)
  name_text (some s) = pure s
  name_text none = crash Fault.null_pointer

  abbrev pub run_name_data :
      ℤ → (hostname service : Option (List ℕ)) → Ptr → ReqData → Eff (Unit {0})
  unfolding status_of call_with
  run_name_data status hostname service req (get_name_info_data f) = do
    host ← name_text hostname
    serv ← name_text service
    call_with f req (some (status_of env status)) (Args.name_args host serv)
  run_name_data status hostname service req _ = pure tt

  unfoldable pub uv_getnameinfo_cb : Ptr → ℤ → (hostname service : Option (List ℕ)) → Eff (Unit {0})
  unfolding get_data load_data run_name_data destroy
  uv_getnameinfo_cb req status hostname service = do
    dataptr ← get_data req
    when (not (dataptr == null)) (load_data dataptr >>= run_name_data status hostname service req)
    destroy req

  module _ (sockets : UvSocket) (libuv : UvNameInfo) (lp : Ptr) where
    -- The call of libuv on the new request.
    unfoldable pub ask_names : Ptr → Option CCallback → List ℕ → ℕ → Eff ℤ
    unfolding load_struct ask store
    ask_names req uv_cb sockaddr flags = do
      (l, s) ← load_struct req
      answer ← ask (λ w. libuv.uv_getnameinfo w lp uv_cb sockaddr flags s.fields)
      store req (struct l (record s { fields = answer.1 }))
      pure answer.0

    unfoldable pub do_getnameinfo : SocketAddr → ℕ → Callback → Eff Ptr
    unfolding fill_sockaddr ask_names uvret
    do_getnameinfo addr flags f = do
      sockaddr ← fill_sockaddr env sockets sockets.size_of_sockaddr addr
      let uv_cb = use_c_callback CCallback.uv_getnameinfo_cb f
      req ← new f
      code ← ask_names req uv_cb sockaddr flags
      owe req uv_cb code
      result ← attempt (uvret env code)
      when (is_err result) (destroy req)
      map_ok req result

    unfoldable pub getnameinfo : SocketAddr → ℕ → Callback → Eff Ptr
    unfolding do_getnameinfo
    getnameinfo addr flags f = do_getnameinfo addr flags f

    unfoldable pub getnameinfo_sync : SocketAddr → ℕ → Eff (List ℕ × List ℕ)
    unfolding do_getnameinfo load_struct
    getnameinfo_sync addr flags = do
      req ← do_getnameinfo addr flags nil
      (_, s) ← load_struct req
      destroy req
      pure (s.fields.host, s.fields.service)
