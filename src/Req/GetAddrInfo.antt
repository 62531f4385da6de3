-- ===== src/Req/GetAddrInfo.antt =====
-- src/requests/getaddrinfo.rs: the addresses of a name. libuv answers with a list that it allocates:
-- the callback gets it, and a call without a callback finds it in the request.
pub mod Laws
use libuv_rs.Common.{ℕ, Option, some, none, not, ◌==◌, List, [], ◌∷◌, ◌++◌, map}
use libuv_rs.Common.Int.{ℤ}
use libuv_rs.Memory.{
  Ptr, null, uv_getaddrinfo_t, Callback, nil, CCallback, ReqData, get_addr_info_data, Fields,
  struct, UvAddrInfo, Block, addr_info,
}
use libuv_rs.Memory.Effect.{
  World, Eff, done, pure, ◌>>=◌, ◌>>◌, attempt, is_err, when, Env, status_of, call_with, uvret, owe,
  use_c_callback, ask, load_struct, store, Args, c_string_new,
}
use libuv_rs.Req.{new_request, get_data, load_data, destroy_request}
use libuv_rs.Fs.{map_ok}
use libuv_rs.Net.{AddrInfo}
use libuv_rs.Net.AddrInfos.{into_addrinfo, from_list, uv_freeaddrinfo}
use libuv_rs.Socket.Address.{UvAddress}

-- What libuv answers: the code, the fields that it leaves, and the nodes that it allocates at once,
-- which is so only without a callback.
pub record AddrAnswer : Type 0 where
  pub code : ℤ
  pub left : Fields
  pub nodes : List (Ptr × UvAddrInfo)

pub record UvAddrInfoCall : Type 0 where
  pub uv_getaddrinfo :
      World
      → (lp : Ptr) → Option CCallback
      → (node service : Option (List ℕ)) → (hints : Option UvAddrInfo) → Fields
      → AddrAnswer

unfoldable pub destroy : Ptr → Eff (Unit {0})
unfolding destroy_request
destroy req = destroy_request req uv_getaddrinfo_t

abbrev pub node_block : Ptr × UvAddrInfo → Ptr × Block
node_block (p, a) = (p, addr_info a)

-- The new blocks of libuv.
unfoldable pub allocated : List (Ptr × UvAddrInfo) → Eff (Unit {0})
allocated nodes w = done tt (record w { heap = map node_block nodes ++ w.heap })

abbrev pub optional_text : Option (List ℕ) → Eff (Option (List ℕ))
optional_text none = pure none
optional_text (some text) = do s ← c_string_new text; pure (some s)

abbrev pub optional_hints : Option AddrInfo → Option UvAddrInfo
optional_hints none = none
optional_hints (some h) = some (into_addrinfo h)

module _ (env : Env) where
  unfoldable pub new : Callback → Eff Ptr
  unfolding new_request
  new f = new_request env uv_getaddrinfo_t (get_addr_info_data f)

  module _ (address : UvAddress) where
    abbrev pub run_addr_data : ℤ → (res : Ptr) → Ptr → ReqData → Eff (Unit {0})
    unfolding status_of call_with
    run_addr_data status res req (get_addr_info_data f) = do
      infos ← from_list env address res
      call_with f req (some (status_of env status)) (Args.addr_args infos)
    run_addr_data status res req _ = pure tt

    unfoldable pub uv_getaddrinfo_cb : Ptr → ℤ → (res : Ptr) → Eff (Unit {0})
    unfolding get_data load_data run_addr_data destroy
    uv_getaddrinfo_cb req status res = do
      dataptr ← get_data req
      when (not (dataptr == null)) (load_data dataptr >>= run_addr_data status res req)
      destroy req
      uv_freeaddrinfo res

    -- The list that the request holds.
    unfoldable pub addrinfos : Ptr → Eff (List AddrInfo)
    unfolding load_struct
    addrinfos req = do (_, s) ← load_struct req; from_list env address s.fields.addrinfo

  module _ (libuv : UvAddrInfoCall) (lp : Ptr) where
    -- The call of libuv on the new request.
    unfoldable pub ask_addresses :
        Ptr → Option CCallback → (node service : Option (List ℕ)) → Option AddrInfo → Eff ℤ
    unfolding load_struct ask store allocated
    ask_addresses req uv_cb node service hints = do
      (l, s) ← load_struct req
      answer ←
          ask (λ w. libuv.uv_getaddrinfo w lp uv_cb node service (optional_hints hints) s.fields)
      store req (struct l (record s { fields = answer.left }))
      allocated answer.nodes
      pure answer.code

    unfoldable pub do_getaddrinfo :
        (node service : Option (List ℕ)) → Option AddrInfo → Callback → Eff Ptr
    unfolding ask_addresses uvret
    do_getaddrinfo node service hints f = do
      let uv_cb = use_c_callback CCallback.uv_getaddrinfo_cb f
      node_text ← optional_text node
      service_text ← optional_text service
      req ← new f
      code ← ask_addresses req uv_cb node_text service_text hints
      owe req uv_cb code
      result ← attempt (uvret env code)
      when (is_err result) (destroy req)
      map_ok req result

    unfoldable pub getaddrinfo :
        (node service : Option (List ℕ)) → Option AddrInfo → Callback → Eff Ptr
    unfolding do_getaddrinfo
    getaddrinfo node service hints f = do_getaddrinfo node service hints f

    unfoldable pub getaddrinfo_sync :
        UvAddress → (node service : Option (List ℕ)) → Option AddrInfo → Eff (List AddrInfo)
    unfolding do_getaddrinfo addrinfos
    getaddrinfo_sync address node service hints = do
      req ← do_getaddrinfo node service hints nil
      addrinfos address req
