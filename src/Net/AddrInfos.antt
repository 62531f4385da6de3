-- ===== src/Net/AddrInfos.antt =====
-- src/net/addrinfo.rs: the conversions of `AddrInfo`, and the list that libuv answers with.
pub mod Laws
pub mod Lists
use libuv_rs.Common.{
  ℕ, zero, suc, ◌+◌, ◌-◌, ◌%◌, ◌^◌, ◌==◌, Option, none, some, List, [], ◌∷◌, length, if◌then◌else◌,
}
use libuv_rs.Common.Int.{ℤ, pos, negsuc}
use libuv_rs.Memory.{Ptr, null, Block, UvAddrInfo, addr_info}
use libuv_rs.Memory.Effect.{
  World, Fault, Eff, pure, crash, ◌>>=◌, ◌>>◌, attempt, Result, ok, err, Env, load, release,
}
use libuv_rs.Fs.{as_i32}
use libuv_rs.Net.{SocketAddr, AddrInfo}
use libuv_rs.Socket.Address.{UvAddress, build_socketaddr}

-- `i32 as u32`.
unfoldable pub as_u32 : ℤ → ℕ
as_u32 (pos n) = n % 2 ^ 32
as_u32 (negsuc n) = 2 ^ 32 - 1 - n % 2 ^ 32

-- `IntoInner<addrinfo>`: the rest is zeroed.
unfoldable pub into_addrinfo : AddrInfo → UvAddrInfo
unfolding as_i32
into_addrinfo info = record {
  ai_flags = as_i32 info.flags;
  ai_family = as_i32 info.family;
  ai_socktype = as_i32 info.socktype;
  ai_protocol = as_i32 info.protocol;
  ai_canonname = none;
  ai_addr = none;
  ai_next = null;
}

abbrev pub as_addr_info : Block → Eff UvAddrInfo
as_addr_info (addr_info a) = pure a
as_addr_info _ = crash Fault.wrong_block

-- `*info`.
unfoldable pub load_addr_info : Ptr → Eff UvAddrInfo
unfolding load
load_addr_info p = do b ← load p; as_addr_info b

abbrev pub result_ok : Result SocketAddr → Option SocketAddr
result_ok (ok a) = some a
result_ok (err e) = none

module _ (env : Env) (address : UvAddress) where
  -- `build_socketaddr((*info).ai_addr).ok()`, unless the pointer is null.
  unfoldable pub addr_ok : Option (List ℕ) → Eff (Option SocketAddr)
  addr_ok none = pure none
  addr_ok (some sockaddr) = do
    r ← attempt (build_socketaddr env address sockaddr)
    pure (result_ok r)

  -- `FromInner<*mut addrinfo> for AddrInfo`, once the node is read.
  unfoldable pub from_addrinfo : UvAddrInfo → Eff AddrInfo
  unfolding as_u32
  from_addrinfo info = do
    addr ← addr_ok info.ai_addr
    pure (record {
      flags = as_u32 info.ai_flags;
      family = as_u32 info.ai_family;
      socktype = as_u32 info.ai_socktype;
      protocol = as_u32 info.ai_protocol;
      canonical_name = info.ai_canonname;
      addr = addr;
    })

  -- The loop `while !current.is_null()`, with fuel.
  unfoldable pub collect : (fuel : ℕ) → Ptr → Eff (List AddrInfo)
  unfolding load_addr_info
  collect zero current = crash Fault.endless
  collect (suc fuel) current = if current == null then pure [] else (do
    node ← load_addr_info current
    info ← from_addrinfo node
    infos ← collect fuel node.ai_next
    pure (info ∷ infos))

  -- `FromInner<*mut addrinfo> for Vec<AddrInfo>`: a list that has more nodes than there are live
  -- blocks comes back to one of them.
  unfoldable pub from_list : Ptr → Eff (List AddrInfo)
  from_list info w = collect (length w.heap + 1) info w

-- `uv_freeaddrinfo`, which gives every node back.
unfoldable pub free_nodes : (fuel : ℕ) → Ptr → Eff (Unit {0})
unfolding load_addr_info release
free_nodes zero current = crash Fault.endless
free_nodes (suc fuel) current =
    if current == null
    then pure tt
    else (do node ← load_addr_info current; release current; free_nodes fuel node.ai_next)

unfoldable pub uv_freeaddrinfo : Ptr → Eff (Unit {0})
uv_freeaddrinfo info w = free_nodes (length w.heap + 1) info w
