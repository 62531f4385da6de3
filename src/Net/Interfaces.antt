-- ===== src/Net/Interfaces.antt =====
-- src/net/misc.rs: the addresses of the network interfaces.
use libuv_rs.Common.{ℕ, Bool, List, [], ◌∷◌, not, map, ◌≡◌, refl}
use libuv_rs.Common.Int.{ℤ, pos, ◌==ℤ◌}
use libuv_rs.Memory.Effect.{
  World, Eff, pure, ◌>>=◌, ◌>>◌, and_then, give_back, Result, ok, err, Env, ask, uvret,
}
use libuv_rs.Socket.{SocketAddr}
use libuv_rs.Socket.Address.{UvAddress, build_socketaddr}
use libuv_rs.Net.AddrInfos.Laws.{built, build_socketaddr_lem}

-- `uv_interface_address_t`.
pub record UvInterfaceAddress : Type 0 where
  pub uv_interface_name : List ℕ
  pub phys_addr : List ℕ
  pub uv_is_internal : ℤ
  pub uv_address : List ℕ
  pub uv_netmask : List ℕ

pub record InterfaceAddress : Type 0 where
  pub interface_name : List ℕ
  pub physical_address : List ℕ
  pub is_internal : Bool
  pub address : SocketAddr
  pub netmask : SocketAddr

module _ (env : Env) (layout : UvAddress) where
  unfoldable pub interface_address : UvInterfaceAddress → Eff InterfaceAddress
  interface_address addr = do
    address ← build_socketaddr env layout addr.uv_address
    netmask ← build_socketaddr env layout addr.uv_netmask
    pure (record {
      interface_name = addr.uv_interface_name;
      physical_address = addr.phys_addr;
      is_internal = not (addr.uv_is_internal ==ℤ pos 0);
      address = address;
      netmask = netmask;
    })

  -- `collect` into a result: the first error ends it.
  unfoldable pub collect_all : List UvInterfaceAddress → Eff (List InterfaceAddress)
  collect_all [] = pure []
  collect_all (addr ∷ addrs) = do
    first ← interface_address addr
    rest ← collect_all addrs
    pure (first ∷ rest)

  -- `uv_free_interface_addresses` gives the array of libuv back, after it is copied or refused.
  unfoldable pub interface_addresses :
      (World → ℤ × List UvInterfaceAddress) → Eff (List InterfaceAddress)
  unfolding ask uvret collect_all
  interface_addresses uv_interface_addresses = do
    answer ← ask uv_interface_addresses
    uvret env answer.0
    collect_all answer.1

-- The interface with both addresses read, or the first reason why not.
module _ (env : Env) (layout : UvAddress) where
  abbrev with_netmask :
      UvInterfaceAddress → SocketAddr → Result SocketAddr → Result InterfaceAddress
  with_netmask addr a (ok m) = ok (record {
    interface_name = addr.uv_interface_name;
    physical_address = addr.phys_addr;
    is_internal = not (addr.uv_is_internal ==ℤ pos 0);
    address = a;
    netmask = m;
  })
  with_netmask addr a (err e) = err e

  abbrev with_address : UvInterfaceAddress → Result SocketAddr → Result InterfaceAddress
  with_address addr (ok a) = with_netmask addr a (built env layout addr.uv_netmask)
  with_address addr (err e) = err e

  abbrev pub interface_of : UvInterfaceAddress → Result InterfaceAddress
  interface_of addr = with_address addr (built env layout addr.uv_address)

  interface_address_lem :
      (addr : UvInterfaceAddress) (w : World)
      → interface_address env layout addr w ≡ give_back (interface_of addr) w
  unfolding interface_address
  interface_address_lem addr w =
      rw (build_socketaddr_lem env layout addr.uv_address w)
        (by_address (built env layout addr.uv_address))
    where
      by_netmask :
          (a : SocketAddr) (r : Result SocketAddr)
          → and_then (give_back r w) (λ m. pure (record {
            interface_name = addr.uv_interface_name;
            physical_address = addr.phys_addr;
            is_internal = not (addr.uv_is_internal ==ℤ pos 0);
            address = a;
            netmask = m;
          }))
            ≡ give_back (with_netmask addr a r) w
      by_netmask a (ok m) = refl
      by_netmask a (err e) = refl

      by_address :
          (r : Result SocketAddr)
          → and_then (give_back r w) (λ a. do
            m ← build_socketaddr env layout addr.uv_netmask
            pure (record {
              interface_name = addr.uv_interface_name;
              physical_address = addr.phys_addr;
              is_internal = not (addr.uv_is_internal ==ℤ pos 0);
              address = a;
              netmask = m;
            }))
            ≡ give_back (with_address addr r) w
      by_address (ok a) =
          rw (build_socketaddr_lem env layout addr.uv_netmask w)
            (by_netmask a (built env layout addr.uv_netmask))
      by_address (err e) = refl

  abbrev cons_ok :
      InterfaceAddress → Result (List InterfaceAddress) → Result (List InterfaceAddress)
  cons_ok a (ok rest) = ok (a ∷ rest)
  cons_ok a (err e) = err e

  -- All of them in order, or the first reason.
  abbrev pub all_ok : List (Result InterfaceAddress) → Result (List InterfaceAddress)
  all_ok [] = ok []
  all_ok (ok a ∷ rest) = cons_ok a (all_ok rest)
  all_ok (err e ∷ rest) = err e

  pub collect_all_lem :
      (addrs : List UvInterfaceAddress) (w : World)
      → collect_all env layout addrs w ≡ give_back (all_ok (map interface_of addrs)) w
  unfolding collect_all
  collect_all_lem [] w = refl
  collect_all_lem (addr ∷ addrs) w =
      rw (interface_address_lem addr w) (by_first (collect_all_lem addrs w) (interface_of addr))
    where
      by_rest :
          (a : InterfaceAddress) (r : Result (List InterfaceAddress))
          → and_then (give_back r w) (λ rest. pure (a ∷ rest)) ≡ give_back (cons_ok a r) w
      by_rest a (ok rest) = refl
      by_rest a (err e) = refl

      by_first :
          collect_all env layout addrs w ≡ give_back (all_ok (map interface_of addrs)) w
          → (r : Result InterfaceAddress)
          → and_then (give_back r w) (λ a. collect_all env layout addrs >>= λ rest. pure (a ∷ rest))
            ≡ give_back (all_ok (r ∷ map interface_of addrs)) w
      by_first later (ok a) = rw later (by_rest a (all_ok (map interface_of addrs)))
      by_first later (err e) = refl
