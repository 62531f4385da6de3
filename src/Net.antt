-- ===== src/Net.antt =====
-- `std::net::SocketAddr`, and `AddrInfo` of src/net/addrinfo.rs.
pub mod AddrInfos
pub mod Interfaces
use libuv_rs.Common.{ℕ, Option, List}

-- An address with its text as `to_string` prints it.
pub data SocketAddr : Type 0 where
  v4 : (ip : List ℕ) (port : ℕ) → SocketAddr
  v6 : (ip : List ℕ) (port flowinfo scope_id : ℕ) → SocketAddr

pub record AddrInfo : Type 0 where
  pub flags : ℕ
  pub family : ℕ
  pub socktype : ℕ
  pub protocol : ℕ
  pub canonical_name : Option (List ℕ)
  pub addr : Option SocketAddr
