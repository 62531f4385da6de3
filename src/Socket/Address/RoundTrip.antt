-- ===== src/Socket/Address/RoundTrip.antt =====
-- src/inner.rs: an address survives being filled into a structure and read back.
use libuv_rs.Common.{
  ℕ, ◌^◌, ◌<◌, ◌≤◌, ltb, ◌≡◌, ◌≢◌, refl, true, false, Bool, some, List, arith, ==_refl, ==_ne,
  if◌then◌else◌,
}
use libuv_rs.Common.Int.{pos}
use libuv_rs.Memory.{Ptr}
use libuv_rs.Memory.Effect.{Env, World, done, has_nul}
use libuv_rs.Socket.{SocketAddr, v4, v6, UvSocket, fill_sockaddr}
use libuv_rs.Socket.Address.{
  UvAddress, swap_bytes, from_be, build_socketaddr, NameCall, UvNames, name_of,
}

no_less : (a b : ℕ) → b ≤ a → ltb a b ≡ false
no_less a b h = ground arith

-- Each of the two bytes comes back to its place.
pub swap_bytes_twice : (n : ℕ) → n < 2 ^ 16 → swap_bytes (swap_bytes n) ≡ n
unfolding swap_bytes
swap_bytes_twice n h = omega arith

-- `htons`, with which `uv_ip4_addr` and `uv_ip6_addr` write a port.
abbrev pub to_be : Bool → ℕ → ℕ
to_be little_endian n = if little_endian then swap_bytes n else n

from_be-to_be : (b : Bool) (n : ℕ) → n < 2 ^ 16 → from_be b (to_be b n) ≡ n
unfolding from_be
from_be-to_be true n h = swap_bytes_twice n h
from_be-to_be false n h = refl

-- What libuv and the standard library document, for the address `addr`: `uv_ip4_addr` accepts the
-- text, writes the family and the port in network byte order, `uv_ip4_name` prints a text that
-- parses to the address; likewise for version 6.
pub data Writes (s : UvSocket) (a : UvAddress) : SocketAddr → Type 0 where
  writes_v4 :
      {ip : List ℕ} {port : ℕ} (text : List ℕ)
      → has_nul ip ≡ false
      → (s.uv_ip4_addr ip port).0 ≡ pos 0
      → a.sa_family (s.uv_ip4_addr ip port).1 ≡ a.af_inet
      → a.sin_port (s.uv_ip4_addr ip port).1 ≡ to_be a.little_endian port
      → a.uv_ip4_name (s.uv_ip4_addr ip port).1 16 ≡ (pos 0, text)
      → a.parse_v4 text ≡ some ip
      → port < 2 ^ 16
      → Writes s a (v4 ip port)
  writes_v6 :
      {ip : List ℕ} {port flowinfo scope_id : ℕ} (text : List ℕ)
      → has_nul ip ≡ false
      → (s.uv_ip6_addr ip port).0 ≡ pos 0
      → a.sa_family (s.uv_ip6_addr ip port).1 ≡ a.af_inet6
      → a.sin6_port (s.uv_ip6_addr ip port).1 ≡ to_be a.little_endian port
      → a.uv_ip6_name (s.uv_ip6_addr ip port).1 46 ≡ (pos 0, text)
      → a.parse_v6 text ≡ some ip
      → port < 2 ^ 16
      → Writes s a (v6 ip port flowinfo scope_id)

-- The structure that `fill_sockaddr` writes.
abbrev pub bytes_of : UvSocket → SocketAddr → List ℕ
bytes_of s (v4 ip port) = (s.uv_ip4_addr ip port).1
bytes_of s (v6 ip port flowinfo scope_id) = (s.uv_ip6_addr ip port).1

abbrev pub size_for : UvSocket → SocketAddr → ℕ
size_for s (v4 ip port) = s.size_of_sockaddr_in
size_for s (v6 ip port flowinfo scope_id) = s.size_of_sockaddr_in6

-- An address as it comes back.
abbrev pub without_scope : SocketAddr → SocketAddr
without_scope (v4 ip port) = v4 ip port
without_scope (v6 ip port flowinfo scope_id) = v6 ip port 0 0

module _ (env : Env) (s : UvSocket) (a : UvAddress) (differ : a.af_inet6 ≢ a.af_inet) where
  pub fill_sockaddr-Writes :
      (room : ℕ) (addr : SocketAddr) (w : World)
      → Writes s a addr
      → size_for s addr ≤ room
      → fill_sockaddr env s room addr w ≡ done (bytes_of s addr) w
  unfolding fill_sockaddr
  fill_sockaddr-Writes room (v4 ip port) w (writes_v4 _ text code _ _ _ _ _) fits =
      simp (text, code, no_less room s.size_of_sockaddr_in fits)
  fill_sockaddr-Writes room (v6 ip port _ _) w (writes_v6 _ text code _ _ _ _ _) fits =
      simp (text, code, no_less room s.size_of_sockaddr_in6 fits)

  pub build_socketaddr-Writes :
      (addr : SocketAddr) (w : World)
      → Writes s a addr
      → build_socketaddr env a (bytes_of s addr) w ≡ done (without_scope addr) w
  unfolding build_socketaddr
  build_socketaddr-Writes (v4 ip port) w (writes_v4 _ _ _ family at name parse small) =
      simp (family, at, name, parse, ==_refl, from_be-to_be a.little_endian port small)
  build_socketaddr-Writes (v6 ip port flowinfo scope_id) w
        (writes_v6 _ _ _ family at name parse small) =
      simp (
        family,
        at,
        name,
        parse,
        ==_refl,
        ==_ne a.af_inet6 a.af_inet differ,
        from_be-to_be a.little_endian port small,
      )

  module _ (libuv : UvNames) (handle : Ptr) where
    -- An address whose text libuv and the standard library write and read as they document, with a
    -- port below 2 ^ 16, survives the way into a structure with enough room and back through the
    -- functions that read the name of a socket, for both versions and both byte orders, except
    -- that an address of version 6 loses its flow information and its scope.
    pub fill_sockaddr-name_of :
        (room : ℕ) (c : NameCall) (addr : SocketAddr) (w v : World)
        → Writes s a addr
        → size_for s addr ≤ room
        → libuv.uv_name v handle c ≡ (pos 0, bytes_of s addr)
        → (fill_sockaddr env s room addr w ≡ done (bytes_of s addr) w)
          × (name_of env a libuv handle c v ≡ done (without_scope addr) v)
    unfolding name_of
    fill_sockaddr-name_of room c addr w v writes fits reports = (
      fill_sockaddr-Writes room addr w writes fits,
      simp (reports, build_socketaddr-Writes addr v writes),
    )
