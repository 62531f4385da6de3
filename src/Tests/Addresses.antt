-- ===== src/Tests/Addresses.antt =====
-- Addresses and sockets on a concrete libuv: a structure is its family, its port as two bytes
-- swapped, and its text.
use libuv_rs.Common.{
  ℕ, ◌+◌, ◌*◌, ◌/◌, ◌%◌, ◌≡◌, ◌≢◌, refl, true, none, some, List, [], ◌∷◌, map, arith,
}
use libuv_rs.Common.Int.{pos}
use libuv_rs.Memory.{
  null, cb, uv_getaddrinfo_t, get_addr_info_data, UvAddrInfo, addr_info, Heap, lookup, erase,
}
use libuv_rs.Memory.Effect.{World, done, has_nul, note_args, Args, status_of, nul_error, fails}
use libuv_rs.Req.Owned.{Owned, new_heap, new_request-Owned}
use libuv_rs.Net.{SocketAddr, v4}
use libuv_rs.Net.AddrInfos.{from_list}
use libuv_rs.Net.AddrInfos.Laws.{info_of}
use libuv_rs.Net.AddrInfos.Lists.{ListAt, at_end, at_node, erase_nodes, from_list-ListAt}
use libuv_rs.Req.GetAddrInfo.{UvAddrInfoCall, uv_getaddrinfo_cb, getaddrinfo_sync}
use libuv_rs.Req.GetAddrInfo.Laws.{
  after_request, uv_getaddrinfo_cb-Owned, sync_left, getaddrinfo_sync-left,
}
use libuv_rs.Socket.{UvSocket, fill_sockaddr}
use libuv_rs.Socket.Address.{UvAddress, swap_bytes, NameCall, UvNames, name_of}
use libuv_rs.Socket.Address.RoundTrip.{Writes, writes_v4, bytes_of, fill_sockaddr-name_of}
use libuv_rs.Socket.Options.{UvSocketCalls, run_op, op_source_membership}
use libuv_rs.Socket.Options.Laws.{run_op_lem}
use libuv_rs.Tests.{env, env-IsAllocator, empty, next_ptr, next_ptr-not_null, blank}

abbrev head_or_zero : List ℕ → ℕ
head_or_zero [] = 0
head_or_zero (n ∷ ns) = n

abbrev tail_of : List ℕ → List ℕ
tail_of [] = []
tail_of (n ∷ ns) = ns

abbrev sockets : UvSocket
sockets = record {
  size_of_sockaddr = 16;
  size_of_sockaddr_in = 16;
  size_of_sockaddr_in6 = 28;
  uv_ip4_addr = λ ip port. (pos 0, 2 ∷ (port % 256 * 256 + port / 256 % 256) ∷ ip);
  uv_ip6_addr = λ ip port. (pos 0, 10 ∷ (port % 256 * 256 + port / 256 % 256) ∷ ip);
  uv_tcp_connect = λ _ _. pos 0;
  uv_udp_send = λ _ _ _ _. pos 0;
}

abbrev pub address : UvAddress
address = record {
  little_endian = true;
  af_inet = 2;
  af_inet6 = 10;
  sa_family = head_or_zero;
  sin_port = λ s. head_or_zero (tail_of s);
  sin6_port = λ s. head_or_zero (tail_of s);
  uv_ip4_name = λ s _. (pos 0, tail_of (tail_of s));
  uv_ip6_name = λ s _. (pos 0, tail_of (tail_of s));
  parse_v4 = some;
  parse_v6 = some;
}

-- The address 1.2 with port 8080.
abbrev here : SocketAddr
here = v4 (49 ∷ 46 ∷ 50 ∷ []) 8080

here-Writes : Writes sockets address here
unfolding has_nul swap_bytes
here-Writes = writes_v4 (49 ∷ 46 ∷ 50 ∷ []) refl refl refl refl refl refl (ground arith)

families_differ : address.af_inet6 ≢ address.af_inet
families_differ = λ e. ground arith

abbrev names : UvNames
names = record { uv_name = λ w handle c. (pos 0, bytes_of sockets here) }

fill_sockaddr-name_of_example :
    (fill_sockaddr env sockets 16 here empty ≡ done (bytes_of sockets here) empty)
    × (name_of env address names 92 NameCall.uv_tcp_getsockname empty ≡ done here empty)
fill_sockaddr-name_of_example =
    fill_sockaddr-name_of env sockets address families_differ names 92 16
      NameCall.uv_tcp_getsockname here empty empty here-Writes (ground arith) refl

abbrev accepts : UvSocketCalls
accepts = record { uv_socket = λ w handle c. pos 0 }

run_op_lem_example :
    run_op env accepts 93 sockets (op_source_membership (49 ∷ []) (0 ∷ []) (50 ∷ []) 1) empty
    ≡ fails nul_error empty
unfolding has_nul
run_op_lem_example =
    run_op_lem env sockets accepts 93 empty (op_source_membership (49 ∷ []) (0 ∷ []) (50 ∷ []) 1)

-- Two nodes, at 60 and at 61.
abbrev second : UvAddrInfo
second = record {
  ai_flags = pos 0;
  ai_family = pos 10;
  ai_socktype = pos 1;
  ai_protocol = pos 6;
  ai_canonname = none;
  ai_addr = none;
  ai_next = null;
}

abbrev first : UvAddrInfo
first = record second {
  ai_family = pos 2;
  ai_canonname = some (97 ∷ []);
  ai_addr = some (bytes_of sockets here);
  ai_next = 61;
}

abbrev nodes : Heap
nodes = (60, addr_info first) ∷ (61, addr_info second) ∷ []

abbrev with_nodes : World
with_nodes = record empty { heap = nodes }

nodes-ListAt : ListAt nodes 60 (first ∷ second ∷ [])
unfolding lookup erase
nodes-ListAt =
    at_node 60 (λ e. ground arith) refl refl (at_node 61 (λ e. ground arith) refl refl at_end)

from_list-ListAt_example :
    from_list env address 60 with_nodes
    ≡ done (map (info_of env address) (first ∷ second ∷ [])) with_nodes
from_list-ListAt_example = from_list-ListAt env address with_nodes nodes-ListAt

-- A request beside the nodes.
abbrev asked : World
asked = record empty {
  heap = new_heap env uv_getaddrinfo_t with_nodes (get_addr_info_data (cb 4)) blank;
}

asked-Owned : Owned asked.heap uv_getaddrinfo_t 223 447 (get_addr_info_data (cb 4)) blank
unfolding next_ptr
asked-Owned =
    new_request-Owned env env-IsAllocator uv_getaddrinfo_t (get_addr_info_data (cb 4)) with_nodes
      (next_ptr-not_null nodes) blank

asked-ListAt : ListAt asked.heap 60 (first ∷ second ∷ [])
unfolding lookup erase next_ptr
asked-ListAt =
    at_node 60 (λ e. ground arith) refl refl (at_node 61 (λ e. ground arith) refl refl at_end)

uv_getaddrinfo_cb-Owned_example :
    uv_getaddrinfo_cb env address 223 (pos 0) 60 asked
    ≡ done tt (record empty {
      heap = erase_nodes (after_request asked asked-Owned asked-ListAt);
      log =
          note_args 4 223
            (some (status_of env (pos 0)))
            (Args.addr_args (map (info_of env address) (first ∷ second ∷ [])))
            [];
    })
uv_getaddrinfo_cb-Owned_example =
    uv_getaddrinfo_cb-Owned env address asked (pos 0) 60 asked-Owned asked-ListAt

-- Answers at once with both nodes.
abbrev both : UvAddrInfoCall
both = record {
  uv_getaddrinfo = λ w lp uv_cb node service hints f. record {
    code = pos 0;
    left = record f { addrinfo = 60 };
    nodes = (60, first) ∷ (61, second) ∷ [];
  };
}

abbrev left : World
left =
    sync_left env env-IsAllocator address both 1 empty none none none refl refl
      (next_ptr-not_null [])

left-ListAt : ListAt left.heap 60 (first ∷ second ∷ [])
unfolding lookup erase next_ptr
left-ListAt =
    at_node 60 (λ e. ground arith) refl refl (at_node 61 (λ e. ground arith) refl refl at_end)

getaddrinfo_sync-left_example :
    getaddrinfo_sync env both 1 address none none none empty
    ≡ done (map (info_of env address) (first ∷ second ∷ [])) left
unfolding next_ptr
getaddrinfo_sync-left_example =
    getaddrinfo_sync-left env env-IsAllocator address both 1 empty none none none refl refl
      (next_ptr-not_null []) refl ((λ e. ground arith), ((λ e. ground arith), tt)) left-ListAt
