-- ===== src/Req/GetAddrInfo/Laws.antt =====
-- src/requests/getaddrinfo.rs: what the callback does with the list, and what a synchronous call
-- leaves in memory.
use libuv_rs.Common.{
  ℕ, ◌≡◌, refl, ◌∙◌, ◌≢◌, false, none, some, Option, List, [], ◌∷◌, ◌++◌, map, ==_refl, ==_ne,
}
use libuv_rs.Common.Int.{ℤ, is_neg}
use libuv_rs.Memory.{
  Ptr, null, uv_getaddrinfo_t, cb, nil, get_addr_info_data, Fields, Heap, erase, lookup, update,
  UvAddrInfo,
}
use libuv_rs.Memory.Effect.{Env, IsAllocator, World, done, note_args, status_of, Args, uvret, owe}
use libuv_rs.Memory.Laws.{lookup-cons_ne, lookup-erase_ne, erase-update}
use libuv_rs.Memory.Boxed.{fresh_ne}
use libuv_rs.Req.Owned.{Owned, lookup-freed, new_ptr, new_heap}
use libuv_rs.Net.{AddrInfo}
use libuv_rs.Net.AddrInfos.Laws.{info_of}
use libuv_rs.Net.AddrInfos.Lists.{
  ListAt, ListAt-erase, erase_nodes, from_list-ListAt, uv_freeaddrinfo-ListAt,
}
use libuv_rs.Socket.Address.{UvAddress}
use libuv_rs.Req.GetAddrInfo.{
  UvAddrInfoCall, AddrAnswer, destroy, uv_getaddrinfo_cb, optional_text, optional_hints, new,
  getaddrinfo_sync, node_block,
}

-- The list stands apart from a request that is freed.
abbrev pub after_request :
    (w : World) {p q res : Ptr} {n : ℕ} {g : Fields} {nodes : List UvAddrInfo}
    → Owned w.heap uv_getaddrinfo_t p q (get_addr_info_data (cb n)) g
    → ListAt w.heap res nodes
    → ListAt (erase p (erase q w.heap)) res nodes
after_request w {p} {q} o list =
    ListAt-erase p refl (lookup-erase_ne p q w.heap o.apart ∙ o.p_holds)
      (ListAt-erase q refl o.q_holds list)

-- When libuv reports a live request for addresses with a closure and a list of live nodes, apart
-- from the request, the C callback calls the closure exactly once with the status and all
-- addresses in order, and frees the request, its data and every node of the list.
pub uv_getaddrinfo_cb-Owned :
    (env : Env) (address : UvAddress) {p q : Ptr} {n : ℕ} {g : Fields} (w : World) (status : ℤ)
    (res : Ptr) {nodes : List UvAddrInfo}
    → (o : Owned w.heap uv_getaddrinfo_t p q (get_addr_info_data (cb n)) g)
    → (list : ListAt w.heap res nodes)
    → uv_getaddrinfo_cb env address p status res w
      ≡ done tt (record w {
        heap = erase_nodes (after_request w o list);
        log =
            note_args n p
              (some (status_of env status))
              (Args.addr_args (map (info_of env address) nodes))
              w.log;
      })
unfolding uv_getaddrinfo_cb
uv_getaddrinfo_cb-Owned env address {p} {q} {n} w status res {nodes} o list = simp (
  ==_ne p null o.p_not_null,
  o.p_holds,
  ==_ne q null o.q_not_null,
  o.q_holds,
  from_list-ListAt env address w list,
  lookup-erase_ne p q w.heap o.apart,
  lookup-freed w o,
  ==_refl,
  erase-update,
  uv_freeaddrinfo-ListAt
      (record w {
        heap = erase p (erase q w.heap);
        log =
            note_args n p (some (status_of env status))
              (Args.addr_args (map (info_of env address) nodes)) w.log;
      })
      (after_request w o list),
)

-- None of the nodes stands at `p`.
abbrev pub Elsewhere : Ptr → List (Ptr × UvAddrInfo) → Type 0
Elsewhere p [] = Unit {0}
Elsewhere p ((q, a) ∷ nodes) = (q ≢ p) × Elsewhere p nodes

lookup-blocks :
    (p : Ptr) (nodes : List (Ptr × UvAddrInfo)) (h : Heap)
    → Elsewhere p nodes
    → lookup p (map node_block nodes ++ h) ≡ lookup p h
lookup-blocks p [] h out = refl
lookup-blocks p ((q, a) ∷ nodes) h (ne, out) =
    lookup-cons_ne p q _ _ ne ∙ lookup-blocks p nodes h out

module _ (env : Env) (law : IsAllocator env) (address : UvAddress) (libuv : UvAddrInfoCall)
    (lp : Ptr) (w : World) (node service : Option (List ℕ)) (hints : Option AddrInfo)
    (node_text : optional_text node w ≡ done node w)
    (service_text : optional_text service w ≡ done service w)
    (got : new_ptr env uv_getaddrinfo_t w ≢ null) where
  abbrev pub addr_answer : AddrAnswer
  addr_answer =
      libuv.uv_getaddrinfo
        (record w { heap = new_heap env uv_getaddrinfo_t w (get_addr_info_data nil) env.garbage })
        lp none node service (optional_hints hints) env.garbage

  -- The state with the request and what libuv allocated.
  abbrev pub sync_left : World
  sync_left = record w {
    heap =
        map node_block addr_answer.nodes
        ++ new_heap env uv_getaddrinfo_t w (get_addr_info_data nil) addr_answer.left;
  }

  -- A synchronous query for addresses whose texts have no inner zero bytes, that gets its memory
  -- and that libuv answers with a list of live nodes gives all addresses in order, and leaves the
  -- request with its data and the list in memory, with nobody to free them, with an allocator that
  -- returns fresh addresses.
  pub getaddrinfo_sync-left :
      {nodes : List UvAddrInfo}
      → is_neg addr_answer.code ≡ false
      → Elsewhere (new_ptr env uv_getaddrinfo_t w) addr_answer.nodes
      → ListAt sync_left.heap addr_answer.left.addrinfo nodes
      → getaddrinfo_sync env libuv lp address node service hints w
        ≡ done (map (info_of env address) nodes) sync_left
  unfolding getaddrinfo_sync new destroy uvret owe lookup update erase
  getaddrinfo_sync-left good out list = simp (
    node_text,
    service_text,
    ==_ne (new_ptr env uv_getaddrinfo_t w) null got,
    good,
    ==_refl,
    fresh_ne env uv_getaddrinfo_t env.garbage w.heap law got,
    lookup-blocks (new_ptr env uv_getaddrinfo_t w) addr_answer.nodes _ out,
    from_list-ListAt env address sync_left list,
  )
