-- ===== src/Net/AddrInfos/Lists.antt =====
-- src/net/addrinfo.rs: the list is read whole and freed whole.
use libuv_rs.Common.{
  ℕ, zero, suc, ◌+◌, ◌<◌, ◌≤◌, ◌≡◌, ◌≢◌, ◌==◌, refl, ◌∙◌, sym, true, false, none, some, List, [],
  ◌∷◌, map, length, inl, inr, Bool-cases, ==_ne, ne_sym, Bool, arith,
}
use libuv_rs.Memory.{Ptr, null, Block, UvAddrInfo, addr_info, Heap, lookup, erase}
use libuv_rs.Memory.Effect.{Env, World, done}
use libuv_rs.Memory.Laws.{lookup-erase_ne, erase_comm}
use libuv_rs.Net.AddrInfos.Laws.{info_of, from_addrinfo_lem}
use libuv_rs.Socket.Address.{UvAddress}
use libuv_rs.Net.AddrInfos.{collect, from_list, free_nodes, uv_freeaddrinfo}

-- The list at `p` has these nodes, all live, each at an address of its own.
pub data ListAt : Heap → Ptr → List UvAddrInfo → Type 0 where
  at_end : {h : Heap} → ListAt h null []
  at_node :
      {h : Heap} {a : UvAddrInfo} {nodes : List UvAddrInfo} (p : Ptr)
      → p ≢ null
      → lookup p h ≡ some (addr_info a)
      → lookup p (erase p h) ≡ none
      → ListAt (erase p h) a.ai_next nodes
      → ListAt h p (a ∷ nodes)

length-erase :
    {b : Block} (p : Ptr) (h : Heap) → lookup p h ≡ some b → length h ≡ suc (length (erase p h))
unfolding lookup erase
length-erase p [] e = cc
length-erase p ((q, c) ∷ h) e = elim (Bool-cases (q == p)) [
  | inl same ↦ rw same
  | inr other ↦ rw (other, length-erase p h (rw other at e))
]

-- There are no more nodes than live blocks.
pub ListAt-length :
    {h : Heap} {p : Ptr} {nodes : List UvAddrInfo} → ListAt h p nodes → length nodes ≤ length h
ListAt-length at_end = ground arith
ListAt-length {h} (at_node p _ e _ rest) = omega (arith, length-erase p h e, ListAt-length rest)

-- Memory that has all that `g` has.
abbrev Within : Heap → Heap → Type 0
Within g h = (q : Ptr) (b : Block) → lookup q g ≡ some b → lookup q h ≡ some b

Within-erase :
    (p : Ptr) (g h : Heap) → lookup p (erase p g) ≡ none → Within g h → Within (erase p g) h
Within-erase p g h once sub q b e =
    sub q b (sym (lookup-erase_ne q p g (λ same. cc (same, once, e))) ∙ e)

-- The memory without the nodes.
abbrev pub erase_nodes : {h : Heap} {p : Ptr} {nodes : List UvAddrInfo} → ListAt h p nodes → Heap
erase_nodes {h} at_end = h
erase_nodes (at_node p _ _ _ rest) = erase_nodes rest

module _ (env : Env) (address : UvAddress) (w : World) where
  collect-ListAt :
      {h : Heap} {p : Ptr} {nodes : List UvAddrInfo} (l : ListAt h p nodes) (fuel : ℕ)
      → length nodes < fuel
      → Within h w.heap
      → collect env address fuel p w ≡ done (map (info_of env address) nodes) w
  unfolding collect
  collect-ListAt at_end zero lt sub = absurd (omega arith)
  collect-ListAt (at_node _ _ _ _ _) zero lt sub = absurd (omega arith)
  collect-ListAt at_end (suc fuel) lt sub = refl
  collect-ListAt {h} (at_node {a = a} p not_null e once rest) (suc fuel) lt sub = simp (
    ==_ne p null not_null,
    sub p (addr_info a) e,
    from_addrinfo_lem env address a w,
    collect-ListAt rest fuel (omega arith) (Within-erase p h w.heap once sub),
  )

  -- Reading a list of address nodes that are all live, each at an address of its own, ends: it
  -- gives one AddrInfo for each node, in order, and leaves the state as it was.
  pub from_list-ListAt :
      {p : Ptr} {nodes : List UvAddrInfo}
      → ListAt w.heap p nodes
      → from_list env address p w ≡ done (map (info_of env address) nodes) w
  unfolding from_list
  from_list-ListAt l =
      collect-ListAt l (length w.heap + 1) (omega (arith, ListAt-length l)) (λ q b e. e)

free_nodes-ListAt :
    {h : Heap} {p : Ptr} {nodes : List UvAddrInfo} (l : ListAt h p nodes) (fuel : ℕ) (w : World)
    → length nodes < fuel
    → free_nodes fuel p (record w { heap = h }) ≡ done tt (record w { heap = erase_nodes l })
unfolding free_nodes
free_nodes-ListAt at_end zero w lt = absurd (omega arith)
free_nodes-ListAt (at_node _ _ _ _ _) zero w lt = absurd (omega arith)
free_nodes-ListAt at_end (suc fuel) w lt = refl
free_nodes-ListAt (at_node p not_null e once rest) (suc fuel) w lt =
    simp (==_ne p null not_null, e, free_nodes-ListAt rest fuel w (omega arith))

pub uv_freeaddrinfo-ListAt :
    {p : Ptr} {nodes : List UvAddrInfo} (w : World) (l : ListAt w.heap p nodes)
    → uv_freeaddrinfo p w ≡ done tt (record w { heap = erase_nodes l })
unfolding uv_freeaddrinfo
uv_freeaddrinfo-ListAt w l =
    free_nodes-ListAt l (length w.heap + 1) w (omega (arith, ListAt-length l))

abbrev pub is_node : Block → Bool
is_node (addr_info a) = true
is_node _ = false

-- A block that is no node can go.
pub ListAt-erase :
    {h : Heap} {r : Ptr} {nodes : List UvAddrInfo} {b : Block} (p : Ptr)
    → is_node b ≡ false
    → lookup p h ≡ some b
    → ListAt h r nodes
    → ListAt (erase p h) r nodes
ListAt-erase p other e at_end = at_end
ListAt-erase {h} {b = b} p other e (at_node {a = a} {nodes = nodes} r not_null er once rest) =
    at_node r not_null (lookup-erase_ne r p h apart ∙ er)
      (rw (erase_comm r p h apart) (lookup-erase_ne r p (erase r h) apart ∙ once))
      (rw (erase_comm r p h apart)
        (ListAt-erase p other (lookup-erase_ne p r h (ne_sym apart) ∙ e) rest))
  where
    apart : p ≢ r
    apart = λ same. cc (same, e, er, other)
