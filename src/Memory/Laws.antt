-- ===== src/Memory/Laws.antt =====
-- Laws of the heap, and the effect of each memory operation where it is allowed.
use libuv_rs.Common.{
  ◌≡◌, ◌≢◌, refl, inl, inr, some, none, [], ◌∷◌, ◌==◌, Bool-cases, ==_refl, ==_ne, arith,
}
use libuv_rs.Common.{true, false, Option, List}
use libuv_rs.Common.Int.{ℤ, is_neg}
use libuv_rs.Memory.{
  CCallback, Ptr, null, Layout, Block, struct, Struct, Heap, lookup, erase, update, layout_tag,
}
use libuv_rs.Memory.Effect.{
  World, owe, done, load, store, load_struct, std_dealloc, uv_get_data, uv_set_data,
}

pub lookup-cons_self : (p : Ptr) (b : Block) (h : Heap) → lookup p ((p, b) ∷ h) ≡ some b
unfolding lookup
lookup-cons_self p b h = rw (==_refl p)

pub lookup-cons_ne : (p q : Ptr) (b : Block) (h : Heap) → q ≢ p → lookup p ((q, b) ∷ h) ≡ lookup p h
unfolding lookup
lookup-cons_ne p q b h ne = rw (==_ne q p ne)

-- An address that is free is not one that is taken.
pub ne_of_lookup :
    {b : Block} (p q : Ptr) (h : Heap) → lookup p h ≡ some b → lookup q h ≡ none → p ≢ q
ne_of_lookup p q h e f = λ same. cc (e, f, same)

pub lookup-erase_ne : (p q : Ptr) (h : Heap) → q ≢ p → lookup p (erase q h) ≡ lookup p h
unfolding lookup erase
lookup-erase_ne p q [] ne = refl
lookup-erase_ne p q ((r, b) ∷ h) ne = ground (arith, lookup-erase_ne p q h)

pub lookup-update_self :
    {c : Block} (p : Ptr) (b : Block) (h : Heap)
    → lookup p h ≡ some c
    → lookup p (update p b h) ≡ some b
unfolding lookup update
lookup-update_self p b [] e = cc
lookup-update_self {c = d} p b ((r, c) ∷ h) e = elim (Bool-cases (r == p)) [
  | inl same ↦ rw (same, same)
  | inr other ↦ rw (other, other) (lookup-update_self p b h (rw other at e))
]

pub lookup-update_ne :
    (p q : Ptr) (b : Block) (h : Heap) → q ≢ p → lookup p (update q b h) ≡ lookup p h
unfolding lookup update
lookup-update_ne p q b [] ne = refl
lookup-update_ne p q b ((r, c) ∷ h) ne = ground (arith, lookup-update_ne p q b h)

pub erase_comm : (p q : Ptr) (h : Heap) → q ≢ p → erase p (erase q h) ≡ erase q (erase p h)
unfolding erase
erase_comm p q [] ne = refl
erase_comm p q ((r, b) ∷ h) ne = ground (arith, erase_comm p q h)

pub erase-update : (p : Ptr) (b : Block) (h : Heap) → erase p (update p b h) ≡ erase p h
unfolding erase update
erase-update p b [] = refl
erase-update p b ((r, c) ∷ h) = ground (arith, erase-update p b h)

pub erase-update_ne :
    (p q : Ptr) (b : Block) (h : Heap) → p ≢ q → erase q (update p b h) ≡ update p b (erase q h)
unfolding erase update
erase-update_ne p q b [] ne = refl
erase-update_ne p q b ((r, c) ∷ h) ne = ground (arith, erase-update_ne p q b h)

pub update-update : (p : Ptr) (b c : Block) (h : Heap) → update p b (update p c h) ≡ update p b h
unfolding update
update-update p b c [] = refl
update-update p b c ((r, d) ∷ h) = ground (arith, update-update p b c h)

-- Writing what is there.
pub update-lookup : (p : Ptr) (b : Block) (h : Heap) → lookup p h ≡ some b → update p b h ≡ h
unfolding lookup update
update-lookup p b [] e = refl
update-lookup p b ((r, c) ∷ h) e = elim (Bool-cases (r == p)) [
  | inl same ↦ let there : c ≡ b = cc (rw same at e) in rw (same, there)
  | inr other ↦ rw (other, update-lookup p b h (rw other at e))
]

pub erase-cons_self : (p : Ptr) (b : Block) (h : Heap) → erase p ((p, b) ∷ h) ≡ h
unfolding erase
erase-cons_self p b h = rw (==_refl p)

module _ {b : Block} (p : Ptr) (w : World) (ne : p ≢ null) (e : lookup p w.heap ≡ some b) where
  pub load-done : load p w ≡ done b w
  unfolding load
  load-done = rw (==_ne p null ne, e)

  pub store-done : (c : Block) → store p c w ≡ done tt (record w { heap = update p c w.heap })
  unfolding store
  store-done c = rw (==_ne p null ne, e)

module _ {l : Layout} {s : Struct} (p : Ptr) (w : World) (ne : p ≢ null)
    (e : lookup p w.heap ≡ some (struct l s)) where
  pub load_struct-done : load_struct p w ≡ done (l, s) w
  unfolding load_struct
  load_struct-done = rw (==_ne p null ne, e)

  pub std_dealloc-done : std_dealloc p l w ≡ done tt (record w { heap = erase p w.heap })
  unfolding std_dealloc
  std_dealloc-done = rw (==_ne p null ne, e, ==_refl (layout_tag l))

  pub uv_get_data-done : {q : Ptr} → s.data_ptr ≡ some q → uv_get_data p w ≡ done q w
  unfolding uv_get_data
  uv_get_data-done h = rw (==_ne p null ne, e, h)

  pub uv_set_data-done :
      (q : Ptr)
      → uv_set_data p q w
        ≡ done tt (record w { heap = update p (struct l (record s { data_ptr = some q })) w.heap })
  unfolding uv_set_data
  uv_set_data-done q = rw (==_ne p null ne, e, store-done p w ne e)

pub owe-neg :
    (p : Ptr) (c : Option CCallback) (code : ℤ) (w : World)
    → is_neg code ≡ true
    → owe p c code w ≡ done tt w
unfolding owe
owe-neg p none code w h = refl
owe-neg p (some c) code w h = rw h

-- What libuv owes once it has accepted a call.
abbrev pub owed : Ptr → Option CCallback → List (Ptr × CCallback) → List (Ptr × CCallback)
owed p none l = l
owed p (some c) l = (p, c) ∷ l

pub owe-pos :
    (p : Ptr) (c : Option CCallback) (code : ℤ) (w : World)
    → is_neg code ≡ false
    → owe p c code w ≡ done tt (record w { pending = owed p c w.pending })
unfolding owe
owe-pos p none code w h = refl
owe-pos p (some c) code w h = rw h

-- A test of addresses that fails tells them apart.
pub ne_of_test : {a b : Ptr} → (a == b) ≡ false → a ≢ b
ne_of_test h = ground arith
