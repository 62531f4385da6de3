-- ===== src/Buf/Owned.antt =====
-- src/buf.rs: a live buffer, its container and its bytes.
use libuv_rs.Common.{
  ℕ, ◌%◌, ◌^◌, ◌<◌, ◌≡◌, ◌≢◌, ◌∙◌, true, false, Option, none, some, ◌∷◌, ◌==◌, ==_refl, ==_ne, leb,
  ne_sym, inl, inr, Bool-cases, if◌then◌else◌, arith, refl,
}
use libuv_rs.Memory.{Ptr, null, uv_buf, byte_array, Heap, lookup, update, erase, Block}
use libuv_rs.Memory.Effect.{Env, World, Fault, IsAllocator, done, fault}
use libuv_rs.Memory.Laws.{
  ne_of_lookup, lookup-cons_self, lookup-erase_ne, lookup-update_self, erase-update,
}
use libuv_rs.Buf.Storage.{isize_max, dealloc_readonly, destroy, index, byte_or_fault}

-- The container at `p` leads to `n` bytes at `base`.
pub record BufOwned (h : Heap) (p base : Ptr) (n : ℕ) (at : ℕ → Option ℕ) : Type 0 where
  pub p_not_null : p ≢ null
  pub base_not_null : base ≢ null
  pub apart : base ≢ p
  pub fits : leb n isize_max ≡ true
  pub p_holds : lookup p h ≡ some (uv_buf (record { base = base; len = n }))
  pub base_holds : lookup base h ≡ some (byte_array n at)
  pub base_once : lookup base (erase base h) ≡ none

module _ {p base : Ptr} {n : ℕ} {at : ℕ → Option ℕ} (w : World)
    (o : BufOwned w.heap p base n at) where
  pub lookup-erased_bytes : (b : Block) → lookup p (update p b (erase base w.heap)) ≡ some b
  lookup-erased_bytes b =
      lookup-update_self p b (erase base w.heap) (lookup-erase_ne p base w.heap o.apart ∙ o.p_holds)

  pub destroy-BufOwned : destroy p w ≡ done tt (record w { heap = erase p (erase base w.heap) })
  unfolding destroy
  destroy-BufOwned = simp (
    ==_ne p null o.p_not_null,
    o.p_holds,
    ==_ne base null o.base_not_null,
    o.base_holds,
    o.fits,
    ==_refl,
    lookup-erase_ne p base w.heap o.apart,
    lookup-erased_bytes,
    erase-update,
  )

  -- The state after the bytes are given back through a `ReadonlyBuf`.
  abbrev pub without_bytes : World
  without_bytes = record w { heap = erase base w.heap }

  -- Giving the bytes of a live buffer back through a ReadonlyBuf frees them and leaves the pointer
  -- in the container, so that doing it again follows a dangling pointer.
  pub dealloc_readonly-twice :
      (dealloc_readonly p w ≡ done tt without_bytes)
      × (dealloc_readonly p without_bytes ≡ fault Fault.dangling_pointer)
  unfolding dealloc_readonly
  dealloc_readonly-twice = (
    simp (
      ==_ne p null o.p_not_null,
      o.p_holds,
      ==_ne base null o.base_not_null,
      o.base_holds,
      o.fits,
      ==_refl,
    ),
    simp (
      ==_ne p null o.p_not_null,
      o.p_holds,
      ==_ne base null o.base_not_null,
      o.base_once,
      o.fits,
      lookup-erase_ne p base w.heap o.apart,
    ),
  )

  -- A byte inside is read, and an index outside panics.
  pub index-BufOwned :
      (i : ℕ) → index p i w ≡ (if leb n i then fault Fault.panic else byte_or_fault (at i) w)
  unfolding index
  index-BufOwned i = elim (Bool-cases (leb n i)) [
    | inl out ↦
        simp
          (==_ne p null o.p_not_null, o.p_holds, ==_ne base null o.base_not_null, o.base_holds, out)
    | inr inside ↦ simp (
      ==_ne p null o.p_not_null,
      o.p_holds,
      ==_ne base null o.base_not_null,
      o.base_holds,
      inside,
    )
  ]

-- The memory of a new buffer.
module _ (env : Env) (w : World) (n : ℕ) (at : ℕ → Option ℕ) where
  abbrev pub bytes_ptr : Ptr
  bytes_ptr = env.alloc_bytes w.heap n

  abbrev pub with_bytes : Heap
  with_bytes = (bytes_ptr, byte_array n at) ∷ w.heap

  abbrev pub container_ptr : Ptr
  container_ptr = env.box_new with_bytes

  abbrev pub buf_world : World
  buf_world = record w {
    heap = (container_ptr, uv_buf (record { base = bytes_ptr; len = n % 2 ^ 32 })) ∷ with_bytes;
  }

  len_fits : n < 2 ^ 32 → n % 2 ^ 32 ≡ n
  len_fits small = ground arith

  module _ (law : IsAllocator env) (got : bytes_ptr ≢ null) where
    container_apart : bytes_ptr ≢ container_ptr
    container_apart =
        ne_of_lookup bytes_ptr container_ptr with_bytes (lookup-cons_self bytes_ptr _ w.heap)
          (law.box_fresh with_bytes)

    pub container_ne : (container_ptr == bytes_ptr) ≡ false
    container_ne = ==_ne container_ptr bytes_ptr (ne_sym container_apart)

    pub buf_world-BufOwned : n < 2 ^ 32 → BufOwned buf_world.heap container_ptr bytes_ptr n at
    unfolding lookup erase
    buf_world-BufOwned small = record {
      p_not_null = law.box_not_null with_bytes;
      base_not_null = got;
      apart = container_apart;
      fits = ground arith;
      p_holds = rw (==_refl container_ptr, len_fits small) refl;
      base_holds = rw (container_ne, ==_refl bytes_ptr) refl;
      base_once = simp (container_ne, ==_refl) (law.bytes_fresh w.heap n got);
    }

    -- Giving both back leaves the memory as it was.
    pub erase-buf_world : erase container_ptr (erase bytes_ptr buf_world.heap) ≡ w.heap
    unfolding erase
    erase-buf_world = simp (container_ne, ==_refl)
