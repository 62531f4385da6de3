-- ===== src/Buf/Storage.antt =====
-- src/buf.rs: `Buf`, a container on the heap that leads to bytes on the heap, and `ReadonlyBuf`,
-- which shares both. `uv_buf_init` of libuv takes the length as a C `unsigned int`.
use libuv_rs.Common.{
  ℕ, ◌+◌, ◌-◌, ◌%◌, ◌^◌, Bool, Option, none, some, List, [], ◌∷◌, ◌++◌, not, ◌==◌, if◌then◌else◌,
  ltb, leb, length, get_elem?, ◌&&◌, ◌||◌,
}
use libuv_rs.Error.{Error}
use libuv_rs.Memory.{Ptr, null, UvBuf, Block, uv_buf, byte_array, erase}
use libuv_rs.Memory.Effect.{
  Fault, uv, Eff, pure, throw, crash, ◌>>=◌, ◌>>◌, when, Env, load, store, release, place,
  box_into_raw, done,
}

-- `isize::MAX`.
abbrev pub isize_max : ℕ
isize_max = 2 ^ 63 - 1

-- `Layout::from_size_align` refuses a size that is too large.
unfoldable pub layout : ℕ → Eff ℕ
layout size = if ltb isize_max size then throw (uv Error.enomem) else pure size

abbrev pub as_uv_buf : Block → Eff UvBuf
as_uv_buf (uv_buf b) = pure b
as_uv_buf _ = crash Fault.wrong_block

-- `*self.buf`.
unfoldable pub load_buf : Ptr → Eff UvBuf
unfolding load
load_buf buf = do b ← load buf; as_uv_buf b

abbrev pub as_bytes : Block → Eff (ℕ × (ℕ → Option ℕ))
as_bytes (byte_array size at) = pure (size, at)
as_bytes _ = crash Fault.wrong_block

unfoldable pub load_bytes : Ptr → Eff (ℕ × (ℕ → Option ℕ))
unfolding load
load_bytes p = do b ← load p; as_bytes b

-- The bytes that are not there yet.
abbrev pub nothing_at : ℕ → Option ℕ
nothing_at i = none

-- The contents `new` up to `n`, and `old` from there on.
abbrev pub overlay : ℕ → (ℕ → Option ℕ) → (ℕ → Option ℕ) → ℕ → Option ℕ
overlay n new old i = if ltb i n then new i else old i

-- `std::alloc::dealloc` of bytes: a fault unless the size is that of the allocation.
unfoldable pub dealloc_bytes : Ptr → ℕ → Eff (Unit {0})
unfolding load_bytes release
dealloc_bytes p size = do
  (n, _) ← load_bytes p
  if n == size then release p else crash Fault.wrong_block

unfoldable pub is_allocated : Ptr → Eff Bool
unfolding load_buf
is_allocated buf = do b ← load_buf buf; pure (not (b.base == null))

abbrev pub min : ℕ → ℕ → ℕ
min a b = if ltb a b then a else b

module _ (env : Env) where
  -- `std::alloc::alloc` of bytes, which must not be asked for none.
  unfoldable pub alloc_bytes : ℕ → Eff Ptr
  unfolding place
  alloc_bytes size w =
      if size == 0
      then crash Fault.zero_size w
      else if env.alloc_bytes w.heap size == null
      then done null w
      else place (env.alloc_bytes w.heap size) (byte_array size nothing_at) w

  -- `Buf::alloc`.
  unfoldable pub alloc : ℕ → Eff Ptr
  unfolding layout alloc_bytes
  alloc size = do
    n ← layout size
    ptr ← alloc_bytes n
    if ptr == null then throw (uv Error.enomem) else pure ptr

  -- `uv_buf_init`, boxed.
  abbrev pub new_container : Ptr → ℕ → Eff Ptr
  unfolding box_into_raw
  new_container base len = box_into_raw env (uv_buf (record { base = base; len = len % 2 ^ 32 }))

  unfoldable pub with_capacity : ℕ → Eff Ptr
  unfolding alloc new_container
  with_capacity size = do base ← alloc size; new_container base size

  unfoldable pub new_from_bytes : List ℕ → Eff Ptr
  unfolding alloc store new_container
  new_from_bytes bytes = do
    base ← alloc (length bytes + 1)
    store base (byte_array (length bytes + 1) (get_elem? (bytes ++ 0 ∷ [])))
    new_container base (length bytes + 1)

  -- `std::alloc::realloc`.
  unfoldable pub realloc_bytes : Ptr → (old_size size : ℕ) → Eff Ptr
  unfolding load_bytes place
  realloc_bytes p old_size size = do
    (n, at) ← load_bytes p
    if not (n == old_size)
        then crash Fault.wrong_block
        else if size == 0
        then crash Fault.zero_size
        else if ltb isize_max size
        then crash Fault.too_large
        else λ w.
            if env.realloc w.heap p size == null
            then done null w
            else place (env.realloc w.heap p size)
                (byte_array size (overlay (min n size) at nothing_at))
                (record w { heap = erase p w.heap })

  -- The first branch of `resize`.
  abbrev pub resize_allocated : Ptr → UvBuf → ℕ → Eff (Unit {0})
  unfolding layout realloc_bytes store
  resize_allocated buf b size = if b.len == size then pure tt else (do
    n ← layout b.len
    ptr ← realloc_bytes b.base n size
    if ptr == null
        then throw (uv Error.enomem)
        else store buf (uv_buf (record { base = ptr; len = size })))

  unfoldable pub resize : Ptr → ℕ → Eff (Unit {0})
  unfolding load_buf resize_allocated alloc store
  resize buf size = do
    b ← load_buf buf
    if not (b.base == null)
        then resize_allocated buf b size
        else (do base ← alloc size; store buf (uv_buf (record { base = base; len = size })))

  -- `copy_from_nonoverlapping`, with the bounds and the overlap that it leaves to the caller.
  unfoldable pub copy_bytes : (dst src : Ptr) (len : ℕ) → Eff (Unit {0})
  unfolding load_bytes store
  copy_bytes dst src len = do
    (m, there) ← load_bytes src
    (n, here) ← load_bytes dst
    if dst == src && ltb 0 len
        then crash Fault.overlapping
        else if ltb m len || ltb n len
        then crash Fault.out_of_bounds
        else store dst (byte_array n (overlay len there here))

  unfoldable pub copy_from : (buf other : Ptr) → Eff (Unit {0})
  unfolding is_allocated load_buf resize copy_bytes
  copy_from buf other = do
    there ← is_allocated other
    when there (do
      o ← load_buf other
      mine ← is_allocated buf
      when (not mine) (resize buf o.len)
      b ← load_buf buf
      copy_bytes b.base o.base (min b.len o.len))

  -- `new_from`: without bytes to copy and without a size, a `Buf` that has not even a container.
  unfoldable pub new_from : (other : Ptr) → Option ℕ → Eff Ptr
  unfolding is_allocated with_capacity load_buf copy_from
  new_from other size = do
    there ← is_allocated other
    if not there then elim size [ none ↦ pure null | some s ↦ with_capacity s ] else (do
      o ← load_buf other
      buf ← with_capacity (elim size [ none ↦ o.len | some s ↦ s ])
      copy_from buf other
      pure buf)

-- The container stays, without bytes.
unfoldable pub dealloc : Ptr → Eff (Unit {0})
unfolding load_buf dealloc_bytes store
dealloc buf = do
  b ← load_buf buf
  when (not (b.base == null) && leb b.len isize_max)
      (do dealloc_bytes b.base b.len; store buf (uv_buf (record { base = null; len = 0 })))

-- `ReadonlyBuf::dealloc`: the container keeps its pointer.
unfoldable pub dealloc_readonly : Ptr → Eff (Unit {0})
unfolding load_buf dealloc_bytes
dealloc_readonly buf = do
  b ← load_buf buf
  when (not (b.base == null) && leb b.len isize_max) (dealloc_bytes b.base b.len)

unfoldable pub destroy_container : Ptr → Eff (Unit {0})
unfolding load_buf release
destroy_container buf = do load_buf buf; release buf

unfoldable pub destroy : Ptr → Eff (Unit {0})
unfolding dealloc destroy_container
destroy buf = do dealloc buf; destroy_container buf

abbrev pub byte_or_fault : Option ℕ → Eff ℕ
byte_or_fault none = crash Fault.uninitialised
byte_or_fault (some b) = pure b

-- `Index<usize>`.
unfoldable pub index : Ptr → ℕ → Eff ℕ
unfolding load_buf load_bytes
index buf i = do
  b ← load_buf buf
  let len = if not (b.base == null) then b.len else 0
  if leb len i then crash Fault.panic else (do
    (n, at) ← load_bytes b.base
    if leb n i then crash Fault.out_of_bounds else byte_or_fault (at i))
