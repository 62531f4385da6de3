-- ===== src/Buf/Make.antt =====
-- src/buf.rs: making a buffer and giving it back.
use libuv_rs.Common.{
  ℕ, ◌+◌, ◌%◌, ◌^◌, ◌<◌, ◌≤◌, ◌≡◌, ◌≢◌, refl, ◌∙◌, true, false, Option, List, [], ◌∷◌, ◌++◌, length,
  get_elem?, ◌==◌, ==_refl, ==_ne, leb, ltb, inl, inr, Bool-cases, if◌then◌else◌, arith,
}
use libuv_rs.Error.{Error}
use libuv_rs.Memory.{Ptr, null, lookup, update}
use libuv_rs.Memory.Effect.{Env, World, Run, Fault, IsAllocator, done, fails, fault, uv}
use libuv_rs.Buf.Storage.{
  isize_max, nothing_at, with_capacity, new_from_bytes, destroy, index, byte_or_fault,
}
use libuv_rs.Buf.Owned.{
  bytes_ptr, container_ptr, buf_world, buf_world-BufOwned, erase-buf_world, destroy-BufOwned,
  index-BufOwned, container_ne,
}

module _ (env : Env) (w : World) where
  -- What making a buffer of `n` bytes promises.
  abbrev pub new_spec : (n : ℕ) → (ℕ → Option ℕ) → Run Ptr
  new_spec n at =
      if ltb isize_max n
      then fails (uv Error.enomem) w
      else if n == 0
      then fault Fault.zero_size
      else if bytes_ptr env w n at == null
      then fails (uv Error.enomem) w
      else done (container_ptr env w n at) (buf_world env w n at)

  pub with_capacity_lem : (n : ℕ) → with_capacity env n w ≡ new_spec n nothing_at
  unfolding with_capacity
  with_capacity_lem n = elim (Bool-cases (ltb isize_max n)) [
    | inl large ↦ simp large
    | inr fits ↦ elim (Bool-cases (n == 0)) [
      | inl zero ↦ simp (fits, zero)
      | inr several ↦ elim (Bool-cases (env.alloc_bytes w.heap n == null)) [
        | inl gone ↦ simp (fits, several, gone, ==_refl)
        | inr got ↦ simp (fits, several, got)
      ]
    ]
  ]

  abbrev pub terminated : List ℕ → ℕ → Option ℕ
  terminated bytes = get_elem? (bytes ++ 0 ∷ [])

  not_zero : (bytes : List ℕ) → (length bytes + 1 == 0) ≡ false
  not_zero bytes = ==_ne (length bytes + 1) 0 (λ e. ground arith)

  pub new_from_bytes_lem :
      (bytes : List ℕ) → new_from_bytes env bytes w ≡ new_spec (length bytes + 1) (terminated bytes)
  unfolding new_from_bytes lookup update
  new_from_bytes_lem bytes = elim (Bool-cases (ltb isize_max (length bytes + 1))) [
    | inl large ↦ simp large
    | inr fits ↦ elim (Bool-cases (env.alloc_bytes w.heap (length bytes + 1) == null)) [
      | inl gone ↦ simp (fits, not_zero bytes, gone, ==_refl)
      | inr got ↦ simp (fits, not_zero bytes, got, ==_refl)
    ]
  ]

  made_spec :
      (n : ℕ) (at : ℕ → Option ℕ)
      → n ≢ 0
      → ltb isize_max n ≡ false
      → bytes_ptr env w n at ≢ null
      → new_spec n at ≡ done (container_ptr env w n at) (buf_world env w n at)
  made_spec n at several fits got =
      rw (fits, ==_ne n 0 several, ==_ne (bytes_ptr env w n at) null got) refl

  module _ (law : IsAllocator env) (bytes : List ℕ) where
    abbrev pub text_size : ℕ
    text_size = length bytes + 1

    abbrev pub text_world : World
    text_world = buf_world env w text_size (terminated bytes)

    abbrev pub text_buf : Ptr
    text_buf = container_ptr env w text_size (terminated bytes)

    -- A buffer that is made from fewer than 2 ^ 32 - 1 bytes and gets its memory reads back, at
    -- each index, the byte it was made from, then a zero byte, and panics from there on;
    -- destroying it gives the memory back as it was.
    pub new_from_bytes-index :
        text_size < 2 ^ 32
        → bytes_ptr env w text_size (terminated bytes) ≢ null
        → (new_from_bytes env bytes w ≡ done text_buf text_world)
          × ((i : ℕ)
              → index text_buf i text_world ≡ (
                  if leb text_size i
                  then fault Fault.panic
                  else byte_or_fault (terminated bytes i) text_world))
          × (destroy text_buf text_world ≡ done tt w)
    new_from_bytes-index small got =
        let o = buf_world-BufOwned env w text_size (terminated bytes) law got small in
        (
          new_from_bytes_lem bytes
              ∙ made_spec text_size (terminated bytes) (λ e. ground arith) (ground arith) got,
          index-BufOwned text_world o,
          rw
              (
                destroy-BufOwned text_world o,
                erase-buf_world env w text_size (terminated bytes) law got,
              )
              refl,
        )

  module _ (law : IsAllocator env) (n : ℕ) where
    abbrev pub raw_world : World
    raw_world = buf_world env w n nothing_at

    abbrev pub raw_buf : Ptr
    raw_buf = container_ptr env w n nothing_at

    pub with_capacity-destroy :
        n ≢ 0
        → n < 2 ^ 32
        → bytes_ptr env w n nothing_at ≢ null
        → (with_capacity env n w ≡ done raw_buf raw_world) × (destroy raw_buf raw_world ≡ done tt w)
    with_capacity-destroy several small got = (
      with_capacity_lem n ∙ made_spec n nothing_at several (ground arith) got,
      rw
          (
            destroy-BufOwned raw_world (buf_world-BufOwned env w n nothing_at law got small),
            erase-buf_world env w n nothing_at law got,
          )
          refl,
    )

    -- The length that the container of a large buffer has.
    cut : 2 ^ 32 ≤ n → (n == n % 2 ^ 32) ≡ false
    cut large = ==_ne n (n % 2 ^ 32) (λ e. ground arith)

    cut_fits : leb (n % 2 ^ 32) isize_max ≡ true
    cut_fits = ground arith

    -- A buffer that is made with a capacity from 2 ^ 32 to isize::MAX bytes and gets its memory
    -- cannot be destroyed: its container has the capacity modulo 2 ^ 32, and the bytes are given
    -- back with the wrong layout.
    pub with_capacity-destroy_large :
        2 ^ 32 ≤ n
        → n ≤ isize_max
        → bytes_ptr env w n nothing_at ≢ null
        → (with_capacity env n w ≡ done raw_buf raw_world)
          × (destroy raw_buf raw_world ≡ fault Fault.wrong_block)
    unfolding destroy lookup
    with_capacity-destroy_large large fits got = (
      with_capacity_lem n ∙ made_spec n nothing_at (λ e. ground arith) (ground arith) got,
      simp (
        ==_ne raw_buf null (law.box_not_null _),
        ==_refl,
        ==_ne (bytes_ptr env w n nothing_at) null got,
        container_ne env w n nothing_at law got,
        cut_fits,
        cut large,
      ),
    )
