-- ===== src/Buf/Change.antt =====
-- src/buf.rs: resizing a buffer and copying into it.
use libuv_rs.Common.{
  ℕ, ◌≤◌, ◌≡◌, ◌≢◌, ◌∙◌, true, false, Option, some, ◌∷◌, ◌==◌, ==_refl, ==_ne, leb, ltb, ne_sym,
  inl, inr, Bool-cases, if◌then◌else◌, arith,
}
use libuv_rs.Error.{Error}
use libuv_rs.Memory.{Ptr, null, uv_buf, byte_array, Heap, lookup, update, erase}
use libuv_rs.Memory.Effect.{Env, World, Run, IsAllocator, done, fails, uv}
use libuv_rs.Memory.Laws.{
  ne_of_test, ne_of_lookup, lookup-cons_self, lookup-cons_ne, lookup-erase_ne, lookup-update_self,
  lookup-update_ne, erase-update_ne, erase-cons_self,
}
use libuv_rs.Buf.Storage.{isize_max, nothing_at, overlay, min, resize, copy_from}
use libuv_rs.Buf.Owned.{BufOwned}

fits_test : (n : ℕ) → leb n isize_max ≡ true → ltb isize_max n ≡ false
fits_test n h = ground arith

le_test : (n : ℕ) → n ≤ isize_max → ltb isize_max n ≡ false
le_test n h = ground arith

min_le_left : (a b : ℕ) → ltb a (min a b) ≡ false
min_le_left a b = ground arith

min_le_right : (a b : ℕ) → ltb b (min a b) ≡ false
min_le_right a b = ground arith

module _ (env : Env) {p base : Ptr} {n : ℕ} {at : ℕ → Option ℕ} (w : World)
    (o : BufOwned w.heap p base n at) (size : ℕ) where
  abbrev pub new_base : Ptr
  new_base = env.realloc w.heap base size

  -- The bytes that both sizes have are kept.
  abbrev pub kept : ℕ → Option ℕ
  kept = overlay (min n size) at nothing_at

  abbrev pub moved : Heap
  moved = (new_base, byte_array size kept) ∷ erase base w.heap

  abbrev pub resized : World
  resized = record w { heap = update p (uv_buf (record { base = new_base; len = size })) moved }

  module _ (law : IsAllocator env) (got : new_base ≢ null) where
    p_ne_new : p ≢ new_base
    p_ne_new =
        ne_of_lookup p new_base (erase base w.heap)
          (lookup-erase_ne p base w.heap o.apart ∙ o.p_holds)
          (law.realloc_fresh w.heap base size got)

    container_there : lookup p moved ≡ some (uv_buf (record { base = base; len = n }))
    container_there =
        lookup-cons_ne p new_base (byte_array size kept) (erase base w.heap) (ne_sym p_ne_new)
        ∙ (lookup-erase_ne p base w.heap o.apart ∙ o.p_holds)

    pub resized-BufOwned : size ≤ isize_max → BufOwned resized.heap p new_base size kept
    resized-BufOwned fits = record {
      p_not_null = o.p_not_null;
      base_not_null = got;
      apart = ne_sym p_ne_new;
      fits = ground arith;
      p_holds = lookup-update_self p _ moved container_there;
      base_holds =
          lookup-update_ne new_base p _ moved p_ne_new
          ∙ lookup-cons_self new_base _ (erase base w.heap);
      base_once =
          rw
            (erase-update_ne p new_base (uv_buf (record { base = new_base; len = size })) moved
              p_ne_new)
            (rw (erase-cons_self new_base (byte_array size kept) (erase base w.heap)) (
              lookup-update_ne new_base p _ (erase base w.heap) p_ne_new
              ∙ law.realloc_fresh w.heap base size got));
    }

  abbrev pub resize_spec : Run (Unit {0})
  resize_spec =
      if n == size
      then done tt w
      else if new_base == null
      then fails (uv Error.enomem) w
      else done tt resized

  -- Resizing a live buffer to a size between one and isize::MAX leaves it alone if it has that
  -- size, gives ENOMEM with the state as it was if there is no memory, and otherwise leaves the
  -- container with the new size and the bytes that both sizes have.
  pub resize-BufOwned :
      IsAllocator env → size ≢ 0 → size ≤ isize_max → resize env p size w ≡ resize_spec
  unfolding resize
  resize-BufOwned law several fits = elim (Bool-cases (n == size)) [
    | inl same ↦ simp (==_ne p null o.p_not_null, o.p_holds, ==_ne base null o.base_not_null, same)
    | inr other ↦ elim (Bool-cases (new_base == null)) [
      | inl gone ↦ simp (
        ==_ne p null o.p_not_null,
        o.p_holds,
        ==_ne base null o.base_not_null,
        other,
        o.base_holds,
        ==_refl,
        ==_ne size 0 several,
        gone,
        fits_test n o.fits,
        le_test size fits,
      )
      | inr got ↦ simp (
        ==_ne p null o.p_not_null,
        o.p_holds,
        ==_ne base null o.base_not_null,
        other,
        o.base_holds,
        ==_refl,
        ==_ne size 0 several,
        got,
        fits_test n o.fits,
        le_test size fits,
        container_there law (ne_of_test got),
      )
    ]
  ]

module _ (env : Env) {p base p' base' : Ptr} {n n' : ℕ} {at at' : ℕ → Option ℕ} (w : World)
    (o : BufOwned w.heap p base n at) (o' : BufOwned w.heap p' base' n' at') where
  -- Copying one live buffer into another with other bytes replaces as many bytes as the shorter of
  -- the two has and keeps the rest.
  pub copy_from-BufOwned :
      base ≢ base'
      → copy_from env p p' w
        ≡ done tt
            (record w { heap = update base (byte_array n (overlay (min n n') at' at)) w.heap })
  unfolding copy_from
  copy_from-BufOwned apart = simp (
    ==_ne p null o.p_not_null,
    o.p_holds,
    ==_ne p' null o'.p_not_null,
    o'.p_holds,
    ==_ne base null o.base_not_null,
    ==_ne base' null o'.base_not_null,
    o.base_holds,
    o'.base_holds,
    ==_ne base base' apart,
    min_le_left,
    min_le_right,
  )
