-- ===== src/Req/Write/Laws.antt =====
-- src/requests/write.rs: what a new request holds, and that destroying it frees all of it.
use libuv_rs.Common.{
  ◌≡◌, ◌≢◌, ◌∙◌, inl, inr, true, false, none, some, List, ◌∷◌, ◌==◌, if◌then◌else◌, ℕ, Bool-cases,
  length, ==_refl, ==_ne, ne_sym,
}
use libuv_rs.Common.Int.{ℤ}
use libuv_rs.Error.{Error}
use libuv_rs.Memory.{
  Ptr, null, uv_write_t, Callback, cb, UvBuf, struct, req_data, buf_vec, write_data, Heap, lookup,
  erase, update,
}
use libuv_rs.Memory.Effect.{Env, IsAllocator, World, done, fails, uv, note, status_of}
use libuv_rs.Memory.Laws.{lookup-cons_self, lookup-cons_ne, ne_of_lookup}
use libuv_rs.BufVec.{dangling}
use libuv_rs.Req.Write.{WriteReq, new, destroy, uv_write_cb}

module _ (env : Env) (bufs : List UvBuf) (f : Callback) (w : World) where
  abbrev pub capacity : ℕ
  capacity = env.capacity (length bufs)

  abbrev pub p : Ptr
  p = env.alloc w.heap uv_write_t

  -- Before the array and the data are made.
  abbrev pub bare : Heap
  bare = (p, struct uv_write_t (record { data_ptr = none; fields = env.garbage })) ∷ w.heap

  abbrev pub v : Ptr
  v = env.box_new bare

  abbrev pub with_array : Heap
  with_array = (v, buf_vec capacity bufs) ∷ bare

  -- With an array that is not empty, and with an empty one.
  abbrev pub q : Ptr
  q = env.box_new with_array

  abbrev pub full : Heap
  full =
      (q, req_data (write_data v (length bufs) capacity f))
      ∷ (v, buf_vec capacity bufs)
      ∷ (p, struct uv_write_t (record { data_ptr = some q; fields = env.garbage }))
      ∷ w.heap

  abbrev pub q_empty : Ptr
  q_empty = env.box_new bare

  abbrev pub empty : Heap
  empty =
      (q_empty, req_data (write_data dangling (length bufs) capacity f))
      ∷ (p, struct uv_write_t (record { data_ptr = some q_empty; fields = env.garbage }))
      ∷ w.heap

  -- The state with a new request, and the request.
  abbrev pub made : World
  made = record w { heap = if capacity == 0 then empty else full }

  abbrev pub request : WriteReq
  request = record { req = p; bufs_ptr = if capacity == 0 then dangling else v }

pub new-null :
    (env : Env) (bufs : List UvBuf) (f : Callback) (w : World)
    → (p env bufs f w == null) ≡ true
    → new env bufs f w ≡ fails (uv Error.enomem) w
unfolding new
new-null env bufs f w gone = simp (gone, ==_refl)

module _ (env : Env) (law : IsAllocator env) (bufs : List UvBuf) (f : Callback) (w : World)
    (got : env.alloc w.heap uv_write_t ≢ null) where
  v_ne_p : v env bufs f w ≢ p env bufs f w
  v_ne_p = ne_sym (
      ne_of_lookup (p env bufs f w) (v env bufs f w) _ (lookup-cons_self (p env bufs f w) _ w.heap)
        (law.box_fresh _))

  v_p : (v env bufs f w == p env bufs f w) ≡ false
  v_p = ==_ne _ _ v_ne_p

  q_v : (q env bufs f w == v env bufs f w) ≡ false
  q_v = ==_ne _ _ (
      ne_sym (
        ne_of_lookup (v env bufs f w) (q env bufs f w) _ (lookup-cons_self (v env bufs f w) _ _)
          (law.box_fresh _)))

  q_p : (q env bufs f w == p env bufs f w) ≡ false
  q_p = ==_ne _ _ (
      ne_sym (
        ne_of_lookup (p env bufs f w) (q env bufs f w) (with_array env bufs f w)
          (lookup-cons_ne (p env bufs f w) (v env bufs f w) _ _ v_ne_p
            ∙ lookup-cons_self (p env bufs f w) _ w.heap)
          (law.box_fresh _)))

  p-null : (p env bufs f w == null) ≡ false
  p-null = ==_ne _ _ got

  q-null : (q env bufs f w == null) ≡ false
  q-null = ==_ne _ _ (law.box_not_null _)

  v-null : (v env bufs f w == null) ≡ false
  v-null = ==_ne _ _ (law.box_not_null _)

  pub new-made : new env bufs f w ≡ done (request env bufs f w) (made env bufs f w)
  unfolding new lookup update
  new-made = elim (Bool-cases (capacity env bufs f w == 0)) [
    | inl e ↦ simp (e, p-null, v_p, ==_refl)
    | inr e ↦ simp (e, p-null, v_p, q_v, q_p, ==_refl)
  ]

  -- Whatever the array pointer in the handle of the request.
  pub destroy-made :
      (b : Ptr)
      → destroy (record { req = p env bufs f w; bufs_ptr = b }) (made env bufs f w) ≡ done tt w
  unfolding destroy lookup update erase
  destroy-made b = elim (Bool-cases (capacity env bufs f w == 0)) [
    | inl e ↦ simp (e, p-null, v_p, v-null, ==_refl)
    | inr e ↦ simp (e, p-null, v_p, q_v, q_p, v-null, q-null, ==_refl)
  ]

-- The report of a request with a closure: `w` is the state before the request was made, `v` the state
-- in which libuv reports it.
module _ (env : Env) (law : IsAllocator env) (bufs : List UvBuf) (n : ℕ) (w : World)
    (got : env.alloc w.heap uv_write_t ≢ null) where
  pub uv_write_cb-made :
      (status : ℤ) (v : World)
      → v.heap ≡ (made env bufs (cb n) w).heap
      → uv_write_cb env (p env bufs (cb n) w) status v
        ≡ done tt (record v {
          heap = w.heap;
          log = note n (p env bufs (cb n) w) (some (status_of env status)) v.log;
        })
  unfolding uv_write_cb lookup update erase
  uv_write_cb-made status v same = elim (Bool-cases (capacity env bufs (cb n) w == 0)) [
    | inl e ↦ simp (
      same,
      e,
      p-null env law bufs (cb n) w got,
      v_p env law bufs (cb n) w got,
      v-null env law bufs (cb n) w got,
      ==_refl,
    )
    | inr e ↦ simp (
      same,
      e,
      p-null env law bufs (cb n) w got,
      v_p env law bufs (cb n) w got,
      q_v env law bufs (cb n) w got,
      q_p env law bufs (cb n) w got,
      v-null env law bufs (cb n) w got,
      q-null env law bufs (cb n) w got,
      ==_refl,
    )
  ]
