-- ===== src/Req/Random/Laws.antt =====
-- src/requests/random.rs: what a request leaves behind.
use libuv_rs.Common.{
  ℕ, ◌≡◌, ◌≢◌, ◌==◌, false, true, none, some, Option, ◌∷◌, inl, inr, Bool-cases, if◌then◌else◌,
  ==_refl, ==_ne, ne_sym, ltb,
}
use libuv_rs.Common.Int.{ℤ, is_neg}
use libuv_rs.Error.{from_inner as error_from_inner}
use libuv_rs.Memory.{
  Ptr, null, uv_random_t, cb, random_data, byte_array, Fields, CCallback, erase, lookup, update,
}
use libuv_rs.Memory.Effect.{
  Env, IsAllocator, World, Run, Fault, fault, done, fails, uv, note_args, status_of, Args, uvret,
  owe, box_into_raw,
}
use libuv_rs.Memory.Laws.{lookup-erase_ne, erase-update, ne_of_lookup}
use libuv_rs.Memory.Boxed.{fresh_ne}
use libuv_rs.Buf.Storage.{isize_max, nothing_at}
use libuv_rs.Req.Owned.{Owned, lookup-freed, new_request-Owned, new_ptr, new_box, new_heap}
use libuv_rs.Req.Random.{
  UvRandom, new, random, destroy, uv_random_cb, vec_with_capacity, random_sync, fill, drop_vec,
  dangling,
}

pub uv_random_cb-Owned :
    (env : Env) {p q : Ptr} {n : ℕ} {g : Fields} (w : World) (status : ℤ) (buf : Ptr) (buflen : ℕ)
    → Owned w.heap uv_random_t p q (random_data (cb n)) g
    → uv_random_cb env p status buf buflen w
      ≡ done tt (record w {
        heap = erase p (erase q w.heap);
        log = note_args n p (some (status_of env status)) (Args.random_args buf buflen) w.log;
      })
unfolding uv_random_cb
uv_random_cb-Owned env {p} {q} w status buf buflen o = simp (
  ==_ne p null o.p_not_null,
  o.p_holds,
  ==_ne q null o.q_not_null,
  o.q_holds,
  lookup-erase_ne p q w.heap o.apart,
  lookup-freed w o,
  erase-update,
)

module _ (env : Env) (libuv : UvRandom) (w : World) (buflen flags : ℕ) where
  abbrev pub raw_vec : Ptr
  raw_vec = env.box_new w.heap

  abbrev pub sync_answer : ℤ × (ℕ → Option ℕ)
  sync_answer =
      libuv.uv_random_sync (record w { heap = (raw_vec, byte_array buflen nothing_at) ∷ w.heap })
        raw_vec buflen flags

  abbrev pub empty_answer : ℤ
  empty_answer = (libuv.uv_random_sync w dangling 0 flags).0

  abbrev pub random_spec : Run Ptr
  random_spec =
      if ltb isize_max buflen
      then fault Fault.panic
      else if is_neg sync_answer.0
      then fails (uv (error_from_inner env.errno sync_answer.0)) w
      else done raw_vec (record w { heap = (raw_vec, byte_array buflen sync_answer.1) ∷ w.heap })

  -- The Vec holds what libuv wrote, and is gone where libuv refuses.
  pub random_sync_lem :
      IsAllocator env → (buflen == 0) ≡ false → random_sync env libuv buflen flags w ≡ random_spec
  unfolding random_sync vec_with_capacity fill drop_vec uvret box_into_raw lookup update erase
  random_sync_lem law some_bytes = elim (Bool-cases (ltb isize_max buflen)) [
    | inl large ↦ simp (large)
    | inr fits ↦
        let box_ne = ==_ne raw_vec null (law.box_not_null _) in
        elim (Bool-cases (is_neg sync_answer.0)) [
          | inl bad ↦ simp (fits, some_bytes, bad, ==_refl, box_ne)
          | inr good ↦ simp (fits, some_bytes, good, ==_refl, box_ne)
        ]
  ]

module _ (env : Env) (law : IsAllocator env) (libuv : UvRandom) (lp : Ptr) (w : World)
    (buflen flags n : ℕ) where
  abbrev pub random_ptr : Ptr
  random_ptr = new_ptr env uv_random_t w

  abbrev pub box_ptr : Ptr
  box_ptr = new_box env uv_random_t w

  abbrev pub asked : World
  asked = record w { heap = new_heap env uv_random_t w (random_data (cb n)) env.garbage }

  abbrev pub vec_ptr : Ptr
  vec_ptr = env.box_new asked.heap

  abbrev pub random_code : ℤ
  random_code =
      libuv.uv_random (record asked { heap = (vec_ptr, byte_array buflen nothing_at) ∷ asked.heap })
        lp random_ptr vec_ptr buflen flags (some CCallback.uv_random_cb)

  module _ (got : random_ptr ≢ null) where
    made : Owned asked.heap uv_random_t random_ptr box_ptr (random_data (cb n)) env.garbage
    made = new_request-Owned env law uv_random_t (random_data (cb n)) w got env.garbage

    vec_free : lookup vec_ptr asked.heap ≡ none
    vec_free = law.box_fresh asked.heap

    vec_not_ptr : random_ptr ≢ vec_ptr
    vec_not_ptr = ne_of_lookup random_ptr vec_ptr _ made.p_holds vec_free

    vec_not_box : box_ptr ≢ vec_ptr
    vec_not_box = ne_of_lookup box_ptr vec_ptr _ made.q_holds vec_free

  -- A request for random bytes with a closure, from one to isize::MAX of them, that gets its
  -- memory and that libuv refuses gives the error and frees the request with its data, and leaves
  -- the memory that it allocated for the bytes, with nobody to free it, with an allocator that
  -- returns fresh addresses.
  pub random-refused :
      random_ptr ≢ null
      → (buflen == 0) ≡ false
      → ltb isize_max buflen ≡ false
      → is_neg random_code ≡ true
      → random env libuv lp buflen flags (cb n) w
        ≡ fails
            (uv (error_from_inner env.errno random_code))
            (record w { heap = (vec_ptr, byte_array buflen nothing_at) ∷ w.heap })
  unfolding random new destroy vec_with_capacity uvret box_into_raw owe lookup update erase
  random-refused got some_bytes fits bad = simp (
    ==_ne random_ptr null got,
    some_bytes,
    fits,
    bad,
    ==_refl,
    ==_ne box_ptr null (law.box_not_null _),
    fresh_ne env uv_random_t env.garbage w.heap law got,
    ==_ne vec_ptr random_ptr (ne_sym (vec_not_ptr got)),
    ==_ne vec_ptr box_ptr (ne_sym (vec_not_box got)),
  )
