-- ===== src/Memory/Effect.antt =====
-- Programs over the memory: they end with a value, with an error that `?` passes on, or in a fault.
-- The allocator and the bindings' constants are an argument.
mod State
pub use State.*
use libuv_rs.Common.{
  ℕ, ◌≡◌, ◌≢◌, ◌≤◌, Bool, true, false, Option, none, some, List, [], ◌∷◌, ◌==◌, if◌then◌else◌,
}
use libuv_rs.Common.Int.{ℤ, is_neg, to_nat}
use libuv_rs.Error.{UvErrno, from_inner as error_from_inner}
use libuv_rs.Memory.{
  Ptr, null, Layout, layout_tag, Callback, cb, scandir_cb, nil, CCallback, Struct, Fields, Block,
  struct, Heap, lookup, erase, update,
}

abbrev pub Eff : Type 0 → Type 0
Eff A = World → Run A

module _ {A : Type 0} where
  abbrev pub pure : A → Eff A
  pure = done

  abbrev pub throw : Failure → Eff A
  throw = fails

  abbrev pub crash : Fault → Eff A
  crash x w = fault x

  -- The value of a fallible call as a `Result`, where the source looks at it before `?`.
  abbrev pub attempt_run : Run A → Run (Result A)
  attempt_run (done a w) = done (ok a) w
  attempt_run (fails e w) = done (err e) w
  attempt_run (fault x) = fault x

  abbrev pub attempt : Eff A → Eff (Result A)
  attempt m w = attempt_run (m w)

  abbrev pub give_back : Result A → Eff A
  give_back (ok a) = done a
  give_back (err e) = fails e

  abbrev pub is_err : Result A → Bool
  is_err (ok a) = false
  is_err (err e) = true

module _ {A B : Type 0} where
  abbrev pub and_then : Run A → (A → Eff B) → Run B
  and_then (done a w) k = k a w
  and_then (fails e w) k = fails e w
  and_then (fault x) k = fault x

  infixl 5 ◌>>=◌ ◌>>◌
  abbrev pub ◌>>=◌ : Eff A → (A → Eff B) → Eff B
  m >>= k = λ w. and_then (m w) k

  abbrev pub ◌>>◌ : Eff A → Eff B → Eff B
  m >> n = m >>= λ _. n

-- `if condition { body }`.
abbrev pub when : Bool → Eff (Unit {0}) → Eff (Unit {0})
when true m = m
when false m = pure tt

-- The allocator: `alloc`, `alloc_bytes` and `realloc` may fail with null, `box_new` aborts instead. `garbage` is what fresh
-- memory holds, `capacity` the capacity of a vector that is collected from so many elements.
pub record Env : Type 0 where
  pub alloc : Heap → Layout → Ptr
  pub box_new : Heap → Ptr
  pub alloc_bytes : Heap → (size : ℕ) → Ptr
  pub realloc : Heap → (p : Ptr) (size : ℕ) → Ptr
  pub garbage : Fields
  pub capacity : ℕ → ℕ
  pub errno : UvErrno → ℤ

-- What the allocator promises: no live block at the address that it returns.
pub record IsAllocator (env : Env) : Type 0 where
  pub alloc_fresh : (h : Heap) (l : Layout) → env.alloc h l ≢ null → lookup (env.alloc h l) h ≡ none
  pub box_fresh : (h : Heap) → lookup (env.box_new h) h ≡ none
  pub box_not_null : (h : Heap) → env.box_new h ≢ null
  pub bytes_fresh :
      (h : Heap) (n : ℕ) → env.alloc_bytes h n ≢ null → lookup (env.alloc_bytes h n) h ≡ none
  -- The block may stay where it is.
  pub realloc_fresh :
      (h : Heap) (p : Ptr) (n : ℕ)
      → env.realloc h p n ≢ null
      → lookup (env.realloc h p n) (erase p h) ≡ none
  pub capacity_enough : (n : ℕ) → n ≤ env.capacity n

-- `*p`.
unfoldable pub load : Ptr → Eff Block
load p w =
    if p == null
    then fault Fault.null_pointer
    else elim (lookup p w.heap) [ none ↦ fault Fault.dangling_pointer | some b ↦ done b w ]

unfoldable pub store : Ptr → Block → Eff (Unit {0})
unfolding load
store p b = do _ ← load p; λ w. done tt (record w { heap = update p b w.heap })

-- Gives a block back, whatever it is: the caller has looked at it.
unfoldable pub release : Ptr → Eff (Unit {0})
release p w = done tt (record w { heap = erase p w.heap })

-- A new block at a given address.
unfoldable pub place : Ptr → Block → Eff Ptr
place p b w = done p (record w { heap = (p, b) ∷ w.heap })

-- Reads a structure, of any layout.
abbrev pub as_struct : Block → Eff (Layout × Struct)
as_struct (struct l s) = pure (l, s)
as_struct _ = crash Fault.wrong_block

unfoldable pub load_struct : Ptr → Eff (Layout × Struct)
unfolding load
load_struct p = do b ← load p; as_struct b

-- `std::alloc::alloc(Layout::new::<T>())`.
unfoldable pub std_alloc : Env → Layout → Eff Ptr
unfolding place
std_alloc env l w =
    let p = env.alloc w.heap l in
    if p == null
    then done null w
    else place p (struct l (record { data_ptr = none; fields = env.garbage })) w

-- `std::alloc::dealloc(p, Layout::new::<T>())`: a fault unless a block of that layout is there.
unfoldable pub std_dealloc : Ptr → Layout → Eff (Unit {0})
unfolding load_struct release
std_dealloc p l = do
  (k, _) ← load_struct p
  if layout_tag k == layout_tag l then release p else crash Fault.wrong_block

-- `Box::into_raw(Box::new(b))`.
unfoldable pub box_into_raw : Env → Block → Eff Ptr
unfolding place
box_into_raw env b w = place (env.box_new w.heap) b w

-- `uv_req_get_data`, `uv_handle_get_data`: the user pointer of the structure.
unfoldable pub uv_get_data : Ptr → Eff Ptr
unfolding load_struct
uv_get_data p = do
  (_, s) ← load_struct p
  elim s.data_ptr [ none ↦ crash Fault.uninitialised | some q ↦ pure q ]

unfoldable pub uv_set_data : Ptr → Ptr → Eff (Unit {0})
unfolding load_struct store
uv_set_data p q = do (l, s) ← load_struct p; store p (struct l (record s { data_ptr = some q }))

-- `uvret`: a negative code is an error.
unfoldable pub uvret : Env → ℤ → Eff (Unit {0})
uvret env code = if is_neg code then throw (uv (error_from_inner env.errno code)) else pure tt

-- The status that a C callback passes on.
unfoldable pub status_of : Env → ℤ → Result ℕ
status_of env status =
    if is_neg status then err (uv (error_from_inner env.errno status)) else ok (to_nat status)

-- `callbacks!`: `is_nil`, and `call`, which does nothing on `Nil`.
abbrev pub is_nil : Callback → Bool
is_nil (cb _) = false
is_nil (scandir_cb _) = false
is_nil nil = true

abbrev pub note : ℕ → Ptr → Option (Result ℕ) → List Call → List Call
note f p st log = record { closure = f; subject = p; status = st; args = no_args } ∷ log

abbrev pub note_args : ℕ → Ptr → Option (Result ℕ) → Args → List Call → List Call
note_args f p st a log = record { closure = f; subject = p; status = st; args = a } ∷ log

unfoldable pub call : Callback → Ptr → Option (Result ℕ) → Eff (Unit {0})
call (cb f) p st w = done tt (record w { log = note f p st w.log })
call (scandir_cb f) p st w = done tt (record w { log = note f p st w.log })
call nil p st w = done tt w

unfoldable pub call_with : Callback → Ptr → Option (Result ℕ) → Args → Eff (Unit {0})
call_with (cb f) p st a w = done tt (record w { log = note_args f p st a w.log })
call_with (scandir_cb f) p st a w = done tt (record w { log = note_args f p st a w.log })
call_with nil p st a w = done tt w

-- An answer of libuv, which may depend on all that has happened.
unfoldable pub ask : {A : Type 0} → (World → A) → Eff A
ask f w = done (f w) w

-- `use_c_callback!`.
abbrev pub use_c_callback : CCallback → Callback → Option CCallback
use_c_callback c f = if is_nil f then none else some c

-- What libuv does with an accepted request: it will report it, if it was given a callback.
unfoldable pub owe : Ptr → Option CCallback → ℤ → Eff (Unit {0})
owe p none code w = done tt w
owe p (some c) code w =
    if is_neg code then done tt w else done tt (record w { pending = (p, c) ∷ w.pending })

-- `CString::new`: refused if the text has an inner zero byte.
unfoldable pub has_nul : List ℕ → Bool
has_nul [] = false
has_nul (c ∷ s) = if c == 0 then true else has_nul s

unfoldable pub c_string_new : List ℕ → Eff (List ℕ)
c_string_new s = if has_nul s then throw nul_error else pure s
