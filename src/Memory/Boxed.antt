-- ===== src/Memory/Boxed.antt =====
-- A C structure and the Rust box that its user pointer leads to: what every request and every
-- handle of the crate is in memory.
use libuv_rs.Common.{◌≡◌, ◌≢◌, ◌==◌, false, sym, ◌∙◌, some, none, ◌∷◌, ==_refl, ==_ne, ne_sym}
use libuv_rs.Memory.{Ptr, null, Layout, Fields, Block, struct, Heap, lookup, erase, update}
use libuv_rs.Memory.Effect.{Env, IsAllocator}
use libuv_rs.Memory.Laws.{
  lookup-cons_self, lookup-cons_ne, ne_of_lookup, lookup-erase_ne, lookup-update_self, erase_comm,
}

-- The structure at `p`, with the fields `f`, owns the box `b` at `q`.
pub record Boxed (h : Heap) (l : Layout) (p q : Ptr) (b : Block) (f : Fields) : Type 0 where
  pub p_not_null : p ≢ null
  pub q_not_null : q ≢ null
  pub apart : q ≢ p
  pub p_holds : lookup p h ≡ some (struct l (record { data_ptr = some q; fields = f }))
  pub q_holds : lookup q h ≡ some b
  -- No other block stands at either address.
  pub p_once : lookup p (erase p h) ≡ none
  pub q_once : lookup q (erase q h) ≡ none

-- The heap with a new structure and its box in front.
abbrev pub with_box : Layout → Ptr → Ptr → Block → Fields → Heap → Heap
with_box l p q b f h = (q, b) ∷ (p, struct l (record { data_ptr = some q; fields = f })) ∷ h

module _ {h : Heap} {l : Layout} {p q : Ptr} {b : Block} {f : Fields} (o : Boxed h l p q b f) where
  pub lookup-erased_box : (c : Block) → lookup p (update p c (erase q h)) ≡ some c
  lookup-erased_box c =
      lookup-update_self p c (erase q h) (lookup-erase_ne p q h o.apart ∙ o.p_holds)

  -- Without both, the address of the structure is free.
  pub lookup-both_erased : lookup p (erase p (erase q h)) ≡ none
  lookup-both_erased =
      rw (erase_comm p q h o.apart) (lookup-erase_ne p q (erase p h) o.apart ∙ o.p_once)

-- A structure that was just made, with the fields `f0` when its box is allocated.
module _ (env : Env) (l : Layout) (f0 : Fields) (h : Heap) where
  abbrev pub fresh_ptr : Ptr
  fresh_ptr = env.alloc h l

  abbrev pub without_box : Heap
  without_box = (fresh_ptr, struct l (record { data_ptr = none; fields = f0 })) ∷ h

  abbrev pub fresh_box : Ptr
  fresh_box = env.box_new without_box

  abbrev pub fresh_heap : Block → Fields → Heap
  fresh_heap b f = with_box l fresh_ptr fresh_box b f h

  -- Freeing both at once leaves the heap as it was.
  pub erase-fresh_heap :
      (b : Block) (f : Fields) → erase fresh_ptr (erase fresh_box (fresh_heap b f)) ≡ h
  unfolding erase
  erase-fresh_heap b f = rw (==_refl fresh_box, ==_refl fresh_ptr)

  module _ (law : IsAllocator env) (got : fresh_ptr ≢ null) where
    box_taken : lookup fresh_box without_box ≡ none
    box_taken = law.box_fresh _

    pub fresh_apart : fresh_box ≢ fresh_ptr
    fresh_apart = λ same.
        ne_of_lookup fresh_ptr fresh_box _ (lookup-cons_self fresh_ptr _ h) box_taken (sym same)

    pub fresh_ne : (fresh_box == fresh_ptr) ≡ false
    fresh_ne = ==_ne fresh_box fresh_ptr fresh_apart

    fresh_ne_sym : (fresh_ptr == fresh_box) ≡ false
    fresh_ne_sym = ==_ne fresh_ptr fresh_box (ne_sym fresh_apart)

    fresh_box_free : lookup fresh_box h ≡ none
    fresh_box_free = sym (lookup-cons_ne fresh_box fresh_ptr _ h (ne_sym fresh_apart)) ∙ box_taken

    pub fresh-Boxed : (b : Block) (f : Fields) → Boxed (fresh_heap b f) l fresh_ptr fresh_box b f
    unfolding lookup erase
    fresh-Boxed b f = record {
      p_not_null = got;
      q_not_null = law.box_not_null _;
      apart = fresh_apart;
      p_holds = rw (fresh_ne, ==_refl fresh_ptr);
      q_holds = rw (==_refl fresh_box);
      p_once = simp (fresh_ne, ==_refl) (law.alloc_fresh h l got);
      q_once = simp (==_refl, fresh_ne_sym) fresh_box_free;
    }

    -- A write to the fields.
    pub update-fresh_heap :
        (b : Block) (f g : Fields)
        → update fresh_ptr
            (struct l (record { data_ptr = some fresh_box; fields = g }))
            (fresh_heap b f)
          ≡ fresh_heap b g
    unfolding update
    update-fresh_heap b f g = rw (fresh_ne, ==_refl fresh_ptr)
