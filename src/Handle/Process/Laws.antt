-- ===== src/Handle/Process/Laws.antt =====
-- src/handles/process.rs: the texts of a spawn in memory, while libuv reads them and afterwards.
use libuv_rs.Common.{ℕ, ◌≡◌, refl, true, none, some, Option, List, [], ◌∷◌, ◌++◌}
use libuv_rs.Memory.{Ptr, null, Heap}
use libuv_rs.Memory.Effect.{Env, IsAllocator, World, done}
use libuv_rs.CStrings.{read_array}
use libuv_rs.CStrings.Laws.{
  all_text, push, addresses, texts_of, made, made-Apart, into_raw_all-done, read_array-made,
  reclaim-made,
}
use libuv_rs.Handle.Process.{read_optional_array, reclaim_optional, optional_into_raw}

-- The texts of an array that may be absent.
abbrev pub listed : Option (List (List ℕ)) → List (List ℕ)
listed none = []
listed (some texts) = texts

pub texts_of-made : (env : Env) (ts : List (List ℕ)) (h : Heap) → texts_of (made env ts h) ≡ ts
texts_of-made env [] h = refl
texts_of-made env (t ∷ ts) h = rw (texts_of-made env ts _)

abbrev pub pointers : Env → Option (List (List ℕ)) → Heap → Option (List Ptr)
pointers env none h = none
pointers env (some texts) h = some (addresses (made env texts h) ++ (null ∷ []))

pub optional_into_raw-done :
    (env : Env) (o : Option (List (List ℕ))) (w : World)
    → all_text (listed o) ≡ true
    → optional_into_raw env o w
      ≡ done (pointers env o w.heap) (record w { heap = push (made env (listed o) w.heap) w.heap })
unfolding optional_into_raw
optional_into_raw-done env none w all = refl
optional_into_raw-done env (some texts) w all = rw (into_raw_all-done env texts w all)

module _ (env : Env) (law : IsAllocator env) (ts : List (List ℕ)) (o : Option (List (List ℕ)))
    (h : Heap) where
  -- The arguments above `h`, and the environment above them.
  abbrev pub with_args : Heap
  with_args = push (made env ts h) h

  abbrev pub with_texts : Heap
  with_texts = push (made env (listed o) with_args) with_args

  pub read_args :
      (w : World)
      → read_array (addresses (made env ts h) ++ (null ∷ [])) (record w { heap = with_texts })
        ≡ done ts (record w { heap = with_texts })
  read_args w = rw (
    read_array-made (made env ts h) (made env (listed o) with_args) h w
        (made-Apart env law ts (listed o) h),
    texts_of-made env ts h,
  )

module _ (env : Env) (law : IsAllocator env) (h : Heap) where
  pub read_environ :
      (o : Option (List (List ℕ))) (w : World)
      → read_optional_array (pointers env o h) (record w { heap = push (made env (listed o) h) h })
        ≡ done o (record w { heap = push (made env (listed o) h) h })
  unfolding read_optional_array
  read_environ none w = refl
  read_environ (some us) w =
      rw (
        read_array-made (made env us h) [] h w (made-Apart env law us [] h),
        texts_of-made env us h,
      )

  pub reclaim_environ :
      (o : Option (List (List ℕ))) (g : Heap) (w : World)
      → reclaim_optional (pointers env o h) (record w { heap = push (made env (listed o) h) g })
        ≡ done tt (record w { heap = g })
  unfolding reclaim_optional
  reclaim_environ none g w = refl
  reclaim_environ (some us) g w = reclaim-made (made env us h) [] g w (made-Apart env law us [] h)
