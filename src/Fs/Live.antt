-- ===== src/Fs/Live.antt =====
-- src/fs/mod.rs and src/requests/fs.rs: the memory while requests are pending.
use libuv_rs.Common.{ℕ, ◌≡◌, refl, sym, List, [], ◌∷◌, ◌++◌}
use libuv_rs.Memory.{Ptr, CCallback, cb, fs_data, uv_fs_t, Fields, Heap, erase}
use libuv_rs.Req.Owned.{Owned}
use libuv_rs.Memory.Apart.{Boxed-before, Boxed-after, erase_both}

-- The live blocks are those of the pending requests: each has its own structure and its own data,
-- with a closure of the user, and there is nothing else.
pub data Live : List (Ptr × CCallback) → Heap → Type 0 where
  no_request : Live [] []
  request :
      {h : Heap} {p q : Ptr} {n : ℕ} {g : Fields} {l : List (Ptr × CCallback)}
      → Owned h uv_fs_t p q (fs_data (cb n)) g
      → Live l (erase p (erase q h))
      → Live ((p, CCallback.uv_fs_cb) ∷ l) h

-- A request among the pending ones, and the memory without it.
pub record Picked (l : List (Ptr × CCallback)) (h : Heap) (p : Ptr) (c : CCallback) : Type 0 where
  pub q : Ptr
  pub n : ℕ
  pub g : Fields
  pub is_fs : c ≡ CCallback.uv_fs_cb
  pub owned : Owned h uv_fs_t p q (fs_data (cb n)) g
  pub others : Live l (erase p (erase q h))

pub pick :
    (l r : List (Ptr × CCallback)) (p : Ptr) (c : CCallback) {h : Heap}
    → Live (l ++ (p, c) ∷ r) h
    → Picked (l ++ r) h p c
pick [] r p c (request {q = q} {n = n} {g = g} o live) = record {
  q = q;
  n = n;
  g = g;
  is_fs = refl;
  owned = o;
  others = live;
}
pick (x ∷ l) r p c (request o' live) =
    let k = pick l r p c live in
    record {
      q = k.q;
      n = k.n;
      g = k.g;
      is_fs = k.is_fs;
      owned = Boxed-before o' k.owned;
      others = request (Boxed-after o' k.owned) (rw (sym (erase_both o' k.owned)) k.others);
    }
