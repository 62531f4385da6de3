-- ===== src/Handle/Live.antt =====
-- src/handles: the memory while handles are open or closing.
use libuv_rs.Common.{◌≡◌, refl, sym, ap, some, List, [], ◌∷◌, ◌++◌}
use libuv_rs.HandleType.{from_inner as handle_type_from_inner}
use libuv_rs.Memory.{
  Ptr, Layout, Callback, nil, CCallback, AddlHandleData, HandleData, Fields, Heap, erase, update,
  handle_data,
}
use libuv_rs.Memory.Laws.{erase-update}
use libuv_rs.Memory.Frame.{Boxed-set_box}
use libuv_rs.Memory.Apart.{Boxed-before, Boxed-after, erase_both}
use libuv_rs.Handle.{UvHandle, layout_of}
use libuv_rs.Handle.Owned.{HandleOwned}

-- An open handle with its data, or a closing one with the closure that it will call.
pub data Status : Type 0 where
  opened : (addl : AddlHandleData) → Status
  closing : (close_cb : Callback) → Status

abbrev pub Table : Type 0
Table = List (Ptr × Status)

-- The data of a handle is what the table says.
abbrev pub Fits : Status → HandleData → Type 0
Fits (opened a) d = (d.close_cb ≡ nil) × (d.addl ≡ a)
Fits (closing g) d = d.close_cb ≡ g

-- What libuv owes for the closing handles.
unfoldable pub owed_closes : Table → List (Ptr × CCallback)
owed_closes [] = []
owed_closes ((p, opened a) ∷ t) = owed_closes t
owed_closes ((p, closing g) ∷ t) = (p, CCallback.uv_close_cb) ∷ owed_closes t

pub owed_closes-opened :
    (l r : Table) (p : Ptr) (a : AddlHandleData)
    → owed_closes (l ++ (p, opened a) ∷ r) ≡ owed_closes (l ++ r)
unfolding owed_closes
owed_closes-opened [] r p a = refl
owed_closes-opened ((q, opened b) ∷ l) r p a = owed_closes-opened l r p a
owed_closes-opened ((q, closing g) ∷ l) r p a =
    ap (λ k. (q, CCallback.uv_close_cb) ∷ k) (owed_closes-opened l r p a)

module _ (libuv : UvHandle) where
  -- A handle, live, whose type leads to the layout that it was taken with.
  pub record Handled (h : Heap) (p : Ptr) (d : HandleData) : Type 0 where
    pub l : Layout
    pub q : Ptr
    pub f : Fields
    pub owned : HandleOwned h l p q d f
    pub known : layout_of (handle_type_from_inner libuv.handle_type f.type_) ≡ some l

  abbrev pub without : {h : Heap} {p : Ptr} {d : HandleData} → Handled h p d → Heap
  without {h} {p} k = erase p (erase k.q h)

  -- The live blocks are those of the handles of the table, and there is nothing else.
  pub data Live : Table → Heap → Type 0 where
    no_handle : Live [] []
    handle :
        {h : Heap} {p : Ptr} {s : Status} {d : HandleData} {t : Table} (k : Handled h p d)
        → Fits s d
        → Live t (without k)
        → Live ((p, s) ∷ t) h

  -- One of the handles, and the memory without it.
  pub record Picked (t : Table) (h : Heap) (p : Ptr) (s : Status) : Type 0 where
    pub d : HandleData
    pub fits : Fits s d
    pub handled : Handled h p d
    pub others : Live t (without handled)

  -- A handle that is picked from the memory without another one.
  module _ {h : Heap} {p p' : Ptr} {d d' : HandleData} (k' : Handled h p' d')
      (k : Handled (without k') p d) where
    abbrev before : Handled h p d
    before = record {
      l = k.l;
      q = k.q;
      f = k.f;
      owned = Boxed-before k'.owned k.owned;
      known = k.known;
    }

    abbrev after : Handled (without before) p' d'
    after = record {
      l = k'.l;
      q = k'.q;
      f = k'.f;
      owned = Boxed-after k'.owned k.owned;
      known = k'.known;
    }

    swapped : {t : Table} → Live t (without k) → Live t (without after)
    swapped live = rw (sym (erase_both k'.owned k.owned)) live

  pub pick :
      (l r : Table) (p : Ptr) (s : Status) {h : Heap}
      → Live (l ++ (p, s) ∷ r) h
      → Picked (l ++ r) h p s
  pick [] r p s (handle {d = d} k fits live) = record {
    d = d;
    fits = fits;
    handled = k;
    others = live;
  }
  pick (x ∷ l) r p s (handle k' fits live) =
      let k = pick l r p s live in
      record {
        d = k.d;
        fits = k.fits;
        handled = before k' k.handled;
        others = handle (after k' k.handled) fits (swapped k' k.handled k.others);
      }

  -- New data in the box of a handle.
  module _ {h : Heap} {p : Ptr} {d : HandleData} (k : Handled h p d) (e : HandleData) where
    abbrev pub Handled-set_box : Handled (update k.q (handle_data e) h) p e
    Handled-set_box = record {
      l = k.l;
      q = k.q;
      f = k.f;
      owned = Boxed-set_box k.owned (handle_data e);
      known = k.known;
    }

    pub Live-set_box : {t : Table} → Live t (without k) → Live t (without Handled-set_box)
    Live-set_box live = rw (erase-update k.q (handle_data e) h) live
