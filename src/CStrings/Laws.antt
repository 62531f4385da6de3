-- ===== src/CStrings/Laws.antt =====
-- Arrays of C strings: what is in memory while libuv reads them, and that all of it goes.
use libuv_rs.Common.{
  ℕ, ◌-◌, ◌≡◌, ◌≢◌, refl, ◌∙◌, true, false, Bool, ◌&&◌, not, some, List, [], ◌∷◌, ◌++◌, length,
  take-snoc, length-snoc, ==_ne, ne_sym, arith,
}
use libuv_rs.Memory.{Ptr, null, Block, c_string, Heap, lookup, erase, update}
use libuv_rs.Memory.Effect.{Env, IsAllocator, World, done, fails, nul_error, has_nul}
use libuv_rs.Memory.Laws.{lookup-cons_self, lookup-cons_ne, ne_of_lookup, erase-cons_self}
use libuv_rs.CStrings.{read_array, into_raw_all, from_raw_all, reclaim}

-- No text has an inner zero byte.
unfoldable pub all_text : List (List ℕ) → Bool
all_text [] = true
all_text (text ∷ texts) = not (has_nul text) && all_text texts

-- Texts on the heap, each at its address, the first one deepest.
abbrev pub push : List (Ptr × List ℕ) → Heap → Heap
push [] h = h
push ((p, t) ∷ ps) h = push ps ((p, c_string t) ∷ h)

abbrev pub addresses : List (Ptr × List ℕ) → List Ptr
addresses [] = []
addresses ((p, t) ∷ ps) = p ∷ addresses ps

abbrev pub texts_of : List (Ptr × List ℕ) → List (List ℕ)
texts_of [] = []
texts_of ((p, t) ∷ ps) = t ∷ texts_of ps

-- Where the allocator puts the texts, one after the other.
abbrev pub made : Env → List (List ℕ) → Heap → List (Ptr × List ℕ)
made env [] h = []
made env (t ∷ ts) h = (env.box_new h, t) ∷ made env ts ((env.box_new h, c_string t) ∷ h)

abbrev pub NotIn : Ptr → List (Ptr × List ℕ) → Type 0
NotIn p [] = Unit {0}
NotIn p ((q, t) ∷ ps) = (q ≢ p) × NotIn p ps

-- Addresses that are not null, and stand once in both lists together.
abbrev pub Apart : List (Ptr × List ℕ) → List (Ptr × List ℕ) → Type 0
Apart [] qs = Unit {0}
Apart ((p, t) ∷ ps) qs = (p ≢ null) × NotIn p ps × NotIn p qs × Apart ps qs

pub lookup-push :
    (p : Ptr) (ps : List (Ptr × List ℕ)) (h : Heap) → NotIn p ps → lookup p (push ps h) ≡ lookup p h
lookup-push p [] h out = refl
lookup-push p ((q, t) ∷ ps) h (ne, out) = lookup-push p ps _ out ∙ lookup-cons_ne p q _ h ne

erase-cons_ne :
    (p q : Ptr) (b : Block) (h : Heap) → q ≢ p → erase p ((q, b) ∷ h) ≡ (q, b) ∷ erase p h
unfolding erase
erase-cons_ne p q b h ne = rw (==_ne q p ne)

update-cons_ne :
    (p q : Ptr) (b c : Block) (h : Heap) → q ≢ p → update p c ((q, b) ∷ h) ≡ (q, b) ∷ update p c h
unfolding update
update-cons_ne p q b c h ne = rw (==_ne q p ne)

pub erase-push :
    (p : Ptr) (ps : List (Ptr × List ℕ)) (h : Heap)
    → NotIn p ps
    → erase p (push ps h) ≡ push ps (erase p h)
erase-push p [] h out = refl
erase-push p ((q, t) ∷ ps) h (ne, out) = rw (erase-push p ps _ out, erase-cons_ne p q _ h ne)

pub update-push :
    (p : Ptr) (c : Block) (ps : List (Ptr × List ℕ)) (h : Heap)
    → NotIn p ps
    → update p c (push ps h) ≡ push ps (update p c h)
update-push p c [] h out = refl
update-push p c ((q, t) ∷ ps) h (ne, out) =
    rw (update-push p c ps _ out, update-cons_ne p q _ c h ne)

module _ (env : Env) (law : IsAllocator env) where
  box_apart : {b : Block} (p : Ptr) (h : Heap) → lookup p h ≡ some b → env.box_new h ≢ p
  box_apart p h e = ne_sym (ne_of_lookup p (env.box_new h) h e (law.box_fresh h))

  pub NotIn-made :
      {b : Block} (p : Ptr) (ts : List (List ℕ)) (h : Heap)
      → lookup p h ≡ some b
      → NotIn p (made env ts h)
  NotIn-made p [] h e = tt
  NotIn-made p (t ∷ ts) h e = (
    box_apart p h e,
    NotIn-made p ts _ (lookup-cons_ne p (env.box_new h) _ h (box_apart p h e) ∙ e),
  )

  pub lookup-made :
      {b : Block} (p : Ptr) (ts : List (List ℕ)) (h : Heap)
      → lookup p h ≡ some b
      → lookup p (push (made env ts h) h) ≡ some b
  lookup-made p ts h e = lookup-push p (made env ts h) h (NotIn-made p ts h e) ∙ e

  pub made-Apart :
      (ts us : List (List ℕ)) (h : Heap)
      → Apart (made env ts h) (made env us (push (made env ts h) h))
  made-Apart [] us h = tt
  made-Apart (t ∷ ts) us h = (
    law.box_not_null h,
    NotIn-made (env.box_new h) ts _ here,
    NotIn-made (env.box_new h) us _ (lookup-made (env.box_new h) ts _ here),
    made-Apart ts us _,
  )
    where
      here : lookup (env.box_new h) ((env.box_new h, c_string t) ∷ h) ≡ some (c_string t)
      here = lookup-cons_self (env.box_new h) (c_string t) h

pub into_raw_all-done :
    (env : Env) (ts : List (List ℕ)) (w : World)
    → all_text ts ≡ true
    → into_raw_all env ts w
      ≡ done
          (addresses (made env ts w.heap) ++ (null ∷ []))
          (record w { heap = push (made env ts w.heap) w.heap })
unfolding into_raw_all all_text
into_raw_all-done env [] w all = refl
into_raw_all-done env (t ∷ ts) w all = rw (text, into_raw_all-done env ts _ rest)
  where
    text : has_nul t ≡ false
    text = ground arith

    rest : all_text ts ≡ true
    rest = ground arith

-- The texts in front of the first one with an inner zero byte stay.
pub into_raw_all-nul :
    (env : Env) (ts us : List (List ℕ)) (bad : List ℕ) (w : World)
    → all_text ts ≡ true
    → has_nul bad ≡ true
    → into_raw_all env (ts ++ (bad ∷ us)) w
      ≡ fails nul_error (record w { heap = push (made env ts w.heap) w.heap })
unfolding into_raw_all all_text
into_raw_all-nul env [] us bad w all nul = rw nul
into_raw_all-nul env (t ∷ ts) us bad w all nul =
    rw (text, into_raw_all-nul env ts us bad _ rest nul)
  where
    text : has_nul t ≡ false
    text = ground arith

    rest : all_text ts ≡ true
    rest = ground arith

lookup-pushed :
    (p : Ptr) (t : List ℕ) (ps qs : List (Ptr × List ℕ)) (h : Heap)
    → NotIn p ps
    → NotIn p qs
    → lookup p (push qs (push ps ((p, c_string t) ∷ h))) ≡ some (c_string t)
lookup-pushed p t ps qs h out out_qs =
    lookup-push p qs _ out_qs ∙ lookup-push p ps _ out ∙ lookup-cons_self p (c_string t) h

-- Reading them all, with other texts above.
pub read_array-made :
    (ps qs : List (Ptr × List ℕ)) (h : Heap) (w : World)
    → Apart ps qs
    → read_array (addresses ps ++ (null ∷ [])) (record w { heap = push qs (push ps h) })
      ≡ done (texts_of ps) (record w { heap = push qs (push ps h) })
unfolding read_array
read_array-made [] qs h w apart = refl
read_array-made ((p, t) ∷ ps) qs h w (not_null, out, out_qs, apart) = simp (
  ==_ne p null not_null,
  lookup-pushed p t ps qs h out out_qs,
  read_array-made ps qs ((p, c_string t) ∷ h) w apart,
)

pub from_raw_all-made :
    (ps qs : List (Ptr × List ℕ)) (h : Heap) (w : World)
    → Apart ps qs
    → from_raw_all (addresses ps) (record w { heap = push qs (push ps h) })
      ≡ done tt (record w { heap = push qs h })
unfolding from_raw_all
from_raw_all-made [] qs h w apart = refl
from_raw_all-made ((p, t) ∷ ps) qs h w (not_null, out, out_qs, apart) = rw (
  ==_ne p null not_null,
  lookup-pushed p t ps qs h out out_qs,
  gone,
  from_raw_all-made ps qs h w apart,
)
  where
    gone : erase p (push qs (push ps ((p, c_string t) ∷ h))) ≡ push qs (push ps h)
    gone = rw (
      erase-push p qs (push ps ((p, c_string t) ∷ h)) out_qs,
      erase-push p ps ((p, c_string t) ∷ h) out,
      erase-cons_self p (c_string t) h,
    )

pub reclaim-made :
    (ps qs : List (Ptr × List ℕ)) (h : Heap) (w : World)
    → Apart ps qs
    → reclaim (addresses ps ++ (null ∷ [])) (record w { heap = push qs (push ps h) })
      ≡ done tt (record w { heap = push qs h })
unfolding reclaim
reclaim-made ps qs h w apart =
    rw (all_but_last, take-snoc (addresses ps) null) (from_raw_all-made ps qs h w apart)
  where
    all_but_last : length (addresses ps ++ (null ∷ [])) - 1 ≡ length (addresses ps)
    all_but_last = omega (arith, length-snoc (addresses ps) null)
