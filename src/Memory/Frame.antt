-- ===== src/Memory/Frame.antt =====
-- A live structure with its box beside other blocks.
use libuv_rs.Common.{◌≡◌, ◌≢◌, ◌∙◌, some, none, ◌∷◌, ==_ne, ne_sym}
use libuv_rs.Memory.{Ptr, Layout, Fields, Block, struct, Heap, lookup, erase, update}
use libuv_rs.Memory.Laws.{
  ne_of_lookup, lookup-update_self, lookup-update_ne, lookup-cons_ne, erase-update_ne, erase-update,
}
use libuv_rs.Memory.Boxed.{Boxed}

pub erase-cons_ne :
    (p v : Ptr) (b : Block) (h : Heap) → v ≢ p → erase p ((v, b) ∷ h) ≡ (v, b) ∷ erase p h
unfolding erase
erase-cons_ne p v b h ne = rw (==_ne v p ne)

pub update-cons_ne :
    (p v : Ptr) (b c : Block) (h : Heap) → v ≢ p → update p c ((v, b) ∷ h) ≡ (v, b) ∷ update p c h
unfolding update
update-cons_ne p v b c h ne = rw (==_ne v p ne)

module _ {h : Heap} {l : Layout} {p q : Ptr} {d : Block} {f : Fields} (o : Boxed h l p q d f) where
  -- A write to the fields of the structure.
  pub Boxed-update :
      (g : Fields)
      → Boxed (update p (struct l (record { data_ptr = some q; fields = g })) h) l p q d g
  Boxed-update g = record {
    p_not_null = o.p_not_null;
    q_not_null = o.q_not_null;
    apart = o.apart;
    p_holds = lookup-update_self p _ h o.p_holds;
    q_holds = lookup-update_ne q p _ h (ne_sym o.apart) ∙ o.q_holds;
    p_once = rw (erase-update p (struct l (record { data_ptr = some q; fields = g })) h) o.p_once;
    q_once =
        rw
          (erase-update_ne p q (struct l (record { data_ptr = some q; fields = g })) h
            (ne_sym o.apart))
          (lookup-update_ne q p _ (erase q h) (ne_sym o.apart) ∙ o.q_once);
  }

  module _ (v : Ptr) (b : Block) (fresh : lookup v h ≡ none) where
    pub fresh_ne_p : v ≢ p
    fresh_ne_p = ne_sym (ne_of_lookup p v h o.p_holds fresh)

    pub fresh_ne_q : v ≢ q
    fresh_ne_q = ne_sym (ne_of_lookup q v h o.q_holds fresh)

    -- A new block in front.
    pub Boxed-cons : Boxed ((v, b) ∷ h) l p q d f
    Boxed-cons = record {
      p_not_null = o.p_not_null;
      q_not_null = o.q_not_null;
      apart = o.apart;
      p_holds = lookup-cons_ne p v b h fresh_ne_p ∙ o.p_holds;
      q_holds = lookup-cons_ne q v b h fresh_ne_q ∙ o.q_holds;
      p_once =
          rw (erase-cons_ne p v b h fresh_ne_p)
            (lookup-cons_ne p v b (erase p h) fresh_ne_p ∙ o.p_once);
      q_once =
          rw (erase-cons_ne q v b h fresh_ne_q)
            (lookup-cons_ne q v b (erase q h) fresh_ne_q ∙ o.q_once);
    }

    pub erase-beside : erase p (erase q ((v, b) ∷ h)) ≡ (v, b) ∷ erase p (erase q h)
    erase-beside = rw (erase-cons_ne q v b h fresh_ne_q, erase-cons_ne p v b (erase q h) fresh_ne_p)

module _ {h : Heap} {l : Layout} {p q : Ptr} {b : Block} {f : Fields} (o : Boxed h l p q b f)
    (c : Block) where
  -- A write to the box.
  pub Boxed-set_box : Boxed (update q c h) l p q c f
  Boxed-set_box = record {
    p_not_null = o.p_not_null;
    q_not_null = o.q_not_null;
    apart = o.apart;
    p_holds = lookup-update_ne p q c h o.apart ∙ o.p_holds;
    q_holds = lookup-update_self q c h o.q_holds;
    p_once =
        rw (erase-update_ne q p c h o.apart)
          (lookup-update_ne p q c (erase p h) o.apart ∙ o.p_once);
    q_once = rw (erase-update q c h) o.q_once;
  }
