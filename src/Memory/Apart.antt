-- ===== src/Memory/Apart.antt =====
-- Two live structures with their boxes do not share memory.
use libuv_rs.Common.{◌≡◌, ◌≢◌, sym, ap, ◌∙◌, none, ne_sym}
use libuv_rs.Memory.{Ptr, Block, Layout, Fields, Heap, lookup, erase}
use libuv_rs.Memory.Laws.{ne_of_lookup, lookup-erase_ne, erase_comm}
use libuv_rs.Memory.Boxed.{Boxed}

-- An address beside two others.
module _ (x p q : Ptr) (h : Heap) (p_ne : p ≢ x) (q_ne : q ≢ x) where
  lookup_past : lookup x (erase p (erase q h)) ≡ lookup x h
  lookup_past = lookup-erase_ne x p (erase q h) p_ne ∙ lookup-erase_ne x q h q_ne

  erase_past : erase x (erase p (erase q h)) ≡ erase p (erase q (erase x h))
  erase_past = erase_comm x p (erase q h) p_ne ∙ ap (erase p) (erase_comm x q h q_ne)

  once_past : lookup x (erase x h) ≡ none → lookup x (erase x (erase p (erase q h))) ≡ none
  once_past e =
      ap (lookup x) erase_past
      ∙ (lookup-erase_ne x p (erase q (erase x h)) p_ne
          ∙ (lookup-erase_ne x q (erase x h) q_ne ∙ e))

  once_back : lookup x (erase x (erase p (erase q h))) ≡ none → lookup x (erase x h) ≡ none
  once_back e =
      sym (
        ap (lookup x) erase_past
        ∙ (lookup-erase_ne x p (erase q (erase x h)) p_ne ∙ lookup-erase_ne x q (erase x h) q_ne))
      ∙ e

module _ {h : Heap} {l l' : Layout} {p q p' q' : Ptr} {d d' : Block} {f f' : Fields}
    (o' : Boxed h l' p' q' d' f') (o : Boxed (erase p' (erase q' h)) l p q d f) where
  p'_free : lookup p' (erase p' (erase q' h)) ≡ none
  p'_free =
      ap (lookup p') (erase_comm p' q' h o'.apart)
      ∙ (lookup-erase_ne p' q' (erase p' h) o'.apart ∙ o'.p_once)

  q'_free : lookup q' (erase p' (erase q' h)) ≡ none
  q'_free = lookup-erase_ne q' p' (erase q' h) (ne_sym o'.apart) ∙ o'.q_once

  p_ne_p' : p ≢ p'
  p_ne_p' = ne_of_lookup p p' _ o.p_holds p'_free

  p_ne_q' : p ≢ q'
  p_ne_q' = ne_of_lookup p q' _ o.p_holds q'_free

  q_ne_p' : q ≢ p'
  q_ne_p' = ne_of_lookup q p' _ o.q_holds p'_free

  q_ne_q' : q ≢ q'
  q_ne_q' = ne_of_lookup q q' _ o.q_holds q'_free

  -- A structure that is live once another is gone is live before.
  pub Boxed-before : Boxed h l p q d f
  Boxed-before = record {
    p_not_null = o.p_not_null;
    q_not_null = o.q_not_null;
    apart = o.apart;
    p_holds = sym (lookup_past p p' q' h (ne_sym p_ne_p') (ne_sym p_ne_q')) ∙ o.p_holds;
    q_holds = sym (lookup_past q p' q' h (ne_sym q_ne_p') (ne_sym q_ne_q')) ∙ o.q_holds;
    p_once = once_back p p' q' h (ne_sym p_ne_p') (ne_sym p_ne_q') o.p_once;
    q_once = once_back q p' q' h (ne_sym q_ne_p') (ne_sym q_ne_q') o.q_once;
  }

  -- And the other stays live when it goes.
  pub Boxed-after : Boxed (erase p (erase q h)) l' p' q' d' f'
  Boxed-after = record {
    p_not_null = o'.p_not_null;
    q_not_null = o'.q_not_null;
    apart = o'.apart;
    p_holds = lookup_past p' p q h p_ne_p' q_ne_p' ∙ o'.p_holds;
    q_holds = lookup_past q' p q h p_ne_q' q_ne_q' ∙ o'.q_holds;
    p_once = once_past p' p q h p_ne_p' q_ne_p' o'.p_once;
    q_once = once_past q' p q h p_ne_q' q_ne_q' o'.q_once;
  }

  pub erase_both :
      erase p (erase q (erase p' (erase q' h))) ≡ erase p' (erase q' (erase p (erase q h)))
  erase_both = sym (
      ap (erase p') (erase_past q' p q h p_ne_q' q_ne_q')
      ∙ erase_past p' p q (erase q' h) p_ne_p' q_ne_p')
