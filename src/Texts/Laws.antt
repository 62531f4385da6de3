-- ===== src/Texts/Laws.antt =====
-- The texts that libuv writes: reading them gives them, with any buffer that is large enough.
use libuv_rs.Common.{
  ℕ, suc, ◌+◌, ◌<◌, ◌≤◌, ◌≡◌, refl, ◌∙◌, sym, true, false, List, [], ◌∷◌, ◌++◌, length, length-snoc,
  take-snoc, ltb, if◌then◌else◌, inl, inr, Bool-cases, arith,
}
use libuv_rs.Common.Int.{pos, is_neg}
use libuv_rs.Common.Table.{is_distinct}
use libuv_rs.Error.{Error, UvErrno, constants}
use libuv_rs.Error.RoundTrip.{from_inner-value}
use libuv_rs.Memory.Effect.{Env, World, uv, done, fails}
use libuv_rs.Buf.Storage.{isize_max}
use libuv_rs.Texts.{TextCall, UvText, text_of, read_text, sized_text}

-- What libuv documents: a buffer that is longer than the text gets it with a zero byte and its
-- length, any other the code UV_ENOBUFS and the size that is needed; the codes are distinct and
-- that one is negative.
pub record HasText (env : Env) (libuv : UvText) (c : TextCall) (text : List ℕ) : Type 0 where
  pub enough :
      (w : World) (size : ℕ)
      → length text < size
      → libuv.uv_text w c size ≡ (pos 0, length text, text ++ (0 ∷ []))
  pub short :
      (w : World) (size : ℕ)
      → size ≤ length text
      → ((libuv.uv_text w c size).0 ≡ env.errno UvErrno.enobufs)
        × ((libuv.uv_text w c size).1 ≡ length text + 1)
  pub codes_distinct : is_distinct env.errno constants ≡ true
  pub enobufs_negative : is_neg (env.errno UvErrno.enobufs) ≡ true

pub text_of-terminated :
    (capacity : ℕ) (text : List ℕ) (w : World)
    → length text < capacity
    → text_of capacity (length text) (text ++ (0 ∷ [])) w ≡ done text w
unfolding text_of
text_of-terminated capacity text w fits =
    rw
      (
        ltb_false capacity (length text + 1) (omega arith),
        length-snoc text 0,
        ltb_false (suc (length text)) (length text + 1) (omega arith),
        take-snoc text 0,
      )
      refl
  where
    ltb_false : (a b : ℕ) → b ≤ a → ltb a b ≡ false
    ltb_false a b h = ground arith

module _ (env : Env) (libuv : UvText) (c : TextCall) (text : List ℕ)
    (has : HasText env libuv c text) (w : World) (size : ℕ) (small : size ≤ isize_max) where
  in_range : ltb isize_max size ≡ false
  in_range = ground arith

  pub read_text-done : length text < size → read_text env libuv c size w ≡ done text w
  unfolding read_text
  read_text-done fits = rw (in_range, has.enough w size fits) (text_of-terminated size text w fits)

  pub read_text-short :
      size ≤ length text → read_text env libuv c size w ≡ fails (uv Error.enobufs) w
  unfolding read_text
  read_text-short short =
      rw
        (
          in_range,
          (has.short w size short).0,
          has.enobufs_negative,
          from_inner-value env.errno has.codes_distinct UvErrno.enobufs,
        )
        refl

  pub read_text_lem :
      read_text env libuv c size w
      ≡ (if ltb (length text) size then done text w else fails (uv Error.enobufs) w)
  read_text_lem = elim (Bool-cases (ltb (length text) size)) [
    | inl fits ↦ rw fits (read_text-done (ground arith))
    | inr short ↦ rw short (read_text-short (ground arith))
  ]

module _ (env : Env) (libuv : UvText) (c : TextCall) (text : List ℕ)
    (has : HasText env libuv c text) (w : World) (small : length text < isize_max) where
  pub sized_text-done : sized_text env libuv c w ≡ done text w
  unfolding sized_text
  sized_text-done =
      rw
        (
          (has.short w 0 (omega arith)).0,
          (has.short w 0 (omega arith)).1,
          has.enobufs_negative,
          from_inner-value env.errno has.codes_distinct UvErrno.enobufs,
        )
        (read_text-done env libuv c text has w (length text + 1) (omega arith) (omega arith))

  -- getpath, which asks libuv for the size first, agrees with a single call with a buffer of any
  -- size that the text and its zero byte fit into, up to isize::MAX, if libuv answers short
  -- buffers with ENOBUFS and the size it needs and others with the text.
  pub sized_text-read_text :
      (size : ℕ)
      → size ≤ isize_max
      → length text < size
      → sized_text env libuv c w ≡ read_text env libuv c size w
  sized_text-read_text size in_range fits =
      sized_text-done ∙ sym (read_text-done env libuv c text has w size in_range fits)
