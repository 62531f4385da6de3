-- ===== src/DirentType/RoundTrip.antt =====
-- The conversions of src/fs/dirent_types.inc.rs undo one another.
use libuv_rs.Common.{ℕ, ◌≡◌, refl, ◌∙◌, true, some, get_elem?}
use libuv_rs.Common.Int.{ℤ}
use libuv_rs.Common.Table.{match_arms, is_distinct, match_arms-append, match_arms-get_elem?}
use libuv_rs.DirentType.{DirentType, UvDirentType, arms, constants, from_inner, into_inner}

-- The place of a constant among the arms.
abbrev pub place : UvDirentType → ℕ
place UvDirentType.block = 0
place UvDirentType.char = 1
place UvDirentType.dir = 2
place UvDirentType.fifo = 3
place UvDirentType.file = 4
place UvDirentType.link = 5
place UvDirentType.socket = 6
place UvDirentType.unknown = 7

-- What a constant stands for.
abbrev pub meaning : UvDirentType → DirentType
meaning UvDirentType.block = DirentType.block
meaning UvDirentType.char = DirentType.char
meaning UvDirentType.dir = DirentType.dir
meaning UvDirentType.fifo = DirentType.fifo
meaning UvDirentType.file = DirentType.file
meaning UvDirentType.link = DirentType.link
meaning UvDirentType.socket = DirentType.socket
meaning UvDirentType.unknown = DirentType.unknown

get_elem?-place : (c : UvDirentType) → get_elem? constants (place c) ≡ some (c, meaning c)
unfolding constants
get_elem?-place UvDirentType.block = refl
get_elem?-place _ = refl

module _ (value : UvDirentType → ℤ) (distinct : is_distinct value constants ≡ true) where
  -- The default arm gives the same as one more arm.
  from_inner-constants :
      (t : ℤ) → from_inner value t ≡ match_arms value constants DirentType.unknown t
  unfolding from_inner constants
  from_inner-constants t = match_arms-append value arms DirentType.unknown t UvDirentType.unknown

  pub from_inner-value : (c : UvDirentType) → from_inner value (value c) ≡ meaning c
  from_inner-value c =
      from_inner-constants (value c)
      ∙ match_arms-get_elem? value constants (place c) DirentType.unknown {k = c} distinct
          (get_elem?-place c)

  -- With distinct constants, every directory entry type survives the conversion to its libuv
  -- number and back.
  pub from_inner-into_inner_dirent : (e : DirentType) → from_inner value (into_inner value e) ≡ e
  unfolding into_inner
  from_inner-into_inner_dirent DirentType.block = from_inner-value UvDirentType.block
  from_inner-into_inner_dirent DirentType.char = from_inner-value UvDirentType.char
  from_inner-into_inner_dirent DirentType.dir = from_inner-value UvDirentType.dir
  from_inner-into_inner_dirent DirentType.fifo = from_inner-value UvDirentType.fifo
  from_inner-into_inner_dirent DirentType.file = from_inner-value UvDirentType.file
  from_inner-into_inner_dirent DirentType.link = from_inner-value UvDirentType.link
  from_inner-into_inner_dirent DirentType.socket = from_inner-value UvDirentType.socket
  from_inner-into_inner_dirent DirentType.unknown = from_inner-value UvDirentType.unknown

  -- Each constant is the code of what it is read as.
  pub into_inner-from_inner_dirent :
      (c : UvDirentType) → into_inner value (from_inner value (value c)) ≡ value c
  unfolding into_inner
  into_inner-from_inner_dirent UvDirentType.block = rw (from_inner-value UvDirentType.block)
  into_inner-from_inner_dirent UvDirentType.char = rw (from_inner-value UvDirentType.char)
  into_inner-from_inner_dirent UvDirentType.dir = rw (from_inner-value UvDirentType.dir)
  into_inner-from_inner_dirent UvDirentType.fifo = rw (from_inner-value UvDirentType.fifo)
  into_inner-from_inner_dirent UvDirentType.file = rw (from_inner-value UvDirentType.file)
  into_inner-from_inner_dirent UvDirentType.link = rw (from_inner-value UvDirentType.link)
  into_inner-from_inner_dirent UvDirentType.socket = rw (from_inner-value UvDirentType.socket)
  into_inner-from_inner_dirent UvDirentType.unknown = rw (from_inner-value UvDirentType.unknown)
