-- ===== src/DirentType.antt =====
-- src/fs/dirent_types.inc.rs: the types of directory entries
-- The constants of the C enumeration come from the bindings, so their numbers are a parameter.
pub mod RoundTrip
use libuv_rs.Common.{List, [], ◌∷◌, ◌++◌}
use libuv_rs.Common.Int.{ℤ}
use libuv_rs.Common.Table.{match_arms}

pub data DirentType : Type 0 where
  block char dir fifo file link socket unknown : DirentType

pub data UvDirentType : Type 0 where
  block char dir fifo file link socket unknown : UvDirentType

-- The arms of the match, in the order of the source.
unfoldable pub arms : List (UvDirentType × DirentType)
arms =
    (UvDirentType.block, DirentType.block)
    ∷ (UvDirentType.char, DirentType.char)
    ∷ (UvDirentType.dir, DirentType.dir)
    ∷ (UvDirentType.fifo, DirentType.fifo)
    ∷ (UvDirentType.file, DirentType.file)
    ∷ (UvDirentType.link, DirentType.link)
    ∷ (UvDirentType.socket, DirentType.socket)
    ∷ []

-- Every constant that the conversions name, with the value it stands for.
unfoldable pub constants : List (UvDirentType × DirentType)
unfolding arms
constants = arms ++ (UvDirentType.unknown, DirentType.unknown) ∷ []

module _ (value : UvDirentType → ℤ) where
  unfoldable pub from_inner : ℤ → DirentType
  unfolding arms match_arms
  from_inner t = match_arms value arms DirentType.unknown t

  unfoldable pub into_inner : DirentType → ℤ
  into_inner DirentType.block = value UvDirentType.block
  into_inner DirentType.char = value UvDirentType.char
  into_inner DirentType.dir = value UvDirentType.dir
  into_inner DirentType.fifo = value UvDirentType.fifo
  into_inner DirentType.file = value UvDirentType.file
  into_inner DirentType.link = value UvDirentType.link
  into_inner DirentType.socket = value UvDirentType.socket
  into_inner _ = value UvDirentType.unknown
