-- ===== src/Handle/Conversion.antt =====
-- src/handles: the conversions from a handle of any type to the type of handle it is.
use libuv_rs.Common.{ℕ, if◌then◌else◌, ◌==◌}
use libuv_rs.HandleType.{HandleType}
use libuv_rs.Memory.{Ptr}
use libuv_rs.Memory.Effect.{Eff, pure, ◌>>=◌}
use libuv_rs.Handle.{UvHandle, get_type}

abbrev pub type_tag : HandleType → ℕ
type_tag HandleType.async = 0
type_tag HandleType.check = 1
type_tag HandleType.file = 2
type_tag HandleType.fs_event = 3
type_tag HandleType.fs_poll = 4
type_tag HandleType.handle = 5
type_tag HandleType.idle = 6
type_tag HandleType.named_pipe = 7
type_tag HandleType.poll = 8
type_tag HandleType.prepare = 9
type_tag HandleType.process = 10
type_tag HandleType.signal = 11
type_tag HandleType.stream = 12
type_tag HandleType.tcp = 13
type_tag HandleType.timer = 14
type_tag HandleType.tty = 15
type_tag HandleType.udp = 16
type_tag HandleType.unknown = 17

-- The outcome of `try_from`: the handle, or the `ConversionError` with both types.
pub data Conversion : Type 0 where
  converted : Ptr → Conversion
  conversion_error : (actual target : HandleType) → Conversion

-- The body that the conversions share.
unfoldable pub convert : UvHandle → HandleType → Ptr → Eff Conversion
unfolding get_type
convert libuv target handle = do
  t ← get_type libuv handle
  pure (
      if type_tag t == type_tag target
      then Conversion.converted handle
      else Conversion.conversion_error t target)
