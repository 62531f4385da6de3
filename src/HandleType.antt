-- ===== src/HandleType.antt =====
-- src/handles/handle_types.inc.rs: the types of handles
-- The constants of the C enumeration come from the bindings, so their numbers are a parameter.
pub mod RoundTrip
use libuv_rs.Common.{List, [], ◌∷◌, ◌++◌}
use libuv_rs.Common.Int.{ℤ}
use libuv_rs.Common.Table.{match_arms}

pub data HandleType : Type 0 where
  async check file fs_event fs_poll handle idle named_pipe poll prepare process : HandleType
  signal stream tcp timer tty udp unknown : HandleType

pub data UvHandleType : Type 0 where
  async check file fs_event fs_poll handle idle named_pipe poll prepare process : UvHandleType
  signal stream tcp timer tty udp unknown_handle : UvHandleType

-- The arms of the match, in the order of the source.
unfoldable pub arms : List (UvHandleType × HandleType)
arms =
    (UvHandleType.async, HandleType.async)
    ∷ (UvHandleType.check, HandleType.check)
    ∷ (UvHandleType.file, HandleType.file)
    ∷ (UvHandleType.fs_event, HandleType.fs_event)
    ∷ (UvHandleType.fs_poll, HandleType.fs_poll)
    ∷ (UvHandleType.handle, HandleType.handle)
    ∷ (UvHandleType.idle, HandleType.idle)
    ∷ (UvHandleType.named_pipe, HandleType.named_pipe)
    ∷ (UvHandleType.poll, HandleType.poll)
    ∷ (UvHandleType.prepare, HandleType.prepare)
    ∷ (UvHandleType.process, HandleType.process)
    ∷ (UvHandleType.signal, HandleType.signal)
    ∷ (UvHandleType.stream, HandleType.stream)
    ∷ (UvHandleType.tcp, HandleType.tcp)
    ∷ (UvHandleType.timer, HandleType.timer)
    ∷ (UvHandleType.tty, HandleType.tty)
    ∷ (UvHandleType.udp, HandleType.udp)
    ∷ []

-- Every constant that the conversions name, with the value it stands for.
unfoldable pub constants : List (UvHandleType × HandleType)
unfolding arms
constants = arms ++ (UvHandleType.unknown_handle, HandleType.unknown) ∷ []

module _ (value : UvHandleType → ℤ) where
  unfoldable pub from_inner : ℤ → HandleType
  unfolding arms match_arms
  from_inner t = match_arms value arms HandleType.unknown t

  unfoldable pub into_inner : HandleType → ℤ
  into_inner HandleType.async = value UvHandleType.async
  into_inner HandleType.check = value UvHandleType.check
  into_inner HandleType.file = value UvHandleType.file
  into_inner HandleType.fs_event = value UvHandleType.fs_event
  into_inner HandleType.fs_poll = value UvHandleType.fs_poll
  into_inner HandleType.handle = value UvHandleType.handle
  into_inner HandleType.idle = value UvHandleType.idle
  into_inner HandleType.named_pipe = value UvHandleType.named_pipe
  into_inner HandleType.poll = value UvHandleType.poll
  into_inner HandleType.prepare = value UvHandleType.prepare
  into_inner HandleType.process = value UvHandleType.process
  into_inner HandleType.signal = value UvHandleType.signal
  into_inner HandleType.stream = value UvHandleType.stream
  into_inner HandleType.tcp = value UvHandleType.tcp
  into_inner HandleType.timer = value UvHandleType.timer
  into_inner HandleType.tty = value UvHandleType.tty
  into_inner HandleType.udp = value UvHandleType.udp
  into_inner _ = value UvHandleType.unknown_handle
