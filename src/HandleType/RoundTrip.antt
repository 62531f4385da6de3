-- ===== src/HandleType/RoundTrip.antt =====
-- The conversions of src/handles/handle_types.inc.rs undo one another.
use libuv_rs.Common.{ℕ, ◌≡◌, refl, ◌∙◌, true, some, get_elem?}
use libuv_rs.Common.Int.{ℤ}
use libuv_rs.Common.Table.{match_arms, is_distinct, match_arms-append, match_arms-get_elem?}
use libuv_rs.HandleType.{HandleType, UvHandleType, arms, constants, from_inner, into_inner}

-- The place of a constant among the arms.
abbrev pub place : UvHandleType → ℕ
place UvHandleType.async = 0
place UvHandleType.check = 1
place UvHandleType.file = 2
place UvHandleType.fs_event = 3
place UvHandleType.fs_poll = 4
place UvHandleType.handle = 5
place UvHandleType.idle = 6
place UvHandleType.named_pipe = 7
place UvHandleType.poll = 8
place UvHandleType.prepare = 9
place UvHandleType.process = 10
place UvHandleType.signal = 11
place UvHandleType.stream = 12
place UvHandleType.tcp = 13
place UvHandleType.timer = 14
place UvHandleType.tty = 15
place UvHandleType.udp = 16
place UvHandleType.unknown_handle = 17

-- What a constant stands for.
abbrev pub meaning : UvHandleType → HandleType
meaning UvHandleType.async = HandleType.async
meaning UvHandleType.check = HandleType.check
meaning UvHandleType.file = HandleType.file
meaning UvHandleType.fs_event = HandleType.fs_event
meaning UvHandleType.fs_poll = HandleType.fs_poll
meaning UvHandleType.handle = HandleType.handle
meaning UvHandleType.idle = HandleType.idle
meaning UvHandleType.named_pipe = HandleType.named_pipe
meaning UvHandleType.poll = HandleType.poll
meaning UvHandleType.prepare = HandleType.prepare
meaning UvHandleType.process = HandleType.process
meaning UvHandleType.signal = HandleType.signal
meaning UvHandleType.stream = HandleType.stream
meaning UvHandleType.tcp = HandleType.tcp
meaning UvHandleType.timer = HandleType.timer
meaning UvHandleType.tty = HandleType.tty
meaning UvHandleType.udp = HandleType.udp
meaning UvHandleType.unknown_handle = HandleType.unknown

get_elem?-place : (c : UvHandleType) → get_elem? constants (place c) ≡ some (c, meaning c)
unfolding constants
get_elem?-place UvHandleType.async = refl
get_elem?-place _ = refl

module _ (value : UvHandleType → ℤ) (distinct : is_distinct value constants ≡ true) where
  -- The default arm gives the same as one more arm.
  from_inner-constants :
      (t : ℤ) → from_inner value t ≡ match_arms value constants HandleType.unknown t
  unfolding from_inner constants
  from_inner-constants t =
      match_arms-append value arms HandleType.unknown t UvHandleType.unknown_handle

  pub from_inner-value : (c : UvHandleType) → from_inner value (value c) ≡ meaning c
  from_inner-value c =
      from_inner-constants (value c)
      ∙ match_arms-get_elem? value constants (place c) HandleType.unknown {k = c} distinct
          (get_elem?-place c)

  -- With distinct constants, every handle type survives the conversion to its libuv number and
  -- back.
  pub from_inner-into_inner_handle : (e : HandleType) → from_inner value (into_inner value e) ≡ e
  unfolding into_inner
  from_inner-into_inner_handle HandleType.async = from_inner-value UvHandleType.async
  from_inner-into_inner_handle HandleType.check = from_inner-value UvHandleType.check
  from_inner-into_inner_handle HandleType.file = from_inner-value UvHandleType.file
  from_inner-into_inner_handle HandleType.fs_event = from_inner-value UvHandleType.fs_event
  from_inner-into_inner_handle HandleType.fs_poll = from_inner-value UvHandleType.fs_poll
  from_inner-into_inner_handle HandleType.handle = from_inner-value UvHandleType.handle
  from_inner-into_inner_handle HandleType.idle = from_inner-value UvHandleType.idle
  from_inner-into_inner_handle HandleType.named_pipe = from_inner-value UvHandleType.named_pipe
  from_inner-into_inner_handle HandleType.poll = from_inner-value UvHandleType.poll
  from_inner-into_inner_handle HandleType.prepare = from_inner-value UvHandleType.prepare
  from_inner-into_inner_handle HandleType.process = from_inner-value UvHandleType.process
  from_inner-into_inner_handle HandleType.signal = from_inner-value UvHandleType.signal
  from_inner-into_inner_handle HandleType.stream = from_inner-value UvHandleType.stream
  from_inner-into_inner_handle HandleType.tcp = from_inner-value UvHandleType.tcp
  from_inner-into_inner_handle HandleType.timer = from_inner-value UvHandleType.timer
  from_inner-into_inner_handle HandleType.tty = from_inner-value UvHandleType.tty
  from_inner-into_inner_handle HandleType.udp = from_inner-value UvHandleType.udp
  from_inner-into_inner_handle HandleType.unknown = from_inner-value UvHandleType.unknown_handle

  -- Each constant is the code of what it is read as.
  pub into_inner-from_inner_handle :
      (c : UvHandleType) → into_inner value (from_inner value (value c)) ≡ value c
  unfolding into_inner
  into_inner-from_inner_handle UvHandleType.async = rw (from_inner-value UvHandleType.async)
  into_inner-from_inner_handle UvHandleType.check = rw (from_inner-value UvHandleType.check)
  into_inner-from_inner_handle UvHandleType.file = rw (from_inner-value UvHandleType.file)
  into_inner-from_inner_handle UvHandleType.fs_event = rw (from_inner-value UvHandleType.fs_event)
  into_inner-from_inner_handle UvHandleType.fs_poll = rw (from_inner-value UvHandleType.fs_poll)
  into_inner-from_inner_handle UvHandleType.handle = rw (from_inner-value UvHandleType.handle)
  into_inner-from_inner_handle UvHandleType.idle = rw (from_inner-value UvHandleType.idle)
  into_inner-from_inner_handle UvHandleType.named_pipe =
      rw (from_inner-value UvHandleType.named_pipe)
  into_inner-from_inner_handle UvHandleType.poll = rw (from_inner-value UvHandleType.poll)
  into_inner-from_inner_handle UvHandleType.prepare = rw (from_inner-value UvHandleType.prepare)
  into_inner-from_inner_handle UvHandleType.process = rw (from_inner-value UvHandleType.process)
  into_inner-from_inner_handle UvHandleType.signal = rw (from_inner-value UvHandleType.signal)
  into_inner-from_inner_handle UvHandleType.stream = rw (from_inner-value UvHandleType.stream)
  into_inner-from_inner_handle UvHandleType.tcp = rw (from_inner-value UvHandleType.tcp)
  into_inner-from_inner_handle UvHandleType.timer = rw (from_inner-value UvHandleType.timer)
  into_inner-from_inner_handle UvHandleType.tty = rw (from_inner-value UvHandleType.tty)
  into_inner-from_inner_handle UvHandleType.udp = rw (from_inner-value UvHandleType.udp)
  into_inner-from_inner_handle UvHandleType.unknown_handle =
      rw (from_inner-value UvHandleType.unknown_handle)
