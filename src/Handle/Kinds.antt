-- ===== src/Handle/Kinds.antt =====
-- src/handles: the conversions of a handle to each type of handle.
use libuv_rs.Common.{◌≡◌, ◌≢◌, refl, ◌∙◌, false, if◌then◌else◌, ◌==◌, ==_ne}
use libuv_rs.Common.Int.{is_neg}
use libuv_rs.HandleType.{HandleType}
use libuv_rs.HandleType.RoundTrip.{from_inner-value, meaning}
use libuv_rs.Memory.{Ptr, null}
use libuv_rs.Memory.Effect.{Env, World, IsAllocator, Eff, done}
use libuv_rs.Handle.{UvHandle}
use libuv_rs.Handle.Conversion.{Conversion, convert, type_tag}
use libuv_rs.Handle.Makes.{IsUvHandle, make_lem, make-HandleOwned}
use libuv_rs.Handle.Ops.{NewOp, make}
use libuv_rs.Handle.Spec.{init_call_of, type_of_call, made_ptr, made_heap, made_answer, asked_heap}
use libuv_rs.Handle.Timer
use libuv_rs.Handle.Check
use libuv_rs.Handle.Prepare
use libuv_rs.Handle.Idle
use libuv_rs.Handle.Signal
use libuv_rs.Handle.Poll
use libuv_rs.Handle.FsEvent
use libuv_rs.Handle.FsPoll
use libuv_rs.Handle.Async
use libuv_rs.Handle.Tcp
use libuv_rs.Handle.Pipe
use libuv_rs.Handle.Tty
use libuv_rs.Handle.Udp

pub data Kind : Type 0 where
  timer check prepare idle signal poll fs_event fs_poll async tcp pipe tty udp : Kind

abbrev pub type_of_kind : Kind → HandleType
type_of_kind Kind.timer = HandleType.timer
type_of_kind Kind.check = HandleType.check
type_of_kind Kind.prepare = HandleType.prepare
type_of_kind Kind.idle = HandleType.idle
type_of_kind Kind.signal = HandleType.signal
type_of_kind Kind.poll = HandleType.poll
type_of_kind Kind.fs_event = HandleType.fs_event
type_of_kind Kind.fs_poll = HandleType.fs_poll
type_of_kind Kind.async = HandleType.async
type_of_kind Kind.tcp = HandleType.tcp
type_of_kind Kind.pipe = HandleType.named_pipe
type_of_kind Kind.tty = HandleType.tty
type_of_kind Kind.udp = HandleType.udp

module _ (libuv : UvHandle) where
  unfoldable pub try_into : Kind → Ptr → Eff Conversion
  try_into Kind.timer p = Timer.try_from libuv p
  try_into Kind.check p = Check.try_from libuv p
  try_into Kind.prepare p = Prepare.try_from libuv p
  try_into Kind.idle p = Idle.try_from libuv p
  try_into Kind.signal p = Signal.try_from libuv p
  try_into Kind.poll p = Poll.try_from libuv p
  try_into Kind.fs_event p = FsEvent.try_from libuv p
  try_into Kind.fs_poll p = FsPoll.try_from libuv p
  try_into Kind.async p = Async.try_from libuv p
  try_into Kind.tcp p = Tcp.try_from libuv p
  try_into Kind.pipe p = Pipe.try_from libuv p
  try_into Kind.tty p = Tty.try_from libuv p
  try_into Kind.udp p = Udp.try_from libuv p

  -- Each goes by the type that the table names.
  try_into-convert :
      (k : Kind) (p : Ptr) (w : World) → try_into k p w ≡ convert libuv (type_of_kind k) p w
  unfolding try_into Timer.try_from Check.try_from Prepare.try_from Idle.try_from Signal.try_from
      Poll.try_from FsEvent.try_from FsPoll.try_from Async.try_from Tcp.try_from Pipe.try_from
      Tty.try_from Udp.try_from
  try_into-convert Kind.timer p w = refl
  try_into-convert Kind.check p w = refl
  try_into-convert Kind.prepare p w = refl
  try_into-convert Kind.idle p w = refl
  try_into-convert Kind.signal p w = refl
  try_into-convert Kind.poll p w = refl
  try_into-convert Kind.fs_event p w = refl
  try_into-convert Kind.fs_poll p w = refl
  try_into-convert Kind.async p w = refl
  try_into-convert Kind.tcp p w = refl
  try_into-convert Kind.pipe p w = refl
  try_into-convert Kind.tty p w = refl
  try_into-convert Kind.udp p w = refl

module _ (libuv : UvHandle) (known : IsUvHandle libuv) (env : Env) (law : IsAllocator env)
    (lp : Ptr) (op : NewOp) (w : World) where
  -- The type of the new handle.
  abbrev pub type_of_new : HandleType
  type_of_new = meaning (type_of_call (init_call_of op))

  abbrev pub new_world : World
  new_world = record w { heap = made_heap libuv env lp op w }

  -- Each of the sixteen constructors, if it gets its memory and libuv accepts, makes a handle that
  -- converts to a handle of each of the thirteen kinds exactly if its type is that of the kind,
  -- and gives the error with both types otherwise, without touching the memory, with an allocator
  -- that returns fresh addresses and a libuv that sets the type of the handles it initialises.
  pub make-try_into :
      made_ptr libuv env lp op w ≢ null
      → is_neg (made_answer libuv env lp op w).0 ≡ false
      → (k : Kind)
      → (make libuv env lp op w ≡ done (made_ptr libuv env lp op w) new_world)
        × (try_into libuv k (made_ptr libuv env lp op w) new_world
            ≡ done
                (if type_tag type_of_new == type_tag (type_of_kind k)
                  then Conversion.converted (made_ptr libuv env lp op w)
                  else Conversion.conversion_error type_of_new (type_of_kind k))
                new_world)
  unfolding convert
  make-try_into got good k =
      let o = make-HandleOwned libuv env law lp w op got in
      (
        rw (make_lem libuv env law lp w op, ==_ne (made_ptr libuv env lp op w) null got, good) refl,
        try_into-convert libuv k (made_ptr libuv env lp op w) new_world
            ∙ simp (
              ==_ne (made_ptr libuv env lp op w) null got,
              o.p_holds,
              known.type_set (record w { heap = asked_heap libuv env lp op w }) lp
                  (made_ptr libuv env lp op w) (init_call_of op) env.garbage good,
              from_inner-value libuv.handle_type known.types_distinct
                  (type_of_call (init_call_of op)),
            ),
      )
