-- ===== src/Error/RoundTrip.antt =====
-- The conversions of src/error.inc.rs undo one another.
use libuv_rs.Common.{◌≡◌, true}
use libuv_rs.Common.Int.{ℤ}
use libuv_rs.Common.Table.{is_distinct, is_fresh, match_arms-is_fresh, match_arms-get_elem?}
use libuv_rs.Error.{Error, UvErrno, arms, constants, from_inner, code}
use libuv_rs.Error.Places.{place, meaning, get_elem?-place}

module _ (value : UvErrno → ℤ) (distinct : is_distinct value constants ≡ true) where
  pub from_inner-value : (c : UvErrno) → from_inner value (value c) ≡ meaning c
  unfolding from_inner constants
  from_inner-value c =
      match_arms-get_elem? value arms (place c) Error.unknown {k = c} distinct (get_elem?-place c)

  -- With distinct constants, every error survives the conversion to its libuv number and back.
  pub from_inner-code : (e : Error) → from_inner value (code value e) ≡ e
  unfolding code
  from_inner-code Error.e2big = from_inner-value UvErrno.e2big
  from_inner-code Error.eacces = from_inner-value UvErrno.eacces
  from_inner-code Error.eaddrinuse = from_inner-value UvErrno.eaddrinuse
  from_inner-code Error.eaddrnotavail = from_inner-value UvErrno.eaddrnotavail
  from_inner-code Error.eafnosupport = from_inner-value UvErrno.eafnosupport
  from_inner-code Error.eagain = from_inner-value UvErrno.eagain
  from_inner-code Error.eai_addrfamily = from_inner-value UvErrno.eai_addrfamily
  from_inner-code Error.eai_again = from_inner-value UvErrno.eai_again
  from_inner-code Error.eai_badflags = from_inner-value UvErrno.eai_badflags
  from_inner-code Error.eai_badhints = from_inner-value UvErrno.eai_badhints
  from_inner-code Error.eai_canceled = from_inner-value UvErrno.eai_canceled
  from_inner-code Error.eai_fail = from_inner-value UvErrno.eai_fail
  from_inner-code Error.eai_family = from_inner-value UvErrno.eai_family
  from_inner-code Error.eai_memory = from_inner-value UvErrno.eai_memory
  from_inner-code Error.eai_nodata = from_inner-value UvErrno.eai_nodata
  from_inner-code Error.eai_noname = from_inner-value UvErrno.eai_noname
  from_inner-code Error.eai_overflow = from_inner-value UvErrno.eai_overflow
  from_inner-code Error.eai_protocol = from_inner-value UvErrno.eai_protocol
  from_inner-code Error.eai_service = from_inner-value UvErrno.eai_service
  from_inner-code Error.eai_socktype = from_inner-value UvErrno.eai_socktype
  from_inner-code Error.ealready = from_inner-value UvErrno.ealready
  from_inner-code Error.ebadf = from_inner-value UvErrno.ebadf
  from_inner-code Error.ebusy = from_inner-value UvErrno.ebusy
  from_inner-code Error.ecanceled = from_inner-value UvErrno.ecanceled
  from_inner-code Error.echarset = from_inner-value UvErrno.echarset
  from_inner-code Error.econnaborted = from_inner-value UvErrno.econnaborted
  from_inner-code Error.econnrefused = from_inner-value UvErrno.econnrefused
  from_inner-code Error.econnreset = from_inner-value UvErrno.econnreset
  from_inner-code Error.edestaddrreq = from_inner-value UvErrno.edestaddrreq
  from_inner-code Error.eexist = from_inner-value UvErrno.eexist
  from_inner-code Error.efault = from_inner-value UvErrno.efault
  from_inner-code Error.efbig = from_inner-value UvErrno.efbig
  from_inner-code Error.eftype = from_inner-value UvErrno.eftype
  from_inner-code Error.ehostdown = from_inner-value UvErrno.ehostdown
  from_inner-code Error.ehostunreach = from_inner-value UvErrno.ehostunreach
  from_inner-code Error.eilseq = from_inner-value UvErrno.eilseq
  from_inner-code Error.eintr = from_inner-value UvErrno.eintr
  from_inner-code Error.einval = from_inner-value UvErrno.einval
  from_inner-code Error.eio = from_inner-value UvErrno.eio
  from_inner-code Error.eisconn = from_inner-value UvErrno.eisconn
  from_inner-code Error.eisdir = from_inner-value UvErrno.eisdir
  from_inner-code Error.eloop = from_inner-value UvErrno.eloop
  from_inner-code Error.emfile = from_inner-value UvErrno.emfile
  from_inner-code Error.emlink = from_inner-value UvErrno.emlink
  from_inner-code Error.emsgsize = from_inner-value UvErrno.emsgsize
  from_inner-code Error.enametoolong = from_inner-value UvErrno.enametoolong
  from_inner-code Error.enetdown = from_inner-value UvErrno.enetdown
  from_inner-code Error.enetunreach = from_inner-value UvErrno.enetunreach
  from_inner-code Error.enfile = from_inner-value UvErrno.enfile
  from_inner-code Error.enobufs = from_inner-value UvErrno.enobufs
  from_inner-code Error.enodev = from_inner-value UvErrno.enodev
  from_inner-code Error.enoent = from_inner-value UvErrno.enoent
  from_inner-code Error.enomem = from_inner-value UvErrno.enomem
  from_inner-code Error.enonet = from_inner-value UvErrno.enonet
  from_inner-code Error.enoprotoopt = from_inner-value UvErrno.enoprotoopt
  from_inner-code Error.enospc = from_inner-value UvErrno.enospc
  from_inner-code Error.enosys = from_inner-value UvErrno.enosys
  from_inner-code Error.enotconn = from_inner-value UvErrno.enotconn
  from_inner-code Error.enotdir = from_inner-value UvErrno.enotdir
  from_inner-code Error.enotempty = from_inner-value UvErrno.enotempty
  from_inner-code Error.enotsock = from_inner-value UvErrno.enotsock
  from_inner-code Error.enotsup = from_inner-value UvErrno.enotsup
  from_inner-code Error.enotty = from_inner-value UvErrno.enotty
  from_inner-code Error.enxio = from_inner-value UvErrno.enxio
  from_inner-code Error.eof = from_inner-value UvErrno.eof
  from_inner-code Error.eperm = from_inner-value UvErrno.eperm
  from_inner-code Error.epipe = from_inner-value UvErrno.epipe
  from_inner-code Error.eproto = from_inner-value UvErrno.eproto
  from_inner-code Error.eprotonosupport = from_inner-value UvErrno.eprotonosupport
  from_inner-code Error.eprototype = from_inner-value UvErrno.eprototype
  from_inner-code Error.erange = from_inner-value UvErrno.erange
  from_inner-code Error.eremoteio = from_inner-value UvErrno.eremoteio
  from_inner-code Error.erofs = from_inner-value UvErrno.erofs
  from_inner-code Error.errno_max = from_inner-value UvErrno.errno_max
  from_inner-code Error.eshutdown = from_inner-value UvErrno.eshutdown
  from_inner-code Error.espipe = from_inner-value UvErrno.espipe
  from_inner-code Error.esrch = from_inner-value UvErrno.esrch
  from_inner-code Error.etimedout = from_inner-value UvErrno.etimedout
  from_inner-code Error.etxtbsy = from_inner-value UvErrno.etxtbsy
  from_inner-code Error.exdev = from_inner-value UvErrno.exdev
  from_inner-code Error.unknown = from_inner-value UvErrno.unknown

  -- With distinct constants, every constant of libuv survives the conversion to an error and back.
  pub code-from_inner : (c : UvErrno) → code value (from_inner value (value c)) ≡ value c
  unfolding code
  code-from_inner UvErrno.e2big = rw (from_inner-value UvErrno.e2big)
  code-from_inner UvErrno.eacces = rw (from_inner-value UvErrno.eacces)
  code-from_inner UvErrno.eaddrinuse = rw (from_inner-value UvErrno.eaddrinuse)
  code-from_inner UvErrno.eaddrnotavail = rw (from_inner-value UvErrno.eaddrnotavail)
  code-from_inner UvErrno.eafnosupport = rw (from_inner-value UvErrno.eafnosupport)
  code-from_inner UvErrno.eagain = rw (from_inner-value UvErrno.eagain)
  code-from_inner UvErrno.eai_addrfamily = rw (from_inner-value UvErrno.eai_addrfamily)
  code-from_inner UvErrno.eai_again = rw (from_inner-value UvErrno.eai_again)
  code-from_inner UvErrno.eai_badflags = rw (from_inner-value UvErrno.eai_badflags)
  code-from_inner UvErrno.eai_badhints = rw (from_inner-value UvErrno.eai_badhints)
  code-from_inner UvErrno.eai_canceled = rw (from_inner-value UvErrno.eai_canceled)
  code-from_inner UvErrno.eai_fail = rw (from_inner-value UvErrno.eai_fail)
  code-from_inner UvErrno.eai_family = rw (from_inner-value UvErrno.eai_family)
  code-from_inner UvErrno.eai_memory = rw (from_inner-value UvErrno.eai_memory)
  code-from_inner UvErrno.eai_nodata = rw (from_inner-value UvErrno.eai_nodata)
  code-from_inner UvErrno.eai_noname = rw (from_inner-value UvErrno.eai_noname)
  code-from_inner UvErrno.eai_overflow = rw (from_inner-value UvErrno.eai_overflow)
  code-from_inner UvErrno.eai_protocol = rw (from_inner-value UvErrno.eai_protocol)
  code-from_inner UvErrno.eai_service = rw (from_inner-value UvErrno.eai_service)
  code-from_inner UvErrno.eai_socktype = rw (from_inner-value UvErrno.eai_socktype)
  code-from_inner UvErrno.ealready = rw (from_inner-value UvErrno.ealready)
  code-from_inner UvErrno.ebadf = rw (from_inner-value UvErrno.ebadf)
  code-from_inner UvErrno.ebusy = rw (from_inner-value UvErrno.ebusy)
  code-from_inner UvErrno.ecanceled = rw (from_inner-value UvErrno.ecanceled)
  code-from_inner UvErrno.echarset = rw (from_inner-value UvErrno.echarset)
  code-from_inner UvErrno.econnaborted = rw (from_inner-value UvErrno.econnaborted)
  code-from_inner UvErrno.econnrefused = rw (from_inner-value UvErrno.econnrefused)
  code-from_inner UvErrno.econnreset = rw (from_inner-value UvErrno.econnreset)
  code-from_inner UvErrno.edestaddrreq = rw (from_inner-value UvErrno.edestaddrreq)
  code-from_inner UvErrno.eexist = rw (from_inner-value UvErrno.eexist)
  code-from_inner UvErrno.efault = rw (from_inner-value UvErrno.efault)
  code-from_inner UvErrno.efbig = rw (from_inner-value UvErrno.efbig)
  code-from_inner UvErrno.eftype = rw (from_inner-value UvErrno.eftype)
  code-from_inner UvErrno.ehostdown = rw (from_inner-value UvErrno.ehostdown)
  code-from_inner UvErrno.ehostunreach = rw (from_inner-value UvErrno.ehostunreach)
  code-from_inner UvErrno.eilseq = rw (from_inner-value UvErrno.eilseq)
  code-from_inner UvErrno.eintr = rw (from_inner-value UvErrno.eintr)
  code-from_inner UvErrno.einval = rw (from_inner-value UvErrno.einval)
  code-from_inner UvErrno.eio = rw (from_inner-value UvErrno.eio)
  code-from_inner UvErrno.eisconn = rw (from_inner-value UvErrno.eisconn)
  code-from_inner UvErrno.eisdir = rw (from_inner-value UvErrno.eisdir)
  code-from_inner UvErrno.eloop = rw (from_inner-value UvErrno.eloop)
  code-from_inner UvErrno.emfile = rw (from_inner-value UvErrno.emfile)
  code-from_inner UvErrno.emlink = rw (from_inner-value UvErrno.emlink)
  code-from_inner UvErrno.emsgsize = rw (from_inner-value UvErrno.emsgsize)
  code-from_inner UvErrno.enametoolong = rw (from_inner-value UvErrno.enametoolong)
  code-from_inner UvErrno.enetdown = rw (from_inner-value UvErrno.enetdown)
  code-from_inner UvErrno.enetunreach = rw (from_inner-value UvErrno.enetunreach)
  code-from_inner UvErrno.enfile = rw (from_inner-value UvErrno.enfile)
  code-from_inner UvErrno.enobufs = rw (from_inner-value UvErrno.enobufs)
  code-from_inner UvErrno.enodev = rw (from_inner-value UvErrno.enodev)
  code-from_inner UvErrno.enoent = rw (from_inner-value UvErrno.enoent)
  code-from_inner UvErrno.enomem = rw (from_inner-value UvErrno.enomem)
  code-from_inner UvErrno.enonet = rw (from_inner-value UvErrno.enonet)
  code-from_inner UvErrno.enoprotoopt = rw (from_inner-value UvErrno.enoprotoopt)
  code-from_inner UvErrno.enospc = rw (from_inner-value UvErrno.enospc)
  code-from_inner UvErrno.enosys = rw (from_inner-value UvErrno.enosys)
  code-from_inner UvErrno.enotconn = rw (from_inner-value UvErrno.enotconn)
  code-from_inner UvErrno.enotdir = rw (from_inner-value UvErrno.enotdir)
  code-from_inner UvErrno.enotempty = rw (from_inner-value UvErrno.enotempty)
  code-from_inner UvErrno.enotsock = rw (from_inner-value UvErrno.enotsock)
  code-from_inner UvErrno.enotsup = rw (from_inner-value UvErrno.enotsup)
  code-from_inner UvErrno.enotty = rw (from_inner-value UvErrno.enotty)
  code-from_inner UvErrno.enxio = rw (from_inner-value UvErrno.enxio)
  code-from_inner UvErrno.eof = rw (from_inner-value UvErrno.eof)
  code-from_inner UvErrno.eperm = rw (from_inner-value UvErrno.eperm)
  code-from_inner UvErrno.epipe = rw (from_inner-value UvErrno.epipe)
  code-from_inner UvErrno.eproto = rw (from_inner-value UvErrno.eproto)
  code-from_inner UvErrno.eprotonosupport = rw (from_inner-value UvErrno.eprotonosupport)
  code-from_inner UvErrno.eprototype = rw (from_inner-value UvErrno.eprototype)
  code-from_inner UvErrno.erange = rw (from_inner-value UvErrno.erange)
  code-from_inner UvErrno.eremoteio = rw (from_inner-value UvErrno.eremoteio)
  code-from_inner UvErrno.erofs = rw (from_inner-value UvErrno.erofs)
  code-from_inner UvErrno.errno_max = rw (from_inner-value UvErrno.errno_max)
  code-from_inner UvErrno.eshutdown = rw (from_inner-value UvErrno.eshutdown)
  code-from_inner UvErrno.espipe = rw (from_inner-value UvErrno.espipe)
  code-from_inner UvErrno.esrch = rw (from_inner-value UvErrno.esrch)
  code-from_inner UvErrno.etimedout = rw (from_inner-value UvErrno.etimedout)
  code-from_inner UvErrno.etxtbsy = rw (from_inner-value UvErrno.etxtbsy)
  code-from_inner UvErrno.exdev = rw (from_inner-value UvErrno.exdev)
  code-from_inner UvErrno.unknown = rw (from_inner-value UvErrno.unknown)

-- A number that no constant of the match has becomes the unknown error.
pub from_inner-is_fresh :
    (value : UvErrno → ℤ) (n : ℤ)
    → is_fresh value n arms ≡ true
    → from_inner value n ≡ Error.unknown
unfolding from_inner
from_inner-is_fresh value n fresh = match_arms-is_fresh value arms Error.unknown n fresh
