-- ===== src/Error.antt =====
-- src/error.inc.rs: the libuv error numbers as an enumeration
-- The constants of the C enumeration come from the bindings, so their numbers are a parameter.
pub mod Places
pub mod RoundTrip
use libuv_rs.Common.{List, [], ◌∷◌}
use libuv_rs.Common.Int.{ℤ}
use libuv_rs.Common.Table.{match_arms}

pub data Error : Type 0 where
  e2big eacces eaddrinuse eaddrnotavail eafnosupport eagain eai_addrfamily eai_again : Error
  eai_badflags eai_badhints eai_canceled eai_fail eai_family eai_memory eai_nodata : Error
  eai_noname eai_overflow eai_protocol eai_service eai_socktype ealready ebadf ebusy : Error
  ecanceled echarset econnaborted econnrefused econnreset edestaddrreq eexist efault : Error
  efbig eftype ehostdown ehostunreach eilseq eintr einval eio eisconn eisdir eloop : Error
  emfile emlink emsgsize enametoolong enetdown enetunreach enfile enobufs enodev : Error
  enoent enomem enonet enoprotoopt enospc enosys enotconn enotdir enotempty enotsock : Error
  enotsup enotty enxio eof eperm epipe eproto eprotonosupport eprototype erange : Error
  eremoteio erofs errno_max eshutdown espipe esrch etimedout etxtbsy exdev unknown : Error

pub data UvErrno : Type 0 where
  e2big eacces eaddrinuse eaddrnotavail eafnosupport eagain eai_addrfamily eai_again : UvErrno
  eai_badflags eai_badhints eai_canceled eai_fail eai_family eai_memory eai_nodata : UvErrno
  eai_noname eai_overflow eai_protocol eai_service eai_socktype ealready ebadf ebusy : UvErrno
  ecanceled echarset econnaborted econnrefused econnreset edestaddrreq eexist efault : UvErrno
  efbig eftype ehostdown ehostunreach eilseq eintr einval eio eisconn eisdir eloop : UvErrno
  emfile emlink emsgsize enametoolong enetdown enetunreach enfile enobufs enodev : UvErrno
  enoent enomem enonet enoprotoopt enospc enosys enotconn enotdir enotempty enotsock : UvErrno
  enotsup enotty enxio eof eperm epipe eproto eprotonosupport eprototype erange : UvErrno
  eremoteio erofs errno_max eshutdown espipe esrch etimedout etxtbsy exdev unknown : UvErrno

-- The arms of the match, in the order of the source.
unfoldable pub arms : List (UvErrno × Error)
arms =
    (UvErrno.e2big, Error.e2big)
    ∷ (UvErrno.eacces, Error.eacces)
    ∷ (UvErrno.eaddrinuse, Error.eaddrinuse)
    ∷ (UvErrno.eaddrnotavail, Error.eaddrnotavail)
    ∷ (UvErrno.eafnosupport, Error.eafnosupport)
    ∷ (UvErrno.eagain, Error.eagain)
    ∷ (UvErrno.eai_addrfamily, Error.eai_addrfamily)
    ∷ (UvErrno.eai_again, Error.eai_again)
    ∷ (UvErrno.eai_badflags, Error.eai_badflags)
    ∷ (UvErrno.eai_badhints, Error.eai_badhints)
    ∷ (UvErrno.eai_canceled, Error.eai_canceled)
    ∷ (UvErrno.eai_fail, Error.eai_fail)
    ∷ (UvErrno.eai_family, Error.eai_family)
    ∷ (UvErrno.eai_memory, Error.eai_memory)
    ∷ (UvErrno.eai_nodata, Error.eai_nodata)
    ∷ (UvErrno.eai_noname, Error.eai_noname)
    ∷ (UvErrno.eai_overflow, Error.eai_overflow)
    ∷ (UvErrno.eai_protocol, Error.eai_protocol)
    ∷ (UvErrno.eai_service, Error.eai_service)
    ∷ (UvErrno.eai_socktype, Error.eai_socktype)
    ∷ (UvErrno.ealready, Error.ealready)
    ∷ (UvErrno.ebadf, Error.ebadf)
    ∷ (UvErrno.ebusy, Error.ebusy)
    ∷ (UvErrno.ecanceled, Error.ecanceled)
    ∷ (UvErrno.echarset, Error.echarset)
    ∷ (UvErrno.econnaborted, Error.econnaborted)
    ∷ (UvErrno.econnrefused, Error.econnrefused)
    ∷ (UvErrno.econnreset, Error.econnreset)
    ∷ (UvErrno.edestaddrreq, Error.edestaddrreq)
    ∷ (UvErrno.eexist, Error.eexist)
    ∷ (UvErrno.efault, Error.efault)
    ∷ (UvErrno.efbig, Error.efbig)
    ∷ (UvErrno.eftype, Error.eftype)
    ∷ (UvErrno.ehostdown, Error.ehostdown)
    ∷ (UvErrno.ehostunreach, Error.ehostunreach)
    ∷ (UvErrno.eilseq, Error.eilseq)
    ∷ (UvErrno.eintr, Error.eintr)
    ∷ (UvErrno.einval, Error.einval)
    ∷ (UvErrno.eio, Error.eio)
    ∷ (UvErrno.eisconn, Error.eisconn)
    ∷ (UvErrno.eisdir, Error.eisdir)
    ∷ (UvErrno.eloop, Error.eloop)
    ∷ (UvErrno.emfile, Error.emfile)
    ∷ (UvErrno.emlink, Error.emlink)
    ∷ (UvErrno.emsgsize, Error.emsgsize)
    ∷ (UvErrno.enametoolong, Error.enametoolong)
    ∷ (UvErrno.enetdown, Error.enetdown)
    ∷ (UvErrno.enetunreach, Error.enetunreach)
    ∷ (UvErrno.enfile, Error.enfile)
    ∷ (UvErrno.enobufs, Error.enobufs)
    ∷ (UvErrno.enodev, Error.enodev)
    ∷ (UvErrno.enoent, Error.enoent)
    ∷ (UvErrno.enomem, Error.enomem)
    ∷ (UvErrno.enonet, Error.enonet)
    ∷ (UvErrno.enoprotoopt, Error.enoprotoopt)
    ∷ (UvErrno.enospc, Error.enospc)
    ∷ (UvErrno.enosys, Error.enosys)
    ∷ (UvErrno.enotconn, Error.enotconn)
    ∷ (UvErrno.enotdir, Error.enotdir)
    ∷ (UvErrno.enotempty, Error.enotempty)
    ∷ (UvErrno.enotsock, Error.enotsock)
    ∷ (UvErrno.enotsup, Error.enotsup)
    ∷ (UvErrno.enotty, Error.enotty)
    ∷ (UvErrno.enxio, Error.enxio)
    ∷ (UvErrno.eof, Error.eof)
    ∷ (UvErrno.eperm, Error.eperm)
    ∷ (UvErrno.epipe, Error.epipe)
    ∷ (UvErrno.eproto, Error.eproto)
    ∷ (UvErrno.eprotonosupport, Error.eprotonosupport)
    ∷ (UvErrno.eprototype, Error.eprototype)
    ∷ (UvErrno.erange, Error.erange)
    ∷ (UvErrno.eremoteio, Error.eremoteio)
    ∷ (UvErrno.erofs, Error.erofs)
    ∷ (UvErrno.errno_max, Error.errno_max)
    ∷ (UvErrno.eshutdown, Error.eshutdown)
    ∷ (UvErrno.espipe, Error.espipe)
    ∷ (UvErrno.esrch, Error.esrch)
    ∷ (UvErrno.etimedout, Error.etimedout)
    ∷ (UvErrno.etxtbsy, Error.etxtbsy)
    ∷ (UvErrno.exdev, Error.exdev)
    ∷ (UvErrno.unknown, Error.unknown)
    ∷ []

-- Every constant that the conversions name, with the value it stands for.
unfoldable pub constants : List (UvErrno × Error)
unfolding arms
constants = arms

module _ (value : UvErrno → ℤ) where
  unfoldable pub from_inner : ℤ → Error
  unfolding arms match_arms
  from_inner t = match_arms value arms Error.unknown t

  unfoldable pub code : Error → ℤ
  code Error.e2big = value UvErrno.e2big
  code Error.eacces = value UvErrno.eacces
  code Error.eaddrinuse = value UvErrno.eaddrinuse
  code Error.eaddrnotavail = value UvErrno.eaddrnotavail
  code Error.eafnosupport = value UvErrno.eafnosupport
  code Error.eagain = value UvErrno.eagain
  code Error.eai_addrfamily = value UvErrno.eai_addrfamily
  code Error.eai_again = value UvErrno.eai_again
  code Error.eai_badflags = value UvErrno.eai_badflags
  code Error.eai_badhints = value UvErrno.eai_badhints
  code Error.eai_canceled = value UvErrno.eai_canceled
  code Error.eai_fail = value UvErrno.eai_fail
  code Error.eai_family = value UvErrno.eai_family
  code Error.eai_memory = value UvErrno.eai_memory
  code Error.eai_nodata = value UvErrno.eai_nodata
  code Error.eai_noname = value UvErrno.eai_noname
  code Error.eai_overflow = value UvErrno.eai_overflow
  code Error.eai_protocol = value UvErrno.eai_protocol
  code Error.eai_service = value UvErrno.eai_service
  code Error.eai_socktype = value UvErrno.eai_socktype
  code Error.ealready = value UvErrno.ealready
  code Error.ebadf = value UvErrno.ebadf
  code Error.ebusy = value UvErrno.ebusy
  code Error.ecanceled = value UvErrno.ecanceled
  code Error.echarset = value UvErrno.echarset
  code Error.econnaborted = value UvErrno.econnaborted
  code Error.econnrefused = value UvErrno.econnrefused
  code Error.econnreset = value UvErrno.econnreset
  code Error.edestaddrreq = value UvErrno.edestaddrreq
  code Error.eexist = value UvErrno.eexist
  code Error.efault = value UvErrno.efault
  code Error.efbig = value UvErrno.efbig
  code Error.eftype = value UvErrno.eftype
  code Error.ehostdown = value UvErrno.ehostdown
  code Error.ehostunreach = value UvErrno.ehostunreach
  code Error.eilseq = value UvErrno.eilseq
  code Error.eintr = value UvErrno.eintr
  code Error.einval = value UvErrno.einval
  code Error.eio = value UvErrno.eio
  code Error.eisconn = value UvErrno.eisconn
  code Error.eisdir = value UvErrno.eisdir
  code Error.eloop = value UvErrno.eloop
  code Error.emfile = value UvErrno.emfile
  code Error.emlink = value UvErrno.emlink
  code Error.emsgsize = value UvErrno.emsgsize
  code Error.enametoolong = value UvErrno.enametoolong
  code Error.enetdown = value UvErrno.enetdown
  code Error.enetunreach = value UvErrno.enetunreach
  code Error.enfile = value UvErrno.enfile
  code Error.enobufs = value UvErrno.enobufs
  code Error.enodev = value UvErrno.enodev
  code Error.enoent = value UvErrno.enoent
  code Error.enomem = value UvErrno.enomem
  code Error.enonet = value UvErrno.enonet
  code Error.enoprotoopt = value UvErrno.enoprotoopt
  code Error.enospc = value UvErrno.enospc
  code Error.enosys = value UvErrno.enosys
  code Error.enotconn = value UvErrno.enotconn
  code Error.enotdir = value UvErrno.enotdir
  code Error.enotempty = value UvErrno.enotempty
  code Error.enotsock = value UvErrno.enotsock
  code Error.enotsup = value UvErrno.enotsup
  code Error.enotty = value UvErrno.enotty
  code Error.enxio = value UvErrno.enxio
  code Error.eof = value UvErrno.eof
  code Error.eperm = value UvErrno.eperm
  code Error.epipe = value UvErrno.epipe
  code Error.eproto = value UvErrno.eproto
  code Error.eprotonosupport = value UvErrno.eprotonosupport
  code Error.eprototype = value UvErrno.eprototype
  code Error.erange = value UvErrno.erange
  code Error.eremoteio = value UvErrno.eremoteio
  code Error.erofs = value UvErrno.erofs
  code Error.errno_max = value UvErrno.errno_max
  code Error.eshutdown = value UvErrno.eshutdown
  code Error.espipe = value UvErrno.espipe
  code Error.esrch = value UvErrno.esrch
  code Error.etimedout = value UvErrno.etimedout
  code Error.etxtbsy = value UvErrno.etxtbsy
  code Error.exdev = value UvErrno.exdev
  code Error.unknown = value UvErrno.unknown
