-- ===== src/Error/Places.antt =====
-- The constants of src/error.inc.rs: where each stands in the match, and the error it stands for.
use libuv_rs.Common.{ℕ, ◌≡◌, refl, some, get_elem?}
use libuv_rs.Error.{Error, UvErrno, constants}

-- The place of a constant among the arms.
abbrev pub place : UvErrno → ℕ
place UvErrno.e2big = 0
place UvErrno.eacces = 1
place UvErrno.eaddrinuse = 2
place UvErrno.eaddrnotavail = 3
place UvErrno.eafnosupport = 4
place UvErrno.eagain = 5
place UvErrno.eai_addrfamily = 6
place UvErrno.eai_again = 7
place UvErrno.eai_badflags = 8
place UvErrno.eai_badhints = 9
place UvErrno.eai_canceled = 10
place UvErrno.eai_fail = 11
place UvErrno.eai_family = 12
place UvErrno.eai_memory = 13
place UvErrno.eai_nodata = 14
place UvErrno.eai_noname = 15
place UvErrno.eai_overflow = 16
place UvErrno.eai_protocol = 17
place UvErrno.eai_service = 18
place UvErrno.eai_socktype = 19
place UvErrno.ealready = 20
place UvErrno.ebadf = 21
place UvErrno.ebusy = 22
place UvErrno.ecanceled = 23
place UvErrno.echarset = 24
place UvErrno.econnaborted = 25
place UvErrno.econnrefused = 26
place UvErrno.econnreset = 27
place UvErrno.edestaddrreq = 28
place UvErrno.eexist = 29
place UvErrno.efault = 30
place UvErrno.efbig = 31
place UvErrno.eftype = 32
place UvErrno.ehostdown = 33
place UvErrno.ehostunreach = 34
place UvErrno.eilseq = 35
place UvErrno.eintr = 36
place UvErrno.einval = 37
place UvErrno.eio = 38
place UvErrno.eisconn = 39
place UvErrno.eisdir = 40
place UvErrno.eloop = 41
place UvErrno.emfile = 42
place UvErrno.emlink = 43
place UvErrno.emsgsize = 44
place UvErrno.enametoolong = 45
place UvErrno.enetdown = 46
place UvErrno.enetunreach = 47
place UvErrno.enfile = 48
place UvErrno.enobufs = 49
place UvErrno.enodev = 50
place UvErrno.enoent = 51
place UvErrno.enomem = 52
place UvErrno.enonet = 53
place UvErrno.enoprotoopt = 54
place UvErrno.enospc = 55
place UvErrno.enosys = 56
place UvErrno.enotconn = 57
place UvErrno.enotdir = 58
place UvErrno.enotempty = 59
place UvErrno.enotsock = 60
place UvErrno.enotsup = 61
place UvErrno.enotty = 62
place UvErrno.enxio = 63
place UvErrno.eof = 64
place UvErrno.eperm = 65
place UvErrno.epipe = 66
place UvErrno.eproto = 67
place UvErrno.eprotonosupport = 68
place UvErrno.eprototype = 69
place UvErrno.erange = 70
place UvErrno.eremoteio = 71
place UvErrno.erofs = 72
place UvErrno.errno_max = 73
place UvErrno.eshutdown = 74
place UvErrno.espipe = 75
place UvErrno.esrch = 76
place UvErrno.etimedout = 77
place UvErrno.etxtbsy = 78
place UvErrno.exdev = 79
place UvErrno.unknown = 80

-- What a constant stands for.
abbrev pub meaning : UvErrno → Error
meaning UvErrno.e2big = Error.e2big
meaning UvErrno.eacces = Error.eacces
meaning UvErrno.eaddrinuse = Error.eaddrinuse
meaning UvErrno.eaddrnotavail = Error.eaddrnotavail
meaning UvErrno.eafnosupport = Error.eafnosupport
meaning UvErrno.eagain = Error.eagain
meaning UvErrno.eai_addrfamily = Error.eai_addrfamily
meaning UvErrno.eai_again = Error.eai_again
meaning UvErrno.eai_badflags = Error.eai_badflags
meaning UvErrno.eai_badhints = Error.eai_badhints
meaning UvErrno.eai_canceled = Error.eai_canceled
meaning UvErrno.eai_fail = Error.eai_fail
meaning UvErrno.eai_family = Error.eai_family
meaning UvErrno.eai_memory = Error.eai_memory
meaning UvErrno.eai_nodata = Error.eai_nodata
meaning UvErrno.eai_noname = Error.eai_noname
meaning UvErrno.eai_overflow = Error.eai_overflow
meaning UvErrno.eai_protocol = Error.eai_protocol
meaning UvErrno.eai_service = Error.eai_service
meaning UvErrno.eai_socktype = Error.eai_socktype
meaning UvErrno.ealready = Error.ealready
meaning UvErrno.ebadf = Error.ebadf
meaning UvErrno.ebusy = Error.ebusy
meaning UvErrno.ecanceled = Error.ecanceled
meaning UvErrno.echarset = Error.echarset
meaning UvErrno.econnaborted = Error.econnaborted
meaning UvErrno.econnrefused = Error.econnrefused
meaning UvErrno.econnreset = Error.econnreset
meaning UvErrno.edestaddrreq = Error.edestaddrreq
meaning UvErrno.eexist = Error.eexist
meaning UvErrno.efault = Error.efault
meaning UvErrno.efbig = Error.efbig
meaning UvErrno.eftype = Error.eftype
meaning UvErrno.ehostdown = Error.ehostdown
meaning UvErrno.ehostunreach = Error.ehostunreach
meaning UvErrno.eilseq = Error.eilseq
meaning UvErrno.eintr = Error.eintr
meaning UvErrno.einval = Error.einval
meaning UvErrno.eio = Error.eio
meaning UvErrno.eisconn = Error.eisconn
meaning UvErrno.eisdir = Error.eisdir
meaning UvErrno.eloop = Error.eloop
meaning UvErrno.emfile = Error.emfile
meaning UvErrno.emlink = Error.emlink
meaning UvErrno.emsgsize = Error.emsgsize
meaning UvErrno.enametoolong = Error.enametoolong
meaning UvErrno.enetdown = Error.enetdown
meaning UvErrno.enetunreach = Error.enetunreach
meaning UvErrno.enfile = Error.enfile
meaning UvErrno.enobufs = Error.enobufs
meaning UvErrno.enodev = Error.enodev
meaning UvErrno.enoent = Error.enoent
meaning UvErrno.enomem = Error.enomem
meaning UvErrno.enonet = Error.enonet
meaning UvErrno.enoprotoopt = Error.enoprotoopt
meaning UvErrno.enospc = Error.enospc
meaning UvErrno.enosys = Error.enosys
meaning UvErrno.enotconn = Error.enotconn
meaning UvErrno.enotdir = Error.enotdir
meaning UvErrno.enotempty = Error.enotempty
meaning UvErrno.enotsock = Error.enotsock
meaning UvErrno.enotsup = Error.enotsup
meaning UvErrno.enotty = Error.enotty
meaning UvErrno.enxio = Error.enxio
meaning UvErrno.eof = Error.eof
meaning UvErrno.eperm = Error.eperm
meaning UvErrno.epipe = Error.epipe
meaning UvErrno.eproto = Error.eproto
meaning UvErrno.eprotonosupport = Error.eprotonosupport
meaning UvErrno.eprototype = Error.eprototype
meaning UvErrno.erange = Error.erange
meaning UvErrno.eremoteio = Error.eremoteio
meaning UvErrno.erofs = Error.erofs
meaning UvErrno.errno_max = Error.errno_max
meaning UvErrno.eshutdown = Error.eshutdown
meaning UvErrno.espipe = Error.espipe
meaning UvErrno.esrch = Error.esrch
meaning UvErrno.etimedout = Error.etimedout
meaning UvErrno.etxtbsy = Error.etxtbsy
meaning UvErrno.exdev = Error.exdev
meaning UvErrno.unknown = Error.unknown

pub get_elem?-place : (c : UvErrno) → get_elem? constants (place c) ≡ some (c, meaning c)
unfolding constants
get_elem?-place UvErrno.e2big = refl
get_elem?-place _ = refl
