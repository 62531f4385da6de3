-- ===== src/ReqType.antt =====
-- src/requests/req_types.inc.rs: the types of requests
-- The constants of the C enumeration come from the bindings, so their numbers are a parameter.
pub mod RoundTrip
use libuv_rs.Common.{List, [], ◌∷◌, ◌++◌}
use libuv_rs.Common.Int.{ℤ}
use libuv_rs.Common.Table.{match_arms}

pub data ReqType : Type 0 where
  connect fs getaddrinfo getnameinfo random req shutdown udp_send work write unknown : ReqType

pub data UvReqType : Type 0 where
  connect fs getaddrinfo getnameinfo random req shutdown udp_send work write : UvReqType
  unknown_req : UvReqType

-- The arms of the match, in the order of the source.
unfoldable pub arms : List (UvReqType × ReqType)
arms =
    (UvReqType.connect, ReqType.connect)
    ∷ (UvReqType.fs, ReqType.fs)
    ∷ (UvReqType.getaddrinfo, ReqType.getaddrinfo)
    ∷ (UvReqType.getnameinfo, ReqType.getnameinfo)
    ∷ (UvReqType.random, ReqType.random)
    ∷ (UvReqType.req, ReqType.req)
    ∷ (UvReqType.shutdown, ReqType.shutdown)
    ∷ (UvReqType.udp_send, ReqType.udp_send)
    ∷ (UvReqType.work, ReqType.work)
    ∷ (UvReqType.write, ReqType.write)
    ∷ []

-- Every constant that the conversions name, with the value it stands for.
unfoldable pub constants : List (UvReqType × ReqType)
unfolding arms
constants = arms ++ (UvReqType.unknown_req, ReqType.unknown) ∷ []

module _ (value : UvReqType → ℤ) where
  unfoldable pub from_inner : ℤ → ReqType
  unfolding arms match_arms
  from_inner t = match_arms value arms ReqType.unknown t

  unfoldable pub into_inner : ReqType → ℤ
  into_inner ReqType.connect = value UvReqType.connect
  into_inner ReqType.fs = value UvReqType.fs
  into_inner ReqType.getaddrinfo = value UvReqType.getaddrinfo
  into_inner ReqType.getnameinfo = value UvReqType.getnameinfo
  into_inner ReqType.random = value UvReqType.random
  into_inner ReqType.req = value UvReqType.req
  into_inner ReqType.shutdown = value UvReqType.shutdown
  into_inner ReqType.udp_send = value UvReqType.udp_send
  into_inner ReqType.work = value UvReqType.work
  into_inner ReqType.write = value UvReqType.write
  into_inner _ = value UvReqType.unknown_req
