-- ===== src/ReqType/RoundTrip.antt =====
-- The conversions of src/requests/req_types.inc.rs undo one another.
use libuv_rs.Common.{ℕ, ◌≡◌, refl, ◌∙◌, true, some, get_elem?}
use libuv_rs.Common.Int.{ℤ}
use libuv_rs.Common.Table.{match_arms, is_distinct, match_arms-append, match_arms-get_elem?}
use libuv_rs.ReqType.{ReqType, UvReqType, arms, constants, from_inner, into_inner}

-- The place of a constant among the arms.
abbrev pub place : UvReqType → ℕ
place UvReqType.connect = 0
place UvReqType.fs = 1
place UvReqType.getaddrinfo = 2
place UvReqType.getnameinfo = 3
place UvReqType.random = 4
place UvReqType.req = 5
place UvReqType.shutdown = 6
place UvReqType.udp_send = 7
place UvReqType.work = 8
place UvReqType.write = 9
place UvReqType.unknown_req = 10

-- What a constant stands for.
abbrev pub meaning : UvReqType → ReqType
meaning UvReqType.connect = ReqType.connect
meaning UvReqType.fs = ReqType.fs
meaning UvReqType.getaddrinfo = ReqType.getaddrinfo
meaning UvReqType.getnameinfo = ReqType.getnameinfo
meaning UvReqType.random = ReqType.random
meaning UvReqType.req = ReqType.req
meaning UvReqType.shutdown = ReqType.shutdown
meaning UvReqType.udp_send = ReqType.udp_send
meaning UvReqType.work = ReqType.work
meaning UvReqType.write = ReqType.write
meaning UvReqType.unknown_req = ReqType.unknown

get_elem?-place : (c : UvReqType) → get_elem? constants (place c) ≡ some (c, meaning c)
unfolding constants
get_elem?-place UvReqType.connect = refl
get_elem?-place _ = refl

module _ (value : UvReqType → ℤ) (distinct : is_distinct value constants ≡ true) where
  -- The default arm gives the same as one more arm.
  from_inner-constants : (t : ℤ) → from_inner value t ≡ match_arms value constants ReqType.unknown t
  unfolding from_inner constants
  from_inner-constants t = match_arms-append value arms ReqType.unknown t UvReqType.unknown_req

  pub from_inner-value : (c : UvReqType) → from_inner value (value c) ≡ meaning c
  from_inner-value c =
      from_inner-constants (value c)
      ∙ match_arms-get_elem? value constants (place c) ReqType.unknown {k = c} distinct
          (get_elem?-place c)

  -- With distinct constants, every request type survives the conversion to its libuv number and
  -- back.
  pub from_inner-into_inner_req : (e : ReqType) → from_inner value (into_inner value e) ≡ e
  unfolding into_inner
  from_inner-into_inner_req ReqType.connect = from_inner-value UvReqType.connect
  from_inner-into_inner_req ReqType.fs = from_inner-value UvReqType.fs
  from_inner-into_inner_req ReqType.getaddrinfo = from_inner-value UvReqType.getaddrinfo
  from_inner-into_inner_req ReqType.getnameinfo = from_inner-value UvReqType.getnameinfo
  from_inner-into_inner_req ReqType.random = from_inner-value UvReqType.random
  from_inner-into_inner_req ReqType.req = from_inner-value UvReqType.req
  from_inner-into_inner_req ReqType.shutdown = from_inner-value UvReqType.shutdown
  from_inner-into_inner_req ReqType.udp_send = from_inner-value UvReqType.udp_send
  from_inner-into_inner_req ReqType.work = from_inner-value UvReqType.work
  from_inner-into_inner_req ReqType.write = from_inner-value UvReqType.write
  from_inner-into_inner_req ReqType.unknown = from_inner-value UvReqType.unknown_req

  -- Each constant is the code of what it is read as.
  pub into_inner-from_inner_req :
      (c : UvReqType) → into_inner value (from_inner value (value c)) ≡ value c
  unfolding into_inner
  into_inner-from_inner_req UvReqType.connect = rw (from_inner-value UvReqType.connect)
  into_inner-from_inner_req UvReqType.fs = rw (from_inner-value UvReqType.fs)
  into_inner-from_inner_req UvReqType.getaddrinfo = rw (from_inner-value UvReqType.getaddrinfo)
  into_inner-from_inner_req UvReqType.getnameinfo = rw (from_inner-value UvReqType.getnameinfo)
  into_inner-from_inner_req UvReqType.random = rw (from_inner-value UvReqType.random)
  into_inner-from_inner_req UvReqType.req = rw (from_inner-value UvReqType.req)
  into_inner-from_inner_req UvReqType.shutdown = rw (from_inner-value UvReqType.shutdown)
  into_inner-from_inner_req UvReqType.udp_send = rw (from_inner-value UvReqType.udp_send)
  into_inner-from_inner_req UvReqType.work = rw (from_inner-value UvReqType.work)
  into_inner-from_inner_req UvReqType.write = rw (from_inner-value UvReqType.write)
  into_inner-from_inner_req UvReqType.unknown_req = rw (from_inner-value UvReqType.unknown_req)
