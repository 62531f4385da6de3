-- ===== src/Socket/Options/Laws.antt =====
-- src/handles/streams: the options of sockets against one description of all of them.
use libuv_rs.Common.{
  ℕ, ◌≡◌, refl, false, Bool, Option, none, some, List, [], ◌∷◌, inl, inr, Bool-cases, if◌then◌else◌,
  ◌||◌,
}
use libuv_rs.Common.Int.{is_neg}
use libuv_rs.Error.{from_inner as error_from_inner}
use libuv_rs.Memory.{Ptr}
use libuv_rs.Memory.Effect.{
  World, Run, Fault, fault, Eff, Env, Result, ok, err, done, fails, uv, nul_error, has_nul,
  c_string_new, and_then,
}
use libuv_rs.Socket.{SocketAddr, UvSocket, fill_sockaddr}
use libuv_rs.Socket.Laws.{filled, written, fill_sockaddr_lem}
use libuv_rs.Socket.Options.{
  SocketCall, UvSocketCalls, SocketOp, flag_of, socket_code, run_op, op_nodelay,
  op_simultaneous_accepts, op_multicast_loop, op_broadcast, op_keepalive, op_membership,
  op_source_membership, op_multicast_ttl, op_ttl, op_pipe_open, op_multicast_interface,
  op_pipe_bind, op_chmod, op_tcp_bind, op_udp_bind, op_udp_connect, uv_tcp_nodelay,
  uv_tcp_simultaneous_accepts, uv_tcp_keepalive, uv_tcp_bind, uv_udp_bind, uv_udp_connect,
  uv_udp_set_membership, uv_udp_set_source_membership, uv_udp_set_multicast_loop,
  uv_udp_set_broadcast, uv_udp_set_multicast_ttl, uv_udp_set_ttl, uv_udp_set_multicast_interface,
  uv_pipe_open, uv_pipe_bind, uv_pipe_chmod,
}

-- The texts that a call is given, and the address.
abbrev pub texts : SocketOp → List (List ℕ)
texts (op_membership m i k) = m ∷ i ∷ []
texts (op_source_membership m i s k) = m ∷ i ∷ s ∷ []
texts (op_multicast_interface i) = i ∷ []
texts (op_pipe_bind n) = n ∷ []
texts _ = []

abbrev pub any_nul : List (List ℕ) → Bool
any_nul [] = false
any_nul (t ∷ ts) = has_nul t || any_nul ts

-- The call of libuv that an operation comes to, with the structure of its address.
module _ (env : Env) (sockets : UvSocket) where
  abbrev with_sockaddr :
      (List ℕ → SocketCall) → Option (Result (List ℕ)) → Option (Result SocketCall)
  with_sockaddr f none = none
  with_sockaddr f (some (ok s)) = some (ok (f s))
  with_sockaddr f (some (err e)) = some (err e)

  abbrev pub call_of : SocketOp → Option (Result SocketCall)
  call_of (op_nodelay b) = some (ok (uv_tcp_nodelay (flag_of b)))
  call_of (op_simultaneous_accepts b) = some (ok (uv_tcp_simultaneous_accepts (flag_of b)))
  call_of (op_multicast_loop b) = some (ok (uv_udp_set_multicast_loop (flag_of b)))
  call_of (op_broadcast b) = some (ok (uv_udp_set_broadcast (flag_of b)))
  call_of (op_keepalive b d) = some (ok (uv_tcp_keepalive (flag_of b) d))
  call_of (op_membership m i k) = some (ok (uv_udp_set_membership m i k))
  call_of (op_source_membership m i s k) = some (ok (uv_udp_set_source_membership m i s k))
  call_of (op_multicast_ttl t) = some (ok (uv_udp_set_multicast_ttl t))
  call_of (op_ttl t) = some (ok (uv_udp_set_ttl t))
  call_of (op_pipe_open f) = some (ok (uv_pipe_open f))
  call_of (op_multicast_interface i) = some (ok (uv_udp_set_multicast_interface i))
  call_of (op_pipe_bind n) = some (ok (uv_pipe_bind n))
  call_of (op_chmod f) = some (ok (uv_pipe_chmod f))
  call_of (op_tcp_bind a f) =
      with_sockaddr (λ s. uv_tcp_bind s f) (filled env sockets sockets.size_of_sockaddr a)
  call_of (op_udp_bind a f) =
      with_sockaddr (λ s. uv_udp_bind s f) (filled env sockets sockets.size_of_sockaddr a)
  call_of (op_udp_connect (some a)) =
      with_sockaddr (λ s. uv_udp_connect (some s)) (filled env sockets sockets.size_of_sockaddr a)
  call_of (op_udp_connect none) = some (ok (uv_udp_connect none))

  module _ (libuv : UvSocketCalls) (handle : Ptr) (w : World) where
    abbrev coded : Option (Result SocketCall) → Run (Unit {0})
    coded (some (ok c)) =
        if is_neg (libuv.uv_socket w handle c)
        then fails (uv (error_from_inner env.errno (libuv.uv_socket w handle c))) w
        else done tt w
    coded (some (err e)) = fails e w
    coded none = fault Fault.out_of_bounds

    -- What all operations promise.
    abbrev pub op_spec : SocketOp → Run (Unit {0})
    op_spec op = if any_nul (texts op) then fails nul_error w else coded (call_of op)

    socket_code_lem : (c : SocketCall) → socket_code env libuv handle c w ≡ coded (some (ok c))
    unfolding socket_code
    socket_code_lem c = elim (Bool-cases (is_neg (libuv.uv_socket w handle c))) [
      | inl bad ↦ simp bad
      | inr good ↦ simp good
    ]

    filled_lem :
        (f : List ℕ → SocketCall) (a : SocketAddr)
        → and_then
            (fill_sockaddr env sockets sockets.size_of_sockaddr a w)
            (λ s. socket_code env libuv handle (f s))
          ≡ coded (with_sockaddr f (filled env sockets sockets.size_of_sockaddr a))
    filled_lem f a =
        rw (fill_sockaddr_lem env sockets sockets.size_of_sockaddr a w)
          (by_result (filled env sockets sockets.size_of_sockaddr a))
      where
        by_result :
            (r : Option (Result (List ℕ)))
            → and_then (written env sockets r w) (λ s. socket_code env libuv handle (f s))
              ≡ coded (with_sockaddr f r)
        by_result (some (ok s)) = socket_code_lem (f s)
        by_result (some (err e)) = refl
        by_result none = refl

    -- The last text of a call, and what happens then.
    text_lem :
        (t : List ℕ) (f : List ℕ → SocketCall)
        → and_then (c_string_new t w) (λ s. socket_code env libuv handle (f s))
          ≡ (if has_nul t || false then fails nul_error w else coded (some (ok (f t))))
    unfolding c_string_new
    text_lem t f = elim (Bool-cases (has_nul t)) [
      | inl nul ↦ rw nul refl
      | inr text ↦ rw text (socket_code_lem (f t))
    ]

    -- Every text in front of others.
    texts_lem :
        (t : List ℕ) (rest : Bool) (k : List ℕ → Eff (Unit {0})) (r : Run (Unit {0}))
        → k t w ≡ (if rest then fails nul_error w else r)
        → and_then (c_string_new t w) k ≡ (if has_nul t || rest then fails nul_error w else r)
    unfolding c_string_new
    texts_lem t rest k r e = elim (Bool-cases (has_nul t)) [
      | inl nul ↦ rw nul refl
      | inr text ↦ rw text e
    ]

    -- Sixteen operations that set options of sockets, bind them or connect them agree with one
    -- description: a text with an inner zero byte is refused first; then an address whose
    -- structure is larger than a sockaddr is written past the end of one, and one that libuv does
    -- not accept gives its error; and else one call of libuv with exactly those arguments decides
    -- between success and its error, with the state as it was.
    pub run_op_lem : (op : SocketOp) → run_op env libuv handle sockets op w ≡ op_spec op
    unfolding run_op
    run_op_lem (op_nodelay b) = socket_code_lem _
    run_op_lem (op_simultaneous_accepts b) = socket_code_lem _
    run_op_lem (op_multicast_loop b) = socket_code_lem _
    run_op_lem (op_broadcast b) = socket_code_lem _
    run_op_lem (op_keepalive b d) = socket_code_lem _
    run_op_lem (op_membership m i k) =
        texts_lem m _ _ _ (text_lem i (λ s. uv_udp_set_membership m s k))
    run_op_lem (op_source_membership m i s k) =
        texts_lem m _ _ _
          (texts_lem i _ _ _ (text_lem s (λ t. uv_udp_set_source_membership m i t k)))
    run_op_lem (op_multicast_ttl t) = socket_code_lem _
    run_op_lem (op_ttl t) = socket_code_lem _
    run_op_lem (op_pipe_open f) = socket_code_lem _
    run_op_lem (op_multicast_interface i) = text_lem i uv_udp_set_multicast_interface
    run_op_lem (op_pipe_bind n) = text_lem n uv_pipe_bind
    run_op_lem (op_chmod f) = socket_code_lem _
    run_op_lem (op_tcp_bind a f) = filled_lem (λ s. uv_tcp_bind s f) a
    run_op_lem (op_udp_bind a f) = filled_lem (λ s. uv_udp_bind s f) a
    run_op_lem (op_udp_connect (some a)) = filled_lem (λ s. uv_udp_connect (some s)) a
    run_op_lem (op_udp_connect none) = socket_code_lem _
