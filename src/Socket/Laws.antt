-- ===== src/Socket/Laws.antt =====
-- src/handles/streams/tcp.rs, pipe.rs and udp.rs: how connecting and sending end.
use libuv_rs.Common.{
  ℕ, ◌≡◌, ◌≢◌, refl, inl, inr, Option, none, some, List, ◌∷◌, if◌then◌else◌, Bool-cases, length,
  ltb,
}
use libuv_rs.Common.Int.{ℤ, is_neg}
use libuv_rs.Error.{from_inner as error_from_inner}
use libuv_rs.Memory.{
  Ptr, null, uv_connect_t, connect_data, uv_udp_send_t, Callback, CCallback, UvBuf,
}
use libuv_rs.Memory.Effect.{
  Eff, Fault, crash, and_then, pure, c_string_new, owe, Env, IsAllocator, World, Failure, Result,
  ok, err, done, fails, uv, nul_error, uvret, has_nul, give_back,
}
use libuv_rs.Memory.Laws.{owe-neg, owe-pos}
use libuv_rs.Req.Owned.{new_ptr, new_heap, new_request-Owned, erase-new_heap}
use libuv_rs.Req.Connect.Laws.{new-done, destroy-Owned}
use libuv_rs.Req.UdpSend.Laws.{request, made, p, new-made, destroy-made}
use libuv_rs.Socket.{
  SocketAddr, v4, v6, UvSocket, fill_sockaddr, fill_optional, connect, pipe_connect, send,
}

module _ (env : Env) (libuv : UvSocket) where
  abbrev pub of_code : ℤ × List ℕ → Result (List ℕ)
  of_code r = if is_neg r.0 then err (uv (error_from_inner env.errno r.0)) else ok r.1

  -- The structure for an address, or why there is none; nothing if it is written past the end of
  -- the room.
  abbrev pub filled : (room : ℕ) → SocketAddr → Option (Result (List ℕ))
  filled room (v4 ip port) =
      if has_nul ip
      then some (err nul_error)
      else if ltb room libuv.size_of_sockaddr_in
      then none
      else some (of_code (libuv.uv_ip4_addr ip port))
  filled room (v6 ip port flowinfo scope_id) =
      if has_nul ip
      then some (err nul_error)
      else if ltb room libuv.size_of_sockaddr_in6
      then none
      else some (of_code (libuv.uv_ip6_addr ip port))

  abbrev pub written : {A : Type 0} → Option (Result A) → Eff A
  written none = crash Fault.out_of_bounds
  written (some r) = give_back r

  coded_lem :
      (r : ℤ × List ℕ) (w : World)
      → and_then (uvret env r.0 w) (λ _. pure r.1) ≡ give_back (of_code r) w
  unfolding uvret
  coded_lem r w = elim (Bool-cases (is_neg r.0)) [ inl bad ↦ simp bad | inr good ↦ simp good ]

  pub fill_sockaddr_lem :
      (room : ℕ) (addr : SocketAddr) (w : World)
      → fill_sockaddr env libuv room addr w ≡ written (filled room addr) w
  unfolding fill_sockaddr
  fill_sockaddr_lem room (v4 ip port) w = elim (Bool-cases (has_nul ip)) [
    | inl nul ↦ simp nul
    | inr text ↦ elim (Bool-cases (ltb room libuv.size_of_sockaddr_in)) [
      | inl over ↦ simp (text, over)
      | inr fits ↦ rw (text, fits) (coded_lem (libuv.uv_ip4_addr ip port) w)
    ]
  ]
  fill_sockaddr_lem room (v6 ip port flowinfo scope_id) w = elim (Bool-cases (has_nul ip)) [
    | inl nul ↦ simp nul
    | inr text ↦ elim (Bool-cases (ltb room libuv.size_of_sockaddr_in6)) [
      | inl over ↦ simp (text, over)
      | inr fits ↦ rw (text, fits) (coded_lem (libuv.uv_ip6_addr ip port) w)
    ]
  ]

module _ (env : Env) (law : IsAllocator env) (libuv : UvSocket) (handle : Ptr) (f : Callback)
    (w : World) (got : env.alloc w.heap uv_connect_t ≢ null) where
  -- The state with the new request, not handed to libuv.
  abbrev pub orphaned : World
  orphaned = record w { heap = new_heap env uv_connect_t w (connect_data f) env.garbage }

  -- A TCP connection that gets its memory, to an address that cannot be filled in, gives that
  -- error and leaves its request in memory, with nobody to free it.
  pub connect-unfilled :
      (addr : SocketAddr) (e : Failure)
      → filled env libuv libuv.size_of_sockaddr addr ≡ some (err e)
      → connect env libuv handle addr f w ≡ fails e orphaned
  unfolding connect
  connect-unfilled addr e bad =
      simp (new-done env f w law got, fill_sockaddr_lem env libuv libuv.size_of_sockaddr addr, bad)

  -- A TCP connection that gets its memory, to an address that can be filled in, gives the error of
  -- libuv with the state as it was, or a new request that is owed a callback.
  pub connect-filled :
      (addr : SocketAddr) (s : List ℕ)
      → filled env libuv libuv.size_of_sockaddr addr ≡ some (ok s)
      → connect env libuv handle addr f w ≡ (
          if is_neg (libuv.uv_tcp_connect handle s)
          then fails (uv (error_from_inner env.errno (libuv.uv_tcp_connect handle s))) w
          else done (new_ptr env uv_connect_t w) (record orphaned {
            pending = (new_ptr env uv_connect_t w, CCallback.uv_connect_cb) ∷ w.pending;
          }))
  unfolding connect uvret
  connect-filled addr s e = elim (Bool-cases (is_neg (libuv.uv_tcp_connect handle s))) [
    | inl bad ↦ simp (
      new-done env f w law got,
      fill_sockaddr_lem env libuv libuv.size_of_sockaddr addr,
      e,
      owe-neg _ _ _ _ bad,
      bad,
      destroy-Owned _ (new_request-Owned env law uv_connect_t (connect_data f) w got env.garbage),
      erase-new_heap,
    )
    | inr good ↦ simp (
      new-done env f w law got,
      fill_sockaddr_lem env libuv libuv.size_of_sockaddr addr,
      e,
      owe-pos _ _ _ _ good,
      good,
    )
  ]

  -- A pipe connection that gets its memory is owed a callback, except that a name with an inner
  -- zero byte is an error that leaves the request in memory, with nobody to free it.
  pub pipe_connect_lem :
      (name : List ℕ)
      → pipe_connect env libuv handle name f w ≡ (
          if has_nul name
          then fails nul_error orphaned
          else done (new_ptr env uv_connect_t w) (record orphaned {
            pending = (new_ptr env uv_connect_t w, CCallback.uv_connect_cb) ∷ w.pending;
          }))
  unfolding pipe_connect c_string_new owe
  pipe_connect_lem name = elim (Bool-cases (has_nul name)) [
    | inl nul ↦ simp (new-done env f w law got, nul)
    | inr text ↦ simp (new-done env f w law got, text)
  ]

module _ (env : Env) (libuv : UvSocket) where
  abbrev pub map_some : Option (Result (List ℕ)) → Option (Result (Option (List ℕ)))
  map_some none = none
  map_some (some (ok s)) = some (ok (some s))
  map_some (some (err e)) = some (err e)

  abbrev pub filled_optional : Option SocketAddr → Option (Result (Option (List ℕ)))
  filled_optional none = some (ok none)
  filled_optional (some addr) = map_some (filled env libuv libuv.size_of_sockaddr addr)

  written-map_some :
      (r : Option (Result (List ℕ))) (w : World)
      → and_then (written env libuv r w) (λ s. pure (some s)) ≡ written env libuv (map_some r) w
  written-map_some none w = refl
  written-map_some (some (ok s)) w = refl
  written-map_some (some (err e)) w = refl

  fill_optional_lem :
      (addr : Option SocketAddr) (w : World)
      → fill_optional env libuv addr w ≡ written env libuv (filled_optional addr) w
  unfolding fill_optional
  fill_optional_lem none w = refl
  fill_optional_lem (some addr) w =
      rw (fill_sockaddr_lem env libuv libuv.size_of_sockaddr addr w)
        (written-map_some (filled env libuv libuv.size_of_sockaddr addr) w)

module _ (env : Env) (law : IsAllocator env) (libuv : UvSocket) (handle : Ptr) (bufs : List UvBuf)
    (f : Callback) (w : World) (got : env.alloc w.heap uv_udp_send_t ≢ null) where
  -- A UDP send that gets its memory, to an address that cannot be filled in, gives that error and
  -- leaves its request, its data and its array of buffers in memory.
  pub send-unfilled :
      (addr : Option SocketAddr) (e : Failure)
      → filled_optional env libuv addr ≡ some (err e)
      → send env libuv handle addr bufs f w ≡ fails e (made env bufs f w)
  unfolding send
  send-unfilled addr e bad =
      simp (new-made env law bufs f w got, fill_optional_lem env libuv addr, bad)

  abbrev pub send_code : Option (List ℕ) → ℤ
  send_code s = libuv.uv_udp_send handle (request env bufs f w).bufs_ptr (length bufs) s

  -- A UDP send that gets its memory, to no address or to one that can be filled in, gives the
  -- error of libuv with the state as it was, or a request that owns its data and its array of
  -- buffers, owed a callback.
  pub send-filled :
      (addr : Option SocketAddr) (s : Option (List ℕ))
      → filled_optional env libuv addr ≡ some (ok s)
      → send env libuv handle addr bufs f w ≡ (
          if is_neg (send_code s)
          then fails (uv (error_from_inner env.errno (send_code s))) w
          else done (request env bufs f w) (record (made env bufs f w) {
            pending = (p env bufs f w, CCallback.uv_udp_send_cb) ∷ w.pending;
          }))
  unfolding send uvret
  send-filled addr s e = elim (Bool-cases (is_neg (send_code s))) [
    | inl bad ↦ simp (
      new-made env law bufs f w got,
      fill_optional_lem env libuv addr,
      e,
      owe-neg _ _ _ _ bad,
      bad,
      destroy-made env law bufs f w got,
    )
    | inr good ↦ simp (
      new-made env law bufs f w got,
      fill_optional_lem env libuv addr,
      e,
      owe-pos _ _ _ _ good,
      good,
    )
  ]
