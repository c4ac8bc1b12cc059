-- ===== src/TcpTunnel/Refusals.antt =====
-- client/atrust/tcptunnel.go: a connect reply that refuses the connection.
use distrust_core.TcpTunnel.Handshake.{
  AuthResponse, HandshakeError, read_tcp_protocol_response, parse_tcp_tunnel_auth_response,
  read_socks5_connect_reply, status_error, read_connect_reply, unexpected_server_hello,
  unexpected_auth_response, expect, server_failure, connection_not_allowed, network_unreachable,
  host_unreachable, connection_refused, ttl_expired, command_not_supported, address_not_supported,
  connect_failed,
}
use distrust_core.TcpTunnel.Replies.{
  server_answers, read_full_append, connect_fields, protocol_response, tested, connect_reply,
}
use distrust_core.Base.{
  ℕ, zero, suc, ◌≡◌, refl, sym, ap, ◌∙◌, Bool, false, Option, some, [], ◌∷◌, ◌++◌, arith,
  Comparable_nat, Comparable_string, ==_self, length, pos, ok, err, ◌>>=◌, ◌>>◌, Bytes, join16,
  get16,
}

module _ (unmarshal : Bytes → Option AuthResponse) (handles : Bool) where
  expect_passes : (x y : ℕ) (e : HandshakeError) (s : Bytes) → expect x y e (x ∷ y ∷ s) ≡ ok s
  expect_passes x y e s =
      ap (λ call. call >>= λ r. tested x y e r.0 r.1)
        (read_full_append (x ∷ y ∷ []) s 2 (omega arith))
      ∙ ground (arith, ==_self x, ==_self y)

  protocol_response_passes :
      (hi lo : ℕ) (payload s : Bytes)
      → join16 hi lo ≡ length payload
      → read_tcp_protocol_response (hi ∷ lo ∷ (payload ++ s)) ≡ ok (payload, s)
  unfolding read_tcp_protocol_response get16
  protocol_response_passes hi lo payload s size =
      ap (λ call. call >>= λ r. protocol_response r.0 r.1)
        (read_full_append (hi ∷ lo ∷ []) (payload ++ s) 2 (omega arith))
      ∙ read_full_append payload s (join16 hi lo) (sym size)

  socks5_refused :
      (n flag kind : ℕ) (rest : Bytes)
      → read_socks5_connect_reply (5 ∷ suc n ∷ flag ∷ kind ∷ rest) ≡ ok (suc n, false, rest)
  unfolding read_socks5_connect_reply
  socks5_refused n flag kind rest =
      ap (λ call. call >>= λ r. connect_fields r.0 r.1)
        (read_full_append (5 ∷ suc n ∷ flag ∷ kind ∷ []) rest 4 (omega arith))
      ∙ ground arith

  auth_passes :
      (payload : Bytes)
      → unmarshal payload ≡ some (record { code = pos 0 })
      → parse_tcp_tunnel_auth_response unmarshal handles payload ≡ ok tt
  unfolding parse_tcp_tunnel_auth_response
  auth_passes payload accepted = rw (accepted, parse_tcp_tunnel_auth_response) refl

  connect_reply_refused :
      (n flag kind : ℕ) (rest : Bytes)
      → connect_reply unmarshal handles (5 ∷ suc n ∷ flag ∷ kind ∷ rest)
        ≡ err (status_error (suc n))
  connect_reply_refused n flag kind rest = rw (socks5_refused n flag kind rest) (ground arith)

  status_of : HandshakeError → ℕ
  status_of server_failure = 1
  status_of connection_not_allowed = 2
  status_of network_unreachable = 3
  status_of host_unreachable = 4
  status_of connection_refused = 5
  status_of ttl_expired = 6
  status_of command_not_supported = 7
  status_of address_not_supported = 8
  status_of (connect_failed n) = n
  status_of _ = 0

  status_of-status_error : (n : ℕ) → status_of (status_error n) ≡ n
  unfolding status_error status_of
  status_of-status_error zero = refl
  status_of-status_error (suc zero) = refl
  status_of-status_error (suc (suc zero)) = refl
  status_of-status_error (suc (suc (suc zero))) = refl
  status_of-status_error (suc (suc (suc (suc zero)))) = refl
  status_of-status_error (suc (suc (suc (suc (suc zero))))) = refl
  status_of-status_error (suc (suc (suc (suc (suc (suc zero)))))) = refl
  status_of-status_error (suc (suc (suc (suc (suc (suc (suc zero))))))) = refl
  status_of-status_error (suc (suc (suc (suc (suc (suc (suc (suc zero)))))))) = refl
  status_of-status_error (suc (suc (suc (suc (suc (suc (suc (suc (suc n))))))))) = refl

  -- A connect reply with a status other than 0, behind an accepted authentication, is reported as an
  -- error, whatever its other bytes; errors of different statuses differ.
  pub read_connect_reply-refused :
      (hi lo : ℕ) (payload : Bytes) (n flag kind : ℕ) (rest : Bytes)
      → join16 hi lo ≡ length payload
      → unmarshal payload ≡ some (record { code = pos 0 })
      → (read_connect_reply unmarshal handles (server_answers hi lo payload (suc n) flag kind rest)
          ≡ err (status_error (suc n)))
        × ((other : ℕ) → status_error other ≡ status_error (suc n) → other ≡ suc n)
  unfolding read_connect_reply server_answers
  read_connect_reply-refused hi lo payload n flag kind rest size accepted =
      let reply : Bytes = 0x05 ∷ suc n ∷ flag ∷ kind ∷ rest in
      let s2 : Bytes = hi ∷ lo ∷ (payload ++ reply) in
      let s1 : Bytes = 0x53 ∷ 0x00 ∷ s2 in
      (
        rw (expect_passes 0x05 0x81 unexpected_server_hello s1) (
            rw (expect_passes 0x53 0x00 unexpected_auth_response s2) (
              rw (protocol_response_passes hi lo payload reply size) (
                ap (λ call. call >> connect_reply unmarshal handles reply)
                  (auth_passes payload accepted)
                ∙ connect_reply_refused n flag kind rest))),
        λ other same.
            sym (status_of-status_error other) ∙ ap status_of same ∙ status_of-status_error (suc n),
      )
