-- ===== src/Tunnel/Vip.antt =====
-- client/atrust: the server's answers when a tunnel is opened, and the virtual IP in them.
-- l3tunnelconn.go (authTunnel after its request, parseInitialVIPHeader, parseVirtualIPData) and
-- ip.go (readIPTunnelResponses). The JSON of the authentication answer is not modelled: its check is
-- a parameter that accepts or refuses the payload. A reader is the bytes that it still holds.
use distrust_core.NetIp.{NetIp, ipv4}
use distrust_core.Base.{
  ℕ, ◌≡◌, ◌∙◌, Bool, true, ◌&&◌, ◌||◌, List, [], ◌∷◌, ◌++◌, arith, leb, nat_beq, if◌then◌else◌,
  Comparable_nat, Comparable_string, length, get_elem?, take, drop, length-take, Outcome, ok, err,
  ◌>>=◌, ◌>>◌, guard, or_panic, >>=-implies, guard-eq-ok, Bytes, get16,
}

pub data VipError : Type 0 where
  unexpected_eof unexpected_method unexpected_version auth_status auth_refused : VipError
  vip_header_length vip_version vip_status vip_address_type not_ipv4 : VipError

-- `io.ReadFull`
unfoldable pub read_full : ℕ → Bytes → Outcome VipError (Bytes × Bytes)
read_full n stream =
    if leb n (length stream) then ok (take n stream, drop n stream) else err unexpected_eof

abbrev byte_at : Bytes → ℕ → Outcome VipError ℕ
byte_at p i = or_panic (get_elem? p i)

abbrev data_length : ℕ → Outcome VipError ℕ
data_length kind =
    if nat_beq kind 1
    then ok 6
    else (if nat_beq kind 4
        then ok 18
        else (if nat_beq kind 5 then ok 22 else err vip_address_type))

unfoldable pub parse_initial_vip_header : Bytes → Outcome VipError ℕ
parse_initial_vip_header header = do
  guard (nat_beq (length header) 4) vip_header_length
  version ← byte_at header 0
  guard (nat_beq version 5) vip_version
  status ← byte_at header 1
  guard (nat_beq status 0) vip_status
  kind ← byte_at header 3
  data_length kind

abbrev ipv4_head : Bytes → List NetIp
ipv4_head (a ∷ b ∷ c ∷ d ∷ _) = ipv4 a b c d ∷ []
ipv4_head _ = []

unfoldable pub parse_virtual_ip_data : Bytes → List NetIp
parse_virtual_ip_data bytes =
    if nat_beq (length bytes) 6
    then ipv4_head bytes
    else (if nat_beq (length bytes) 18
        then take 16 bytes ∷ []
        else (if nat_beq (length bytes) 22
            then ipv4_head bytes ++ take 16 (drop 4 bytes) ∷ []
            else []))

-- The method, then the header of the authentication answer: its status and its payload's length.
unfoldable pub read_auth_header : Bytes → Outcome VipError (ℕ × ℕ × Bytes)
read_auth_header stream = do
  (method, s1) ← read_full 2 stream
  m0 ← byte_at method 0
  m1 ← byte_at method 1
  guard (nat_beq m0 0x05 && nat_beq m1 0xd0) unexpected_method
  (header, s2) ← read_full 4 s1
  version ← byte_at header 0
  guard (nat_beq version 0x53) unexpected_version
  status ← byte_at header 1
  size ← or_panic (get16 header 2)
  ok (status, size, s2)

abbrev ipv4_answer : Bytes → Bytes → Outcome VipError (NetIp × Bytes)
ipv4_answer vip_data rest = do
  a ← byte_at vip_data 0
  b ← byte_at vip_data 1
  c ← byte_at vip_data 2
  d ← byte_at vip_data 3
  ok (ipv4 a b c d, rest)

module _ (accepts_auth : Bytes → Bool) where
  -- `readIPTunnelResponses`, with the bytes that are left
  unfoldable pub read_ip_tunnel_responses : Bytes → Outcome VipError (NetIp × Bytes)
  read_ip_tunnel_responses stream = do
    (status, size, s2) ← read_auth_header stream
    (payload, s3) ← read_full size s2
    guard (nat_beq status 0) auth_status
    guard (accepts_auth payload) auth_refused
    (vip_header, s4) ← read_full 4 s3
    vip_length ← parse_initial_vip_header vip_header
    guard (nat_beq vip_length 6) not_ipv4
    (vip_data, s5) ← read_full vip_length s4
    ipv4_answer vip_data s5

  -- `authTunnel` after its request: the addresses that it reports. An empty payload is not checked,
  -- and the payload is checked before the status.
  unfoldable pub auth_tunnel : Bytes → Outcome VipError (List NetIp × Bytes)
  auth_tunnel stream = do
    (status, size, s2) ← read_auth_header stream
    (payload, s3) ← read_full size s2
    guard (nat_beq size 0 || accepts_auth payload) auth_refused
    guard (nat_beq status 0) auth_status
    (vip_header, s4) ← read_full 4 s3
    vip_length ← parse_initial_vip_header vip_header
    (vip_data, s5) ← read_full vip_length s4
    ok (parse_virtual_ip_data vip_data, s5)

-- Six bytes of data give one IPv4 address, read the same way by both functions.
ipv4_answer-parse :
    (v s rest : Bytes) (ip : NetIp)
    → length v ≡ 6
    → ipv4_answer v s ≡ ok (ip, rest)
    → ◌≡◌ {A = Outcome VipError (List NetIp × Bytes)}
        (ok (parse_virtual_ip_data v, s))
        (ok (ip ∷ [], rest))
unfolding parse_virtual_ip_data
ipv4_answer-parse [] s rest ip len h = absurd (omega arith)
ipv4_answer-parse (w ∷ []) s rest ip len h = absurd (omega arith)
ipv4_answer-parse (w ∷ x ∷ []) s rest ip len h = absurd (omega arith)
ipv4_answer-parse (w ∷ x ∷ y ∷ []) s rest ip len h = absurd (omega arith)
ipv4_answer-parse (w ∷ x ∷ y ∷ z ∷ v) s rest ip len h = ground arith

length-read_full : (n : ℕ) (s : Bytes) (r : Bytes × Bytes) → read_full n s ≡ ok r → length r.0 ≡ n
unfolding read_full
length-read_full n s (v, rest) e = ground (arith, length-take n s)

module _ (accepts_auth : Bytes → Bool) where
  -- Where the reader of the IP request accepts the server's answers, the tunnel accepts them too,
  -- reports the same address and no other, and leaves the same bytes unread.
  pub read_ip_tunnel_responses-auth_tunnel :
      (stream rest : Bytes) (ip : NetIp)
      → read_ip_tunnel_responses accepts_auth stream ≡ ok (ip, rest)
      → auth_tunnel accepts_auth stream ≡ ok (ip ∷ [], rest)
  unfolding read_ip_tunnel_responses auth_tunnel
  read_ip_tunnel_responses-auth_tunnel stream rest ip =
      >>=-implies (read_auth_header stream) _ _ λ (status, size, s2) e1.
        >>=-implies (read_full size s2) _ _ λ (payload, s3) e2 h2.
          let (status_ok, h3) = guard-eq-ok (nat_beq status 0) auth_status _ _ h2 in
          let (accepted, h4) = guard-eq-ok (accepts_auth payload) auth_refused _ _ h3 in
          let checked : (nat_beq size 0 || accepts_auth payload) ≡ true = ground arith in
          rw checked (
            rw status_ok (
              >>=-implies (read_full 4 s3) _ _
                (λ (vip_header, s4) e4.
                  >>=-implies (parse_initial_vip_header vip_header) _ _ λ n e5 h5.
                    let (six, h6) = guard-eq-ok (nat_beq n 6) not_ipv4 _ _ h5 in
                    >>=-implies (read_full n s4) _ _
                      (λ r e6.
                        ipv4_answer-parse r.0 r.1 rest ip
                          (length-read_full n s4 r e6 ∙ ground arith))
                      h6)
                h4))
