-- ===== src/Zctcpip/Transport.antt =====
-- internal/zctcpip/tcp.go, udp.go and icmp.go: the headers above IPv4.
use Prim.Native.Nat.{bit_and, bit_or}
use distrust_core.Base.Partial.{◌>>=◌}
use distrust_core.NetIp.{NetIp}
use distrust_core.Zctcpip.Checksum.{checksum, sum}
use distrust_core.Zctcpip.Ipv4.{VerifyError, invalid_checksum}
use distrust_core.Base.{
  ℕ, suc, ◌+◌, ◌%◌, ◌^◌, Bool, true, false, ◌&&◌, Option, none, some, leb, nat_beq, if◌then◌else◌,
  Comparable_nat, Comparable_string, length, get_elem?, Outcome, ok, err, panic, Bytes, slice, put,
  put16, get16,
}

-- The flags that the connection tracker reads.
abbrev pub tcp_fin : ℕ
tcp_fin = 1

abbrev pub tcp_syn : ℕ
tcp_syn = 2

abbrev pub tcp_rst : ℕ
tcp_rst = 4

abbrev pub tcp_ack : ℕ
tcp_ack = 16

abbrev pub tcp_header_size : ℕ
tcp_header_size = 20

abbrev pub udp_header_size : ℕ
udp_header_size = 8

-- TCP and UDP packets begin with the two ports.
unfoldable pub source_port : Bytes → Option ℕ
source_port p = get16 p 0

unfoldable pub destination_port : Bytes → Option ℕ
destination_port p = get16 p 2

unfoldable pub set_source_port : Bytes → ℕ → Option Bytes
set_source_port p port = put16 p 0 port

unfoldable pub set_destination_port : Bytes → ℕ → Option Bytes
set_destination_port p port = put16 p 2 port

-- `uint16(p[13] | (p[12] & 0x1))`
unfoldable pub tcp_flags : Bytes → Option ℕ
tcp_flags p = do low ← get_elem? p 13; offset ← get_elem? p 12; some (bit_or low (bit_and offset 1))

unfoldable pub tcp_checksum : Bytes → Option ℕ
tcp_checksum p = get16 p 16

unfoldable pub set_checksum_at : ℕ → Bytes → ℕ × ℕ → Option Bytes
set_checksum_at i p (hi, lo) = do q ← put p i hi; put q (suc i) lo

unfoldable pub tcp_reset_checksum : Bytes → ℕ → Option Bytes
unfolding set_checksum_at
tcp_reset_checksum p psum = do
  zeroed ← set_checksum_at 16 p (0, 0)
  set_checksum_at 16 zeroed (checksum psum zeroed)

unfoldable pub tcp_valid : Bytes → Bool
tcp_valid p = leb tcp_header_size (length p)

abbrev tcp_answer : ℕ × ℕ → ℕ × ℕ → Outcome VerifyError (Unit {0})
tcp_answer (a, b) (c, d) = if nat_beq a c && nat_beq b d then ok tt else err invalid_checksum

-- The checksum's bytes, and the packet with zeros in their place.
unfoldable pub tcp_verify_reads : Bytes → Option (ℕ × ℕ × Bytes)
unfolding set_checksum_at
tcp_verify_reads p = do
  hi ← get_elem? p 16
  lo ← get_elem? p 17
  zeroed ← set_checksum_at 16 p (0, 0)
  some (hi, lo, zeroed)

-- `TCPPacket.Verify`; it restores the checksum before it returns. 6 is the protocol's number.
unfoldable pub tcp_verify : Bytes → NetIp → NetIp → Outcome VerifyError (Unit {0})
unfolding tcp_verify_reads
tcp_verify p source target = elim (tcp_verify_reads p) [
  | none ↦ panic
  | some (hi, lo, zeroed) ↦
      tcp_answer (checksum ((sum source + sum target + 6 + length p) % 2 ^ 32) zeroed) (hi, lo)
]

unfoldable pub udp_length : Bytes → Option ℕ
udp_length p = get16 p 4

unfoldable pub udp_set_length : Bytes → ℕ → Option Bytes
udp_set_length p length = put16 p 4 length

unfoldable pub udp_payload : Bytes → Option Bytes
unfolding udp_length
udp_payload p = do size ← udp_length p; slice p udp_header_size size

unfoldable pub udp_reset_checksum : Bytes → ℕ → Option Bytes
unfolding set_checksum_at
udp_reset_checksum p psum = do
  zeroed ← set_checksum_at 6 p (0, 0)
  set_checksum_at 6 zeroed (checksum psum zeroed)

-- The length is compared as a uint16, and only on a packet that has a header.
unfoldable pub udp_valid : Bytes → Bool
unfolding udp_length
udp_valid p = elim (leb udp_header_size (length p)) [
  | false ↦ false
  | true ↦ elim (udp_length p) [ none ↦ false | some size ↦ leb size (length p % 65536) ]
]

unfoldable pub icmp_reset_checksum : Bytes → Option Bytes
unfolding set_checksum_at
icmp_reset_checksum p = do
  zeroed ← set_checksum_at 2 p (0, 0)
  set_checksum_at 2 zeroed (checksum 0 zeroed)
