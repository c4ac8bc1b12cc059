-- ===== src/Zctcpip/Ipv4.antt =====
-- internal/zctcpip/ip.go: the accessors of IPv4Packet.
use Prim.Native.Nat.{bit_or}
use distrust_core.Base.Partial.{◌>>=◌}
use distrust_core.NetIp.{NetIp, ipv4, to4}
use distrust_core.Zctcpip.Checksum.{checksum, sum}
use distrust_core.Base.{
  ℕ, ◌+◌, ◌-◌, ◌*◌, ◌/◌, ◌%◌, ◌^◌, Bool, true, false, not, ◌&&◌, ◌||◌, Option, none, some, ltb, leb,
  nat_beq, if◌then◌else◌, Comparable_nat, Comparable_string, length, get_elem?, Outcome, ok, err,
  panic, Bytes, join16, slice, put, put16, copy_at, get16,
}

abbrev pub protocol_icmp : ℕ
protocol_icmp = 1

abbrev pub protocol_tcp : ℕ
protocol_tcp = 6

abbrev pub protocol_udp : ℕ
protocol_udp = 17

abbrev pub ipv4_header_size : ℕ
ipv4_header_size = 20

unfoldable pub total_len : Bytes → Option ℕ
total_len p = get16 p 2

-- `uint16(p[0]&0xf) * 4`
unfoldable pub header_len : Bytes → Option ℕ
header_len p = do b ← get_elem? p 0; some (b % 16 * 4)

unfoldable pub set_total_length : Bytes → ℕ → Option Bytes
set_total_length p length = put16 p 2 length

unfoldable pub set_header_len : Bytes → ℕ → Option Bytes
set_header_len p length = do b ← get_elem? p 0; put p 0 (bit_or (b / 16 * 16) (length / 4 % 256))

-- `uint16` subtraction
unfoldable pub data_len : Bytes → Option ℕ
unfolding total_len header_len
data_len p = do total ← total_len p; header ← header_len p; some ((total + 65536 - header) % 65536)

unfoldable pub payload : Bytes → Option Bytes
payload p = do header ← header_len p; total ← total_len p; slice p header total

unfoldable pub protocol : Bytes → Option ℕ
protocol p = get_elem? p 9

unfoldable pub set_protocol : Bytes → ℕ → Option Bytes
set_protocol p protocol = put p 9 protocol

unfoldable pub flags : Bytes → Option ℕ
flags p = do b ← get_elem? p 6; some (b / 32)

-- The cleared low bits and the shifted flags do not overlap.
unfoldable pub set_flags : Bytes → ℕ → Option Bytes
set_flags p flags = do b ← get_elem? p 6; put p 6 (b % 32 + flags * 32 % 256)

-- The mask is 0x7, and the result is a uint16.
unfoldable pub fragment_offset : Bytes → Option ℕ
fragment_offset p = do hi ← get_elem? p 6; lo ← get_elem? p 7; some (join16 (hi % 8) lo * 8 % 65536)

unfoldable pub set_fragment_offset : Bytes → ℕ → Option Bytes
unfolding flags set_flags
set_fragment_offset p offset = do
  saved ← flags p
  q ← put16 p 6 (offset / 8 % 65536)
  set_flags q saved

-- `net.IPv4` of four bytes from `i` on
abbrev address_at : Bytes → ℕ → Option NetIp
address_at p i = do
  a ← get_elem? p i
  b ← get_elem? p (i + 1)
  c ← get_elem? p (i + 2)
  d ← get_elem? p (i + 3)
  some (ipv4 a b c d)

unfoldable pub source_ip : Bytes → Option NetIp
source_ip p = address_at p 12

unfoldable pub destination_ip : Bytes → Option NetIp
destination_ip p = address_at p 16

-- An address that is not IPv4 is ignored.
abbrev set_address : Bytes → ℕ → Option Bytes → Option Bytes
set_address p i none = some p
set_address p i (some new_ip) = copy_at p i new_ip

unfoldable pub set_source_ip : Bytes → NetIp → Option Bytes
set_source_ip p ip = set_address p 12 (to4 ip)

unfoldable pub set_destination_ip : Bytes → NetIp → Option Bytes
set_destination_ip p ip = set_address p 16 (to4 ip)

unfoldable pub time_to_live : Bytes → Option ℕ
time_to_live p = get_elem? p 8

-- `uint8` subtraction
unfoldable pub dec_time_to_live : Bytes → Option Bytes
dec_time_to_live p = do ttl ← get_elem? p 8; put p 8 ((ttl + 255) % 256)

unfoldable pub set_checksum : Bytes → ℕ × ℕ → Option Bytes
set_checksum p (hi, lo) = do q ← put p 10 hi; put q 11 lo

unfoldable pub reset_checksum : Bytes → Option Bytes
unfolding header_len
reset_checksum p = do
  zeroed ← set_checksum p (0, 0)
  header ← header_len zeroed
  covered ← slice zeroed 0 header
  set_checksum zeroed (checksum 0 covered)

unfoldable pub pseudo_sum : Bytes → Option ℕ
unfolding protocol data_len
pseudo_sum p = do
  addresses ← slice p 12 20
  proto ← protocol p
  size ← data_len p
  some ((sum addresses + proto + size) % 2 ^ 32)

-- `Valid`: the length is compared as a uint16. On a shorter packet the reads are not made.
unfoldable pub valid : Bytes → Bool
valid p = elim (leb ipv4_header_size (length p)) [
  | false ↦ false
  | true ↦ elim (total_len p) [
    | none ↦ false
    | some total ↦ elim (header_len p) [
      | none ↦ false
      | some header ↦ leb header total && leb total (length p % 65536)
    ]
  ]
]

pub data VerifyError : Type 0 where
  invalid_length invalid_ip_version invalid_checksum : VerifyError

abbrev check_answer : ℕ × ℕ → ℕ × ℕ → Outcome VerifyError (Unit {0})
check_answer (a, b) (c, d) = if nat_beq a c && nat_beq b d then ok tt else err invalid_checksum

-- The tests of `Verify` on the fields that it has read; the checksum's bytes count as zero.
abbrev verify_fields : Bytes → ℕ → ℕ → ℕ × ℕ → Outcome VerifyError (Unit {0})
verify_fields p first packet_length found =
    if not (nat_beq (first / 16) 4)
    then err invalid_ip_version
    else (if ltb (length p % 65536) packet_length || ltb packet_length (first % 16 * 4)
        then err invalid_length
        else elim (do zeroed ← set_checksum p (0, 0); slice zeroed 0 (first % 16 * 4)) [
          | none ↦ panic
          | some covered ↦ check_answer (checksum 0 covered) found
        ])

-- The checksum's bytes, the total length and the first byte.
unfoldable pub verify_reads : Bytes → Option (ℕ × ℕ × ℕ × ℕ)
verify_reads p = do
  hi ← get_elem? p 10
  lo ← get_elem? p 11
  packet_length ← total_len p
  first ← get_elem? p 0
  some (hi, lo, packet_length, first)

-- `Verify`; it restores the checksum before it returns, so the packet is as before.
unfoldable pub verify : Bytes → Outcome VerifyError (Unit {0})
unfolding verify_reads
verify p = if ltb (length p) ipv4_header_size then err invalid_length else elim (verify_reads p) [
  | none ↦ panic
  | some (hi, lo, packet_length, first) ↦ verify_fields p first packet_length (hi, lo)
]
