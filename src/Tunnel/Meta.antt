-- ===== src/Tunnel/Meta.antt =====
-- client/atrust/l3tunnelconn.go: encodeMeta, decodeMeta and parseDataMeta.
use distrust_core.NetIp.{NetIp, to4, ipv4}
use distrust_core.Base.{
  ℕ, ◌+◌, ◌%◌, ◌<◌, ◌≡◌, not, Option, none, some, [], ◌∷◌, ◌++◌, arith, leb, nat_beq, if◌then◌else◌,
  Comparable_nat, Comparable_string, length, get_elem?, Outcome, ok, err, ◌>>=◌, ◌>>◌, guard,
  or_panic, then_some, Bytes, be16, slice, get16,
}

pub record PacketMeta : Type 0 where
  pub atype : ℕ
  pub proto : ℕ
  pub src_ip : NetIp
  pub dst_ip : NetIp
  pub src_port : ℕ  -- uint16
  pub dst_port : ℕ  -- uint16

pub data MetaError : Type 0 where
  invalid_ipv4_addr meta_too_short meta_ipv4_too_short meta_ipv6_too_short : MetaError
  payload_too_short_for_meta meta_length_zero payload_meta_overflow : MetaError

-- `ip.To16()`; writing nil writes nothing
unfoldable pub to16 : NetIp → Bytes
to16 (a ∷ b ∷ c ∷ d ∷ []) = ipv4 a b c d
to16 ip = if nat_beq (length ip) 16 then ip else []

abbrev metadata : PacketMeta → Bytes → Bytes → Bytes
metadata meta src dst =
    meta.atype % 256
    ∷ meta.proto % 256
    ∷ (src ++ (dst ++ (be16 meta.src_port ++ be16 meta.dst_port)))

abbrev both_ipv4 : Option Bytes → Option Bytes → PacketMeta → Outcome MetaError Bytes
both_ipv4 (some src) (some dst) meta = ok (metadata meta src dst)
both_ipv4 _ _ meta = err invalid_ipv4_addr

unfoldable pub encode_meta : PacketMeta → Outcome MetaError Bytes
encode_meta meta =
    if nat_beq meta.atype 4
    then both_ipv4 (to4 meta.src_ip) (to4 meta.dst_ip) meta
    else ok (metadata meta (to16 meta.src_ip) (to16 meta.dst_ip))

-- The two ports, from `offset` on.
abbrev decode_ports : Bytes → ℕ → NetIp → NetIp → ℕ → ℕ → Outcome MetaError PacketMeta
decode_ports metadata offset src dst atype proto = do
  src_port ← or_panic (get16 metadata offset)
  dst_port ← or_panic (get16 metadata (offset + 2))
  ok (record {
    atype = atype;
    proto = proto;
    src_ip = src;
    dst_ip = dst;
    src_port = src_port;
    dst_port = dst_port;
  })

abbrev ipv4_of : Bytes → Option NetIp
ipv4_of (a ∷ b ∷ c ∷ d ∷ []) = some (ipv4 a b c d)
ipv4_of _ = none

abbrev decode_ipv4 : Bytes → ℕ → ℕ → Outcome MetaError PacketMeta
decode_ipv4 bytes atype proto = do
  guard (leb (2 + 8 + 4) (length bytes)) meta_ipv4_too_short
  src ← or_panic (then_some (slice bytes 2 6) ipv4_of)
  dst ← or_panic (then_some (slice bytes 6 10) ipv4_of)
  decode_ports bytes 10 src dst atype proto

abbrev decode_ipv6 : Bytes → ℕ → ℕ → Outcome MetaError PacketMeta
decode_ipv6 bytes atype proto = do
  guard (leb (2 + 32 + 4) (length bytes)) meta_ipv6_too_short
  src ← or_panic (slice bytes 2 18)
  dst ← or_panic (slice bytes 18 34)
  decode_ports bytes 34 src dst atype proto

unfoldable pub decode_meta : Bytes → Outcome MetaError PacketMeta
decode_meta bytes = do
  guard (leb 2 (length bytes)) meta_too_short
  atype ← or_panic (get_elem? bytes 0)
  proto ← or_panic (get_elem? bytes 1)
  if nat_beq atype 4 then decode_ipv4 bytes atype proto else decode_ipv6 bytes atype proto

-- The length byte, then the metadata; the length is part of the result.
unfoldable pub parse_data_meta : Bytes → Outcome MetaError (PacketMeta × ℕ)
unfolding decode_meta
parse_data_meta payload = do
  guard (leb 1 (length payload)) payload_too_short_for_meta
  meta_len ← or_panic (get_elem? payload 0)
  guard (not (nat_beq meta_len 0)) meta_length_zero
  guard (leb (1 + meta_len) (length payload)) payload_meta_overflow
  bytes ← or_panic (slice payload 1 (1 + meta_len))
  meta ← decode_meta bytes
  ok (meta, meta_len)

-- Metadata of an IPv4 packet whose fields fit their types, with addresses in net.IPv4's form, is
-- encoded without an error, and the encoding decodes to the same metadata.
pub decode_meta-encode_meta :
    (proto a b c d e f g h src_port dst_port : ℕ)
    → proto < 256
    → src_port < 65536
    → dst_port < 65536
    → let meta : PacketMeta = record {
      atype = 4;
      proto = proto;
      src_ip = ipv4 a b c d;
      dst_ip = ipv4 e f g h;
      src_port = src_port;
      dst_port = dst_port;
    } in
      (encode_meta meta >>= decode_meta) ≡ ok meta
unfolding encode_meta decode_meta to4 slice get16
decode_meta-encode_meta proto a b c d e f g h src_port dst_port hp hs hd = ground arith
