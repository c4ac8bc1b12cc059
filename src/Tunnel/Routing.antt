-- ===== src/Tunnel/Routing.antt =====
-- client/atrust/l3tunnelpacket.go: what an outgoing packet asks for and which resource carries it.
use Prim.Native.String.{String}
use distrust_core.NetIp.{NetIp, ipv4_uint32}
use distrust_core.Client.{IpResource}
use distrust_core.IpIndex.{Node, new, match_where}
use distrust_core.IpIndex.Lookup.{chosen, query, match_index-chosen}
use distrust_core.Tunnel.Meta.{PacketMeta}
use distrust_core.Zctcpip.Ipv4.{
  protocol, payload, source_ip, destination_ip, protocol_tcp, protocol_udp, protocol_icmp,
}
use distrust_core.Zctcpip.Transport.{source_port, destination_port}
use distrust_core.Base.{
  ℕ, ◌≡◌, sym, ◌∙◌, Bool, false, not, ◌||◌, Option, some, List, arith, nat_beq, if◌then◌else◌, ◌==◌,
  Comparable_nat, Comparable_string, ℤ, pos, negsuc, Outcome, ok, err, ◌>>=◌, or_panic, or_err,
  then_some, chain_gave, or_panic_gave, Bytes,
}

pub data RouteError : Type 0 where
  unsupported_protocol resource_not_found : RouteError

abbrev meta_of : ℕ → NetIp → NetIp → ℕ → ℕ → PacketMeta
meta_of proto src dst src_port dst_port = record {
  atype = 4;
  proto = proto;
  src_ip = src;
  dst_ip = dst;
  src_port = src_port;
  dst_port = dst_port;
}

-- The switch on the protocol: the two ports.
unfoldable pub packet_ports : Bytes → ℕ → Outcome RouteError (ℕ × ℕ)
packet_ports p proto =
    if nat_beq proto protocol_tcp || nat_beq proto protocol_udp
    then (or_panic (payload p) >>= λ segment. or_panic (source_port segment) >>= λ src.
        or_panic (destination_port segment) >>= λ dst. ok (src, dst))
    else err unsupported_protocol

unfoldable pub build_packet_meta : Bytes → Outcome RouteError PacketMeta
unfolding packet_ports
build_packet_meta p = do
  proto ← or_panic (protocol p)
  (src_port, dst_port) ← (if nat_beq proto protocol_icmp then ok (0, 0) else packet_ports p proto)
  src ← or_panic (source_ip p)
  dst ← or_panic (destination_ip p)
  ok (meta_of proto src dst src_port dst_port)

unfoldable pub port_key : Bytes → ℕ → Outcome RouteError (String × ℤ)
port_key p proto =
    if nat_beq proto protocol_tcp || nat_beq proto protocol_udp
    then (or_panic (payload p) >>= λ segment. or_panic (destination_port segment) >>= λ dst.
        ok (if nat_beq proto protocol_tcp then "tcp" else "udp", pos dst))
    else (if nat_beq proto protocol_icmp then ok ("icmp", negsuc 0) else err resource_not_found)

-- `processIPV4`'s protocol and port, or its error for another protocol.
unfoldable pub lookup_key : Bytes → Outcome RouteError (String × ℤ)
unfolding port_key
lookup_key p = do proto ← or_panic (protocol p); port_key p proto

-- Over the L3 tunnel go the TCP resources that prefer it.
abbrev pub prefers_l3 : String → IpResource → Bool
prefers_l3 network resource = not (network == "tcp") || resource.enable_tcp_pref_l3

unfoldable pub match_l3_ip_resource : Node → NetIp → String → ℤ → Option IpResource
match_l3_ip_resource index destination network port =
    match_where index destination network port (prefers_l3 network)

-- `processIPV4` up to the connection: the resource and the packet's metadata, which `writePacket`
-- takes to the connection of the resource's node group.
unfoldable pub process_ipv4 : Node → Bytes → Outcome RouteError (IpResource × PacketMeta)
unfolding lookup_key match_l3_ip_resource build_packet_meta
process_ipv4 index p = do
  (network, port) ← lookup_key p
  destination ← or_panic (destination_ip p)
  resource ← or_err (match_l3_ip_resource index destination network port) resource_not_found
  meta ← build_packet_meta p
  ok (resource, meta)

-- What the metadata says of the lookup.
abbrev pub key_of : PacketMeta → String × ℤ
key_of meta =
    if nat_beq meta.proto protocol_tcp
    then ("tcp", pos meta.dst_port)
    else (if nat_beq meta.proto protocol_udp
        then ("udp", pos meta.dst_port)
        else ("icmp", negsuc 0))

-- The two passes over the packet agree.
key_of-build_packet_meta :
    (p : Bytes) (key : String × ℤ) (destination : NetIp) (meta : PacketMeta)
    → lookup_key p ≡ ok key
    → destination_ip p ≡ some destination
    → build_packet_meta p ≡ ok meta
    → (key_of meta ≡ key) × (meta.dst_ip ≡ destination)
unfolding lookup_key port_key build_packet_meta packet_ports
key_of-build_packet_meta p key destination meta h d k = ground arith

process_ipv4-parts :
    (index : Node) (p : Bytes) (resource : IpResource) (meta : PacketMeta)
    → process_ipv4 index p ≡ ok (resource, meta)
    → (network : String) × (port : ℤ) × (destination : NetIp) × (lookup_key p ≡ ok (network, port))
      × (destination_ip p ≡ some destination)
      × (match_l3_ip_resource index destination network port ≡ some resource)
      × (build_packet_meta p ≡ ok meta)
unfolding process_ipv4
process_ipv4-parts index p resource meta h =
    let ((network, port), h1, k1) = chain_gave (lookup_key p) _ h in
    let (destination, h2, k2) = chain_gave (or_panic (destination_ip p)) _ k1 in
    let (found, h3, k3) =
      chain_gave (or_err (match_l3_ip_resource index destination network port) resource_not_found) _
        k2 in
    let (meta_, h4, k4) = chain_gave (build_packet_meta p) _ k3 in
    (
      network,
      port,
      destination,
      h1,
      or_panic_gave (destination_ip p) h2,
      ground arith,
      ground arith,
    )

-- A packet is carried by the resource that the server's order selects for it: if processIPV4 finds a
-- resource for a packet, that is the first of the server's list that serves the destination, protocol
-- and port of the metadata that is sent with it, and for TCP prefers the L3 tunnel.
pub process_ipv4-chosen :
    (rs : List IpResource) (p : Bytes) (resource : IpResource) (meta : PacketMeta)
    → process_ipv4 (new rs) p ≡ ok (resource, meta)
    → let (network, port) = key_of meta in
      then_some
        (ipv4_uint32 meta.dst_ip)
        (λ ip. chosen (query ip network port false (some (prefers_l3 network))) rs)
      ≡ some resource
unfolding match_l3_ip_resource match_where
process_ipv4-chosen rs p resource meta h =
    let (network, port, destination, key, read, found, built) =
      process_ipv4-parts (new rs) p resource meta h in
    let (same, target) =
      key_of-build_packet_meta p (network, port) destination meta key read built in
    rw same (
      rw target (
        sym (match_index-chosen rs destination network port false (some (prefers_l3 network)))
        ∙ found))
