-- ===== src/Tunnel/Examples.antt =====
-- Frames, streams and answers of a server, by example.
use distrust_core.NetIp.{ipv4, ipv4_uint32, to4}
use distrust_core.Zctcpip.Ipv4.{protocol, payload, header_len, total_len, source_ip, destination_ip}
use distrust_core.Zctcpip.Transport.{source_port, destination_port}
use distrust_core.IpIndex.{
  new, match_index, build_fuel, sort_by_start, insert_by_start, index_from, index_entry, covers,
  improves, pick, match_node, match_where,
}
use distrust_core.Tunnel.Frames.{
  get_data_payload, parse_data_payload, parse_data_payload_safe,
  parse_data_payload-get_data_payload,
}
use distrust_core.Tunnel.Stream.{
  split_incoming_ip_packets, packet_head, prepend, split_incoming_ip_packets-Continues,
}
use distrust_core.Tunnel.Meta.{PacketMeta, encode_meta, decode_meta, decode_meta-encode_meta}
use distrust_core.Tunnel.Vip.{
  read_ip_tunnel_responses, auth_tunnel, read_full, parse_initial_vip_header, read_auth_header,
  read_ip_tunnel_responses-auth_tunnel,
}
use distrust_core.Client.{IpResource}
use distrust_core.IpIndex.Lookup.{chosen, query}
use distrust_core.Tunnel.Routing.{process_ipv4, prefers_l3, process_ipv4-chosen}
use distrust_core.Base.{
  false, slice, some, then_some, pos, ◌≡◌, refl, ◌≢◌, true, [], ◌∷◌, ◌++◌, arith, Comparable_nat,
  Comparable_string, drop, ok, panic, ◌>>=◌, Bytes, get16,
}

parse_data_payload-get_data_payload_example :
    parse_data_payload (drop 2 (get_data_payload (1 ∷ 2 ∷ []) (9 ∷ 8 ∷ [])))
    ≡ ok ((9 ∷ 8 ∷ []) ∷ [])
parse_data_payload-get_data_payload_example =
    parse_data_payload-get_data_payload (1 ∷ 2 ∷ []) (9 ∷ 8 ∷ []) (omega arith) (omega arith)

parse_data_payload_safe_example : parse_data_payload (200 ∷ 1 ∷ 2 ∷ 3 ∷ []) ≢ panic
parse_data_payload_safe_example = parse_data_payload_safe (200 ∷ 1 ∷ 2 ∷ 3 ∷ [])

-- An IPv6 packet with an empty payload, and the first bytes of the next.
abbrev six : Bytes
six =
    0x60 ∷ 0 ∷ 0 ∷ 0 ∷ 0 ∷ 0 ∷ 58 ∷ 64 ∷ 1 ∷ 1 ∷ 1 ∷ 1 ∷ 1 ∷ 1 ∷ 1 ∷ 1 ∷ 1 ∷ 1 ∷ 1 ∷ 1 ∷ 1 ∷ 1 ∷ 1
    ∷ 1 ∷ 2 ∷ 2 ∷ 2 ∷ 2 ∷ 2 ∷ 2 ∷ 2 ∷ 2 ∷ 2 ∷ 2 ∷ 2 ∷ 2 ∷ 2 ∷ 2 ∷ 2 ∷ 2 ∷ []

abbrev piece : Bytes
piece = 0x45 ∷ 0 ∷ 0 ∷ 20 ∷ []

split_six : split_incoming_ip_packets (six ++ piece) ≡ ok (six ∷ [], piece)
unfolding split_incoming_ip_packets packet_head
split_six = refl

split_incoming_ip_packets-Continues_example :
    split_incoming_ip_packets (six ++ piece ++ six)
    ≡ prepend (six ∷ []) (split_incoming_ip_packets (piece ++ six))
unfolding split_incoming_ip_packets packet_head
split_incoming_ip_packets-Continues_example = split_incoming_ip_packets-Continues (six ++ piece) six

abbrev meta_example : PacketMeta
meta_example = record {
  atype = 4;
  proto = 6;
  src_ip = ipv4 10 0 0 1;
  dst_ip = ipv4 10 0 0 2;
  src_port = 40000;
  dst_port = 443;
}

decode_meta-encode_meta_example : (encode_meta meta_example >>= decode_meta) ≡ ok meta_example
decode_meta-encode_meta_example =
    decode_meta-encode_meta 6 10 0 0 1 10 0 0 2 40000 443 (omega arith) (omega arith) (omega arith)

abbrev answers : Bytes
answers = 0x05 ∷ 0xd0 ∷ 0x53 ∷ 0 ∷ 0 ∷ 1 ∷ 7 ∷ 5 ∷ 0 ∷ 0 ∷ 1 ∷ 10 ∷ 1 ∷ 2 ∷ 3 ∷ 0 ∷ 0 ∷ 42 ∷ []

read_answers : read_ip_tunnel_responses (λ _. true) answers ≡ ok (ipv4 10 1 2 3, 42 ∷ [])
unfolding read_ip_tunnel_responses read_auth_header read_full parse_initial_vip_header get16
read_answers = refl

read_ip_tunnel_responses-auth_tunnel_example :
    auth_tunnel (λ _. true) answers ≡ ok (ipv4 10 1 2 3 ∷ [], 42 ∷ [])
read_ip_tunnel_responses-auth_tunnel_example =
    read_ip_tunnel_responses-auth_tunnel (λ _. true) answers (42 ∷ []) (ipv4 10 1 2 3) read_answers

-- Everything under 10.0, to any port.
abbrev campus : IpResource
campus = record {
  ip_min = 10 ∷ 0 ∷ 0 ∷ 0 ∷ [];
  ip_max = 10 ∷ 0 ∷ 255 ∷ 255 ∷ [];
  port_min = pos 1;
  port_max = pos 65535;
  protocol = "all";
  app_id = "campus";
  node_group_id = "g";
  enable_tcp_pref_l3 = false;
}

-- An empty UDP datagram from 10.0.0.1 to 10.0.0.5, port 53.
abbrev datagram : Bytes
datagram =
    69 ∷ 0 ∷ 0 ∷ 28 ∷ 0 ∷ 0 ∷ 0 ∷ 0 ∷ 64 ∷ 17 ∷ 0 ∷ 0 ∷ 10 ∷ 0 ∷ 0 ∷ 1 ∷ 10 ∷ 0 ∷ 0 ∷ 5 ∷ 156 ∷ 64
    ∷ 0 ∷ 53 ∷ 0 ∷ 8 ∷ 0 ∷ 0 ∷ []

abbrev datagram_meta : PacketMeta
datagram_meta = record {
  atype = 4;
  proto = 17;
  src_ip = ipv4 10 0 0 1;
  dst_ip = ipv4 10 0 0 5;
  src_port = 40000;
  dst_port = 53;
}

datagram_lem : process_ipv4 (new (campus ∷ [])) datagram ≡ ok (campus, datagram_meta)
unfolding process_ipv4 protocol payload header_len total_len source_ip destination_ip source_port
    destination_port get16 match_where match_index new build_fuel sort_by_start insert_by_start
    index_from index_entry covers improves pick match_node ipv4_uint32 to4 slice
datagram_lem = refl

process_ipv4-chosen_example :
    then_some
      (ipv4_uint32 datagram_meta.dst_ip)
      (λ ip. chosen (query ip "udp" (pos 53) false (some (prefers_l3 "udp"))) (campus ∷ []))
    ≡ some campus
process_ipv4-chosen_example =
    process_ipv4-chosen (campus ∷ []) datagram campus datagram_meta datagram_lem
