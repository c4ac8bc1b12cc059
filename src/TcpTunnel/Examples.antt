-- ===== src/TcpTunnel/Examples.antt =====
-- Concrete runs of the TCP tunnel.
use Prim.Native.String.{String}
use distrust_core.NetIp.{ipv4, ipv4_uint32}
use distrust_core.Client.{IpResource}
use distrust_core.IpIndex.{new}
use distrust_core.TcpTunnel.{
  eof, TlsWrite, write_tcp_tunnel_handshake_message, write_chunks, write, close_write,
}
use distrust_core.TcpTunnel.Reading.{delivery, carried}
use distrust_core.TcpTunnel.Draining.{drain, pending, drain-pending}
use distrust_core.TcpTunnel.Writing.{Carries, Ends, opened, write-Contract, drain-write}
use distrust_core.TcpTunnel.Handshake.{
  AuthResponse, status_error, read_connect_reply, read_full, read_tcp_protocol_response,
  parse_tcp_tunnel_auth_response, read_socks5_connect_reply,
}
use distrust_core.TcpTunnel.Replies.{server_answers, Bound, read_connect_reply-server_answers}
use distrust_core.TcpTunnel.Refusals.{read_connect_reply-refused}
use distrust_core.TcpTunnel.Selection.{
  match_tcp_ip_resource, otherwise, last_chosen, match_tcp_ip_resource-chosen, TcpFlow,
}
use distrust_core.TcpTunnel.Dialing.{Externals, dial_tcp, LeaksNothing, dial_tcp-LeaksNothing}
use distrust_core.Base.{
  ℕ, ◌<◌, ◌≡◌, refl, Bool, true, false, not, Option, none, some, List, [], ◌∷◌, ◌++◌, arith,
  nat_beq, Comparable_nat, Comparable_string, length, take, All, pos, ok, err, Bytes, join16, get16,
}

-- An empty frame, a frame of three bytes, a frame of one, and the end.
abbrev frames : Bytes
frames = 1 ∷ 0 ∷ 0 ∷ 0 ∷ 1 ∷ 0 ∷ 0 ∷ 3 ∷ 7 ∷ 8 ∷ 9 ∷ 1 ∷ 0 ∷ 0 ∷ 1 ∷ 5 ∷ 1 ∷ 1 ∷ 0 ∷ 0 ∷ []

abbrev sizes : List ℕ
sizes = 2 ∷ 1 ∷ 9 ∷ 9 ∷ 9 ∷ []

abbrev all_at_hand : Bytes → ℕ → ℕ
all_at_hand stream size = size

pending_frames : pending (opened frames) ≡ (7 ∷ 8 ∷ 9 ∷ 5 ∷ [], eof)
unfolding delivery carried
pending_frames = refl

few : length (pending (opened frames)).0 < length sizes
few = rw pending_frames (omega arith)

positive_sizes : All (λ size. 0 < size) sizes
positive_sizes = (omega arith, (omega arith, (omega arith, (omega arith, (omega arith, tt)))))

drain-pending_example :
    drain all_at_hand sizes (opened frames)
    ≡ ((pending (opened frames)).0, some (pending (opened frames)).1)
drain-pending_example = drain-pending all_at_hand sizes (opened frames) refl positive_sizes few

-- A connection that takes everything, and one that fails behind five bytes.
abbrev takes_all : TlsWrite
takes_all sent message = (length message, false)

abbrev takes_five : TlsWrite
takes_five sent message = (5, true)

write-Contract_example :
    (wire : Bytes) × (part : Bytes) × ((write takes_five (opened []) (7 ∷ 8 ∷ [])).2.sent
      ≡ [] ++ (wire ++ part))
    × Carries wire (take (write takes_five (opened []) (7 ∷ 8 ∷ [])).0 (7 ∷ 8 ∷ []))
    × Ends
        (write takes_five (opened []) (7 ∷ 8 ∷ [])).1
        (write takes_five (opened []) (7 ∷ 8 ∷ [])).0
        (7 ∷ 8 ∷ [])
        part
write-Contract_example = write-Contract takes_five (opened []) (7 ∷ 8 ∷ []) refl

abbrev pair : Bytes
pair = 7 ∷ 8 ∷ []

fine : (write takes_all (opened []) pair).1 ≡ none
unfolding write write_chunks write_tcp_tunnel_handshake_message
fine = refl

ended_ : (close_write takes_all none (write takes_all (opened []) pair).2).0 ≡ none
unfolding write write_chunks write_tcp_tunnel_handshake_message close_write
ended_ = refl

drain-write_example :
    drain all_at_hand sizes
      (opened (close_write takes_all none (write takes_all (opened []) pair).2).1.sent)
    ≡ (pair, some eof)
drain-write_example =
    drain-write takes_all all_at_hand none [] pair sizes fine ended_ positive_sizes (omega arith)

-- A server whose JSON of one byte is an accepted answer.
abbrev accepts_all : Bytes → Option AuthResponse
accepts_all payload = some (record { code = pos 0 })

abbrev accepted : Bytes
accepted = 5 ∷ 0x81 ∷ 0x53 ∷ 0 ∷ 0 ∷ 1 ∷ 123 ∷ 5 ∷ 0 ∷ 1 ∷ 1 ∷ 10 ∷ 0 ∷ 0 ∷ 1 ∷ 0 ∷ 80 ∷ 42 ∷ []

accepted_lem : read_connect_reply accepts_all true accepted ≡ ok (true, 42 ∷ [])
unfolding read_connect_reply read_full read_tcp_protocol_response get16
    parse_tcp_tunnel_auth_response read_socks5_connect_reply
accepted_lem = refl

read_connect_reply-server_answers_example :
    (hi : ℕ) × (lo : ℕ) × (payload : Bytes) × (flag : ℕ) × (kind : ℕ) × (bound : Bytes) × (accepted
      ≡ server_answers hi lo payload 0 flag kind (bound ++ (42 ∷ [])))
    × (join16 hi lo ≡ length payload)
    × (accepts_all payload ≡ some (record { code = pos 0 }))
    × (true ≡ nat_beq flag 1)
    × Bound kind bound
read_connect_reply-server_answers_example =
    read_connect_reply-server_answers accepts_all true accepted (42 ∷ []) true accepted_lem

read_connect_reply-refused_example :
    (read_connect_reply accepts_all true (server_answers 0 1 (123 ∷ []) 5 0 1 [])
      ≡ err (status_error 5))
    × ((other : ℕ) → status_error other ≡ status_error 5 → other ≡ 5)
read_connect_reply-refused_example =
    read_connect_reply-refused accepts_all true 0 1 (123 ∷ []) 4 0 1 [] (omega arith) refl

abbrev host : String → Bool → IpResource
host app prefers = record {
  ip_min = 10 ∷ 0 ∷ 0 ∷ 0 ∷ [];
  ip_max = 10 ∷ 0 ∷ 0 ∷ 255 ∷ [];
  port_min = pos 1;
  port_max = pos 65535;
  protocol = "tcp";
  app_id = app;
  node_group_id = "g";
  enable_tcp_pref_l3 = prefers;
}

abbrev hosts : List IpResource
hosts = host "first" false ∷ host "second" true ∷ []

match_tcp_ip_resource-chosen_example :
    match_tcp_ip_resource (new hosts) (ipv4 10 0 0 5) (pos 22) true
    ≡ otherwise
        (last_chosen hosts
          (ipv4_uint32 (ipv4 10 0 0 5))
          (pos 22)
          (some (λ r. not r.enable_tcp_pref_l3)))
        (last_chosen hosts (ipv4_uint32 (ipv4 10 0 0 5)) (pos 22) none)
match_tcp_ip_resource-chosen_example =
    match_tcp_ip_resource-chosen hosts (ipv4 10 0 0 5) (pos 22) true

abbrev externals : Externals
externals = record {
  resource_index = new hosts;
  best_nodes = ("g", "node:443") ∷ [];
  major_node_group = "g";
  device_id = "d";
  connection_id = "c";
  username = "u";
  tcp_tunnel_zero_rtt = true;
  session_sid = some "s";
  dial_tls = λ node. some accepted;
  sets_deadline = true;
  clears_deadline = true;
  sign_key = some [];
  json = λ request. some (123 ∷ []);
  calc_x_request_sig = λ key data_. "";
  path_hash = λ path. path;
  ip_string = λ ip. "10.0.0.5";
  parse_ip = λ text. some (ipv4 10 0 0 5);
  join_host_port = λ text port. text;
  bytes_of = λ text. [];
  tls_write = takes_all;
  unmarshal = accepts_all;
  handles = true;
  ended_before = false;
  ended_after = false;
}

abbrev flow : TcpFlow
flow = record { domain_resource = none; resolve_host = none; ignore_tcp_pref_l3 = false }

dial_tcp-LeaksNothing_example : LeaksNothing externals (dial_tcp externals flow (ipv4 10 0 0 5) 22)
dial_tcp-LeaksNothing_example = dial_tcp-LeaksNothing externals flow (ipv4 10 0 0 5) 22
