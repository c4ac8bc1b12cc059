-- ===== src/TcpTunnel/Dialing.antt =====
-- client/atrust/tcptunnel.go: DialTCP, from the choice of a resource to the open tunnel. What the
-- program calls outside itself is the record `Externals`. Deadlines are whether setting them
-- succeeded; logging is left out.
use Prim.Native.String.{String, ◌++◌ as append_string}
use distrust_core.NetIp.{NetIp}
use distrust_core.IpIndex.{Node}
use distrust_core.TcpTunnel.{TcpTunnelConn, TlsWrite}
use distrust_core.TcpTunnel.Selection.{
  TcpFlow, Selected, DialError, no_session, no_node, dial_failed, deadline_failed, invalid_sign_key,
  marshal_failed, write_failed, handshake_failed, select_resource, node_address,
  tcp_tunnel_real_dst_host, tcp_tunnel_auth_destinations,
}
use distrust_core.TcpTunnel.Handshake.{
  AuthResponse, Reply, encode_tcp_tunnel_auth_length, encode_tcp_tunnel_destination,
  write_tcp_tunnel_initial_messages, wait_for_tcp_connect_reply,
}
use distrust_core.Base.{
  ℕ, ◌≡◌, refl, ◌⊎◌, inl, inr, Bool, true, false, not, ◌&&◌, Option, none, some, List, [], ◌∷◌,
  ◌++◌, nat_beq, if◌then◌else◌, ◌==◌, Comparable_nat, Comparable_string, if_both, option_both,
  length, pos, Outcome, ok, err, panic, Bytes,
}

-- tcpTunnelProcess, without the texts that are the same in every request
pub record TcpTunnelProcess : Type 0 where
  pub name : String
  pub fingerprint : String
  pub path : String

pub record TcpTunnelAuthRequest : Type 0 where
  pub sid : String
  pub app_id : String
  pub url : String
  pub device_id : String
  pub connection_id : String
  pub proc_hash : String
  pub user_name : String
  pub dest_addr : String
  pub dest_ip : String
  pub process : TcpTunnelProcess
  pub x_request_sig : String

-- The client's fields that DialTCP reads, and what it calls outside the program: the session, the TLS
-- connection to a node with the bytes that the server then sends, JSON, hashes, addresses and texts.
pub record Externals : Type 0 where
  pub resource_index : Node
  pub best_nodes : List (String × String)
  pub major_node_group : String
  pub device_id : String
  pub connection_id : String
  pub username : String
  pub tcp_tunnel_zero_rtt : Bool
  pub session_sid : Option String
  pub dial_tls : String → Option Bytes
  pub sets_deadline : Bool
  pub clears_deadline : Bool
  pub sign_key : Option Bytes
  pub json : TcpTunnelAuthRequest → Option Bytes
  pub calc_x_request_sig : Bytes → Bytes → String
  pub path_hash : String → String
  pub ip_string : NetIp → String
  pub parse_ip : String → Option NetIp
  pub join_host_port : String → ℕ → String
  pub bytes_of : String → Bytes
  pub tls_write : TlsWrite
  pub unmarshal : Bytes → Option AuthResponse
  pub handles : Bool
  pub ended_before : Bool
  pub ended_after : Bool

module _ (x : Externals) where
  unfoldable pub marshal_tcp_tunnel_auth_request : TcpTunnelAuthRequest → Bytes → Option Bytes
  marshal_tcp_tunnel_auth_request request sign_key = elim (x.json request) [
    | none ↦ none
    | some unsigned ↦
        x.json (record request { x_request_sig = x.calc_x_request_sig sign_key unsigned })
  ]

  abbrev process_of : ℕ → TcpTunnelProcess
  process_of port =
      let ssh = nat_beq port 22 in
      let path = if ssh then "/usr/bin/ssh" else "/usr/bin/google-chrome-stable" in
      record {
        name = if ssh then "ssh" else "google-chrome-stable";
        fingerprint = x.path_hash path;
        path = path;
      }

  unfoldable pub auth_request : String → Selected → NetIp → ℕ → TcpTunnelAuthRequest
  unfolding tcp_tunnel_real_dst_host tcp_tunnel_auth_destinations
  auth_request sid selected ip port =
      let real_dst_host =
        tcp_tunnel_real_dst_host x.ip_string ip selected.domain selected.addr_pretend in
      let (dest_addr, dest_ip) =
        tcp_tunnel_auth_destinations x.join_host_port real_dst_host port selected.domain
          selected.addr_pretend in
      record {
        sid = sid;
        app_id = selected.app_id;
        url = append_string "tcp://" dest_addr;
        device_id = x.device_id;
        connection_id = x.connection_id;
        proc_hash = (process_of port).fingerprint;
        user_name = x.username;
        dest_addr = dest_addr;
        dest_ip = dest_ip;
        process = process_of port;
        x_request_sig = "";
      }

  -- An answer, and whether the connection was closed on the way.
  abbrev Attempt : Type 0
  Attempt = Outcome DialError TcpTunnelConn × Bool

  -- `_ = conn.Close()` before the error is returned
  abbrev close_with : DialError → Attempt
  close_with e = (err e, true)

  abbrev replied : Bytes → Bool → Bytes → Attempt
  replied sent reuse rest =
      if x.clears_deadline
      then (
        ok (record {
          reader = rest;
          read_buf = [];
          reuse = x.tcp_tunnel_zero_rtt && reuse;
          raw = not x.tcp_tunnel_zero_rtt;
          close_write_err = none;
          sent = sent;
        }),
        false,
      )
      else close_with deadline_failed

  -- The handshake, behind the write of both messages.
  unfoldable pub await_reply : Bytes → Bytes → Attempt
  unfolding wait_for_tcp_connect_reply
  await_reply stream sent =
      elim (wait_for_tcp_connect_reply x.unmarshal x.handles x.ended_before x.ended_after stream) [
        | err e ↦ close_with (handshake_failed e)
        | panic ↦ (panic, false)
        | ok (reuse, rest) ↦ replied sent reuse rest
      ]

  -- The request and the destination, in one write.
  abbrev send_messages : Bytes → Bytes → String → ℕ → Bytes → Attempt
  send_messages length_ message real_dst_host port stream =
      let init_msg = 0x05 ∷ 0x01 ∷ 0x81 ∷ 0x53 ∷ 0x03 ∷ (length_ ++ message) in
      let dest_msg =
        encode_tcp_tunnel_destination (x.parse_ip real_dst_host) (x.bytes_of real_dst_host) port
          x.tcp_tunnel_zero_rtt in
      let (sent, failure) = write_tcp_tunnel_initial_messages x.tls_write [] init_msg dest_msg in
      elim failure [ some e ↦ close_with write_failed | none ↦ await_reply stream sent ]

  unfoldable pub send_request : TcpTunnelAuthRequest → String → ℕ → Bytes → Bytes → Attempt
  send_request request real_dst_host port sign_key stream =
      elim (marshal_tcp_tunnel_auth_request request sign_key) [
        | none ↦ close_with marshal_failed
        | some message ↦ elim (encode_tcp_tunnel_auth_length (length message)) [
          | err e ↦ close_with (handshake_failed e)
          | panic ↦ (panic, false)
          | ok length_ ↦ send_messages length_ message real_dst_host port stream
        ]
      ]

  -- What is done on a connection, once it is open.
  unfoldable pub open_tunnel : String → Selected → NetIp → ℕ → Bytes → Attempt
  open_tunnel sid selected ip port stream =
      let real_dst_host =
        tcp_tunnel_real_dst_host x.ip_string ip selected.domain selected.addr_pretend in
      if x.sets_deadline
      then elim x.sign_key [
        | none ↦ close_with invalid_sign_key
        | some sign_key ↦
            send_request (auth_request sid selected ip port) real_dst_host port sign_key stream
      ]
      else close_with deadline_failed

  -- The answer, and the connections that were opened and closed.
  pub data Event : Type 0 where
    opened_to : String → Event
    closed : Event

  abbrev pub Dialed : Type 0
  Dialed = Outcome DialError TcpTunnelConn × List Event

  abbrev dial_selected : String → Selected → NetIp → ℕ → Dialed
  dial_selected sid selected ip port =
      let node = node_address x.best_nodes x.major_node_group selected.node_group_id in
      if node == "" then (err no_node, []) else elim (x.dial_tls node) [
        | none ↦ (err dial_failed, [])
        | some stream ↦
            let (answer, closes) = open_tunnel sid selected ip port stream in
            (answer, if closes then opened_to node ∷ closed ∷ [] else opened_to node ∷ [])
      ]

  unfoldable pub dial_tcp : TcpFlow → NetIp → ℕ → Dialed
  dial_tcp flow ip port = elim x.session_sid [
    | none ↦ (err no_session, [])
    | some sid ↦ elim (select_resource x.resource_index flow ip (pos port)) [
      | err e ↦ (err e, [])
      | panic ↦ (panic, [])
      | ok selected ↦ dial_selected sid selected ip port
    ]
  ]

  -- A connection is closed exactly if its opening failed.
  abbrev ClosesOnError : Attempt → Type 0
  ClosesOnError (ok c, closes) = closes ≡ false
  ClosesOnError (err e, closes) = closes ≡ true
  ClosesOnError (panic, closes) = closes ≡ false

  await_reply-ClosesOnError : (stream sent : Bytes) → ClosesOnError (await_reply stream sent)
  unfolding await_reply
  await_reply-ClosesOnError stream sent =
      elim (wait_for_tcp_connect_reply x.unmarshal x.handles x.ended_before x.ended_after stream)
        as (λ (w : Reply (Bool × Bytes)). ClosesOnError (elim w [
          | err e ↦ close_with (handshake_failed e)
          | panic ↦ (panic, false)
          | ok (reuse, rest) ↦ replied sent reuse rest
        ])) [
          | err e ↦ refl
          | panic ↦ refl
          | ok (reuse, rest) ↦ if_both ClosesOnError x.clears_deadline (λ _. refl) (λ _. refl)
        ]

  send_request-ClosesOnError :
      (request : TcpTunnelAuthRequest) (host : String) (port : ℕ) (sign_key stream : Bytes)
      → ClosesOnError (send_request request host port sign_key stream)
  unfolding send_request
  send_request-ClosesOnError request host port sign_key stream =
      option_both ClosesOnError (marshal_tcp_tunnel_auth_request request sign_key) (λ _. refl)
        (λ message _.
          elim (encode_tcp_tunnel_auth_length (length message))
            as (λ (w : Reply Bytes). ClosesOnError (elim w [
              | err e ↦ close_with (handshake_failed e)
              | panic ↦ (panic, false)
              | ok length_ ↦ send_messages length_ message host port stream
            ])) [
              | err e ↦ refl
              | panic ↦ refl
              | ok length_ ↦
                  option_both ClosesOnError
                    (write_tcp_tunnel_initial_messages x.tls_write []
                      (0x05 ∷ 0x01 ∷ 0x81 ∷ 0x53 ∷ 0x03 ∷ (length_ ++ message))
                      (encode_tcp_tunnel_destination (x.parse_ip host) (x.bytes_of host) port
                        x.tcp_tunnel_zero_rtt)).1
                    (λ _. await_reply-ClosesOnError stream _) (λ e _. refl)
            ])

  open_tunnel-ClosesOnError :
      (sid : String) (selected : Selected) (ip : NetIp) (port : ℕ) (stream : Bytes)
      → ClosesOnError (open_tunnel sid selected ip port stream)
  unfolding open_tunnel
  open_tunnel-ClosesOnError sid selected ip port stream =
      if_both ClosesOnError x.sets_deadline
        (λ _.
          option_both ClosesOnError x.sign_key (λ _. refl)
            λ key _.
              send_request-ClosesOnError (auth_request sid selected ip port) _ port key stream)
        (λ _. refl)

  -- An answer with the connections that were opened and closed for it.
  abbrev pub LeaksNothing : Dialed → Type 0
  LeaksNothing (ok c, events) = (node : String) × (events ≡ opened_to node ∷ [])
  LeaksNothing (err e, events) =
      (events ≡ []) ⊎ ((node : String) × (events ≡ opened_to node ∷ closed ∷ []))
  LeaksNothing (panic, events) = Unit

  settled :
      (node : String) (attempt : Attempt)
      → ClosesOnError attempt
      → LeaksNothing
          (attempt.0, if attempt.1 then opened_to node ∷ closed ∷ [] else opened_to node ∷ [])
  settled node (ok c, closes) left_open = (node, rw left_open refl)
  settled node (err e, closes) closes_ = inr (node, rw closes_ refl)
  settled node (panic, closes) h = tt

  -- DialTCP leaks no connection: where it answers one, it opened one and left it open; where it
  -- answers an error, it opened none, or closed the one that it opened.
  pub dial_tcp-LeaksNothing :
      (flow : TcpFlow) (ip : NetIp) (port : ℕ) → LeaksNothing (dial_tcp flow ip port)
  unfolding dial_tcp
  dial_tcp-LeaksNothing flow ip port =
      option_both LeaksNothing x.session_sid (λ _. inl refl)
        λ sid _.
          elim (select_resource x.resource_index flow ip (pos port))
            as (λ (w : Outcome DialError Selected). LeaksNothing (elim w [
              | err e ↦ (err e, [])
              | panic ↦ (panic, [])
              | ok selected ↦ dial_selected sid selected ip port
            ])) [
              | err e ↦ inl refl
              | panic ↦ tt
              | ok selected ↦
                  let node = node_address x.best_nodes x.major_node_group selected.node_group_id in
                  if_both LeaksNothing (node == "") (λ _. inl refl)
                    λ _.
                      option_both LeaksNothing (x.dial_tls node) (λ _. inl refl)
                        λ stream _.
                          settled node (open_tunnel sid selected ip port stream)
                            (open_tunnel-ClosesOnError sid selected ip port stream)
            ]
