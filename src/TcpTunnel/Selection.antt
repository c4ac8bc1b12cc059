-- ===== src/TcpTunnel/Selection.antt =====
-- client/atrust/tcptunnel.go: how DialTCP chooses a resource, a node and the destination that it
-- names.
use Prim.Native.String.{String}
use distrust_core.NetIp.{NetIp, ipv4_uint32}
use distrust_core.Client.{IpResource, DomainResource}
use distrust_core.IpIndex.{Node, match_last, match_last_where, match_index, new}
use distrust_core.IpIndex.Lookup.{query, chosen, match_index-chosen}
use distrust_core.TcpTunnel.Handshake.{HandshakeError}
use distrust_core.Base.{
  ℕ, ◌≡◌, ap, ◌∙◌, Bool, true, not, ◌&&◌, Option, none, some, List, if◌then◌else◌, ◌==◌,
  Comparable_nat, Comparable_string, ℤ, Outcome, ok, err, then_some, lookup,
}

abbrev pub otherwise : Option IpResource → Option IpResource → Option IpResource
otherwise (some resource) other = some resource
otherwise none other = other

unfoldable pub match_tcp_ip_resource : Node → NetIp → ℤ → Bool → Option IpResource
match_tcp_ip_resource index ip port ignore_tcp_pref_l3 =
    otherwise (match_last_where index ip "tcp" port (λ r. not r.enable_tcp_pref_l3))
      (if ignore_tcp_pref_l3 then match_last index ip "tcp" port else none)

-- The last resource of the server's list, for TCP to an IPv4 address.
abbrev pub last_chosen :
    List IpResource → Option ℕ → ℤ → Option (IpResource → Bool) → Option IpResource
last_chosen rs ip port accept = then_some ip (λ a. chosen (query a "tcp" port true accept) rs)

-- TCP goes through the tunnel by the last resource of the server's list that serves the address and
-- does not prefer the L3 tunnel; where there is none and that preference is ignored, by the last that
-- serves the address at all.
pub match_tcp_ip_resource-chosen :
    (rs : List IpResource) (destination : NetIp) (port : ℤ) (ignore_tcp_pref_l3 : Bool)
    → match_tcp_ip_resource (new rs) destination port ignore_tcp_pref_l3
      ≡ otherwise
          (last_chosen rs (ipv4_uint32 destination) port (some (λ r. not r.enable_tcp_pref_l3)))
          (if ignore_tcp_pref_l3 then last_chosen rs (ipv4_uint32 destination) port none else none)
unfolding match_tcp_ip_resource match_last_where match_last
match_tcp_ip_resource-chosen rs destination port ignore_tcp_pref_l3 =
    let accept : IpResource → Bool = λ r. not r.enable_tcp_pref_l3 in
    ap
      (λ o. otherwise o (
        if ignore_tcp_pref_l3 then match_index (new rs) destination "tcp" port true none else none))
      (match_index-chosen rs destination "tcp" port true (some accept))
    ∙ ap
        (λ o.
          otherwise (last_chosen rs (ipv4_uint32 destination) port (some accept))
            (if ignore_tcp_pref_l3 then o else none))
        (match_index-chosen rs destination "tcp" port true none)

-- What a call of DialTCP has of its context.
pub record TcpFlow : Type 0 where
  pub domain_resource : Option DomainResource
  pub resolve_host : Option String
  pub ignore_tcp_pref_l3 : Bool

pub record Selected : Type 0 where
  pub app_id : String
  pub node_group_id : String
  pub domain : String
  pub addr_pretend : Bool

pub data DialError : Type 0 where
  no_session prefers_l3_tunnel not_a_resource no_node dial_failed deadline_failed : DialError
  invalid_sign_key marshal_failed write_failed : DialError
  handshake_failed : HandshakeError → DialError

abbrev nothing_selected : Selected
nothing_selected = record { app_id = ""; node_group_id = ""; domain = ""; addr_pretend = true }

abbrev of_domain : TcpFlow → DomainResource → Selected
of_domain flow resource = record {
  app_id = resource.app_id;
  node_group_id = resource.node_group_id;
  domain = elim flow.resolve_host [ some host ↦ host | none ↦ "" ];
  addr_pretend = resource.addr_pretend;
}

-- The domain's resource, if the context has one and its application has a name; else the address's.
abbrev of_address : Node → TcpFlow → NetIp → ℤ → Selected → Selected
of_address index flow ip port selected =
    if selected.app_id == ""
    then elim (match_tcp_ip_resource index ip port flow.ignore_tcp_pref_l3) [
      | some resource ↦ record selected {
        app_id = resource.app_id;
        node_group_id = resource.node_group_id;
        domain = "";
      }
      | none ↦ selected
    ]
    else selected

abbrev named : Selected → Outcome DialError Selected
named selected = if selected.app_id == "" then err not_a_resource else ok selected

unfoldable pub select_resource : Node → TcpFlow → NetIp → ℤ → Outcome DialError Selected
unfolding match_tcp_ip_resource
select_resource index flow ip port = elim flow.domain_resource [
  | some resource ↦
      if resource.enable_tcp_pref_l3 && not flow.ignore_tcp_pref_l3
      then err prefers_l3_tunnel
      else named (of_address index flow ip port (of_domain flow resource))
  | none ↦ named (of_address index flow ip port nothing_selected)
]

-- A Go map of texts, whose missing keys give "".
abbrev text_at : List (String × String) → String → String
text_at entries key = elim (lookup key entries) [ some text ↦ text | none ↦ "" ]

-- The node of the group, or of the major group; "" is no node.
unfoldable pub node_address : List (String × String) → String → String → String
node_address best_nodes major_node_group node_group_id =
    if text_at best_nodes node_group_id == ""
    then text_at best_nodes major_node_group
    else text_at best_nodes node_group_id

unfoldable pub tcp_tunnel_real_dst_host : (NetIp → String) → NetIp → String → Bool → String
tcp_tunnel_real_dst_host ip_string ip domain addr_pretend =
    if addr_pretend && not (domain == "") then domain else ip_string ip

-- `destAddr` and `destIP`
unfoldable pub tcp_tunnel_auth_destinations :
    (String → ℕ → String) → String → ℕ → String → Bool → String × String
tcp_tunnel_auth_destinations join_host_port real_dst_host port domain addr_pretend =
    if not addr_pretend && not (domain == "")
    then (join_host_port domain port, real_dst_host)
    else (join_host_port real_dst_host port, "")
