-- ===== src/Dial.antt =====
-- dial/dialer.go: the choice between the tunnel, a direct connection and a refusal. What the dialer
-- then does on a network is its answer, a `Route`. The functions of Go's libraries that take an
-- address apart are parameters, and the context's values are arguments.
pub mod Decision
mod Examples
use Prim.Native.String.{String}
use distrust_core.NetIp.{NetIp}
use distrust_core.Client.{
  IpResource, DomainResource, match_domain_resource, match_domain_resource_where,
}
use distrust_core.IpIndex.{Node, new, match_first, match_where}
use distrust_core.Base.{
  ℕ, zero, suc, ◌+◌, ◌-◌, ◌*◌, ◌/◌, ◌%◌, ◌^◌, ◌≤◌, ◌<◌, ◌≡◌, refl, sym, ap, ◌∙◌, subst, ◌≢◌, ◌↔◌,
  ◌⊎◌, inl, inr, Bool, true, false, not, ◌&&◌, ◌||◌, Option, none, some, List, [], ◌∷◌, ◌++◌, map,
  arith, ltb→lt, leb→le, ltb, leb, nat_beq, if◌then◌else◌, ◌==◌, Comparable_nat, Comparable_string,
  ==_self, Bool-cases, Option-cases, if_both, option_both, length, get_elem?, set, take, drop, All,
  length-append, length-take, length-drop, length-set, take-append-drop, take-append_length,
  drop-append_length, All-append, All-implies, get_elem?-append, drop-append, take-append_le,
  drop-append_le, take-all, append_assoc_list, ℤ, pos, negsuc, leb_ℤ, Outcome, ok, err, panic, ◌>>◌,
  guard, or_panic, or_err, then_some, then_some_gave, lookup, insert, remove, lookup-insert,
  lookup-remove, length-insert, length-insert_present, length-remove, length-remove_present, Bytes,
  IsByte, AreBytes, join16, join32, be16, be32, slice, put, put16, copy_at, get16,
}

-- `hostAddr`: a host, perhaps empty, and the `:port` that was appended to it.
pub record HostAddr : Type 0 where
  pub host : String
  pub suffix : Option String

abbrev pub is_empty_host : HostAddr → Bool
is_empty_host h = h.host == "" && elim h.suffix [ none ↦ true | some _ ↦ false ]

pub data Address : Type 0 where
  ip_address : String → Address
  host_address : HostAddr → Address

-- How a direct connection is made: by the HTTP proxy, by the SOCKS proxy (is the address an IP?), or
-- without one.
pub data Direct : Type 0 where
  http_proxy : Address → Direct
  socks_proxy : Address → Bool → Direct
  no_proxy : Address → Direct

-- The resource that the context passes to the tunnel.
pub data Chosen : Type 0 where
  by_domain : DomainResource → Chosen
  by_ip : IpResource → Chosen
  unchosen : Chosen

pub data Route : Type 0 where
  direct : Direct → Route
  tunnel_tcp tunnel_udp : NetIp → ℤ → Chosen → Route
  denied invalid_address invalid_port : Route

pub record Dialer : Type 0 where
  pub ip_resources : Option (List IpResource)  -- `none` is nil
  pub resource_index : Node
  pub always_use_vpn : Bool
  pub dial_direct_http_proxy : String
  pub dial_direct_socks_proxy : String

abbrev resources_or_nil : Option (List IpResource) → List IpResource
resources_or_nil none = []
resources_or_nil (some rs) = rs

-- `NewDialer`; the text of the proxy's option is taken apart by its prefix before.
unfoldable pub new_dialer : Option (List IpResource) → Bool → String → String → Dialer
new_dialer ip_resources always_use_vpn http socks = record {
  ip_resources = ip_resources;
  resource_index = new (resources_or_nil ip_resources);
  always_use_vpn = always_use_vpn;
  dial_direct_http_proxy = http;
  dial_direct_socks_proxy = socks;
}

-- The values of the context that the dialer reads.
pub record Flow : Type 0 where
  pub resolve_host : Option String
  pub domain_resources : Option (List DomainResource)

unfoldable pub dial_direct_ip : Dialer → String → String → HostAddr → Direct
dial_direct_ip d network ip_addr host_addr =
    if not (d.dial_direct_http_proxy == "") && network == "tcp"
    then http_proxy (if is_empty_host host_addr then ip_address ip_addr else host_address host_addr)
    else (if not (d.dial_direct_socks_proxy == "") && network == "tcp"
        then (if is_empty_host host_addr
            then socks_proxy (ip_address ip_addr) true
            else socks_proxy (host_address host_addr) false)
        else no_proxy (ip_address ip_addr))

unfoldable pub dial_direct_host : Dialer → String → Address → Direct
dial_direct_host d network host_addr =
    if not (d.dial_direct_http_proxy == "") && network == "tcp"
    then http_proxy host_addr
    else (if not (d.dial_direct_socks_proxy == "") && network == "tcp"
        then socks_proxy host_addr false
        else no_proxy host_addr)

abbrev pub first_of {ℓ} : {A : Type ℓ} → Option A → Option A → Option A
first_of (some a) other = some a
first_of none other = other

-- For TCP a resource that does not prefer the L3 tunnel comes first.
unfoldable pub match_domain_resource_for_tunnel :
    List DomainResource → String → ℤ → Option DomainResource
match_domain_resource_for_tunnel resources network port =
    first_of
      (if network == "tcp"
        then match_domain_resource_where resources network port
            (some (λ r. not r.enable_tcp_pref_l3))
        else none)
      (match_domain_resource resources network port)

unfoldable pub match_ip_resource_for_tunnel : Node → NetIp → String → ℤ → Option IpResource
match_ip_resource_for_tunnel index target network port =
    first_of
      (if network == "tcp"
        then match_where index target network port (λ r. not r.enable_tcp_pref_l3)
        else none)
      (match_first index target network port)

-- The resource of the domain, or else of the address where the server issued any.
unfoldable pub choose : Dialer → Flow → NetIp → String → ℤ → Chosen
unfolding match_domain_resource_for_tunnel match_ip_resource_for_tunnel
choose d flow target network port =
    elim (then_some flow.domain_resources λ rs. match_domain_resource_for_tunnel rs network port) [
      | some r ↦ by_domain r
      | none ↦
          elim (then_some d.ip_resources
            λ rs. match_ip_resource_for_tunnel d.resource_index target network port) [
              | some r ↦ by_ip r
              | none ↦ unchosen
            ]
    ]

abbrev pub is_chosen : Chosen → Bool
is_chosen unchosen = false
is_chosen _ = true

abbrev pub is_some {ℓ} : {A : Type ℓ} → Option A → Bool
is_some none = false
is_some (some _) = true

-- From `useVPN` and `matchedResource` on.
unfoldable pub decide : Dialer → String → String → HostAddr → NetIp → ℤ → Chosen → Route
unfolding dial_direct_ip
decide d network ip_addr host_addr target port chosen =
    let here = direct (dial_direct_ip d network ip_addr host_addr) in
    if d.always_use_vpn && not (is_chosen chosen) && is_some d.ip_resources
    then denied
    else (if d.always_use_vpn || is_chosen chosen
        then (if network == "tcp"
            then tunnel_tcp target port chosen
            else (if network == "udp" then tunnel_udp target port chosen else here))
        else here)

abbrev last_of : String → List String → String
last_of s [] = s
last_of s (t ∷ rest) = last_of t rest

-- The host of the context, with the port of the address if that has a colon.
abbrev host_addr_of : Option String → List String → HostAddr
host_addr_of host (s ∷ t ∷ rest) = record {
  host = elim host [ none ↦ "" | some h ↦ h ];
  suffix = some (last_of t rest);
}
host_addr_of host parts = record { host = elim host [ none ↦ "" | some h ↦ h ]; suffix = none }

-- `strings.Split(_, ":")`, `net.SplitHostPort`, `strconv.Atoi` and `net.ParseIP`
module _ (split_colon : String → List String) (split_host_port : String → Option (String × String))
    (atoi : String → Option ℤ) (parse_ip : String → Option NetIp) where
  unfoldable pub dial_ip_port : Dialer → Flow → String → String → Route
  unfolding choose decide
  dial_ip_port d flow network ip_addr =
      let host_addr = host_addr_of flow.resolve_host (split_colon ip_addr) in
      if ltb 2 (length (split_colon ip_addr))
      then direct (dial_direct_ip d network ip_addr host_addr)
      else elim (split_host_port ip_addr) [
        | none ↦ invalid_address
        | some (ip, port_text) ↦ elim (atoi port_text) [
          | none ↦ invalid_port
          | some port ↦ elim (parse_ip ip) [
            | none ↦ direct (dial_direct_ip d network ip_addr host_addr)
            | some target ↦
                decide d network ip_addr host_addr target port (choose d flow target network port)
          ]
        ]
      ]
