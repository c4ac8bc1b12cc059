-- ===== src/Dial/Decision.antt =====
-- The dialer's decision against the server's resource list itself: no index, no order of the checks.
use Prim.Native.String.{String}
use distrust_core.NetIp.{NetIp, ipv4_uint32}
use distrust_core.Client.{
  IpResource, DomainResource, match_domain_resource, match_domain_resource_where,
  domain_rule_matches,
}
use distrust_core.IpIndex.{new, match_first, match_where, match_index}
use distrust_core.IpIndex.Lookup.{serves, first_such, chosen, match_index-chosen, query}
use distrust_core.Dial.{
  Flow, Route, Chosen, direct, tunnel_tcp, tunnel_udp, new_dialer, match_domain_resource_for_tunnel,
  match_ip_resource_for_tunnel, choose, decide, dial_ip_port, is_chosen, is_some, first_of,
  HostAddr, host_addr_of,
}
use distrust_core.Base.{
  ℕ, ◌≤◌, ◌≡◌, refl, sym, ap, ◌∙◌, Bool, true, false, not, ◌&&◌, ◌||◌, Option, none, some, List, [],
  ◌∷◌, arith, ltb, if◌then◌else◌, ◌==◌, Comparable_nat, Comparable_string, length, ℤ, then_some,
}

abbrev pub any {ℓ} : {A : Type ℓ} → (A → Bool) → List A → Bool
any p [] = false
any p (x ∷ xs) = p x || any p xs

is_some-match_domain_resource_where :
    (rs : List DomainResource) (network : String) (port : ℤ)
    → is_some (match_domain_resource_where rs network port none)
      ≡ any (domain_rule_matches network port) rs
unfolding match_domain_resource_where
is_some-match_domain_resource_where [] network port = refl
is_some-match_domain_resource_where (r ∷ rs) network port =
    ground (arith, is_some-match_domain_resource_where rs network port)

accepted_domain :
    (rs : List DomainResource) (network : String) (port : ℤ)
    (accept : Option (DomainResource → Bool))
    → is_some (match_domain_resource_where rs network port accept) ≡ true
    → any (domain_rule_matches network port) rs ≡ true
unfolding match_domain_resource_where
accepted_domain [] network port accept h = ground arith
accepted_domain (r ∷ rs) network port accept h =
    ground (arith, accepted_domain rs network port accept)

-- A preferred answer that has the ordinary one as its fallback is there when the ordinary one is.
is_some-first_of :
    {A : Type 0} (preferred : Bool) (a b : Option A) (t : Bool)
    → (is_some a ≡ true → t ≡ true)
    → is_some b ≡ t
    → is_some (first_of (if preferred then a else none) b) ≡ t
is_some-first_of true none b t h k = k
is_some-first_of true (some a) b t h k = sym (h refl)
is_some-first_of false a b t h k = k

is_some-match_domain_resource_for_tunnel :
    (rs : List DomainResource) (network : String) (port : ℤ)
    → is_some (match_domain_resource_for_tunnel rs network port)
      ≡ any (domain_rule_matches network port) rs
unfolding match_domain_resource_for_tunnel match_domain_resource
is_some-match_domain_resource_for_tunnel rs network port =
    is_some-first_of (network == "tcp")
      (match_domain_resource_where rs network port (some (λ r. not r.enable_tcp_pref_l3)))
      (match_domain_resource_where rs network port none) (any (domain_rule_matches network port) rs)
      (accepted_domain rs network port (some (λ r. not r.enable_tcp_pref_l3)))
      (is_some-match_domain_resource_where rs network port)

is_some-first_such :
    {A : Type 0} (p : A → Bool) (xs : List A) → is_some (first_such p xs) ≡ any p xs
unfolding first_such
is_some-first_such p [] = refl
is_some-first_such p (x ∷ xs) = ground (arith, is_some-first_such p xs)

any-implies :
    {A : Type 0} (p q : A → Bool) (xs : List A)
    → ((x : A) → p x ≡ true → q x ≡ true)
    → any p xs ≡ true
    → any q xs ≡ true
any-implies p q [] h k = k
any-implies p q (x ∷ xs) h k = ground (arith, h x, any-implies p q xs h)

serves-accepted :
    (ip : ℕ) (network : String) (port : ℤ) (f : IpResource → Bool) (r : IpResource)
    → serves (query ip network port false (some f)) r ≡ true
    → serves (query ip network port false none) r ≡ true
unfolding serves
serves-accepted ip network port f r h = ground arith

-- Does the server's list have a resource for the destination, if that is an IPv4 address?
unfoldable pub serves_any : List IpResource → String → ℤ → Option ℕ → Bool
serves_any rs network port none = false
serves_any rs network port (some ip) = any (serves (query ip network port false none)) rs

unfoldable pub has_ip_resource : List IpResource → NetIp → String → ℤ → Bool
unfolding serves_any
has_ip_resource rs target network port = serves_any rs network port (ipv4_uint32 target)

is_some-chosen :
    (rs : List IpResource) (network : String) (port : ℤ) (ip : Option ℕ)
    → is_some (then_some ip (λ a. chosen (query a network port false none) rs))
      ≡ serves_any rs network port ip
unfolding serves_any chosen
is_some-chosen rs network port none = refl
is_some-chosen rs network port (some ip) =
    is_some-first_such (serves (query ip network port false none)) rs

chosen_accepted :
    (rs : List IpResource) (network : String) (port : ℤ) (f : IpResource → Bool) (ip : Option ℕ)
    → is_some (then_some ip (λ a. chosen (query a network port false (some f)) rs)) ≡ true
    → serves_any rs network port ip ≡ true
unfolding serves_any chosen
chosen_accepted rs network port f none h = h
chosen_accepted rs network port f (some ip) h =
    any-implies (serves (query ip network port false (some f)))
      (serves (query ip network port false none)) rs (serves-accepted ip network port f)
      (sym (is_some-first_such (serves (query ip network port false (some f))) rs) ∙ h)

is_some-match_ip_resource_for_tunnel :
    (rs : List IpResource) (target : NetIp) (network : String) (port : ℤ)
    → is_some (match_ip_resource_for_tunnel (new rs) target network port)
      ≡ has_ip_resource rs target network port
unfolding match_ip_resource_for_tunnel has_ip_resource match_where match_first
is_some-match_ip_resource_for_tunnel rs target network port =
    let prefers : IpResource → Bool = λ r. not r.enable_tcp_pref_l3 in
    is_some-first_of (network == "tcp")
      (match_index (new rs) target network port false (some prefers))
      (match_index (new rs) target network port false none)
      (serves_any rs network port (ipv4_uint32 target))
      (λ h.
        chosen_accepted rs network port prefers (ipv4_uint32 target)
          (sym (ap is_some (match_index-chosen rs target network port false (some prefers))) ∙ h))
      (ap is_some (match_index-chosen rs target network port false none)
        ∙ is_some-chosen rs network port (ipv4_uint32 target))

-- The rule: did the server issue a resource for the flow, for its domain or for its address?
unfoldable pub domain_issued : Option (List DomainResource) → String → ℤ → Bool
domain_issued none network port = false
domain_issued (some rs) network port = any (domain_rule_matches network port) rs

unfoldable pub ip_issued : Option (List IpResource) → NetIp → String → ℤ → Bool
ip_issued none target network port = false
ip_issued (some rs) target network port = has_ip_resource rs target network port

abbrev pub is_issued : Option (List IpResource) → Flow → NetIp → String → ℤ → Bool
is_issued resources flow target network port =
    domain_issued flow.domain_resources network port || ip_issued resources target network port

is_some-domain :
    (resources : Option (List DomainResource)) (network : String) (port : ℤ)
    → is_some (then_some resources (λ rs. match_domain_resource_for_tunnel rs network port))
      ≡ domain_issued resources network port
unfolding domain_issued
is_some-domain none network port = refl
is_some-domain (some rs) network port = is_some-match_domain_resource_for_tunnel rs network port

is_some-ip :
    (resources : Option (List IpResource)) (always : Bool) (http socks : String) (target : NetIp)
    (network : String) (port : ℤ)
    → let d = new_dialer resources always http socks in
      is_some (
        then_some d.ip_resources
          (λ rs. match_ip_resource_for_tunnel d.resource_index target network port))
      ≡ ip_issued resources target network port
unfolding ip_issued new_dialer
is_some-ip none always http socks target network port = refl
is_some-ip (some rs) always http socks target network port =
    is_some-match_ip_resource_for_tunnel rs target network port

is_chosen-choose :
    (resources : Option (List IpResource)) (always : Bool) (http socks : String) (flow : Flow)
    (target : NetIp) (network : String) (port : ℤ)
    → is_chosen (choose (new_dialer resources always http socks) flow target network port)
      ≡ is_issued resources flow target network port
unfolding choose
is_chosen-choose resources always http socks flow target network port = ground (
  arith,
  is_some-domain flow.domain_resources network port,
  is_some-ip resources always http socks target network port,
)

-- The three ways that a flow can go.
pub data Way : Type 0 where
  by_tunnel by_no_tunnel refused : Way

abbrev pub way : Route → Way
way (direct _) = by_no_tunnel
way (tunnel_tcp _ _ _) = by_tunnel
way (tunnel_udp _ _ _) = by_tunnel
way _ = refused

-- A flow goes by the tunnel only where the server issued a resource for it, or issued no list.
abbrev pub rule : Option (List IpResource) → Bool → Bool → String → Way
rule resources always issued network =
    if issued || always && not (is_some resources)
    then (if network == "tcp" || network == "udp" then by_tunnel else by_no_tunnel)
    else (if always then refused else by_no_tunnel)

way-decide :
    (resources : Option (List IpResource)) (always : Bool) (http socks network ip_addr : String)
    (host_addr : HostAddr) (target : NetIp) (port : ℤ) (chosen_ : Chosen)
    → way (
        decide
          (new_dialer resources always http socks)
          network
          ip_addr
          host_addr
          target
          port
          chosen_)
      ≡ rule resources always (is_chosen chosen_) network
unfolding decide new_dialer
way-decide resources always http socks network ip_addr host_addr target port chosen_ = ground arith

-- Where an address is an IPv4 address and a port, with at most one colon, the dialer's decision is the
-- rule applied to the lists of the server themselves: a flow that a domain's or an address's resource
-- covers, or that is forced into the tunnel where there is no list, goes by the tunnel if it is TCP or
-- UDP and directly otherwise; another flow is refused if it is forced into the tunnel, and goes
-- directly if not.
pub way-dial_ip_port :
    (split_colon : String → List String) (split_host_port : String → Option (String × String))
    (atoi : String → Option ℤ) (parse_ip : String → Option NetIp)
    (resources : Option (List IpResource)) (always : Bool) (http socks : String) (flow : Flow)
    (network ip_addr ip port_text : String) (port : ℤ) (target : NetIp)
    → length (split_colon ip_addr) ≤ 2
    → split_host_port ip_addr ≡ some (ip, port_text)
    → atoi port_text ≡ some port
    → parse_ip ip ≡ some target
    → way (
        dial_ip_port split_colon split_host_port atoi parse_ip
          (new_dialer resources always http socks)
          flow
          network
          ip_addr)
      ≡ rule resources always (is_issued resources flow target network port) network
unfolding dial_ip_port
way-dial_ip_port split_colon split_host_port atoi parse_ip resources always http socks flow network
      ip_addr ip port_text port target few split number parsed =
    let d = new_dialer resources always http socks in
    let host_addr = host_addr_of flow.resolve_host (split_colon ip_addr) in
    let few_colons : ltb 2 (length (split_colon ip_addr)) ≡ false = ground arith in
    let decided : dial_ip_port split_colon split_host_port atoi parse_ip d flow network ip_addr
        ≡ decide d network ip_addr host_addr target port (choose d flow target network port) =
      rw (few_colons, dial_ip_port) (rw split (rw number (rw parsed refl))) in
    ap way decided
    ∙ way-decide resources always http socks network ip_addr host_addr target port
        (choose d flow target network port)
    ∙ ap (λ (b : Bool). rule resources always b network)
        (is_chosen-choose resources always http socks flow target network port)
