-- ===== src/Client.antt =====
-- client/client.go: the resources that the server issues, and the first-match rule for a domain's.
use Prim.Native.String.{String}
use distrust_core.NetIp.{NetIp}
use distrust_core.Base.{
  Bool, true, ◌&&◌, ◌||◌, Option, none, some, List, [], ◌∷◌, if◌then◌else◌, ◌==◌, Comparable_nat,
  Comparable_string, ℤ, leb_ℤ,
}

pub record IpResource : Type 0 where
  pub ip_min : NetIp
  pub ip_max : NetIp
  pub port_min : ℤ
  pub port_max : ℤ
  pub protocol : String
  pub app_id : String
  pub node_group_id : String
  pub enable_tcp_pref_l3 : Bool

pub record DomainResource : Type 0 where
  pub port_min : ℤ
  pub port_max : ℤ
  pub protocol : String
  pub app_id : String
  pub node_group_id : String
  pub enable_tcp_pref_l3 : Bool
  pub addr_pretend : Bool

-- `accept == nil || accept(resource)`
abbrev pub accepts : {A : Type 0} → Option (A → Bool) → A → Bool
accepts none r = true
accepts (some f) r = f r

unfoldable pub domain_rule_matches : String → ℤ → DomainResource → Bool
domain_rule_matches network port resource =
    (resource.protocol == network || resource.protocol == "all")
    && (network == "icmp" || leb_ℤ resource.port_min port && leb_ℤ port resource.port_max)

unfoldable pub match_domain_resource_where :
    List DomainResource → String → ℤ → Option (DomainResource → Bool) → Option DomainResource
match_domain_resource_where [] network port accept = none
match_domain_resource_where (resource ∷ rest) network port accept =
    if domain_rule_matches network port resource && accepts accept resource
    then some resource
    else match_domain_resource_where rest network port accept

unfoldable pub match_domain_resource : List DomainResource → String → ℤ → Option DomainResource
match_domain_resource resources network port =
    match_domain_resource_where resources network port none
