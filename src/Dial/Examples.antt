-- ===== src/Dial/Examples.antt =====
-- A dialer that is forced into the tunnel, with one resource, on an address that it covers.
use Prim.Native.String.{String}
use distrust_core.NetIp.{NetIp, ipv4_uint32, to4}
use distrust_core.Client.{IpResource}
use distrust_core.IpIndex.Lookup.{serves}
use distrust_core.Dial.{Flow, new_dialer, dial_ip_port}
use distrust_core.Dial.Decision.{
  by_tunnel, refused, way, rule, is_issued, way-dial_ip_port, domain_issued, ip_issued,
  has_ip_resource, serves_any,
}
use distrust_core.Base.{
  ◌≡◌, refl, true, false, Option, none, some, List, [], ◌∷◌, arith, if◌then◌else◌, ◌==◌,
  Comparable_nat, Comparable_string, ℤ, pos,
}

abbrev web : IpResource
web = record {
  ip_min = 10 ∷ 0 ∷ 0 ∷ 0 ∷ [];
  ip_max = 10 ∷ 0 ∷ 255 ∷ 255 ∷ [];
  port_min = pos 80;
  port_max = pos 80;
  protocol = "tcp";
  app_id = "web";
  node_group_id = "g";
  enable_tcp_pref_l3 = false;
}

abbrev flow_one : Flow
flow_one = record { resolve_host = none; domain_resources = none }

-- How the libraries take "10.0.0.5:80" and "10.0.0.5:81" apart; other texts do not occur.
abbrev split_one : String → List String
split_one s = "10.0.0.5" ∷ (if s == "10.0.0.5:80" then "80" else "81") ∷ []

abbrev host_port_one : String → Option (String × String)
host_port_one s = some ("10.0.0.5", if s == "10.0.0.5:80" then "80" else "81")

abbrev atoi_one : String → Option ℤ
atoi_one s = some (if s == "80" then pos 80 else pos 81)

abbrev parse_one : String → Option NetIp
parse_one s = some (10 ∷ 0 ∷ 0 ∷ 5 ∷ [])

way-dial_ip_port_example :
    way (
      dial_ip_port split_one host_port_one atoi_one parse_one
        (new_dialer (some (web ∷ [])) true "" "")
        flow_one
        "tcp"
        "10.0.0.5:80")
    ≡ rule
        (some (web ∷ []))
        true
        (is_issued (some (web ∷ [])) flow_one (10 ∷ 0 ∷ 0 ∷ 5 ∷ []) "tcp" (pos 80))
        "tcp"
way-dial_ip_port_example =
    way-dial_ip_port split_one host_port_one atoi_one parse_one (some (web ∷ [])) true "" ""
      flow_one "tcp" "10.0.0.5:80" "10.0.0.5" "80" (pos 80) (10 ∷ 0 ∷ 0 ∷ 5 ∷ []) (omega arith) refl
      refl refl

-- The rule sends port 80 by the tunnel and refuses port 81.
rule_80 :
    rule
      (some (web ∷ []))
      true
      (is_issued (some (web ∷ [])) flow_one (10 ∷ 0 ∷ 0 ∷ 5 ∷ []) "tcp" (pos 80))
      "tcp"
    ≡ by_tunnel
unfolding domain_issued ip_issued has_ip_resource serves_any serves ipv4_uint32 to4
rule_80 = refl

rule_81 :
    rule
      (some (web ∷ []))
      true
      (is_issued (some (web ∷ [])) flow_one (10 ∷ 0 ∷ 0 ∷ 5 ∷ []) "tcp" (pos 81))
      "tcp"
    ≡ refused
unfolding domain_issued ip_issued has_ip_resource serves_any serves ipv4_uint32 to4
rule_81 = refl
