-- ===== src/Resolve/Examples.antt =====
-- Concrete runs of the resolver.
use Prim.Native.String.{String}
use distrust_core.Client.{DomainResource}
use distrust_core.Resolve.DomainIndex.{new_domain_resource_index, match_host, answer, reverse_onto}
use distrust_core.Resolve.DomainRules.{covering, match_host-covering}
use distrust_core.NetIp.{NetIp, ipv4}
use distrust_core.Resolve.Race.{
  udp_result, tcp_result, timer_fires, lookup_ip_with_tcp_fallback,
  lookup_ip_with_tcp_fallback-ends,
}
use distrust_core.Resolve.Candidates.{LookupEvent, result_of, window_ends, resolve_candidates}
use distrust_core.Resolve.Answering.{resolve_candidates-ends}
use distrust_core.Resolve.Coordination.{
  Resolutions, no_resolutions, join_resolution, release_resolution_waiter, Reach, starts, goes,
  joins, releases,
}
use distrust_core.Resolve.Sharing.{Reach-unawaited}
use distrust_core.Base.{
  ℕ, ◌<◌, ◌≡◌, refl, ◌≢◌, ◌⊎◌, Bool, true, false, none, some, List, [], ◌∷◌, ◌++◌, arith,
  Comparable_nat, Comparable_string, pos, lookup, insert, Bytes,
}

abbrev rule : List DomainResource
rule =
    record {
      port_min = pos 1;
      port_max = pos 443;
      protocol = "tcp";
      app_id = "app";
      node_group_id = "g";
      enable_tcp_pref_l3 = false;
      addr_pretend = true;
    }
    ∷ []

-- `*.b` and `a.b`
abbrev rules : List (Bytes × List DomainResource)
rules = (42 ∷ 46 ∷ 98 ∷ [], rule) ∷ (97 ∷ 46 ∷ 98 ∷ [], rule) ∷ []

-- The host `a.b`
abbrev host : Bytes
host = 97 ∷ 46 ∷ 98 ∷ []

match_host-covering_example :
    match_host (new_domain_resource_index (λ name. name) rules) host
    ≡ answer (covering (λ name. name) rules [] (reverse_onto host []))
match_host-covering_example = match_host-covering (λ name. name) rules host

host_lem :
    match_host (new_domain_resource_index (λ name. name) rules) host ≡ some (host, rule ++ rule)
unfolding match_host new_domain_resource_index
host_lem = refl

-- TCP is started by the timer and fails; then UDP fails.
lookup_ip_with_tcp_fallback-ends_example :
    lookup_ip_with_tcp_fallback
      ((timer_fires ∷ tcp_result none ∷ []) ++ (udp_result none ∷ tcp_result none ∷ []))
    ≢ none
lookup_ip_with_tcp_fallback-ends_example =
    lookup_ip_with_tcp_fallback-ends (timer_fires ∷ tcp_result none ∷ []) none none

abbrev never_equal : NetIp → NetIp → Bool
never_equal a b = false

abbrev answers_first : List LookupEvent
answers_first =
    result_of "remote" none
    ∷ window_ends
    ∷ result_of "system" (some (ipv4 10 0 0 1 ∷ ipv4 10 0 0 2 ∷ []))
    ∷ []

resolve_candidates-ends_example :
    resolve_candidates never_equal none false [] 2 false true answers_first ≢ none
resolve_candidates-ends_example =
    resolve_candidates-ends never_equal none false [] 2 false true answers_first (omega arith)

-- Two goroutines look up one host, and one of them gives up.
abbrev joined : Resolutions
joined = join_resolution "a.b" (join_resolution "a.b" no_resolutions)

joined-Reach : Reach joined
joined-Reach = goes _ _ (goes _ _ starts (joins "a.b" no_resolutions)) (joins "a.b" _)

two_wait : 0 < joined.waiting 0
unfolding join_resolution no_resolutions lookup insert
two_wait = omega arith

abbrev one_left : Resolutions
one_left = release_resolution_waiter 0 joined

one_left-Reach : Reach one_left
one_left-Reach = goes _ _ joined-Reach (releases 0 joined two_wait)

Reach-unawaited_example :
    ((call : ℕ)
      → one_left.is_cancelled call ≡ true
      → (one_left.is_done call ≡ true) ⊎ (one_left.waiting call ≡ 0) ⊎ (one_left.closed ≡ true))
    × ((host : String) (call : ℕ)
        → lookup host one_left.resolutions ≡ some call
        → (one_left.waiters call ≡ one_left.waiting call)
          × (0 < one_left.waiting call)
          × (one_left.is_done call ≡ false)
          × (one_left.is_cancelled call ≡ false))
Reach-unawaited_example = Reach-unawaited one_left one_left-Reach
