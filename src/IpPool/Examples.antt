-- ===== src/IpPool/Examples.antt =====
-- The pool of the resolver, 198.18.0.0/16, on concrete domains.
use Prim.Native.String.{String}
use distrust_core.NetIp.{NetIp, uint32_to_ip}
use distrust_core.IpPool.{Entry, IpPool, new_ip_pool, store, generate_ip}
use distrust_core.IpPool.Invariant.{
  IsConsistent, IsFresh, generates, here, next, Reach-distinct_fakes, generate_ip-IsFresh,
  new_ip_pool-IsConsistent,
}
use distrust_core.Base.{
  ℕ, ◌≤◌, ◌<◌, ◌≡◌, ◌⊎◌, refl, none, some, [], ◌∷◌, arith, Comparable_nat, Comparable_string,
  lookup, insert,
}

abbrev network : NetIp
network = 198 ∷ 18 ∷ 0 ∷ 0 ∷ []

abbrev fresh_pool : IpPool ℕ
fresh_pool = record {
  domain_to_ip = [];
  ip_to_domain = [];
  min_ip = 3323068416;
  max_ip = 3323133951;
  current_ip = 3323068418;
}

fresh_pool_lem : new_ip_pool (some (network, 16, 32)) ≡ some fresh_pool
unfolding new_ip_pool
fresh_pool_lem = refl

abbrev one : IpPool ℕ
one = record {
  domain_to_ip = ("a.edu", record { ip_uint = 3323068418; domain = "a.edu"; resource = 7 }) ∷ [];
  ip_to_domain = (3323068418, record { ip_uint = 3323068418; domain = "a.edu"; resource = 7 }) ∷ [];
  min_ip = 3323068416;
  max_ip = 3323133951;
  current_ip = 3323068419;
}

generate_one : generate_ip fresh_pool "a.edu" 7 ≡ some (one, uint32_to_ip 3323068418)
unfolding generate_ip store lookup insert
generate_one = refl

fresh_pool-IsConsistent : IsConsistent fresh_pool
fresh_pool-IsConsistent =
    new_ip_pool-IsConsistent network 3323068416 16 32 fresh_pool refl (omega arith) (omega arith)
      fresh_pool_lem

generate_ip-IsFresh_example :
    (fresh_pool.current_ip ≤ fresh_pool.max_ip)
      × ((q : IpPool ℕ) × (ip : NetIp) × (generate_ip fresh_pool "a.edu" 7 ≡ some (q, ip))
          × IsFresh fresh_pool "a.edu" 7 (q, ip))
    ⊎ (fresh_pool.max_ip < fresh_pool.current_ip) × (generate_ip fresh_pool "a.edu" 7 ≡ none)
generate_ip-IsFresh_example =
    generate_ip-IsFresh fresh_pool "a.edu" 7 fresh_pool-IsConsistent (unfold lookup in refl)

abbrev entry_a : Entry ℕ
entry_a = record { ip_uint = 3323068418; domain = "a.edu"; resource = 7 }

Reach-distinct_fakes_example : ◌≡◌ {A = String} "a.edu" "a.edu"
unfolding lookup
Reach-distinct_fakes_example =
    Reach-distinct_fakes network 3323068416 16 32 fresh_pool one "a.edu" "a.edu" entry_a entry_a
      refl (omega arith) (omega arith) fresh_pool_lem
      (next here (generates "a.edu" 7 one (uint32_to_ip 3323068418) generate_one)) refl refl
      (omega arith) refl
