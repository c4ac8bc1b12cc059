-- ===== src/IpPool.antt =====
-- internal/ippool/ippool.go: the pool of fake IPs that the resolver hands out for domains.
-- The mutex makes each method one step. Map entries are never changed after they are stored, so the
-- two maps hold them by value.
pub mod Invariant
mod Examples
use Prim.Native.String.{String}
use distrust_core.NetIp.{NetIp, to4, ipv4_uint32, uint32_of, uint32_to_ip}
use distrust_core.Base.{
  ℕ, zero, suc, ◌+◌, ◌-◌, ◌*◌, ◌/◌, ◌%◌, ◌^◌, ◌≤◌, ◌<◌, ◌≡◌, refl, sym, ap, ◌∙◌, subst, ◌≢◌, ◌↔◌,
  ◌⊎◌, inl, inr, Bool, true, false, not, ◌&&◌, ◌||◌, Option, none, some, List, [], ◌∷◌, ◌++◌, map,
  arith, ltb→lt, leb→le, ltb, leb, nat_beq, if◌then◌else◌, ◌==◌, Comparable_nat, Comparable_string,
  ==_self, Bool-cases, Option-cases, length, get_elem?, set, take, drop, All, length-append,
  length-take, length-drop, length-set, take-append-drop, take-append_length, drop-append_length,
  All-append, ℤ, pos, negsuc, leb_ℤ, Outcome, ok, err, panic, ◌>>=◌, ◌>>◌, guard, or_panic, or_err,
  then_some, lookup, insert, remove, lookup-insert, lookup-remove, length-insert,
  length-insert_present, length-remove, length-remove_present, Bytes, IsByte, AreBytes, join16,
  join32, be16, be32, slice, get16,
}

pub record Entry (T : Type 0) : Type 0 where
  pub ip_uint : ℕ  -- uint32
  pub domain : String
  pub resource : T

pub record IpPool (T : Type 0) : Type 0 where
  pub domain_to_ip : List (String × Entry T)
  pub ip_to_domain : List (ℕ × Entry T)
  pub min_ip : ℕ  -- uint32
  pub max_ip : ℕ  -- uint32
  pub current_ip : ℕ  -- uint32

module _ {T : Type 0} where
  -- `NewIPPool`, from what `net.ParseCIDR` returns: the network's address and the mask's sizes,
  -- or `none` for its error. A shift by 32 or more gives 0.
  unfoldable pub new_ip_pool : Option (NetIp × ℕ × ℕ) → Option (IpPool T)
  new_ip_pool parsed = then_some parsed λ (ip, ones, bits). then_some (uint32_of ip) λ min_ip.
      some (record {
        domain_to_ip = [];
        ip_to_domain = [];
        min_ip = min_ip;
        max_ip = (min_ip + 2 ^ (bits - ones) % 2 ^ 32 + 2 ^ 32 - 1) % 2 ^ 32;
        current_ip = (min_ip + 2) % 2 ^ 32;
      })

  -- Both maps get the entry.
  unfoldable pub store : IpPool T → ℕ → String → T → IpPool T
  store p ip domain res =
      let e : Entry T = record { ip_uint = ip; domain = domain; resource = res } in
      record p {
        domain_to_ip = insert domain e p.domain_to_ip;
        ip_to_domain = insert ip e p.ip_to_domain;
      }

  -- `none` is the error for an address that is not IPv4.
  unfoldable pub set_ip_domain : IpPool T → NetIp → String → T → Option (IpPool T)
  unfolding store
  set_ip_domain p ip domain res =
      then_some (ipv4_uint32 ip) λ ip_uint. some (store p ip_uint domain res)

  -- `none` is the panic of an exhausted range.
  unfoldable pub generate_ip : IpPool T → String → T → Option (IpPool T × NetIp)
  unfolding store
  generate_ip p domain res = elim (lookup domain p.domain_to_ip) [
    | some e ↦ some (p, uint32_to_ip e.ip_uint)
    | none ↦
        if ltb p.max_ip p.current_ip
        then none
        else some (
          record (store p p.current_ip domain res) { current_ip = (p.current_ip + 1) % 2 ^ 32 },
          uint32_to_ip p.current_ip,
        )
  ]

  unfoldable pub get_domain : IpPool T → NetIp → Option (String × T)
  get_domain p ip =
      then_some (ipv4_uint32 ip)
        λ ip_uint. then_some (lookup ip_uint p.ip_to_domain) λ e. some (e.domain, e.resource)

  -- The addresses as bytes: the source prints them.
  unfoldable pub snapshot : IpPool T → List (String × NetIp)
  snapshot p = map (λ (d, e). (d, uint32_to_ip (Entry.ip_uint e))) p.domain_to_ip

  unfoldable pub clear : IpPool T → IpPool T
  clear p = record p { domain_to_ip = []; ip_to_domain = []; current_ip = (p.min_ip + 2) % 2 ^ 32 }
