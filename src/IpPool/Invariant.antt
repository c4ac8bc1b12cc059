-- ===== src/IpPool/Invariant.antt =====
-- Fake addresses stay distinct, and lead back to their domain, over every history of the pool.
use Prim.Native.String.{String}
use mathlib.Core.Option.{some-injective}
use text.Mathlib.TextEquality.{eq_iff}
use distrust_core.NetIp.{NetIp, uint32_of, ipv4_uint32, uint32_to_ip, ipv4_uint32-uint32_to_ip}
use distrust_core.IpPool.{
  Entry, IpPool, new_ip_pool, store, set_ip_domain, generate_ip, get_domain, clear,
}
use distrust_core.Base.{
  ℕ, ◌+◌, ◌-◌, ◌%◌, ◌^◌, ◌≤◌, ◌<◌, ◌≡◌, refl, ap, ◌⊎◌, inl, inr, none, some, arith, ltb,
  Comparable_nat, Comparable_string, ==_self, Bool-cases, Option-cases, lookup, lookup-insert,
}

module _ {T : Type 0} where
  -- The addresses that the pool generates.
  abbrev pub IsFake : IpPool T → ℕ → Type 0
  IsFake p ip = (p.min_ip + 2 ≤ ip) × (ip ≤ p.max_ip)

  pub record IsConsistent (p : IpPool T) : Type 0 where
    pub below_top : p.max_ip + 1 < 2 ^ 32
    pub started : p.min_ip + 2 ≤ p.current_ip
    pub small : p.current_ip < 2 ^ 32
    pub owned :
        (d : String) (e : Entry T)
        → lookup d p.domain_to_ip ≡ some e
        → IsFake p e.ip_uint
        → (e.domain ≡ d) × (e.ip_uint < p.current_ip) × (lookup e.ip_uint p.ip_to_domain ≡ some e)

  -- One call of the pool. The addresses that the server's policy sets lie outside the fake range.
  pub data Step (p : IpPool T) : IpPool T → Type 0 where
    sets :
        (ip : NetIp) (d : String) (res : T) (q : IpPool T) (n : ℕ)
        → ipv4_uint32 ip ≡ some n
        → ¬ IsFake p n
        → set_ip_domain p ip d res ≡ some q
        → Step p q
    generates :
        (d : String) (res : T) (q : IpPool T) (ip : NetIp)
        → generate_ip p d res ≡ some (q, ip)
        → Step p q
    clears : (q : IpPool T) → clear p ≡ q → Step p q

  abbrev new_entry : ℕ → String → T → Entry T
  new_entry n d res = record { ip_uint = n; domain = d; resource = res }

  store-IsConsistent_real :
      (p : IpPool T) (n : ℕ) (d : String) (res : T)
      → ¬ IsFake p n
      → IsConsistent p
      → IsConsistent (store p n d res)
  unfolding store
  store-IsConsistent_real p n d res real c = record {
    below_top = c.below_top;
    started = c.started;
    small = c.small;
    owned = λ d' e found fake. ground (
      arith,
      lookup-insert d d' (new_entry n d res) p.domain_to_ip,
      lookup-insert n e.ip_uint (new_entry n d res) p.ip_to_domain,
      c.owned d' e,
      real,
    );
  }

  -- A new domain takes the next address of the range.
  pub generate_new-IsConsistent :
      (p : IpPool T) (d : String) (res : T)
      → p.current_ip ≤ p.max_ip
      → IsConsistent p
      → IsConsistent
          (record (store p p.current_ip d res) { current_ip = (p.current_ip + 1) % 2 ^ 32 })
  unfolding store
  generate_new-IsConsistent p d res room c =
      let next : (p.current_ip + 1) % 2 ^ 32 ≡ p.current_ip + 1 = omega (arith, c.below_top) in
      record {
        below_top = c.below_top;
        started = omega (arith, c.below_top, c.started);
        small = omega (arith, c.below_top);
        owned = λ d' e found fake. ground (
          arith,
          next,
          lookup-insert d d' (new_entry p.current_ip d res) p.domain_to_ip,
          lookup-insert p.current_ip e.ip_uint (new_entry p.current_ip d res) p.ip_to_domain,
          c.owned d' e,
          eq_iff d d',
        );
      }

  pub generate_ip-IsConsistent :
      (p q : IpPool T) (d : String) (res : T) (ip : NetIp)
      → generate_ip p d res ≡ some (q, ip)
      → IsConsistent p
      → IsConsistent q
  unfolding generate_ip
  generate_ip-IsConsistent p q d res ip h c = elim (Option-cases (lookup d p.domain_to_ip)) [
    | inl e ↦ elim (Bool-cases (ltb p.max_ip p.current_ip)) [
      | inl full ↦ absurd (ground arith)
      | inr room ↦
          let made = rw (e, room, generate_ip) at h in
          rw (← ap (λ (r : IpPool T × NetIp). r.0) (some-injective _ _ made))
            (generate_new-IsConsistent p d res (ground arith) c)
    ]
    | inr (e, found) ↦
        let made = rw (found, generate_ip) at h in
        rw (← ap (λ (r : IpPool T × NetIp). r.0) (some-injective _ _ made)) c
  ]

  pub clear-IsConsistent : (p : IpPool T) → IsConsistent p → IsConsistent (clear p)
  unfolding clear lookup
  clear-IsConsistent p c = record {
    below_top = c.below_top;
    started = omega (arith, c.started, c.small);
    small = omega arith;
    owned = λ d e found fake. absurd (ground arith);
  }

  -- Every call of the pool keeps the two maps consistent on the fake range, provided that the
  -- addresses set from outside lie out of that range.
  pub Step-IsConsistent : (p q : IpPool T) → Step p q → IsConsistent p → IsConsistent q
  unfolding set_ip_domain
  Step-IsConsistent p q (sets ip d res _ n e real h) c =
      let made = rw (e, set_ip_domain) at h in
      rw (← some-injective _ _ made) (store-IsConsistent_real p n d res real c)
  Step-IsConsistent p q (generates d res _ ip h) c = generate_ip-IsConsistent p q d res ip h c
  Step-IsConsistent p q (clears _ e) c = rw (← e) (clear-IsConsistent p c)

  pub data Reach (p : IpPool T) : IpPool T → Type 0 where
    here : Reach p p
    next : {q r : IpPool T} → Reach p q → Step q r → Reach p r

  -- A network whose range ends below 255.255.255.255 gives a consistent pool.
  pub new_ip_pool-IsConsistent :
      (ip : NetIp) (min_ip ones bits : ℕ) (p : IpPool T)
      → uint32_of ip ≡ some min_ip
      → 0 < 2 ^ (bits - ones)
      → min_ip + 2 ^ (bits - ones) + 2 < 2 ^ 32
      → new_ip_pool (some (ip, ones, bits)) ≡ some p
      → IsConsistent p
  unfolding new_ip_pool lookup
  new_ip_pool-IsConsistent ip min_ip ones bits p e pos_ below h =
      rw (← some-injective _ _ (rw (e, new_ip_pool) at h)) (record {
        below_top = omega arith;
        started = omega arith;
        small = omega arith;
        owned = λ d x found fake. absurd (ground arith);
      })

  -- In a pool built from a network whose range ends below 255.255.255.255, after any calls that set
  -- only addresses outside the fake range, two domains that hold the same fake address are one.
  pub Reach-distinct_fakes :
      (ip : NetIp) (min_ip ones bits : ℕ) (p q : IpPool T) (d d' : String) (e e' : Entry T)
      → uint32_of ip ≡ some min_ip
      → 0 < 2 ^ (bits - ones)
      → min_ip + 2 ^ (bits - ones) + 2 < 2 ^ 32
      → new_ip_pool (some (ip, ones, bits)) ≡ some p
      → Reach p q
      → lookup d q.domain_to_ip ≡ some e
      → lookup d' q.domain_to_ip ≡ some e'
      → IsFake q e.ip_uint
      → e.ip_uint ≡ e'.ip_uint
      → d ≡ d'
  Reach-distinct_fakes ip min_ip ones bits p q d d' e e' parsed pos_ below made r h h' fake same =
      let c =
        Reach-IsConsistent r
          (new_ip_pool-IsConsistent ip min_ip ones bits p parsed pos_ below made) in
      ground (arith, c.owned d e h fake, c.owned d' e' h')
    where
      Reach-IsConsistent : {p q : IpPool T} → Reach p q → IsConsistent p → IsConsistent q
      Reach-IsConsistent here c = c
      Reach-IsConsistent (next {q} {r} reach s) c =
          Step-IsConsistent q r s (Reach-IsConsistent reach c)

  abbrev generated : IpPool T → String → T → IpPool T
  generated p d res = record (store p p.current_ip d res) {
    current_ip = (p.current_ip + 1) % 2 ^ 32;
  }

  -- What a fresh address promises: it is of the range, leads back to its domain, and is kept.
  abbrev pub IsFresh : IpPool T → String → T → IpPool T × NetIp → Type 0
  IsFresh p d res (q, ip) =
      (get_domain q ip ≡ some (d, res))
      × ((res' : T) → generate_ip q d res' ≡ some (q, ip))
      × IsFake q p.current_ip
      × (ip ≡ uint32_to_ip p.current_ip)

  -- A domain that the pool holds keeps its address.
  generate_ip-known :
      (p : IpPool T) (d : String) (res : T) (e : Entry T)
      → lookup d p.domain_to_ip ≡ some e
      → generate_ip p d res ≡ some (p, uint32_to_ip e.ip_uint)
  unfolding generate_ip
  generate_ip-known p d res e h = rw (h, generate_ip)

  generated-IsFresh :
      (p : IpPool T) (d : String) (res : T)
      → IsConsistent p
      → p.current_ip ≤ p.max_ip
      → IsFresh p d res (generated p d res, uint32_to_ip p.current_ip)
  unfolding get_domain store
  generated-IsFresh p d res c room =
      let e : Entry T = new_entry p.current_ip d res in
      (
        rw (
          ipv4_uint32-uint32_to_ip p.current_ip c.small,
          lookup-insert p.current_ip p.current_ip e p.ip_to_domain,
          ==_self p.current_ip,
        ),
        λ res'.
            generate_ip-known (generated p d res) d res' e
              (rw (lookup-insert d d e p.domain_to_ip, ==_self d)),
        (c.started, room),
        refl,
      )

  -- In a consistent pool, a domain that it does not hold gets an address as long as the range has
  -- one left: an address of the fake range that leads back to the domain and its resource, and asking
  -- again gives the same address and changes nothing. Once the range is exhausted, it panics.
  pub generate_ip-IsFresh :
      (p : IpPool T) (d : String) (res : T)
      → IsConsistent p
      → lookup d p.domain_to_ip ≡ none
      → (p.current_ip ≤ p.max_ip)
          × ((q : IpPool T) × (ip : NetIp) × (generate_ip p d res ≡ some (q, ip))
              × IsFresh p d res (q, ip))
        ⊎ (p.max_ip < p.current_ip) × (generate_ip p d res ≡ none)
  unfolding generate_ip
  generate_ip-IsFresh p d res c absent = elim (Bool-cases (ltb p.max_ip p.current_ip)) [
    | inl full ↦ inr (ground arith, rw (absent, full, generate_ip))
    | inr room ↦
        let fits : p.current_ip ≤ p.max_ip = ground arith in
        inl (
          fits,
          (
            generated p d res,
            uint32_to_ip p.current_ip,
            rw (absent, room, generate_ip),
            generated-IsFresh p d res c fits,
          ),
        )
  ]
