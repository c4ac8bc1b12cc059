-- ===== src/Resolve/Selected.antt =====
-- resolve/resolver.go: which address Resolve selects among the candidates.
use distrust_core.NetIp.{NetIp}
use distrust_core.Resolve.Candidates.{Resolution, resolved, Gathering}
use distrust_core.Base.{
  ◌≡◌, ◌⊎◌, Bool, false, Option, none, some, List, Comparable_nat, Comparable_string,
}
use distrust_core.Resolve.Gathered.{first_of, is_address, prefers, Gathers}

module _ (equal : NetIp → NetIp → Bool) (preferred_ip : Option (NetIp → Bool))
    (ctx_ended : Bool) where
  -- The answer of the loop: the first preferred address of all, or the first of all.
  abbrev Answers : List NetIp → Option Resolution → Type 0
  Answers all_ (some (resolved ip)) =
      (first_of (prefers equal preferred_ip ctx_ended) all_ ≡ some ip)
      ⊎ ((prefers equal preferred_ip ctx_ended) ip ≡ false) × (first_of is_address all_ ≡ some ip)
  Answers all_ _ = Unit

  -- One turn of the loop.
  abbrev Moves : List NetIp → Option Resolution × Gathering → Type 0
  Moves seen (some (resolved ip), _) =
      first_of (prefers equal preferred_ip ctx_ended) seen ≡ some ip
  Moves seen (some _, _) = Unit
  Moves seen (none, g) = Gathers equal preferred_ip ctx_ended seen g.candidates
