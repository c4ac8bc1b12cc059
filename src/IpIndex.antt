-- ===== src/IpIndex.antt =====
-- internal/ipresource/index.go: the interval tree over the server's IP resources.
-- `sort.SliceStable` is a stable insertion sort, the one list that a stable sort can give.
pub mod Scan
pub mod Sorting
pub mod Tree
pub mod Lookup
mod Examples
use Prim.Native.String.{String}
use distrust_core.NetIp.{NetIp, ipv4_uint32}
use distrust_core.Client.{IpResource, accepts}
use distrust_core.Base.{
  ℕ, zero, suc, ◌+◌, ◌-◌, ◌*◌, ◌/◌, ◌%◌, ◌^◌, ◌≤◌, ◌<◌, ◌≡◌, refl, sym, ap, ◌∙◌, subst, ◌≢◌, ◌↔◌,
  ◌⊎◌, inl, inr, Bool, true, false, not, ◌&&◌, ◌||◌, Option, none, some, List, [], ◌∷◌, ◌++◌, map,
  arith, ltb, leb, nat_beq, if◌then◌else◌, ◌==◌, Comparable_nat, Comparable_string, ==_self,
  Bool-cases, Option-cases, length, get_elem?, set, take, drop, All, length-append, length-take,
  length-drop, length-set, take-append-drop, take-append_length, drop-append_length, All-append, ℤ,
  pos, negsuc, leb_ℤ, Outcome, ok, err, panic, ◌>>=◌, ◌>>◌, guard, or_panic, or_err, then_some,
  lookup, insert, remove, lookup-insert, lookup-remove, length-insert, length-insert_present,
  length-remove, length-remove_present, Bytes, IsByte, AreBytes, join16, join32, be16, be32, slice,
  get16,
}

pub record IndexedResource : Type 0 where
  pub resource : IpResource
  pub start : ℕ  -- uint32
  pub end : ℕ  -- uint32
  pub order : ℕ

-- A nil pointer or a node: its resource, maxEnd, left and right.
pub data Node : Type 0 where
  nil : Node
  node : IndexedResource → ℕ → Node → Node → Node

-- What a lookup asks for: the parameters of `match`, the destination as a number.
pub record Query : Type 0 where
  pub ip : ℕ
  pub protocol : String
  pub port : ℤ
  pub prefer_last : Bool
  pub accept : Option (IpResource → Bool)

-- The body of the loop of `New`; `none` is its `continue`.
unfoldable pub index_entry : ℕ → IpResource → Option IndexedResource
index_entry order resource = then_some (ipv4_uint32 resource.ip_min) λ start.
    then_some (ipv4_uint32 resource.ip_max) λ end.
      if ltb end start
      then none
      else some (record { resource = resource; start = start; end = end; order = order })

abbrev cons_some : Option IndexedResource → List IndexedResource → List IndexedResource
cons_some none rest = rest
cons_some (some r) rest = r ∷ rest

unfoldable pub index_from : ℕ → List IpResource → List IndexedResource
index_from order [] = []
index_from order (resource ∷ rest) =
    cons_some (index_entry order resource) (index_from (suc order) rest)

unfoldable pub insert_by_start : IndexedResource → List IndexedResource → List IndexedResource
insert_by_start x [] = x ∷ []
insert_by_start x (y ∷ ys) = if leb x.start y.start then x ∷ y ∷ ys else y ∷ insert_by_start x ys

unfoldable pub sort_by_start : List IndexedResource → List IndexedResource
sort_by_start [] = []
sort_by_start (x ∷ xs) = insert_by_start x (sort_by_start xs)

-- `if child != nil && child.maxEnd > n.maxEnd { n.maxEnd = child.maxEnd }`
abbrev raise_max : Node → ℕ → ℕ
raise_max nil m = m
raise_max (node _ child_max _ _) m = if ltb m child_max then child_max else m

abbrev build_node : Option IndexedResource → Node → Node → Node
build_node none left right = nil
build_node (some r) left right = node r (raise_max right (raise_max left r.end)) left right

-- `build`, on fuel: the length of the slice is enough.
unfoldable pub build_fuel : ℕ → List IndexedResource → Node
build_fuel zero resources = nil
build_fuel (suc fuel) [] = nil
build_fuel (suc fuel) (x ∷ xs) =
    let middle = suc (length xs) / 2 in
    build_node (get_elem? (x ∷ xs) middle) (build_fuel fuel (take middle (x ∷ xs)))
      (build_fuel fuel (drop (suc middle) (x ∷ xs)))

unfoldable pub build : List IndexedResource → Node
build resources = build_fuel (length resources) resources

unfoldable pub new : List IpResource → Node
unfolding build
new resources = build (sort_by_start (index_from 0 resources))

-- The first four conjuncts of the test in `node.match`.
unfoldable pub covers : Query → IndexedResource → Bool
covers q r =
    leb r.start q.ip
    && leb q.ip r.end
    && (r.resource.protocol == q.protocol || r.resource.protocol == "all")
    && (q.protocol == "icmp"
        || leb_ℤ r.resource.port_min q.port && leb_ℤ q.port r.resource.port_max)
    && accepts q.accept r.resource

-- Its last conjunct: is `r` better than the best so far?
unfoldable pub improves : Query → IndexedResource → Option IndexedResource → Bool
improves q r none = true
improves q r (some best) =
    not q.prefer_last && ltb r.order best.order || q.prefer_last && ltb best.order r.order

unfoldable pub pick : Query → IndexedResource → Option IndexedResource → Option IndexedResource
pick q r best = if covers q r && improves q r best then some r else best

-- `child != nil && child.maxEnd >= ip`
abbrev reaches : ℕ → Node → Bool
reaches ip nil = false
reaches ip (node _ max_end _ _) = leb ip max_end

unfoldable pub match_node : Query → Node → Option IndexedResource → Option IndexedResource
match_node q nil best = best
match_node q (node r max_end left right) best =
    let from_left = match_node q left best in
    let after_left = if reaches q.ip left then from_left else best in
    let picked = pick q r after_left in
    let from_right = match_node q right picked in
    if ltb max_end q.ip
    then best
    else (if leb r.start q.ip && reaches q.ip right then from_right else picked)

-- `Index.match`; on an empty tree nothing is found.
unfoldable pub match_index :
    Node → NetIp → String → ℤ → Bool → Option (IpResource → Bool) → Option IpResource
match_index root destination protocol port prefer_last accept =
    then_some (ipv4_uint32 destination) λ ip.
      then_some
        (match_node
          (record {
            ip = ip;
            protocol = protocol;
            port = port;
            prefer_last = prefer_last;
            accept = accept;
          })
          root none)
        λ best. some best.resource

unfoldable pub match_first : Node → NetIp → String → ℤ → Option IpResource
match_first root destination protocol port = match_index root destination protocol port false none

unfoldable pub match_last : Node → NetIp → String → ℤ → Option IpResource
match_last root destination protocol port = match_index root destination protocol port true none

unfoldable pub match_where : Node → NetIp → String → ℤ → (IpResource → Bool) → Option IpResource
match_where root destination protocol port accept =
    match_index root destination protocol port false (some accept)

unfoldable pub match_last_where :
    Node → NetIp → String → ℤ → (IpResource → Bool) → Option IpResource
match_last_where root destination protocol port accept =
    match_index root destination protocol port true (some accept)
