-- ===== src/Resolve/DomainIndex.antt =====
-- resolve/domain_index.go: the trie of the server's domains, read from their ends. A host is its
-- bytes. normalizeHostname, which is string functions of the standard library, is a parameter; the
-- order in which Go visits the map of resources is the order of the list.
use distrust_core.Client.{DomainResource}
use distrust_core.Base.{
  ℕ, Bool, true, false, ◌&&◌, ◌||◌, Option, none, some, List, [], ◌∷◌, ◌++◌, nat_beq, if◌then◌else◌,
  Comparable_nat, Comparable_string, Bytes,
}

pub record DomainResourceEntry : Type 0 where
  pub domain : Bytes
  pub resources : List DomainResource

-- A node with its children by byte; a nil map of children is the empty one.
mutual
  pub data DomainResourceNode : Type 0 where
    node : Children → Option DomainResourceEntry → DomainResourceNode

  pub data Children : Type 0 where
    no_child : Children
    child : ℕ → DomainResourceNode → Children → Children

abbrev pub empty_node : DomainResourceNode
empty_node = node no_child none

-- `node.children[b]`
unfoldable pub child_of : ℕ → Children → Option DomainResourceNode
child_of b no_child = none
child_of b (child c n more) = let rest = child_of b more in if nat_beq b c then some n else rest

-- `node.children[b] = n`
unfoldable pub put_child : ℕ → DomainResourceNode → Children → Children
put_child b n no_child = child b n no_child
put_child b n (child c old more) =
    let rest = put_child b n more in if nat_beq b c then child c n more else child c old rest

abbrev pub or_empty : Option DomainResourceNode → DomainResourceNode
or_empty (some n) = n
or_empty none = empty_node

-- The entry of a domain, with more resources.
abbrev pub add_resources :
    Bytes → List DomainResource → Option DomainResourceEntry → Option DomainResourceEntry
add_resources domain resources none = some (record { domain = domain; resources = resources })
add_resources domain resources (some entry) =
    some (record entry { resources = entry.resources ++ resources })

-- The loop over a normalized name, whose bytes come last to first.
unfoldable pub add_domain :
    Bytes → Bytes → List DomainResource → DomainResourceNode → DomainResourceNode
unfolding child_of put_child
add_domain [] domain resources (node children entry) =
    node children (add_resources domain resources entry)
add_domain (b ∷ path) domain resources (node children entry) =
    let deeper = add_domain path domain resources (or_empty (child_of b children)) in
    node (put_child b deeper children) entry

-- Bytes from the last to the first, in front of others.
abbrev pub reverse_onto : Bytes → Bytes → Bytes
reverse_onto [] onto = onto
reverse_onto (b ∷ bytes) onto = reverse_onto bytes (b ∷ onto)

-- `*.` in front of a name leaves the dot.
abbrev pub strip_star : Bytes → Bytes
strip_star (a ∷ b ∷ rest) = if nat_beq a 42 && nat_beq b 46 then b ∷ rest else a ∷ b ∷ rest
strip_star short = short

abbrev pub is_empty : Bytes → Bool
is_empty [] = true
is_empty (_ ∷ _) = false

abbrev pub is_dot : ℕ → Bool
is_dot b = nat_beq b 46

-- The first byte of what is left of a host, which its end stands for.
abbrev pub starts_label : ℕ → Bytes → Bool
starts_label b [] = true
starts_label b (before ∷ _) = is_dot b || is_dot before

-- `matches = append(matches, node.entry)` at a boundary
abbrev pub matched : ℕ → Bytes → DomainResourceNode → List DomainResourceEntry
matched b rest (node _ none) = []
matched b rest (node _ (some entry)) = if starts_label b rest then entry ∷ [] else []

-- The entries on the way of a host, whose bytes come last to first; the most specific is first.
unfoldable pub walk : Bytes → DomainResourceNode → List DomainResourceEntry
unfolding child_of
walk [] n = []
walk (b ∷ rest) (node children entry) = elim (child_of b children) [
  | none ↦ []
  | some n ↦ walk rest n ++ matched b rest n
]

abbrev pub all_resources : List DomainResourceEntry → List DomainResource
all_resources [] = []
all_resources (entry ∷ entries) = entry.resources ++ all_resources entries

-- The most specific domain, and the resources of all entries.
abbrev pub answer : List DomainResourceEntry → Option (Bytes × List DomainResource)
answer [] = none
answer (most_specific ∷ others) =
    some (most_specific.domain, all_resources (most_specific ∷ others))

module _ (normalize_hostname : Bytes → Bytes) where
  abbrev pub pattern_of : Bytes → Bytes
  pattern_of domain = strip_star (normalize_hostname domain)

  unfoldable pub add_rules :
      List (Bytes × List DomainResource) → DomainResourceNode → DomainResourceNode
  unfolding add_domain
  add_rules [] root = root
  add_rules ((domain, resources) ∷ rules) root = add_rules rules (
      if is_empty (pattern_of domain)
      then root
      else add_domain (reverse_onto (pattern_of domain) []) domain resources root)

  unfoldable pub new_domain_resource_index : List (Bytes × List DomainResource) → DomainResourceNode
  unfolding add_rules
  new_domain_resource_index resources = add_rules resources empty_node

unfoldable pub match_host : DomainResourceNode → Bytes → Option (Bytes × List DomainResource)
unfolding walk
match_host root host = answer (walk (reverse_onto host []) root)
