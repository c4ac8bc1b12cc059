-- ===== src/Resolve/DomainRules.antt =====
-- resolve/domain_index.go: the trie of domains finds what a scan of the server's rules finds.
use distrust_core.Client.{DomainResource}
use distrust_core.Resolve.DomainIndex.{
  DomainResourceEntry, DomainResourceNode, Children, node, no_child, child, empty_node, child_of,
  put_child, or_empty, add_resources, add_domain, reverse_onto, is_empty, starts_label, matched,
  walk, answer, pattern_of, add_rules, new_domain_resource_index, match_host,
}
use distrust_core.Base.{
  ℕ, ◌≡◌, refl, sym, ap, ◌∙◌, subst, Bool, true, false, not, ◌&&◌, Option, none, some, List, [],
  ◌∷◌, ◌++◌, arith, nat_beq, if◌then◌else◌, Comparable_nat, Comparable_string, append_nil_list,
  Bytes,
}

abbrev pub same_bytes : Bytes → Bytes → Bool
same_bytes [] [] = true
same_bytes [] (_ ∷ _) = false
same_bytes (_ ∷ _) [] = false
same_bytes (a ∷ p) (b ∷ q) = nat_beq a b && same_bytes p q

-- The entry at the end of a path.
unfoldable pub at_path : Bytes → DomainResourceNode → Option DomainResourceEntry
at_path [] (node children entry) = entry
at_path (b ∷ path) (node children entry) = elim (child_of b children) [
  | none ↦ none
  | some n ↦ at_path path n
]

at_path_empty : (path : Bytes) → at_path path empty_node ≡ none
unfolding at_path child_of
at_path_empty [] = refl
at_path_empty (b ∷ path) = refl

child_of-put_child :
    (b c : ℕ) (n : DomainResourceNode) (children : Children)
    → child_of c (put_child b n children) ≡ (if nat_beq b c then some n else child_of c children)
unfolding child_of put_child
child_of-put_child b c n no_child = ground arith
child_of-put_child b c n (child d old more) = ground (arith, child_of-put_child b c n more)

at_path-or_empty :
    (path : Bytes) (n : Option DomainResourceNode)
    → at_path path (or_empty n) ≡ elim n [ none ↦ none | some m ↦ at_path path m ]
at_path-or_empty path none = at_path_empty path
at_path-or_empty path (some n) = refl

at_path-add_domain :
    (path other domain : Bytes) (resources : List DomainResource) (n : DomainResourceNode)
    → at_path other (add_domain path domain resources n) ≡ (
        if same_bytes path other
        then add_resources domain resources (at_path other n)
        else at_path other n)
unfolding at_path add_domain
at_path-add_domain [] [] domain resources (node children entry) = refl
at_path-add_domain [] (c ∷ other) domain resources (node children entry) = refl
at_path-add_domain (b ∷ path) [] domain resources (node children entry) = refl
at_path-add_domain (b ∷ path) (c ∷ other) domain resources (node children entry) = ground (
  arith,
  child_of-put_child b c (add_domain path domain resources (or_empty (child_of b children)))
      children,
  at_path-add_domain path other domain resources (or_empty (child_of b children)),
  at_path-or_empty other (child_of b children),
)

-- The entry of a name by the rules alone: those whose pattern it is, in order.
unfoldable pub entry_by_rules :
    (Bytes → Bytes)
    → List (Bytes × List DomainResource)
    → Bytes
    → Option DomainResourceEntry
    → Option DomainResourceEntry
entry_by_rules normalize [] name entry = entry
entry_by_rules normalize ((domain, resources) ∷ rules) name entry =
    entry_by_rules normalize rules name (
      if not (is_empty name) && same_bytes (pattern_of normalize domain) name
      then add_resources domain resources entry
      else entry)

reverse_onto_twice : (p s t : Bytes) → reverse_onto (reverse_onto p s) t ≡ reverse_onto s (p ++ t)
reverse_onto_twice [] s t = refl
reverse_onto_twice (c ∷ p) s t = reverse_onto_twice p (c ∷ s) t

reversed_twice : (p q : Bytes) → reverse_onto p [] ≡ q → p ≡ reverse_onto q []
reversed_twice p q is =
    sym (append_nil_list p) ∙ sym (reverse_onto_twice p [] []) ∙ ap (λ r. reverse_onto r []) is

same_bytes→eq : (p q : Bytes) → same_bytes p q ≡ true → p ≡ q
same_bytes→eq [] [] same = refl
same_bytes→eq [] (b ∷ q) same = cc
same_bytes→eq (a ∷ p) [] same = cc
same_bytes→eq (a ∷ p) (b ∷ q) same = ground (arith, same_bytes→eq p q)

same_bytes_self : (p : Bytes) → same_bytes p p ≡ true
same_bytes_self [] = refl
same_bytes_self (a ∷ p) = ground (arith, same_bytes_self p)

same_bytes_reversed :
    (p q : Bytes)
    → same_bytes (reverse_onto p []) q ≡ true
    → same_bytes p (reverse_onto q []) ≡ true
same_bytes_reversed p q same =
    subst (λ r. same_bytes p r ≡ true)
      (reversed_twice p q (same_bytes→eq (reverse_onto p []) q same)) (same_bytes_self p)

reversed_back :
    (p q : Bytes)
    → same_bytes p (reverse_onto q []) ≡ true
    → same_bytes (reverse_onto p []) q ≡ true
reversed_back p q same =
    let is : p ≡ reverse_onto q [] = same_bytes→eq p (reverse_onto q []) same in
    let back : reverse_onto p [] ≡ q = sym (reversed_twice q p (sym is)) in
    subst (λ r. same_bytes r q ≡ true) (sym back) (same_bytes_self q)

equal_tests : (a b : Bool) → (a ≡ true → b ≡ true) → (b ≡ true → a ≡ true) → a ≡ b
equal_tests true b to from = sym (to refl)
equal_tests false true to from = from refl
equal_tests false false to from = refl

-- The same test of a name and of its reversal.
names_path :
    (a : ℕ) (p path : Bytes)
    → same_bytes (reverse_onto (a ∷ p) []) path
      ≡ (not (is_empty (reverse_onto path [])) && same_bytes (a ∷ p) (reverse_onto path []))
names_path a p path =
    equal_tests _ _
      (λ same. nonempty (reverse_onto path []) (same_bytes_reversed (a ∷ p) path same))
      (λ both. reversed_back (a ∷ p) path (right_true _ _ both))
  where
    nonempty :
        (r : Bytes)
        → same_bytes (a ∷ p) r ≡ true
        → (not (is_empty r) && same_bytes (a ∷ p) r) ≡ true
    nonempty [] same = cc
    nonempty (b ∷ r) same = same

    right_true : (x y : Bool) → (x && y) ≡ true → y ≡ true
    right_true true y both = both
    right_true false y both = cc

one_rule :
    (pattern path domain : Bytes) (resources : List DomainResource) (root : DomainResourceNode)
    → at_path path (
        if is_empty pattern
        then root
        else add_domain (reverse_onto pattern []) domain resources root)
      ≡ (if not (is_empty (reverse_onto path [])) && same_bytes pattern (reverse_onto path [])
          then add_resources domain resources (at_path path root)
          else at_path path root)
one_rule [] path domain resources root = empty_pattern (reverse_onto path [])
  where
    empty_pattern :
        (r : Bytes)
        → at_path path root ≡ (
            if not (is_empty r) && same_bytes [] r
            then add_resources domain resources (at_path path root)
            else at_path path root)
    empty_pattern [] = refl
    empty_pattern (b ∷ r) = refl
one_rule (a ∷ pattern) path domain resources root =
    at_path-add_domain (reverse_onto (a ∷ pattern) []) path domain resources root
    ∙ ap (λ t. if t then add_resources domain resources (at_path path root) else at_path path root)
        (names_path a pattern path)

at_path-add_rules :
    (normalize : Bytes → Bytes) (rules : List (Bytes × List DomainResource)) (path : Bytes)
    (root : DomainResourceNode)
    → at_path path (add_rules normalize rules root)
      ≡ entry_by_rules normalize rules (reverse_onto path []) (at_path path root)
unfolding add_rules entry_by_rules
at_path-add_rules normalize [] path root = refl
at_path-add_rules normalize ((domain, resources) ∷ rules) path root =
    at_path-add_rules normalize rules path _
    ∙ ap (entry_by_rules normalize rules (reverse_onto path []))
        (one_rule (pattern_of normalize domain) path domain resources root)

abbrev pub at_label : ℕ → Bytes → Option DomainResourceEntry → List DomainResourceEntry
at_label b before none = []
at_label b before (some entry) = if starts_label b before then entry ∷ [] else []

-- What the rules give a host, whose bytes before `name` come last to first: for each end of the host
-- that starts a label, from the longest to the shortest, the entry of the rules for that name.
unfoldable pub covering :
    (Bytes → Bytes) → List (Bytes × List DomainResource) → Bytes → Bytes → List DomainResourceEntry
unfolding entry_by_rules
covering normalize rules name [] = []
covering normalize rules name (b ∷ before) =
    covering normalize rules (b ∷ name) before
    ++ at_label b before (entry_by_rules normalize rules (b ∷ name) none)

-- A node that stands for a name has the entries of all names that end with it.
abbrev StandsFor :
    (Bytes → Bytes) → List (Bytes × List DomainResource) → Bytes → DomainResourceNode → Type 0
StandsFor normalize rules name n =
    (path : Bytes) → at_path path n ≡ entry_by_rules normalize rules (reverse_onto path name) none

matched-at_path :
    (b : ℕ) (before : Bytes) (n : DomainResourceNode)
    → matched b before n ≡ at_label b before (at_path [] n)
unfolding at_path
matched-at_path b before (node children none) = refl
matched-at_path b before (node children (some entry)) = refl

covering_nothing :
    (normalize : Bytes → Bytes) (rules : List (Bytes × List DomainResource)) (name before : Bytes)
    → ((path : Bytes) → none ≡ entry_by_rules normalize rules (reverse_onto path name) none)
    → covering normalize rules name before ≡ []
unfolding covering
covering_nothing normalize rules name [] nothing = refl
covering_nothing normalize rules name (b ∷ before) nothing =
    rw
      (
        ← nothing (b ∷ []),
        covering_nothing normalize rules (b ∷ name) before (λ path. nothing (b ∷ path)),
      )
      refl

-- One step of the walk, into a child that may be missing.
into_child :
    (normalize : Bytes → Bytes) (rules : List (Bytes × List DomainResource)) (b : ℕ)
    (name before : Bytes) (o : Option DomainResourceNode)
    → ((n : DomainResourceNode)
        → StandsFor normalize rules (b ∷ name) n
        → walk before n ≡ covering normalize rules (b ∷ name) before)
    → ((path : Bytes)
        → ◌≡◌ {A = Option DomainResourceEntry}
            (elim o [ none ↦ none | some n ↦ at_path path n ])
            (entry_by_rules normalize rules (reverse_onto path (b ∷ name)) none))
    → ◌≡◌ {A = List DomainResourceEntry}
        (elim o [ none ↦ [] | some n ↦ walk before n ++ matched b before n ])
        (covering normalize rules name (b ∷ before))
unfolding covering
into_child normalize rules b name before none deeper stands =
    rw (← stands [], covering_nothing normalize rules (b ∷ name) before stands) refl
into_child normalize rules b name before (some n) deeper stands =
    rw (deeper n stands, matched-at_path b before n, stands []) refl

walk-covering :
    (normalize : Bytes → Bytes) (rules : List (Bytes × List DomainResource)) (name before : Bytes)
    (n : DomainResourceNode)
    → StandsFor normalize rules name n
    → walk before n ≡ covering normalize rules name before
unfolding walk covering at_path
walk-covering normalize rules name [] n stands = refl
walk-covering normalize rules name (b ∷ before) (node children entry) stands =
    into_child normalize rules b name before (child_of b children)
      (walk-covering normalize rules (b ∷ name) before) (λ path. stands (b ∷ path))

-- The index answers for a host what a scan of the rules answers: for each end of the host that starts
-- a label, from the longest to the shortest, the resources of all rules whose domain it is, in the
-- order of the rules, and the domain of the first such rule. It answers nothing if no rule fits.
pub match_host-covering :
    (normalize : Bytes → Bytes) (rules : List (Bytes × List DomainResource)) (host : Bytes)
    → match_host (new_domain_resource_index normalize rules) host
      ≡ answer (covering normalize rules [] (reverse_onto host []))
unfolding match_host new_domain_resource_index
match_host-covering normalize rules host = ap answer (
    walk-covering normalize rules [] (reverse_onto host []) (add_rules normalize rules empty_node)
      (λ path.
        at_path-add_rules normalize rules path empty_node
        ∙ ap (entry_by_rules normalize rules (reverse_onto path [])) (at_path_empty path)))
