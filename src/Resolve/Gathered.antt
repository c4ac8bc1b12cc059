-- ===== src/Resolve/Gathered.antt =====
-- resolve/resolver.go: what the candidates of Resolve are, while no preferred address was gathered.
use distrust_core.NetIp.{NetIp}
use distrust_core.Resolve.Candidates.{
  LookupEvent, result_of, is_preferred, append_unique_ips, append_new, first_preferred, add_answers,
  unique,
}
use distrust_core.Base.{
  ◌≡◌, refl, sym, ap, ◌∙◌, subst, ◌⊎◌, Bool, false, not, Option, none, some, List, [], ◌∷◌, ◌++◌,
  arith, nat_beq, if◌then◌else◌, Comparable_nat, Comparable_string, if_both, length,
  append_assoc_list, append_nil_list,
}

-- The addresses that the results bring.
abbrev pub brought_by : LookupEvent → List NetIp
brought_by (result_of source (some ips)) = ips
brought_by _ = []

abbrev pub brought : List LookupEvent → List NetIp
brought [] = []
brought (e ∷ events) = brought_by e ++ brought events

-- The first address that passes a test.
abbrev pub first_of : (NetIp → Bool) → List NetIp → Option NetIp
first_of test [] = none
first_of test (ip ∷ ips) = let rest = first_of test ips in if test ip then some ip else rest

-- nil has no bytes.
abbrev pub is_address : NetIp → Bool
is_address ip = not (nat_beq (length ip) 0)

pub first_of-append_none :
    (test : NetIp → Bool) (ips others : List NetIp)
    → first_of test ips ≡ none
    → first_of test (ips ++ others) ≡ first_of test others
first_of-append_none test [] others no_ = refl
first_of-append_none test (ip ∷ ips) others no_ =
    ground (arith, first_of-append_none test ips others)

pub first_of-append_some :
    (test : NetIp → Bool) (ips others : List NetIp) (ip : NetIp)
    → first_of test ips ≡ some ip
    → first_of test (ips ++ others) ≡ some ip
first_of-append_some test [] others ip is = cc
first_of-append_some test (other ∷ ips) others ip is =
    ground (arith, first_of-append_some test ips others ip)

abbrev pub head : List NetIp → Option NetIp
head [] = none
head (ip ∷ _) = some ip

module _ (equal : NetIp → NetIp → Bool) (preferred_ip : Option (NetIp → Bool))
    (ctx_ended : Bool) where
  abbrev pub prefers : NetIp → Bool
  prefers = is_preferred equal preferred_ip ctx_ended

  -- The first preferred address of all, or, when the history has none and the selected one is not
  -- preferred, the first address of all.
  abbrev pub Selects : List NetIp → List NetIp → NetIp → Type 0
  Selects history all_ ip =
      (first_of prefers all_ ≡ some ip)
      ⊎ (first_of prefers history ≡ none)
        × (prefers ip ≡ false)
        × (first_of is_address all_ ≡ some ip)

  -- What the candidates are, when these addresses have been gathered and none was preferred.
  abbrev pub Gathers : List NetIp → List NetIp → Type 0
  Gathers seen candidates =
      (first_of prefers seen ≡ none)
      × (first_of prefers candidates ≡ none)
      × (head candidates ≡ first_of is_address seen)

  pub first_preferred-first_of :
      (ips : List NetIp) → first_preferred equal preferred_ip ctx_ended ips ≡ first_of prefers ips
  first_preferred-first_of [] = refl
  first_preferred-first_of (ip ∷ ips) =
      ap (λ o. if prefers ip then some ip else o) (first_preferred-first_of ips)

  pub append_new-none :
      (values : List NetIp) (candidate : NetIp)
      → first_of prefers values ≡ none
      → prefers candidate ≡ false
      → first_of prefers (append_new equal preferred_ip ctx_ended values candidate) ≡ none
  append_new-none [] candidate no_ other = rw other refl
  append_new-none (value ∷ values) candidate no_ other =
      if_both (λ l. first_of prefers l ≡ none) (equal value candidate) (λ _. no_)
        (λ _. ground (arith, append_new-none values candidate))

  pub head-append_new :
      (value : NetIp) (values : List NetIp) (candidate : NetIp)
      → head (append_new equal preferred_ip ctx_ended (value ∷ values) candidate) ≡ some value
  head-append_new value values candidate =
      if_both (λ l. head l ≡ some value) (equal value candidate) (λ _. refl) (λ _. refl)

  pub head-append_unique_ips :
      (seen candidates : List NetIp) (ip : NetIp)
      → head candidates ≡ first_of is_address seen
      → head (append_unique_ips equal preferred_ip ctx_ended candidates ip)
        ≡ first_of is_address (seen ++ (ip ∷ []))
  unfolding append_unique_ips
  head-append_unique_ips seen [] ip first =
      let later = first_of-append_none is_address seen (ip ∷ []) (sym first) in
      rw later (
        if_both (λ l. head l ≡ first_of is_address (ip ∷ [])) (nat_beq (length ip) 0)
          (λ nil. rw nil refl) (λ real. rw real refl))
  head-append_unique_ips seen (value ∷ values) ip first =
      let later = first_of-append_some is_address seen (ip ∷ []) value (sym first) in
      rw later (
        if_both (λ l. head l ≡ some value) (nat_beq (length ip) 0) (λ nil. refl)
          (λ real. head-append_new value values ip))

  pub append_unique_ips-Gathers :
      (seen candidates : List NetIp) (ip : NetIp)
      → Gathers seen candidates
      → prefers ip ≡ false
      → Gathers (seen ++ (ip ∷ [])) (append_unique_ips equal preferred_ip ctx_ended candidates ip)
  unfolding append_unique_ips
  append_unique_ips-Gathers seen candidates ip (none_seen, none_, first) other = (
    ground (arith, first_of-append_none prefers seen (ip ∷ [])),
    if_both (λ l. first_of prefers l ≡ none) (nat_beq (length ip) 0) (λ _. none_)
        (λ _. append_new-none candidates ip none_ other),
    head-append_unique_ips seen candidates ip first,
  )

  pub unique-Gathers :
      (seen candidates ips : List NetIp)
      → Gathers seen candidates
      → first_of prefers ips ≡ none
      → Gathers (seen ++ ips) (unique equal preferred_ip ctx_ended candidates ips)
  unfolding unique
  unique-Gathers seen candidates [] kept no_ =
      subst (λ l. Gathers l candidates) (sym (append_nil_list seen)) kept
  unique-Gathers seen candidates (ip ∷ ips) kept no_ =
      let (other, rest) = not_first ip ips no_ in
      subst
        (λ l. Gathers l (
          unique equal preferred_ip ctx_ended
            (append_unique_ips equal preferred_ip ctx_ended candidates ip) ips))
        (append_assoc_list seen (ip ∷ []) ips)
        (unique-Gathers (seen ++ (ip ∷ [])) _ ips
          (append_unique_ips-Gathers seen candidates ip kept other) rest)
    where
      not_first :
          (a : NetIp) (more : List NetIp)
          → first_of prefers (a ∷ more) ≡ none
          → (prefers a ≡ false) × (first_of prefers more ≡ none)
      not_first a more missing = ground arith

  -- What a result comes to: the first preferred address of all, or more candidates.
  abbrev pub Turned : List NetIp → Option NetIp × List NetIp → Type 0
  Turned seen (some ip, _) = first_of prefers seen ≡ some ip
  Turned seen (none, candidates) = Gathers seen candidates

  pub add_answers-Turned :
      (seen candidates ips : List NetIp)
      → Gathers seen candidates
      → Turned (seen ++ ips) (add_answers equal preferred_ip ctx_ended candidates ips)
  unfolding add_answers
  add_answers-Turned seen candidates [] kept =
      subst (λ l. Gathers l candidates) (sym (append_nil_list seen)) kept
  add_answers-Turned seen candidates (ip ∷ ips) kept =
      if_both (Turned (seen ++ (ip ∷ ips))) (prefers ip)
        (λ is. first_of-append_none prefers seen (ip ∷ ips) kept.0 ∙ rw is refl)
        (λ other.
          subst
            (λ l. Turned l (
              add_answers equal preferred_ip ctx_ended
                (append_unique_ips equal preferred_ip ctx_ended candidates ip) ips))
            (append_assoc_list seen (ip ∷ []) ips)
            (add_answers-Turned (seen ++ (ip ∷ [])) _ ips
              (append_unique_ips-Gathers seen candidates ip kept other)))
