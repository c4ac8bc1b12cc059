-- ===== src/Conntrack/Keys.antt =====
-- The list of a table's connections: membership after a removal and after an addition at the end.
use distrust_core.Conntrack.{without}
use distrust_core.Base.{
  ℕ, ◌≡◌, Bool, false, ◌||◌, List, [], ◌∷◌, ◌++◌, arith, nat_beq, if◌then◌else◌, Comparable_nat,
  Comparable_string,
}

abbrev pub member : ℕ → List ℕ → Bool
member p [] = false
member p (q ∷ list) = nat_beq p q || member p list

pub member-without :
    (p q : ℕ) (list : List ℕ)
    → member q (without p list) ≡ (if nat_beq p q then false else member q list)
member-without p q [] = ground arith
member-without p q (r ∷ list) = ground (arith, member-without p q list)

pub member-append :
    (p q : ℕ) (list : List ℕ) → member q (list ++ (p ∷ [])) ≡ member q list || nat_beq p q
member-append p q [] = ground arith
member-append p q (r ∷ list) = ground (arith, member-append p q list)
