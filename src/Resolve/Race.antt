-- ===== src/Resolve/Race.antt =====
-- resolve/resolver.go: lookupIPWithTCPFallback, the race of a UDP lookup and a TCP lookup that starts
-- later, and cacheFirstIP. The goroutines, the timer and the context are the events that the loop
-- selects, in their order; an event whose channel is not ready is passed over, since nobody waits on
-- it: a channel gives one result, and the TCP lookup none before it is started.
use distrust_core.NetIp.{NetIp}
use distrust_core.Base.{
  ◌≡◌, refl, ◌≢◌, Bool, true, false, not, ◌&&◌, Option, none, some, List, [], ◌∷◌, ◌++◌, arith,
  if◌then◌else◌, Comparable_nat, Comparable_string, option_both,
}

-- A lookup answers addresses, or none for an error.
pub data Event : Type 0 where
  udp_result tcp_result : Option (List NetIp) → Event
  timer_fires cancelled : Event

pub record Race : Type 0 where
  pub tcp_started : Bool
  pub udp_done : Bool
  pub tcp_done : Bool

-- Addresses, with whether UDP failed before; errors of both lookups; the context's error.
pub data RaceAnswer : Type 0 where
  addresses : List NetIp → Bool → RaceAnswer
  both_failed context_error : RaceAnswer

abbrev pub started : Race
started = record { tcp_started = false; udp_done = false; tcp_done = false }

abbrev on_udp : Option (List NetIp) → Race → Option RaceAnswer × Race
on_udp (some ips) r = (some (addresses ips false), r)
on_udp none r =
    let failed = record r { udp_done = true; tcp_started = true } in
    (if r.tcp_done then some both_failed else none, failed)

abbrev on_tcp : Option (List NetIp) → Race → Option RaceAnswer × Race
on_tcp (some ips) r = (some (addresses ips r.udp_done), r)
on_tcp none r = (if r.udp_done then some both_failed else none, record r { tcp_done = true })

-- One turn of the loop.
unfoldable pub turn : Event → Race → Option RaceAnswer × Race
turn (udp_result result) r = if r.udp_done then (none, r) else on_udp result r
turn (tcp_result result) r = if r.tcp_started && not r.tcp_done then on_tcp result r else (none, r)
turn timer_fires r = (none, record r { tcp_started = true })
turn cancelled r = (some context_error, r)

-- The loop: none is that it still waits.
unfoldable pub race : List Event → Race → Option RaceAnswer
unfolding turn
race [] r = none
race (e ∷ es) r =
    let (reply, after) = turn e r in
    let rest = race es after in elim reply [ some a ↦ some a | none ↦ rest ]

-- `lookupIPWithTCPFallback`
unfoldable pub lookup_ip_with_tcp_fallback : List Event → Option RaceAnswer
unfolding race
lookup_ip_with_tcp_fallback events = race events started

-- While the loop goes on, not both lookups have failed, and TCP has started if UDP has failed.
abbrev GoesOn : Race → Type 0
GoesOn r = (r.udp_done && r.tcp_done ≡ false) × (r.udp_done ≡ true → r.tcp_started ≡ true)

turn-GoesOn : (e : Event) (r : Race) → GoesOn r → (turn e r).0 ≡ none → GoesOn (turn e r).1
unfolding turn
turn-GoesOn (udp_result (some ips)) r going waits = ground arith
turn-GoesOn (udp_result none) r going waits = ground arith
turn-GoesOn (tcp_result (some ips)) r going waits = ground arith
turn-GoesOn (tcp_result none) r going waits = ground arith
turn-GoesOn timer_fires r going waits = ground arith
turn-GoesOn cancelled r going waits = ground arith

last_results :
    (udp tcp : Option (List NetIp)) (r : Race)
    → GoesOn r
    → race (udp_result udp ∷ tcp_result tcp ∷ []) r ≢ none
unfolding race turn
last_results (some ips) tcp r going = ground arith
last_results none (some ips) r going = ground arith
last_results none none r going = ground arith

race_ends :
    (events : List Event) (udp tcp : Option (List NetIp)) (r : Race)
    → GoesOn r
    → race (events ++ (udp_result udp ∷ tcp_result tcp ∷ [])) r ≢ none
unfolding race
race_ends [] udp tcp r going = last_results udp tcp r going
race_ends (e ∷ events) udp tcp r going =
    let Answers : Option RaceAnswer → Type 0 = λ o. o ≢ none in
    option_both Answers (turn e r).0
      (λ waits. race_ends events udp tcp (turn e r).1 (turn-GoesOn e r going waits))
      (λ a _ none_. cc)

-- The race ends: whatever happened before, in any order, once the UDP lookup has answered, and then
-- the TCP lookup, it has an answer.
pub lookup_ip_with_tcp_fallback-ends :
    (events : List Event) (udp tcp : Option (List NetIp))
    → lookup_ip_with_tcp_fallback (events ++ (udp_result udp ∷ tcp_result tcp ∷ [])) ≢ none
unfolding lookup_ip_with_tcp_fallback
lookup_ip_with_tcp_fallback-ends events udp tcp = race_ends events udp tcp started (refl, λ e. cc)
