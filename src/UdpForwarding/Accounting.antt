-- ===== src/UdpForwarding/Accounting.antt =====
-- service/udp_forwarding.go: every step keeps the account of the queued bytes.
use Prim.Native.String.{String}
use distrust_core.Base.TextMaps.{inserted, removed}
use distrust_core.UdpForwarding.{
  UdpConnection, UdpForward, new_connection, write_conn, mark_active_locked, make_room,
  close_connection, close_evicted, add_connection, get_or_create_connection, remove_connection,
}
use distrust_core.UdpForwarding.Budget.{
  load, total_change, IsAccounted, change-IsAccounted, relabel-IsAccounted,
}
use distrust_core.Base.{
  ℕ, suc, ◌<◌, ◌≡◌, refl, ◌∙◌, inl, inr, true, false, ◌||◌, Option, none, some, List, [], ◌∷◌,
  arith, ltb→lt, ltb, nat_beq, if◌then◌else◌, Comparable_nat, Comparable_string, ==_self,
  Bool-cases, if_both, option_both, length, lookup, insert, remove,
}

module _ (u : UdpForward) (accounted : IsAccounted u) where
  -- A change that keeps the load of a session.
  pub quiet-IsAccounted :
      (n : ℕ) (c : UdpConnection) → load c ≡ load (u.conns n) → IsAccounted (write_conn n c u)
  quiet-IsAccounted n c same =
      change-IsAccounted u accounted n c u.queued_bytes u.in_flight (omega (arith, same))
        accounted.within
        (elim (Bool-cases (ltb n u.next_conn)) [
          | inl lt ↦ inl (ltb→lt n u.next_conn lt)
          | inr ge ↦ inr (same ∙ accounted.unused n (ground arith))
        ])

  pub mark_active_locked-IsAccounted :
      (now : ℕ) (key : String) (n : ℕ) → IsAccounted (mark_active_locked now key n u)
  unfolding mark_active_locked
  mark_active_locked-IsAccounted now key n =
      relabel-IsAccounted (write_conn n _ u) (quiet-IsAccounted n _ refl) u.connections _ u.panicked
        accounted.given

  pub close_connection-IsAccounted : (n : ℕ) → IsAccounted (close_connection n u)
  unfolding close_connection
  close_connection-IsAccounted n = quiet-IsAccounted n _ refl

  pub remove_connection-IsAccounted :
      (key : String) (n : ℕ) → IsAccounted (remove_connection key n u)
  unfolding remove_connection
  remove_connection-IsAccounted key n =
      option_both IsAccounted (lookup key u.connections) (λ _. accounted)
        λ m found.
          if_both IsAccounted (nat_beq m n)
            (λ _.
              relabel-IsAccounted (write_conn n _ u) (quiet-IsAccounted n _ refl)
                (remove key u.connections) _ u.panicked
                (λ other i is. accounted.given other i (removed key other u.connections is).1))
            (λ _. accounted)

  -- What making room leaves as it was.
  abbrev RoomMade : Option ℕ × UdpForward → Type 0
  RoomMade r = IsAccounted r.1 × (r.1.in_flight ≡ u.in_flight) × (r.1.next_conn ≡ u.next_conn)

  make_room-RoomMade : RoomMade (make_room u)
  unfolding make_room
  make_room-RoomMade =
      if_both RoomMade (nat_beq u.max_connections 0 || ltb (length u.connections) u.max_connections)
        (λ _. (accounted, refl, refl)) (λ _. oldest_leaves u.lru)
    where
      oldest_leaves :
          (lru : List String)
          → RoomMade (elim lru as (λ (l : List String). Option ℕ × UdpForward) [
            | [] ↦ (none, u)
            | key ∷ rest ↦ elim (lookup key u.connections) [
              | none ↦ (none, record u { panicked = true })
              | some oldest ↦ (
                some oldest,
                write_conn oldest
                    (record (u.conns oldest) { in_lru = false })
                    (record u { connections = remove key u.connections; lru = rest }),
              )
            ]
          ])
      oldest_leaves [] = (accounted, refl, refl)
      oldest_leaves (key ∷ rest) =
          option_both RoomMade (lookup key u.connections)
            (λ _. (
              relabel-IsAccounted u accounted u.connections u.lru true accounted.given,
              refl,
              refl,
            ))
            (λ oldest _. (
              relabel-IsAccounted (write_conn oldest _ u) (quiet-IsAccounted oldest _ refl)
                  (remove key u.connections) rest u.panicked
                  (λ other i is. accounted.given other i (removed key other u.connections is).1),
              refl,
              refl,
            ))

  close_evicted-IsAccounted : (evicted : Option ℕ) → IsAccounted (close_evicted evicted u)
  close_evicted-IsAccounted none = accounted
  close_evicted-IsAccounted (some n) = close_connection-IsAccounted n

  -- A number is given out, to a session that holds nothing.
  number-IsAccounted :
      (key : String)
      → IsAccounted (
          write_conn u.next_conn new_connection (record u {
            connections = insert key u.next_conn u.connections;
            next_conn = suc u.next_conn;
          }))
  number-IsAccounted key =
      let k = u.next_conn in
      let f : ℕ → ℕ = λ i. load (u.conns i) in
      let g : ℕ → ℕ = λ i. load (if nat_beq i k then new_connection else u.conns i) in
      let (inside, outside) = total_change k k f g (λ i differs. rw differs refl) in
      let nothing : g k ≡ 0 = rw (==_self k) refl in
      record {
        balance = omega (arith, accounted.balance, outside (omega arith), nothing);
        within = accounted.within;
        unused = λ i le.
            let differs : nat_beq i k ≡ false = ground arith in
            rw differs (accounted.unused i (omega arith));
        given = λ other i is. elim (inserted key other k u.connections is) [
          | inl (same, number) ↦ omega arith
          | inr old ↦ let lt = accounted.given other i old in omega arith
        ];
      }

-- What finding a session answers: a number that was given out.
abbrev pub Found : UdpForward → ℕ × UdpForward → Type 0
Found u r = IsAccounted r.1 × (r.1.in_flight ≡ u.in_flight) × (r.0 < r.1.next_conn)

close_evicted-Found :
    (u v : UdpForward) (n : ℕ) (evicted : Option ℕ)
    → Found u (n, v)
    → Found u (n, close_evicted evicted v)
unfolding close_connection
close_evicted-Found u v n none found = found
close_evicted-Found u v n (some m) found =
    (close_connection-IsAccounted v found.0 m, found.1, found.2)

pub get_or_create_connection-Found :
    (now : ℕ) (key : String) (u : UdpForward)
    → IsAccounted u
    → Found u (get_or_create_connection now key u)
unfolding get_or_create_connection mark_active_locked
get_or_create_connection-Found now key u accounted =
    option_both (Found u) (lookup key u.connections)
      (λ _.
        let (roomy, in_flight, next) = make_room-RoomMade u accounted in
        let v = (make_room u).1 in
        let numbered = number-IsAccounted v roomy key in
        close_evicted-Found u (add_connection now key v) u.next_conn (make_room u).0 (
          mark_active_locked-IsAccounted _ numbered now key v.next_conn,
          in_flight,
          omega (arith, next),
        ))
      (λ n found.
        (mark_active_locked-IsAccounted u accounted now key n, refl, accounted.given key n found))
