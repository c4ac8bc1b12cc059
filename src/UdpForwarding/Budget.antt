-- ===== src/UdpForwarding/Budget.antt =====
-- service/udp_forwarding.go: queuedBytes counts exactly what waits, and stays within the limit.
use Prim.Native.String.{String}
use distrust_core.UdpForwarding.{
  UdpDatagram, UdpConnection, UdpForward, new_udp_forward, write_conn, mark_connection_active,
  close_connection, receive, deliver, take_datagram, write_datagram, remove_connection, drain_queue,
}
use distrust_core.Base.{
  ℕ, zero, suc, ◌+◌, ◌≤◌, ◌<◌, ◌≡◌, refl, ap, ◌∙◌, ◌≢◌, ◌⊎◌, inl, inr, Bool, true, false, Option,
  none, some, List, [], ◌∷◌, ◌++◌, arith, ltb→lt, ltb, nat_beq, if◌then◌else◌, Comparable_nat,
  Comparable_string, ==_self, Bool-cases, nat_beq_iff, lookup,
}

-- One step of the goroutine that reads the socket, of a session's, or of the janitor and Close, which
-- close sessions.
pub data Step : UdpForward → UdpForward → Type 0 where
  receives : (d : UdpDatagram) (u : UdpForward) → d.accounted_bytes ≡ 0 → Step u (receive d u)
  delivers : (now : ℕ) (key : String) (u : UdpForward) → Step u (deliver now key u)
  takes : (n : ℕ) (u : UdpForward) → Step u (take_datagram n u)
  writes : (n : ℕ) (u : UdpForward) → Step u (write_datagram n u)
  answers :
      (now : ℕ) (key : String) (n : ℕ) (u : UdpForward)
      → Step u (mark_connection_active now key n u)
  closes : (n : ℕ) (u : UdpForward) → Step u (close_connection n u)
  removes : (key : String) (n : ℕ) (u : UdpForward) → Step u (remove_connection key n u)
  drains : (n : ℕ) (u : UdpForward) → Step u (drain_queue n u)

pub data Reach : UdpForward → Type 0 where
  starts :
      (max_connections max_queued_bytes : ℕ)
      → Reach (new_udp_forward max_connections max_queued_bytes)
  goes : (u v : UdpForward) → Reach u → Step u v → Reach v

abbrev pub held : Option UdpDatagram → ℕ
held none = 0
held (some d) = d.accounted_bytes

abbrev pub queued : List UdpDatagram → ℕ
queued [] = 0
queued (d ∷ ds) = d.accounted_bytes + queued ds

-- The reserved bytes of a session.
abbrev pub load : UdpConnection → ℕ
load c = queued c.send + held c.taken

abbrev pub total : ℕ → (ℕ → ℕ) → ℕ
total zero f = 0
total (suc n) f = f n + total n f

total_same : (n : ℕ) (f g : ℕ → ℕ) → ((i : ℕ) → f i ≡ g i) → total n f ≡ total n g
total_same zero f g same = refl
total_same (suc n) f g same = omega (arith, same n, total_same n f g same)

-- Two sums that differ in one place.
pub total_change :
    (k n : ℕ) (f g : ℕ → ℕ)
    → ((i : ℕ) → nat_beq i n ≡ false → f i ≡ g i)
    → (n < k → total k g + f n ≡ total k f + g n) × (k ≤ n → total k g ≡ total k f)
total_change zero n f g same = (λ lt. absurd (omega arith), λ le. refl)
total_change (suc k) n f g same = ground (arith, same k, total_change k n f g same)

pub queued-append : (ds es : List UdpDatagram) → queued (ds ++ es) ≡ queued ds + queued es
queued-append [] es = omega arith
queued-append (d ∷ ds) es = omega (arith, queued-append ds es)

pub part_of_total : (k n : ℕ) (f : ℕ → ℕ) → n < k → f n ≤ total k f
part_of_total zero n f lt = absurd (omega arith)
part_of_total (suc k) n f lt = elim (Bool-cases (nat_beq n k)) [
  | inl same ↦ let is : f n ≡ f k = ap f ((nat_beq_iff n k).0 same) in omega (arith, is)
  | inr differs ↦
      let lt' : n < k = ground arith in let le = part_of_total k n f lt' in omega (arith, le)
]

-- The counter is the bytes of the datagram in flight and of all sessions, within the limit. A session
-- of the table has a number that was given out; the others hold nothing.
pub record IsAccounted (u : UdpForward) : Type 0 where
  pub balance : u.queued_bytes ≡ held u.in_flight + total u.next_conn (λ n. load (u.conns n))
  pub within : u.max_queued_bytes ≢ 0 → u.queued_bytes ≤ u.max_queued_bytes
  pub unused : (n : ℕ) → u.next_conn ≤ n → load (u.conns n) ≡ 0
  pub given : (key : String) (n : ℕ) → lookup key u.connections ≡ some n → n < u.next_conn

module _ (u : UdpForward) (accounted : IsAccounted u) where
  -- One session, the counter and the datagram in flight change, and what the one gains the others
  -- lose.
  pub change-IsAccounted :
      (n : ℕ) (c : UdpConnection) (bytes : ℕ) (d : Option UdpDatagram)
      → bytes + load (u.conns n) + held u.in_flight ≡ u.queued_bytes + load c + held d
      → (u.max_queued_bytes ≢ 0 → bytes ≤ u.max_queued_bytes)
      → (n < u.next_conn) ⊎ (load c ≡ 0)
      → IsAccounted (record (write_conn n c u) { queued_bytes = bytes; in_flight = d })
  change-IsAccounted n c bytes d moved fits known =
      let f : ℕ → ℕ = λ i. load (u.conns i) in
      let g : ℕ → ℕ = λ i. load (if nat_beq i n then c else u.conns i) in
      let (inside, outside) = total_change u.next_conn n f g (λ i differs. rw differs refl) in
      let balance = accounted.balance in
      let here : g n ≡ load c = elsewhere_here n n c (==_self n) in
      record {
        balance = elim (Bool-cases (ltb n u.next_conn)) [
          | inl lt ↦ omega (arith, inside (ltb→lt n u.next_conn lt), here)
          | inr ge ↦
              let le : u.next_conn ≤ n = ground arith in
              elim known [
                | inl lt ↦ absurd (omega arith)
                | inr nothing ↦ omega (arith, outside le, accounted.unused n le)
              ]
        ];
        within = fits;
        unused = λ i le. elim (Bool-cases (nat_beq i n)) [
          | inl same ↦ elim known [
            | inl lt ↦ absurd (ground arith)
            | inr nothing ↦ elsewhere_here i n c same ∙ nothing
          ]
          | inr differs ↦ elsewhere i n c differs ∙ accounted.unused i le
        ];
        given = accounted.given;
      }
    where
      elsewhere_here :
          (i m : ℕ) (x : UdpConnection)
          → nat_beq i m ≡ true
          → load (if nat_beq i m then x else u.conns i) ≡ load x
      elsewhere_here i m x same = rw same refl

      elsewhere :
          (i m : ℕ) (x : UdpConnection)
          → nat_beq i m ≡ false
          → load (if nat_beq i m then x else u.conns i) ≡ load (u.conns i)
      elsewhere i m x differs = rw differs refl

  -- What a session holds, the counter counts.
  pub load_counted : (n : ℕ) → load (u.conns n) ≤ u.queued_bytes
  load_counted n = elim (Bool-cases (ltb n u.next_conn)) [
    | inl lt ↦
        let part = part_of_total u.next_conn n (λ i. load (u.conns i)) (ltb→lt n u.next_conn lt) in
        omega (arith, part, accounted.balance)
    | inr ge ↦ let le : u.next_conn ≤ n = ground arith in omega (arith, accounted.unused n le)
  ]

  pub known :
      (n : ℕ) (c : UdpConnection) → load c ≤ load (u.conns n) → (n < u.next_conn) ⊎ (load c ≡ 0)
  known n c le = elim (Bool-cases (ltb n u.next_conn)) [
    | inl lt ↦ inl (ltb→lt n u.next_conn lt)
    | inr ge ↦
        let out : u.next_conn ≤ n = ground arith in inr (omega (arith, accounted.unused n out))
  ]

  -- Another table of sessions, with no new number.
  pub relabel-IsAccounted :
      (connections : List (String × ℕ)) (lru : List String) (panicked : Bool)
      → ((key : String) (n : ℕ) → lookup key connections ≡ some n → n < u.next_conn)
      → IsAccounted (record u { connections = connections; lru = lru; panicked = panicked })
  relabel-IsAccounted connections lru panicked given = record {
    balance = accounted.balance;
    within = accounted.within;
    unused = accounted.unused;
    given = given;
  }
