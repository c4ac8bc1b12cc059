-- ===== src/Tunnel/Stream.antt =====
-- client/atrust/l3tunnelconn.go: splitIncomingIPPackets, which cuts the stream of data frames into
-- IP packets, and what readLoop relies on: a packet may arrive in pieces.
use distrust_core.Base.{
  ℕ, zero, suc, ◌+◌, ◌*◌, ◌/◌, ◌%◌, ◌≤◌, ◌<◌, ◌≡◌, refl, sym, ap, ◌∙◌, ◌≢◌, ◌⊎◌, inl, inr, true,
  false, ◌||◌, List, [], ◌∷◌, ◌++◌, arith, leb, ltb, nat_beq, if◌then◌else◌, Comparable_nat,
  Comparable_string, Bool-cases, length, take, drop, length-append, length-drop, take-append_le,
  drop-append_le, Outcome, ok, err, panic, Bytes, join16,
}

pub data StreamError : Type 0 where
  invalid_ipv4_length unexpected_ip_version : StreamError

-- What the head of the stream says: wait for more bytes, a packet of a length, or an error.
pub data Head : Type 0 where
  need_more : Head
  packet_of : ℕ → Head
  bad : StreamError → Head

abbrev ipv4_head : ℕ → ℕ → Head
ipv4_head header_len packet_len =
    if ltb header_len 20 || ltb packet_len header_len
    then bad invalid_ipv4_length
    else packet_of packet_len

-- The switch on the version; the reads are behind tests of the length.
unfoldable pub packet_head : Bytes → Head
packet_head [] = need_more
packet_head (first ∷ rest) =
    if nat_beq (first / 16) 4
    then elim rest [ a ∷ hi ∷ lo ∷ _ ↦ ipv4_head (first % 16 * 4) (join16 hi lo) | _ ↦ need_more ]
    else (if nat_beq (first / 16) 6
        then elim rest [ a ∷ b ∷ c ∷ hi ∷ lo ∷ _ ↦ packet_of (40 + join16 hi lo) | _ ↦ need_more ]
        else bad unexpected_ip_version)

-- Packets and the bytes that remain.
abbrev pub Split : Type 0
Split = Outcome StreamError (List Bytes × Bytes)

abbrev pub prepend : List Bytes → Split → Split
prepend packets (ok (more, rest)) = ok (packets ++ more, rest)
prepend packets (err e) = err e
prepend packets panic = panic

-- `stream[:n]` is a packet, and the loop goes on with `stream[n:]`: slices that panic beyond the end.
abbrev pub slice_off : ℕ → Bytes → Split → Split
slice_off n stream more = if leb n (length stream) then prepend (take n stream ∷ []) more else panic

-- The loop, on fuel: the length of the stream is enough, since no packet is empty.
unfoldable pub split_fuel : ℕ → Bytes → Split
split_fuel zero stream = ok ([], stream)
split_fuel (suc fuel) [] = ok ([], [])
split_fuel (suc fuel) (b ∷ bs) = elim (packet_head (b ∷ bs)) [
  | need_more ↦ ok ([], b ∷ bs)
  | bad e ↦ err e
  | packet_of n ↦
      let more = split_fuel fuel (drop n (b ∷ bs)) in
      if ltb (length (b ∷ bs)) n then ok ([], b ∷ bs) else slice_off n (b ∷ bs) more
]

unfoldable pub split_incoming_ip_packets : Bytes → Split
unfolding split_fuel
split_incoming_ip_packets stream = split_fuel (length stream) stream

packet_head_pos : (s : Bytes) (n : ℕ) → packet_head s ≡ packet_of n → 0 < n
unfolding packet_head
packet_head_pos [] n h = cc
packet_head_pos (first ∷ []) n h = ground arith
packet_head_pos (first ∷ a ∷ []) n h = ground arith
packet_head_pos (first ∷ a ∷ b ∷ []) n h = ground arith
packet_head_pos (first ∷ a ∷ b ∷ c ∷ []) n h = ground arith
packet_head_pos (first ∷ a ∷ b ∷ c ∷ d ∷ []) n h = ground arith
packet_head_pos (first ∷ a ∷ b ∷ c ∷ d ∷ e ∷ rest) n h = ground arith

-- More bytes do not change what a head says once it says anything.
packet_head-append :
    (s t : Bytes) → packet_head s ≢ need_more → packet_head (s ++ t) ≡ packet_head s
unfolding packet_head
packet_head-append [] t h = absurd (h refl)
packet_head-append (first ∷ []) t h = ground arith
packet_head-append (first ∷ a ∷ []) t h = ground arith
packet_head-append (first ∷ a ∷ b ∷ []) t h = ground arith
packet_head-append (first ∷ a ∷ b ∷ c ∷ []) t h = ground arith
packet_head-append (first ∷ a ∷ b ∷ c ∷ d ∷ []) t h = ground arith
packet_head-append (first ∷ a ∷ b ∷ c ∷ d ∷ e ∷ rest) t h = ground arith

prepend-nil : (s : Split) → prepend [] s ≡ s
prepend-nil (ok (more, rest)) = refl
prepend-nil (err e) = refl
prepend-nil panic = refl

prepend-prepend :
    (x : Bytes) (ps : List Bytes) (s : Split) → prepend (x ∷ []) (prepend ps s) ≡ prepend (x ∷ ps) s
prepend-prepend x ps (ok (more, rest)) = refl
prepend-prepend x ps (err e) = refl
prepend-prepend x ps panic = refl

-- One round of the loop.
abbrev cut : Bytes → ℕ → Split → Split
cut s n more = if ltb (length s) n then ok ([], s) else slice_off n s more

abbrev round : Bytes → Head → (ℕ → Split) → Split
round s need_more more = ok ([], s)
round s (bad e) more = err e
round s (packet_of n) more = cut s n (more n)

module _ (f b : ℕ) (bs : Bytes) where
  split_fuel-round :
      (h : Head)
      → packet_head (b ∷ bs) ≡ h
      → split_fuel (suc f) (b ∷ bs) ≡ round (b ∷ bs) h (λ n. split_fuel f (drop n (b ∷ bs)))
  unfolding split_fuel
  split_fuel-round need_more e = rw (e, split_fuel)
  split_fuel-round (packet_of n) e = rw (e, split_fuel)
  split_fuel-round (bad x) e = rw (e, split_fuel)

Head-cases :
    (h : Head) → (h ≡ need_more) ⊎ ((n : ℕ) × (h ≡ packet_of n)) ⊎ ((e : StreamError) × (h ≡ bad e))
Head-cases need_more = inl refl
Head-cases (packet_of n) = inr (inl (n, refl))
Head-cases (bad e) = inr (inr (e, refl))

-- Any fuel that covers the stream gives the same result: the loop ends by itself.
split_fuel-enough :
    (f g : ℕ) (s : Bytes) → length s ≤ f → length s ≤ g → split_fuel f s ≡ split_fuel g s
unfolding split_fuel
split_fuel-enough zero zero s h k = refl
split_fuel-enough zero (suc g) [] h k = refl
split_fuel-enough zero (suc g) (b ∷ bs) h k = absurd (omega arith)
split_fuel-enough (suc f) zero [] h k = refl
split_fuel-enough (suc f) zero (b ∷ bs) h k = absurd (omega arith)
split_fuel-enough (suc f) (suc g) [] h k = refl
split_fuel-enough (suc f) (suc g) (b ∷ bs) h k =
    split_fuel-round f b bs (packet_head (b ∷ bs)) refl
    ∙ same (packet_head (b ∷ bs)) refl (λ n pos_.
      split_fuel-enough f g (drop n (b ∷ bs)) (omega (arith, length-drop n (b ∷ bs)))
        (omega (arith, length-drop n (b ∷ bs))))
    ∙ sym (split_fuel-round g b bs (packet_head (b ∷ bs)) refl)
  where
    same :
        (x : Head)
        → packet_head (b ∷ bs) ≡ x
        → ((n : ℕ) → 0 < n → split_fuel f (drop n (b ∷ bs)) ≡ split_fuel g (drop n (b ∷ bs)))
        → round (b ∷ bs) x (λ n. split_fuel f (drop n (b ∷ bs)))
          ≡ round (b ∷ bs) x (λ n. split_fuel g (drop n (b ∷ bs)))
    same need_more e ih = refl
    same (bad x) e ih = refl
    same (packet_of n) e ih = ap (cut (b ∷ bs) n) (ih n (packet_head_pos (b ∷ bs) n e))

abbrev pub concat : List Bytes → Bytes
concat [] = []
concat (p ∷ ps) = p ++ concat ps

-- What a result says of its stream: the packets and the rest are its bytes, in order.
abbrev Covers : Bytes → Split → Type 0
Covers s (ok (packets, rest)) = concat packets ++ rest ≡ s
Covers s (err e) = Unit
Covers s panic = ⊥

-- After a prefix was split, the rest of the stream is split as the remaining bytes with what follows.
abbrev Continues : Bytes → Split → Split → Type 0
Continues t (ok (packets, rest)) whole =
    whole ≡ prepend packets (split_incoming_ip_packets (rest ++ t))
Continues t (err e) whole = whole ≡ err e
Continues t panic whole = ⊥

cut-Continues :
    (s t : Bytes) (n : ℕ) (more whole : Split)
    → n ≤ length s
    → Continues t more whole
    → Continues t (prepend (take n s ∷ []) more) (prepend (take n (s ++ t) ∷ []) whole)
cut-Continues s t n (ok (packets, rest)) whole h c =
    rw (c, take-append_le n s t h)
      (prepend-prepend (take n s) packets (split_incoming_ip_packets (rest ++ t)))
cut-Continues s t n (err e) whole h c = rw c refl
cut-Continues s t n panic whole h c = c

waits :
    (g : ℕ) (s t : Bytes)
    → length (s ++ t) ≤ g
    → split_fuel g (s ++ t) ≡ prepend [] (split_incoming_ip_packets (s ++ t))
unfolding split_incoming_ip_packets
waits g s t h =
    split_fuel-enough g (length (s ++ t)) (s ++ t) h (omega arith)
    ∙ sym (prepend-nil (split_fuel (length (s ++ t)) (s ++ t)))

-- One round on the prefix against one round on the whole stream.
round-Continues :
    (f g b : ℕ) (bs t : Bytes) (x : Head)
    → packet_head (b ∷ bs) ≡ x
    → length (b ∷ bs ++ t) ≤ suc g
    → ((n : ℕ)
        → 0 < n
        → n ≤ length (b ∷ bs)
        → Continues t (split_fuel f (drop n (b ∷ bs))) (split_fuel g (drop n (b ∷ bs) ++ t)))
    → Continues t
        (round (b ∷ bs) x (λ n. split_fuel f (drop n (b ∷ bs))))
        (split_fuel (suc g) (b ∷ bs ++ t))
round-Continues f g b bs t need_more e k ih = waits (suc g) (b ∷ bs) t k
round-Continues f g b bs t (bad x) e k ih =
    split_fuel-round g b (bs ++ t) (bad x) (packet_head-append (b ∷ bs) t (λ stuck. cc) ∙ e)
round-Continues f g b bs t (packet_of n) e k ih = elim (Bool-cases (ltb (length (b ∷ bs)) n)) [
  | inl short ↦ rw short (waits (suc g) (b ∷ bs) t k)
  | inr long ↦
      let fits : n ≤ length (b ∷ bs) = ground arith in
      let same = packet_head-append (b ∷ bs) t (λ stuck. cc) ∙ e in
      let more : ltb (length (b ∷ bs ++ t)) n ≡ false = ground (arith, length-append (b ∷ bs) t) in
      let in_range : leb n (length (b ∷ bs)) ≡ true = ground arith in
      let in_whole : leb n (length (b ∷ bs ++ t)) ≡ true =
        ground (arith, length-append (b ∷ bs) t) in
      rw (long, in_range)
        (rw (split_fuel-round g b (bs ++ t) (packet_of n) same) (
          rw (more, in_whole)
            (rw (drop-append_le n (b ∷ bs) t fits) (
              cut-Continues (b ∷ bs) t n (split_fuel f (drop n (b ∷ bs)))
                (split_fuel g (drop n (b ∷ bs) ++ t)) fits
                (ih n (packet_head_pos (b ∷ bs) n e) fits)))))
]

split_fuel-Continues :
    (f g : ℕ) (s t : Bytes)
    → length s ≤ f
    → length (s ++ t) ≤ g
    → Continues t (split_fuel f s) (split_fuel g (s ++ t))
unfolding split_fuel
split_fuel-Continues zero g [] t h k = waits g [] t k
split_fuel-Continues zero g (b ∷ bs) t h k = absurd (omega arith)
split_fuel-Continues (suc f) g [] t h k = waits g [] t k
split_fuel-Continues (suc f) zero (b ∷ bs) t h k = absurd (omega arith)
split_fuel-Continues (suc f) (suc g) (b ∷ bs) t h k =
    rw (split_fuel-round f b bs (packet_head (b ∷ bs)) refl) (
      round-Continues f g b bs t (packet_head (b ∷ bs)) refl k (λ n pos_ fits.
        split_fuel-Continues f g (drop n (b ∷ bs)) t (omega (arith, length-drop n (b ∷ bs))) (
          omega (
            arith,
            length-drop n (b ∷ bs),
            length-append (drop n (b ∷ bs)) t,
            length-append bs t,
          ))))

-- A stream may be cut anywhere: splitting what has arrived, and later the remaining bytes with what
-- arrives then, gives the packets, the rest or the error of splitting the whole stream at once.
pub split_incoming_ip_packets-Continues :
    (s t : Bytes) → Continues t (split_incoming_ip_packets s) (split_incoming_ip_packets (s ++ t))
unfolding split_incoming_ip_packets
split_incoming_ip_packets-Continues s t =
    split_fuel-Continues (length s) (length (s ++ t)) s t (omega arith) (omega arith)
