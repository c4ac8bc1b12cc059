-- ===== src/TcpTunnel/Reading.antt =====
-- client/atrust/tcptunnel.go: what the calls of Read deliver of a stream of frames.
use distrust_core.TcpTunnel.{
  ReadError, eof, unexpected_header, ended, ReadStep, read_payload, read_frames,
}
use distrust_core.Base.{
  ℕ, zero, suc, ◌≤◌, ◌<◌, ◌≡◌, refl, sym, ap, ◌∙◌, subst, ◌≢◌, inl, inr, ◌&&◌, [], ◌∷◌, ◌++◌, arith,
  leb→le, leb, nat_beq, if◌then◌else◌, Comparable_nat, Comparable_string, Bool-cases, nat_beq_iff,
  length, take, drop, length-take, length-drop, take-append-drop, append_assoc_list, ok, err, panic,
  Bytes, join16,
}

-- The bytes that a stream of frames carries, up to its end, and how it ends: a frame that is cut
-- short carries nothing. The fuel bounds the frames.
unfoldable pub carried : ℕ → Bytes → Bytes × ReadError
carried zero s = ([], ended s)
carried (suc fuel) (h0 ∷ h1 ∷ hi ∷ lo ∷ rest) =
    let n = join16 hi lo in
    let (more, end) = carried fuel (drop n rest) in
    if nat_beq h0 0x01 && nat_beq h1 0x00
    then (if leb n (length rest) then (take n rest ++ more, end) else ([], ended rest))
    else ([], if nat_beq h0 0x01 && nat_beq h1 0x01 then eof else unexpected_header)
carried (suc fuel) short = ([], ended short)

-- Any fuel from the length on gives the same.
carried_fuel : (f g : ℕ) (s : Bytes) → length s ≤ f → length s ≤ g → carried f s ≡ carried g s
unfolding carried
carried_fuel zero zero s enough enough' = refl
carried_fuel zero (suc g) [] enough enough' = refl
carried_fuel zero (suc g) (x ∷ s) enough enough' = absurd (omega arith)
carried_fuel (suc f) zero [] enough enough' = refl
carried_fuel (suc f) zero (x ∷ s) enough enough' = absurd (omega arith)
carried_fuel (suc f) (suc g) [] enough enough' = refl
carried_fuel (suc f) (suc g) (a ∷ []) enough enough' = refl
carried_fuel (suc f) (suc g) (a ∷ b ∷ []) enough enough' = refl
carried_fuel (suc f) (suc g) (a ∷ b ∷ c ∷ []) enough enough' = refl
carried_fuel (suc f) (suc g) (a ∷ b ∷ c ∷ d ∷ s) enough enough' =
    let len = length-drop (join16 c d) s in
    rw (carried_fuel f g (drop (join16 c d) s) (omega (arith, len)) (omega (arith, len)))

-- What the stream carries, on enough fuel.
unfoldable pub delivery : Bytes → Bytes × ReadError
unfolding carried
delivery s = carried (length s) s

-- What follows a header `a b` with a length of n.
abbrev behind_header : ℕ → ℕ → ℕ → Bytes → Bytes × ReadError
behind_header a b n s =
    if nat_beq a 0x01 && nat_beq b 0x00
    then (if leb n (length s)
        then (take n s ++ (delivery (drop n s)).0, (delivery (drop n s)).1)
        else ([], ended s))
    else ([], if nat_beq a 0x01 && nat_beq b 0x01 then eof else unexpected_header)

pub delivery_frame :
    (a b c d : ℕ) (s : Bytes) → delivery (a ∷ b ∷ c ∷ d ∷ s) ≡ behind_header a b (join16 c d) s
unfolding delivery
delivery_frame a b c d s =
    let len = length-drop (join16 c d) s in
    let same =
      carried_fuel (suc (suc (suc (length s)))) (length (drop (join16 c d) s)) (drop (join16 c d) s)
        (omega (arith, len)) (omega arith) in
    ap
      (λ w.
        if nat_beq a 0x01 && nat_beq b 0x00
        then (if leb (join16 c d) (length s)
            then (take (join16 c d) s ++ w.0, w.1)
            else ([], ended s))
        else ([], if nat_beq a 0x01 && nat_beq b 0x01 then eof else unexpected_header))
      same

-- One call of Read: it answers bytes, at least one and no more than there is room for, which come
-- next, or the stream carries no more and ends this way.
unfoldable pub Delivers : ℕ → Bytes × ReadError → ReadStep → Type 0
unfolding delivery
Delivers size stream (ok x, buf, rest) =
    (0 < length x)
    × (length x ≤ size)
    × (stream ≡ (x ++ (buf ++ (delivery rest).0), (delivery rest).1))
Delivers size stream (err e, buf, rest) = stream ≡ ([], e)
Delivers size stream (panic, buf, rest) = stream ≢ stream

-- What a frame with a payload carries, and what is behind it.
abbrev data_delivery : ℕ → Bytes → Bytes × ReadError
data_delivery n s =
    if leb n (length s)
    then (take n s ++ (delivery (drop n s)).0, (delivery (drop n s)).1)
    else ([], ended s)

read_payload-Delivers :
    (size n : ℕ) (s : Bytes)
    → 0 < size
    → 0 < n
    → Delivers size (data_delivery n s) (read_payload size n s)
unfolding Delivers read_payload
read_payload-Delivers size n s room some_ = elim (Bool-cases (leb n (length s))) [
  | inl fits ↦
      let n_le = leb→le n (length s) fits in
      let size_of : length (take n s) ≡ n = omega (arith, length-take n s) in
      elim (Bool-cases (leb n size)) [
        | inl all_ ↦ let le = leb→le n size all_ in rw (fits, all_) (rw size_of (some_, le, refl))
        | inr part ↦
            let more : size ≤ n = ground arith in
            let first = length-take size (take n s) in
            let cut : (take n s ++ (delivery (drop n s)).0, (delivery (drop n s)).1) ≡ (
              take size (take n s) ++ drop size (take n s) ++ (delivery (drop n s)).0,
              (delivery (drop n s)).1,
            ) =
              ap (λ w. (w ++ (delivery (drop n s)).0, (delivery (drop n s)).1))
                (sym (take-append-drop size (take n s))) in
            rw (fits, part)
              (
                omega (arith, first),
                omega (arith, first),
                cut
                    ∙ ap (λ w. (w, (delivery (drop n s)).1))
                        (append_assoc_list (take size (take n s)) (drop size (take n s))
                          (delivery (drop n s)).0),
              )
      ]
  | inr short ↦ rw short refl
]

data_delivery_empty : (n : ℕ) (s : Bytes) → n ≡ 0 → data_delivery n s ≡ delivery s
data_delivery_empty n s empty = ground arith

-- One turn of the loop.
read_frames_turn :
    (size a b c d : ℕ) (s : Bytes)
    → read_frames size (a ∷ b ∷ c ∷ d ∷ s) ≡ (
        if nat_beq a 0x01 && nat_beq b 0x00
        then (if nat_beq (join16 c d) 0
            then read_frames size s
            else read_payload size (join16 c d) s)
        else (if nat_beq a 0x01 && nat_beq b 0x01
            then (err eof, [], s)
            else (err unexpected_header, [], s)))
unfolding read_frames
read_frames_turn size a b c d s = refl

pub read_frames-Delivers :
    (size : ℕ) (s : Bytes) → 0 < size → Delivers size (delivery s) (read_frames size s)
unfolding read_frames Delivers
read_frames-Delivers size [] room = refl
read_frames-Delivers size (a ∷ []) room = refl
read_frames-Delivers size (a ∷ b ∷ []) room = refl
read_frames-Delivers size (a ∷ b ∷ c ∷ []) room = refl
read_frames-Delivers size (a ∷ b ∷ c ∷ d ∷ s) room =
    rw (delivery_frame a b c d s, read_frames_turn size a b c d s)
      (elim (Bool-cases (nat_beq a 0x01 && nat_beq b 0x00)) [
        | inl data_ ↦ elim (Bool-cases (nat_beq (join16 c d) 0)) [
          | inl empty ↦
              let zero_ : join16 c d ≡ 0 = (nat_beq_iff (join16 c d) 0).0 empty in
              rw (data_, empty)
                (subst (λ w. Delivers size w (read_frames size s))
                  (sym (data_delivery_empty (join16 c d) s zero_))
                  (read_frames-Delivers size s room))
          | inr some_ ↦
              rw (data_, some_) (read_payload-Delivers size (join16 c d) s room (ground arith))
        ]
        | inr other ↦ elim (Bool-cases (nat_beq a 0x01 && nat_beq b 0x01)) [
          | inl close ↦ rw (other, close) refl
          | inr bad ↦ rw (other, bad) refl
        ]
      ])
