-- ===== src/TcpTunnel/Draining.antt =====
-- client/atrust/tcptunnel.go: repeated calls of Read on a connection.
use distrust_core.TcpTunnel.{TcpTunnelConn, ReadError, WriteError, read_frames, read}
use distrust_core.TcpTunnel.Reading.{delivery, Delivers, read_frames-Delivers}
use distrust_core.Base.{
  ℕ, zero, suc, ◌≤◌, ◌<◌, ◌≡◌, refl, sym, ap, ◌∙◌, ◌≢◌, Bool, true, false, Option, none, some, List,
  [], ◌∷◌, ◌++◌, arith, Comparable_nat, Comparable_string, length, take, drop, All, length-append,
  length-take, take-append-drop, append_assoc_list, Outcome, ok, err, panic, Bytes,
}

-- What a connection still has to deliver: the rest of the last frame, and what the stream carries.
abbrev pub pending : TcpTunnelConn → Bytes × ReadError
pending c = (c.read_buf ++ (delivery c.reader).0, (delivery c.reader).1)

-- One call of Read, on a connection of frames.
abbrev Answers : ℕ → Bytes × ReadError → Outcome ReadError Bytes × TcpTunnelConn → Type 0
Answers size before (ok x, c) =
    (0 < length x)
    × (length x ≤ size)
    × (c.raw ≡ false)
    × (before ≡ (x ++ (pending c).0, (pending c).1))
Answers size before (err e, c) = before ≡ ([], e)
Answers size before (panic, c) = before ≢ before

framed_step :
    (size : ℕ) (stream : Bytes × ReadError) (step : Outcome ReadError Bytes × Bytes × Bytes)
    (c : TcpTunnelConn)
    → c.raw ≡ false
    → Delivers size stream step
    → Answers size stream (step.0, record c { read_buf = step.1; reader = step.2 })
unfolding Delivers
framed_step size stream (ok x, buf, rest) c framed delivers =
    (delivers.0, delivers.1, framed, delivers.2)
framed_step size stream (err e, buf, rest) c framed delivers = delivers
framed_step size stream (panic, buf, rest) c framed delivers = delivers

module _ (available : Bytes → ℕ → ℕ) where
  read_framed :
      (n : ℕ) (reader buf : Bytes) (reuse raw : Bool) (e : Option (Option WriteError))
      (sent : Bytes)
      → raw ≡ false
      → let c : TcpTunnelConn = record {
        reader = reader;
        read_buf = buf;
        reuse = reuse;
        raw = raw;
        close_write_err = e;
        sent = sent;
      } in
        Answers (suc n) (pending c) (read available c (suc n))
  unfolding read
  read_framed n reader buf reuse true e sent framed = cc
  read_framed n reader [] reuse false e sent framed =
      framed_step (suc n) (delivery reader) (read_frames (suc n) reader)
        (record {
          reader = reader;
          read_buf = [];
          reuse = reuse;
          raw = false;
          close_write_err = e;
          sent = sent;
        })
        refl (read_frames-Delivers (suc n) reader (omega arith))
  read_framed n reader (b ∷ bs) reuse false e sent framed = (
    omega arith,
    omega (arith, length-take n bs),
    refl,
    ap (λ w. (b ∷ w ++ (delivery reader).0, (delivery reader).1)) (sym (take-append-drop n bs))
        ∙ ap (λ w. (b ∷ w, (delivery reader).1))
            (append_assoc_list (take n bs) (drop n bs) (delivery reader).0),
  )

  -- Read on a connection of frames answers at least one byte and at most as many as there is room
  -- for, the next of those that are pending, which loses them; or it reports how the stream ends,
  -- when nothing is pending.
  pub read-Answers :
      (c : TcpTunnelConn) (size : ℕ)
      → c.raw ≡ false
      → 0 < size
      → Answers size (pending c) (read available c size)
  read-Answers c zero framed room = absurd (omega arith)
  read-Answers c (suc n) framed room =
      read_framed n c.reader c.read_buf c.reuse c.raw c.close_write_err c.sent framed

  -- What calls with buffers of these sizes answer until an error, which is kept.
  unfoldable pub drain : List ℕ → TcpTunnelConn → Bytes × Option ReadError
  drain [] c = ([], none)
  drain (size ∷ sizes) c =
      let (answer, after) = read available c size in
      let (more, end) = drain sizes after in
      elim answer [ ok x ↦ (x ++ more, end) | err e ↦ ([], some e) | panic ↦ ([], none) ]

  -- Calls on a connection of frames, one more than there are bytes pending.
  abbrev DrainsAll : List ℕ → Type 0
  DrainsAll sizes =
      (c : TcpTunnelConn)
      → c.raw ≡ false
      → length (pending c).0 < length sizes
      → drain sizes c ≡ ((pending c).0, some (pending c).1)

  drain_step :
      (sizes : List ℕ) (size : ℕ) (before : Bytes × ReadError)
      (step : Outcome ReadError Bytes × TcpTunnelConn)
      → DrainsAll sizes
      → length before.0 < suc (length sizes)
      → Answers size before step
      → ◌≡◌ {A = Bytes × Option ReadError}
          (elim (step.0) [
            | ok x ↦ (x ++ (drain sizes step.1).0, (drain sizes step.1).1)
            | err e ↦ ([], some e)
            | panic ↦ ([], none)
          ])
          (before.0, some before.1)
  drain_step sizes size before (ok x, c) rest enough (some_, fits, framed, is) =
      let bytes : before.0 ≡ x ++ (pending c).0 = ap (λ w. w.0) is in
      let len = length-append x (pending c).0 in
      let shorter : length (pending c).0 < length sizes = omega (arith, len, ap length bytes) in
      rw (rest c framed shorter) (ap (λ w. (w.0, some w.1)) (sym is))
  drain_step sizes size before (err e, c) rest enough answers =
      ap (λ w. (w.0, some w.1)) (sym answers)
  drain_step sizes size before (panic, c) rest enough answers = absurd (answers refl)

  drain-DrainsAll : (sizes : List ℕ) → All (λ size. 0 < size) sizes → DrainsAll sizes
  unfolding drain
  drain-DrainsAll [] rooms c framed enough = absurd (omega arith)
  drain-DrainsAll (size ∷ sizes) rooms c framed enough =
      drain_step sizes size (pending c) (read available c size) (drain-DrainsAll sizes rooms.1)
        enough (read-Answers c size framed rooms.0)

  -- Whatever the sizes of the buffers, if none is empty, calls of Read on a connection of frames
  -- deliver all bytes that its stream carries, in order, and then how the stream ends: at most one
  -- call more is needed than there are bytes.
  pub drain-pending :
      (sizes : List ℕ) (c : TcpTunnelConn)
      → c.raw ≡ false
      → All (λ size. 0 < size) sizes
      → length (pending c).0 < length sizes
      → drain sizes c ≡ ((pending c).0, some (pending c).1)
  drain-pending sizes c framed rooms enough = drain-DrainsAll sizes rooms c framed enough
