-- ===== src/NetIp.antt =====
-- The parts of Go's net.IP that the program uses, and internal/ipresource's IPv4Uint32:
-- an address is a byte slice, of length 4 or 16.
use distrust_core.Base.{
  ℕ, ◌^◌, ◌<◌, ◌≡◌, refl, ap, Bool, false, ◌&&◌, Option, none, some, [], ◌∷◌, arith, nat_beq,
  if◌then◌else◌, Comparable_nat, Comparable_string, length, drop, then_some, Bytes, join32, be32,
}

abbrev pub NetIp : Type 0
NetIp = Bytes

-- The ten zero bytes and two 0xff bytes before an IPv4 address in its 16-byte form.
abbrev is_v4_in_v6 : Bytes → Bool
is_v4_in_v6 (a ∷ b ∷ c ∷ d ∷ e ∷ f ∷ g ∷ h ∷ i ∷ j ∷ k ∷ l ∷ _) =
    nat_beq a 0
    && nat_beq b 0
    && nat_beq c 0
    && nat_beq d 0
    && nat_beq e 0
    && nat_beq f 0
    && nat_beq g 0
    && nat_beq h 0
    && nat_beq i 0
    && nat_beq j 0
    && nat_beq k 255
    && nat_beq l 255
is_v4_in_v6 _ = false

-- `ip.To4()`; `none` is nil
unfoldable pub to4 : NetIp → Option Bytes
to4 ip =
    if nat_beq (length ip) 4
    then some ip
    else (if nat_beq (length ip) 16 && is_v4_in_v6 ip then some (drop 12 ip) else none)

-- `net.IPv4(a, b, c, d)`, in the 16-byte form
abbrev pub ipv4 : ℕ → ℕ → ℕ → ℕ → NetIp
ipv4 a b c d = 0 ∷ 0 ∷ 0 ∷ 0 ∷ 0 ∷ 0 ∷ 0 ∷ 0 ∷ 0 ∷ 0 ∷ 255 ∷ 255 ∷ a ∷ b ∷ c ∷ d ∷ []

-- `binary.BigEndian.Uint32` of a four-byte address
abbrev pub uint32_of : Bytes → Option ℕ
uint32_of (a ∷ b ∷ c ∷ d ∷ _) = some (join32 a b c d)
uint32_of _ = none

unfoldable pub ipv4_uint32 : NetIp → Option ℕ
ipv4_uint32 ip = then_some (to4 ip) uint32_of

-- `uint32ToIP` of internal/ippool
abbrev pub uint32_to_ip : ℕ → NetIp
uint32_to_ip n = be32 n

pub ipv4_uint32-uint32_to_ip : (n : ℕ) → n < 2 ^ 32 → ipv4_uint32 (uint32_to_ip n) ≡ some n
unfolding ipv4_uint32 to4
ipv4_uint32-uint32_to_ip n h = ap some (omega arith)

pub to4-ipv4 : (a b c d : ℕ) → to4 (ipv4 a b c d) ≡ some (a ∷ b ∷ c ∷ d ∷ [])
unfolding to4
to4-ipv4 a b c d = refl
