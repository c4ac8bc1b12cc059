-- ===== src/Resolve/Coordination.antt =====
-- resolve/resolver.go: resolveCoordinated, runResolution, releaseResolutionWaiter and the part of
-- Close for them: lookups of one host are shared. A shared resolution is its number. Each function is
-- what a goroutine does while it holds resolutionMu; its answer is left out. `waiting` counts the
-- goroutines that are in the select of resolveCoordinated.
use Prim.Native.String.{String}
use distrust_core.Base.{
  ℕ, suc, ◌-◌, ◌<◌, ◌≡◌, Bool, true, false, ◌||◌, none, some, List, [], ◌∷◌, nat_beq, if◌then◌else◌,
  Comparable_nat, Comparable_string, lookup, insert, remove,
}

pub record Resolutions : Type 0 where
  pub resolutions : List (String × ℕ)
  pub host_of : ℕ → String
  pub waiters : ℕ → ℕ
  pub waiting : ℕ → ℕ
  pub is_cancelled : ℕ → Bool
  pub is_done : ℕ → Bool
  pub next : ℕ
  pub closed : Bool

unfoldable pub no_resolutions : Resolutions
no_resolutions = record {
  resolutions = [];
  host_of = λ call. "";
  waiters = λ call. 0;
  waiting = λ call. 0;
  is_cancelled = λ call. false;
  is_done = λ call. false;
  next = 0;
  closed = false;
}

abbrev pub write_at {ℓ} : {A : Type ℓ} → ℕ → A → (ℕ → A) → ℕ → A
write_at n value store m = if nat_beq m n then value else store m

-- The lookup of a host that nobody looks up starts.
abbrev pub start_resolution : String → Resolutions → Resolutions
start_resolution host r = record r {
  resolutions = insert host r.next r.resolutions;
  host_of = write_at r.next host r.host_of;
  waiters = write_at r.next 1 r.waiters;
  waiting = write_at r.next 1 r.waiting;
  next = suc r.next;
}

-- `resolveCoordinated` up to its select
unfoldable pub join_resolution : String → Resolutions → Resolutions
join_resolution host r = if r.closed then r else elim (lookup host r.resolutions) [
  | none ↦ start_resolution host r
  | some call ↦ record r {
    waiters = write_at call (suc (r.waiters call)) r.waiters;
    waiting = write_at call (suc (r.waiting call)) r.waiting;
  }
]

-- `releaseResolutionWaiter`, of a goroutine whose context has ended
unfoldable pub release_resolution_waiter : ℕ → Resolutions → Resolutions
release_resolution_waiter call r =
    let left = record r { waiting = write_at call (r.waiting call - 1) r.waiting } in
    elim (lookup (r.host_of call) r.resolutions) [
      | none ↦ left
      | some current ↦
          if nat_beq current call
          then (if nat_beq (r.waiters call - 1) 0
              then record left {
                waiters = write_at call 0 r.waiters;
                resolutions = remove (r.host_of call) r.resolutions;
                is_cancelled = write_at call true r.is_cancelled;
              }
              else record left { waiters = write_at call (r.waiters call - 1) r.waiters })
          else left
    ]

-- `runResolution` behind its lookup
unfoldable pub end_resolution : ℕ → Resolutions → Resolutions
end_resolution call r =
    let ended = record r {
      is_cancelled = write_at call true r.is_cancelled;
      is_done = write_at call true r.is_done;
    } in
    elim (lookup (r.host_of call) r.resolutions) [
      | none ↦ ended
      | some current ↦
          if nat_beq current call
          then record ended { resolutions = remove (r.host_of call) r.resolutions }
          else ended
    ]

-- A goroutine whose call is done returns.
unfoldable pub return_resolution : ℕ → Resolutions → Resolutions
return_resolution call r =
    if r.is_done call
    then record r { waiting = write_at call (r.waiting call - 1) r.waiting }
    else r

abbrev pub listed : ℕ → List (String × ℕ) → Bool
listed call [] = false
listed call ((host, other) ∷ calls) = nat_beq call other || listed call calls

unfoldable pub close_resolutions : Resolutions → Resolutions
close_resolutions r = record r {
  resolutions = [];
  is_cancelled = λ call. listed call r.resolutions || r.is_cancelled call;
  closed = true;
}

pub data Step : Resolutions → Resolutions → Type 0 where
  joins : (host : String) (r : Resolutions) → Step r (join_resolution host r)
  releases :
      (call : ℕ) (r : Resolutions) → 0 < r.waiting call → Step r (release_resolution_waiter call r)
  ends :
      (call : ℕ) (r : Resolutions)
      → call < r.next
      → r.is_done call ≡ false
      → Step r (end_resolution call r)
  returns : (call : ℕ) (r : Resolutions) → Step r (return_resolution call r)
  closes : (r : Resolutions) → Step r (close_resolutions r)

pub data Reach : Resolutions → Type 0 where
  starts : Reach no_resolutions
  goes : (r s : Resolutions) → Reach r → Step r s → Reach s
