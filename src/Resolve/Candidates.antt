-- ===== src/Resolve/Candidates.antt =====
-- resolve/resolver.go: the part of Resolve that gathers candidates from the history and from the
-- lookups under way and selects one, with appendUniqueIPs. The results, the timer of the preference
-- window and the context are the events that the loop selects, in their order. Logging is left out,
-- and so is the cache, which gets the address that is answered.
use Prim.Native.String.{String}
use distrust_core.NetIp.{NetIp}
use distrust_core.Base.{
  ℕ, suc, Bool, true, false, not, ◌&&◌, ◌||◌, Option, none, some, List, [], ◌∷◌, ltb, nat_beq,
  if◌then◌else◌, ◌==◌, Comparable_nat, Comparable_string, length,
}

-- A result names its source; none is an error.
pub data LookupEvent : Type 0 where
  result_of : String → Option (List NetIp) → LookupEvent
  window_ends cancelled : LookupEvent

pub data Resolution : Type 0 where
  resolved : NetIp → Resolution
  all_sources_failed context_error : Resolution

-- What the loop keeps: `completed` results, and whether the system's and the policy's lookups are
-- done or not awaited.
pub record Gathering : Type 0 where
  pub candidates : List NetIp
  pub completed : ℕ
  pub system_done : Bool
  pub policy_done : Bool

-- `value.Equal(candidate)` is a parameter, as are the test for addresses that a resource covers and
-- whether the context has ended by the time that the loop has.
module _ (equal : NetIp → NetIp → Bool) (preferred_ip : Option (NetIp → Bool))
    (ctx_ended : Bool) where
  abbrev pub is_preferred : NetIp → Bool
  is_preferred ip = elim preferred_ip [ none ↦ false | some test ↦ test ip ]

  abbrev pub append_new : List NetIp → NetIp → List NetIp
  append_new [] candidate = candidate ∷ []
  append_new (value ∷ values) candidate =
      let rest = append_new values candidate in
      if equal value candidate then value ∷ values else value ∷ rest

  -- nil, the address without bytes, is not added.
  unfoldable pub append_unique_ips : List NetIp → NetIp → List NetIp
  append_unique_ips values candidate =
      if nat_beq (length candidate) 0 then values else append_new values candidate

  abbrev pub first_preferred : List NetIp → Option NetIp
  first_preferred [] = none
  first_preferred (ip ∷ ips) =
      let rest = first_preferred ips in if is_preferred ip then some ip else rest

  -- The addresses of a result, up to one that is preferred, which is answered at once.
  unfoldable pub add_answers : List NetIp → List NetIp → Option NetIp × List NetIp
  unfolding append_unique_ips
  add_answers candidates [] = (none, candidates)
  add_answers candidates (ip ∷ ips) =
      let more = append_unique_ips candidates ip in
      let rest = add_answers more ips in if is_preferred ip then (some ip, more) else rest

  abbrev pub is_empty : List NetIp → Bool
  is_empty [] = true
  is_empty (_ ∷ _) = false

  -- `completed = pending` where nothing better is awaited
  abbrev pub enough : ℕ → Gathering → Gathering
  enough pending g =
      if not (is_empty g.candidates) && g.system_done && g.policy_done
      then record g { completed = pending }
      else g

  abbrev pub count_result : String → Gathering → Gathering
  count_result source g = record g {
    completed = suc g.completed;
    system_done = g.system_done || source == "system";
    policy_done = g.policy_done || source == "policy-secondary";
  }

  -- One turn of the loop.
  unfoldable pub on_event : ℕ → LookupEvent → Gathering → Option Resolution × Gathering
  unfolding add_answers
  on_event pending (result_of source none) g = (none, enough pending (count_result source g))
  on_event pending (result_of source (some ips)) g =
      let counted = count_result source g in
      let (found, candidates) = add_answers g.candidates ips in
      elim found [
        | some ip ↦ (some (resolved ip), counted)
        | none ↦ (none, enough pending (record counted { candidates = candidates }))
      ]
  on_event pending window_ends g =
      (none, if is_empty g.candidates then g else record g { completed = pending })
  on_event pending cancelled g = (some context_error, g)

  -- Behind the loop: the first preferred candidate, else the first.
  unfoldable pub select_candidate : List NetIp → Resolution
  select_candidate [] = if ctx_ended then context_error else all_sources_failed
  select_candidate (ip ∷ ips) = elim (first_preferred (ip ∷ ips)) [
    | some best ↦ resolved best
    | none ↦ resolved ip
  ]

  -- The loop; none is that it still waits for an event.
  unfoldable pub gather : ℕ → List LookupEvent → Gathering → Option Resolution
  unfolding on_event select_candidate
  gather pending [] g =
      if ltb g.completed pending then none else some (select_candidate g.candidates)
  gather pending (e ∷ events) g =
      let (reply, after) = on_event pending e g in
      let rest = gather pending events after in
      if ltb g.completed pending
      then elim reply [ some r ↦ some r | none ↦ rest ]
      else some (select_candidate g.candidates)

  unfoldable pub unique : List NetIp → List NetIp → List NetIp
  unfolding append_unique_ips
  unique candidates [] = candidates
  unique candidates (ip ∷ ips) = unique (append_unique_ips candidates ip) ips

  -- From the history on: a preferred address of the history is answered at once.
  unfoldable pub resolve_candidates :
      List NetIp → ℕ → Bool → Bool → List LookupEvent → Option Resolution
  unfolding gather unique
  resolve_candidates history pending system_done policy_done events =
      elim (first_preferred history) [
        | some ip ↦ some (resolved ip)
        | none ↦ gather pending events (record {
          candidates = unique [] history;
          completed = 0;
          system_done = system_done;
          policy_done = policy_done;
        })
      ]
