-- ===== src/Resolve/Answering.antt =====
-- resolve/resolver.go: that Resolve answers.
use distrust_core.NetIp.{NetIp}
use distrust_core.Resolve.Candidates.{
  LookupEvent, result_of, window_ends, cancelled, Resolution, Gathering, first_preferred,
  add_answers, on_event, gather, resolve_candidates,
}
use distrust_core.Base.{
  ℕ, suc, ◌+◌, ◌≤◌, ◌<◌, ◌≢◌, Bool, Option, none, some, List, [], ◌∷◌, arith, ltb→lt, ltb,
  Comparable_nat, Comparable_string, if_both, option_both,
}

abbrev pub results : List LookupEvent → ℕ
results [] = 0
results (result_of source answer ∷ events) = suc (results events)
results (_ ∷ events) = results events

module _ (equal : NetIp → NetIp → Bool) (preferred_ip : Option (NetIp → Bool))
    (ctx_ended : Bool) where
  -- A turn that does not answer comes nearer to the end.
  on_event_counts :
      (pending : ℕ) (e : LookupEvent) (events : List LookupEvent) (g : Gathering)
      → g.completed < pending
      → pending ≤ g.completed + results (e ∷ events)
      → pending ≤ (on_event equal preferred_ip ctx_ended pending e g).1.completed + results events
  unfolding on_event
  on_event_counts pending (result_of source none) events g lt counted = ground arith
  on_event_counts pending (result_of source (some ips)) events g lt counted =
      let Nearer : Option Resolution × Gathering → Type 0 =
        λ r. pending ≤ r.1.completed + results events in
      option_both Nearer (add_answers equal preferred_ip ctx_ended g.candidates ips).0
        (λ _. ground arith) (λ ip _. omega arith)
  on_event_counts pending window_ends events g lt counted = ground arith
  on_event_counts pending cancelled events g lt counted = counted

  -- Enough results end the loop.
  gather_ends :
      (pending : ℕ) (events : List LookupEvent) (g : Gathering)
      → pending ≤ g.completed + results events
      → gather equal preferred_ip ctx_ended pending events g ≢ none
  unfolding gather
  gather_ends pending [] g counted = ground arith
  gather_ends pending (e ∷ events) g counted =
      let Answers : Option Resolution → Type 0 = λ o. o ≢ none in
      if_both Answers (ltb g.completed pending)
        (λ lt.
          option_both Answers (on_event equal preferred_ip ctx_ended pending e g).0
            (λ _.
              gather_ends pending events (on_event equal preferred_ip ctx_ended pending e g).1
                (on_event_counts pending e events g (ltb→lt g.completed pending lt) counted))
            (λ r _ none_. cc))
        (λ _ none_. cc)

  -- Resolve answers at the latest when all its lookups have given their results, whatever else
  -- happened before and between them.
  pub resolve_candidates-ends :
      (history : List NetIp) (pending : ℕ) (system_done policy_done : Bool)
      (events : List LookupEvent)
      → pending ≤ results events
      → resolve_candidates equal preferred_ip ctx_ended history pending system_done policy_done
          events
        ≢ none
  unfolding resolve_candidates
  resolve_candidates-ends history pending system_done policy_done events all_ =
      let Answers : Option Resolution → Type 0 = λ o. o ≢ none in
      option_both Answers (first_preferred equal preferred_ip ctx_ended history)
        (λ _. gather_ends pending events _ (omega arith)) (λ ip _ none_. cc)
