-- ===== src/Client/Bounds.antt =====
-- flud/protocol/ClientPrimitives.py: how many requests the retries make, and how they end.
use flud.Prelude.{
  ℕ, zero, suc, ◌+◌, ◌-◌, ◌*◌, ◌<◌, ◌≤◌, ◌≡◌, refl, ap, Option, none, List, [], ◌∷◌, ◌++◌, Result,
  arith, length, some,
}
use flud.Sending.{max_timeouts}
use flud.Client.Requests.{Page, Try, max_auth_retry, Log, request_loop, request}
use flud.Client.Rounds.{Verdict, stops, starts_again, answers, round}

-- The requests that are left after so many timeouts and answers.
abbrev room : ℕ → ℕ → ℕ
room t a = (4 - t) * 5 + (5 - a)

length-after :
    (log : Log) (header : Option (List ℕ)) → length (log ++ (header ∷ [])) ≡ suc (length log)
length-after [] header = refl
length-after (x ∷ log) header = ap suc (length-after log header)

module _ (read : List ℕ → List ℕ) (answer : List ℕ → Result (List ℕ))
    (ask : ℕ → ℕ → Option (List ℕ) → Try) where
  -- The last request of a log, and how it ends.
  pub record Ends (log : Log) (result : Result Page) : Type 0 where
    pub timeouts : ℕ
    pub challenges : ℕ
    pub header : Option (List ℕ)
    pub earlier : Log
    pub few_timeouts : timeouts < max_timeouts
    pub few_challenges : challenges ≤ max_auth_retry
    pub last : log ≡ earlier ++ (header ∷ [])
    pub verdict :
        Verdict read answer ask timeouts challenges (ask timeouts challenges header) result

  loop_bound :
      (f g t a : ℕ) (header : Option (List ℕ)) (log : Log)
      → t < max_timeouts
      → a ≤ max_auth_retry
      → room t a ≤ f
      → room t a ≤ g
      → (length (request_loop read answer ask f t a header log).0 ≤ length log + room t a)
        × (request_loop read answer ask g t a header log
            ≡ request_loop read answer ask f t a header log)
  loop_bound zero g t a header log ht ha hf hg = absurd (omega (arith, hf, ha))
  loop_bound (suc f) zero t a header log ht ha hf hg = absurd (omega (arith, hg, ha))
  loop_bound (suc f) (suc g) t a header log ht ha hf hg =
      elim (round read answer ask t a header log) [
        | stops result v e ↦ rw (e f, e g) (omega (arith, length-after log header, ha), refl)
        | starts_again more e ↦
            let rest =
              loop_bound f g (suc t) 0 none (log ++ (header ∷ [])) more (omega arith)
                (omega (arith, hf, more, ha)) (omega (arith, hg, more, ha)) in
            rw (e f, e g) (omega (arith, rest.0, length-after log header, more, ha), rest.1)
        | answers h more e ↦
            let rest =
              loop_bound f g t (suc a) (some h) (log ++ (header ∷ [])) ht more
                (omega (arith, hf, more)) (omega (arith, hg, more)) in
            rw (e f, e g) (omega (arith, rest.0, length-after log header, more), rest.1)
      ]

  -- The requests to store, retrieve, delete and verify, for every behaviour of the host: at most 25
  -- requests are made, and more fuel than the model's gives the same requests and the same result.
  pub length-request :
      (f : ℕ)
      → 25 ≤ f
      → (length (request read answer ask).0 ≤ 25)
        × (request_loop read answer ask f 0 0 none [] ≡ request read answer ask)
  unfolding request
  length-request f h = loop_bound 25 f 0 0 none [] (omega arith) (omega arith) (omega arith) h
