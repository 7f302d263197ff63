-- ===== src/Client/Rounds.antt =====
-- flud/protocol/ClientPrimitives.py: one request of the loop with its retries.
use flud.Prelude.{
  ℕ, suc, ◌<◌, ◌≤◌, ◌≡◌, refl, inl, inr, true, false, Bool-cases, Option, none, some, List, [], ◌∷◌,
  ◌++◌, Result, ok, raise, Exc, socket_error, runtime_error, leb, ◌==◌, arith,
}
use flud.Sending.{max_timeouts}
use flud.Client.Requests.{Page, Try, page, late, failed, max_auth_retry, Log, body_or, request_loop}

module _ (read : List ℕ → List ℕ) (answer : List ℕ → Result (List ℕ))
    (ask : ℕ → ℕ → Option (List ℕ) → Try) where
  -- What the answer of a page with a challenge is made from.
  abbrev pub challenge_in : Page → List ℕ
  challenge_in r = body_or (read r.body) r.reason

  -- The ends of the loop: what an attempt is, after so many timeouts and answers, and the result.
  pub data Verdict (t a : ℕ) : Try → Result Page → Type 0 where
    response : (r : Page) → (r.status == 401) ≡ false → Verdict t a (page r) (ok r)
    exhausted :
        (r : Page)
        → (r.status == 401) ≡ true
        → max_auth_retry ≤ a
        → Verdict t a (page r) (raise runtime_error)
    unanswered :
        (r : Page) (e : Exc)
        → (r.status == 401) ≡ true
        → answer (challenge_in r) ≡ raise e
        → Verdict t a (page r) (raise e)
    timeouts : max_timeouts ≤ suc t → Verdict t a late (raise socket_error)
    error : (e : Exc) → Verdict t a (failed e) (raise e)

  abbrev after : Option (List ℕ) → Log → Log
  after header log = log ++ (header ∷ [])

  pub data Round (t a : ℕ) (header : Option (List ℕ)) (log : Log) : Type 0 where
    stops :
        (result : Result Page)
        → Verdict t a (ask t a header) result
        → ((f : ℕ)
            → request_loop read answer ask (suc f) t a header log ≡ (log ++ (header ∷ []), result))
        → Round t a header log
    starts_again :
        suc t < max_timeouts
        → ((f : ℕ)
            → request_loop read answer ask (suc f) t a header log
              ≡ request_loop read answer ask f (suc t) 0 none (log ++ (header ∷ [])))
        → Round t a header log
    answers :
        (h : List ℕ)
        → a < max_auth_retry
        → ((f : ℕ)
            → request_loop read answer ask (suc f) t a header log
              ≡ request_loop read answer ask f t (suc a) (some h) (log ++ (header ∷ [])))
        → Round t a header log

  pub round : (t a : ℕ) (header : Option (List ℕ)) (log : Log) → Round t a header log
  unfolding request_loop
  round t a header log = go (ask t a header) refl
    where
      answered :
          (r : Page)
          → ask t a header ≡ page r
          → (r.status == 401) ≡ true
          → leb max_auth_retry a ≡ false
          → (x : Result (List ℕ)) → answer (challenge_in r) ≡ x
          → Round t a header log
      answered r h asks more (raise e) g =
          stops (raise e) (rw h (unanswered r e asks g))
            (λ f. rw (request_loop, h, asks, more, g) refl)
      answered r h asks more (ok c) g =
          answers c (ground (arith, more)) (λ f. rw (request_loop, h, asks, more, g) refl)

      go : (x : Try) → ask t a header ≡ x → Round t a header log
      go (failed e) h = stops (raise e) (rw h (error e)) (λ f. rw (request_loop, h) refl)
      go late h = elim (Bool-cases (leb max_timeouts (suc t))) [
        | inl last ↦
            stops (raise socket_error) (rw h (timeouts (ground (arith, last))))
              (λ f. rw (request_loop, h, last) refl)
        | inr more ↦ starts_again (ground (arith, more)) (λ f. rw (request_loop, h, more) refl)
      ]
      go (page r) h = elim (Bool-cases (r.status == 401)) [
        | inr fine ↦ stops (ok r) (rw h (response r fine)) (λ f. rw (request_loop, h, fine) refl)
        | inl asks ↦ elim (Bool-cases (leb max_auth_retry a)) [
          | inl last ↦
              stops (raise runtime_error) (rw h (exhausted r asks (ground (arith, last))))
                (λ f. rw (request_loop, h, asks, last) refl)
          | inr more ↦ answered r h asks more (answer (challenge_in r)) refl
        ]
      ]
