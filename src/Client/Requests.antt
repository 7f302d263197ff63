-- ===== src/Client/Requests.antt =====
-- flud/protocol/ClientPrimitives.py: the requests for an id and for files, with the retries after a
-- timeout and after a challenge. What the host answers is an argument: `ask t a header` is what the
-- attempt comes to that follows `t` timeouts and `a` answers to challenges, with the header
-- `Authorization` where there is one.
use flud.Prelude.{
  ℕ, zero, suc, true, false, not, Option, none, some, List, [], ◌∷◌, ◌++◌, Result, ok, raise, Exc,
  socket_error, runtime_error, recursion_error, not_found, bad_request, cas_key_error, String, leb,
  ◌==◌, if◌then◌else◌,
}
use flud.Peers.{Peers, Outcome, update_node}
use flud.Sending.{Sent, next_step, max_timeouts, status_ok}

-- `MAXAUTHRETRY`
abbrev pub max_auth_retry : ℕ
max_auth_retry = 4

-- What the code reads of a response.
pub record Page : Type 0 where
  pub status : ℕ
  pub reason : List ℕ
  pub body : List ℕ
  pub content_type : List ℕ
  pub boundary : List ℕ

-- What an attempt comes to: a response, an exception that the loop catches, or another one.
pub data Try : Type 0 where
  page : Page → Try
  late : Try
  failed : Exc → Try

-- The challenge of a response: its body as a text, or its reason where that is empty.
abbrev pub body_or : List ℕ → List ℕ → List ℕ
body_or [] reason = reason
body_or (c ∷ text) reason = c ∷ text

-- The headers of the requests that were made, in order.
abbrev pub Log : Type 0
Log = List (Option (List ℕ))

-- `read` gives the text of a body, and `answer` is `answerChallenge`.
module _ (read : List ℕ → List ℕ) (answer : List ℕ → Result (List ℕ))
    (ask : ℕ → ℕ → Option (List ℕ) → Try) where
  -- The two `while True`, with fuel for the requests. The inner one starts again after a timeout.
  unfoldable pub request_loop : ℕ → ℕ → ℕ → Option (List ℕ) → Log → Log × Result Page
  request_loop zero t a header log = (log, raise recursion_error)
  request_loop (suc f) t a header log = elim (ask t a header) [
    | failed e ↦ (log ++ (header ∷ []), raise e)
    | late ↦ elim (leb max_timeouts (suc t)) [
      | true ↦ (log ++ (header ∷ []), raise socket_error)
      | false ↦ request_loop f (suc t) 0 none (log ++ (header ∷ []))
    ]
    | page r ↦ elim (r.status == 401) [
      | false ↦ (log ++ (header ∷ []), ok r)
      | true ↦ elim (leb max_auth_retry a) [
        | true ↦ (log ++ (header ∷ []), raise runtime_error)
        | false ↦ elim (answer (body_or (read r.body) r.reason)) [
          | raise e ↦ (log ++ (header ∷ []), raise e)
          | ok h ↦ request_loop f t (suc a) (some h) (log ++ (header ∷ []))
        ]
      ]
    ]
  ]

  -- Each of at most five rounds makes at most five requests.
  unfoldable pub request : Log × Result Page
  unfolding request_loop
  request = request_loop 25 0 0 none []

-- `updateNode` of the host, and the result
abbrev pub greeting : (ℕ → ℕ) → Peers → String → ℕ → ℕ → Outcome
greeting id_of p host port ku = update_node id_of p host port (some ku) none

-- What is done with the response of a request.
abbrev pub after_request {ℓ} :
    {A : Type ℓ} → (Peers → Page → Sent A) → Peers → Log × Result Page → Sent A
after_request finish p (log, raise e) = (p, raise e)
after_request finish p (log, ok r) = finish p r

-- The statuses that are told apart by the requests for a file that the host has.
unfoldable pub refused_page : Page → Option Exc
refused_page r =
    if r.status == 404
    then some not_found
    else (if r.status == 400
        then some bad_request
        else (if not (r.status == status_ok) then some runtime_error else none))

module _ (id_of : ℕ → ℕ) (host : String) (port ku : ℕ) where
  unfoldable pub learn_host {ℓ} : {A : Type ℓ} → Peers → A → Sent A
  unfolding update_node
  learn_host p a = next_step (greeting id_of p host port ku) (λ q u. (q, ok a))

  unfoldable pub finish_store : Peers → Page → Sent (List ℕ)
  unfolding learn_host
  finish_store p r =
      if r.status == 409
      then (p, raise cas_key_error)
      else (if not (r.status == status_ok) then (p, raise runtime_error) else learn_host p r.body)

  unfoldable pub finish_body : Peers → Page → Sent (List ℕ)
  unfolding refused_page learn_host
  finish_body p r = elim (refused_page r) [ some e ↦ (p, raise e) | none ↦ learn_host p r.body ]

  -- `save` is `_save_retrieve_response`.
  unfoldable pub finish_retrieve {ℓ} : {A : Type ℓ} → (Page → A) → Peers → Page → Sent A
  unfolding refused_page learn_host
  finish_retrieve save p r = elim (refused_page r) [
    | some e ↦ (p, raise e)
    | none ↦ learn_host p (save r)
  ]
