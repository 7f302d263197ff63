-- ===== src/Client/Tests.antt =====
-- flud/protocol/ClientPrimitives.py: concrete requests, challenges and answers.
use flud.Fencode.Base64.{IsByte}
use flud.Prelude.{
  ℕ, zero, suc, ◌≡◌, ◌≤◌, refl, ok, some, none, Option, List, [], ◌∷◌, Result, arith, length, subst,
  false, ◌+◌, ◌*◌, has, sym, All, put,
}
use flud.Peers.Sample.{id_of, peers, config-Trusted, small, in_space}
use flud.Peers.Trust.{Trusted}
use flud.Fencode.Values.{text_eq, bytes_value}
use flud.Sending.{Attempt, replied, timed_out}
use flud.Server.Auth.{
  Server, Library, challenge_sent, send_challenge, draw, authenticate, add_challenge,
}
use flud.Server.Kept.{Kept}
use flud.Client.Challenge.{Answerer, answer_challenge, as_bytes}
use flud.Client.Requests.{Page, Try, page, late, request, request_loop}
use flud.Client.Files.{send_get_id, send_store_request, send_retrieve, send_delete, send_verify}
use flud.Client.Bounds.{length-request}
use flud.Client.Safe.{requests-Trusted}
use flud.Client.Handshake.{answer_challenge-accepted, challenge_body}

abbrev page_of : ℕ → List ℕ → Page
page_of status body = record {
  status = status;
  reason = [];
  body = body;
  content_type = [];
  boundary = [];
}

-- A timeout, then a challenge, then a response.
abbrev ask : ℕ → ℕ → Option (List ℕ) → Try
ask zero a header = late
ask (suc t) zero header = page (page_of 401 (b'c' ∷ []))
ask (suc t) (suc a) header = page (page_of 200 (b'x' ∷ []))

abbrev text : List ℕ → List ℕ
text body = body

abbrev answer : List ℕ → Result (List ℕ)
answer challenge = ok challenge

made : request text answer ask ≡ (none ∷ none ∷ some (b'c' ∷ []) ∷ [], ok (page_of 200 (b'x' ∷ [])))
unfolding request
made = refl

length-request_example :
    (length (request text answer ask).0 ≤ 25)
    × (request_loop text answer ask 30 0 0 none [] ≡ request text answer ask)
length-request_example = length-request text answer ask 30 (omega arith)

-- Keys that lock nothing, and a token that stands for itself.
abbrev me : Answerer
me = record { decrypt = as_bytes; b2a_base64 = text; group_idu = b'g' ∷ [] }

abbrev id_bytes : ℕ → List ℕ
id_bytes ku = 17 ∷ []

abbrev attempts : ℕ → Attempt
attempts zero = timed_out
attempts (suc n) =
    replied (record { status = 200; body = b'7' ∷ []; is_data = false; node_id = none })

abbrev import_key : List ℕ → Option ℕ
import_key body = some 1040

abbrev body_of : Page → List ℕ
body_of r = r.body

requests-Trusted_example :
    Trusted id_of 257 (send_get_id id_of import_key "10.0.0.2" 9090 attempts peers).0.config
    × Trusted id_of 257
        (send_store_request id_of me id_bytes text "10.0.0.2" 9090 1040 ask peers).0.config
    × Trusted id_of 257
        (send_retrieve id_of me id_bytes text "10.0.0.2" 9090 1040 ask peers body_of).0.config
    × Trusted id_of 257 (send_delete id_of me id_bytes text "10.0.0.2" 9090 1040 ask peers).0.config
    × Trusted id_of 257 (send_verify id_of me id_bytes text "10.0.0.2" 9090 1040 ask peers).0.config
requests-Trusted_example =
    requests-Trusted id_of 257 small in_space "10.0.0.2" 9090 peers config-Trusted me id_bytes text
      import_key body_of 1040 attempts ask

abbrev library : Library
library = record {
  id_of = id_of;
  encrypt = λ ku bytes. ok bytes;
  group_hash = λ ku. b'g' ∷ [];
  own_id = 17 ∷ [];
  decode_token = λ token. ok token;
}

abbrev server : Server
server = record { peers = peers; challenges = []; kstore = [] }

abbrev secret : List ℕ
secret = b'k' ∷ []

abbrev challenged : Server
challenged = record {
  peers = peers;
  challenges = (secret, 100 + 3800 * 15 * 1000000000) ∷ [];
  kstore = [];
}

challenged-Kept : Kept library 257 challenged
unfolding has
challenged-Kept = record { once = (refl, tt); trusted = config-Trusted }

opens : (m enc : List ℕ) → library.encrypt 1040 m ≡ ok enc → me.decrypt (bytes_value enc) ≡ ok m
opens m enc e = sym e

locks : (m enc : List ℕ) → All IsByte m → library.encrypt 1040 m ≡ ok enc → All IsByte enc
locks m enc h e = let same : m ≡ enc = cc in subst (All IsByte) same h

answer_challenge-accepted_example :
    (e : List ℕ) × (h : List ℕ) × ((send_challenge library 100 (secret ∷ []) 1040 server).1
      ≡ ok (record { status = 401; said = challenge_sent e }))
    × (answer_challenge me (17 ∷ []) (challenge_body e) ≡ ok h)
    × ((authenticate library 200 [] h 1040 "10.0.0.2" 9090 challenged).1 ≡ ok none)
unfolding draw send_challenge add_challenge put
answer_challenge-accepted_example =
    answer_challenge-accepted library 257 small in_space me 1040 b'g' [] opens locks (λ t h. refl)
      refl refl (omega arith) (omega arith) 100 (secret ∷ []) server challenged b'k' []
      (17 ∷ secret) 200 [] "10.0.0.2" 9090 refl (omega arith) refl challenged-Kept refl
      (omega arith)
