-- ===== src/Server/Auth.antt =====
-- flud/protocol/AiohttpServer.py: challenges, and the authentication of a request. The time of the
-- event loop is in nanoseconds.
use flud.Prelude.{
  ℕ, ◌+◌, ◌*◌, false, Option, none, some, List, [], ◌∷◌, ◌++◌, Result, ok, raise, type_error,
  index_error, recursion_error, String, Dict, get, put, remove, ltb, ◌==◌, ◌>>=◌, if◌then◌else◌,
}
use flud.Fencode.Values.{Value, str_value, bytes_value, hashable, same_text}
use flud.Fencode.Encode.{fencode}
use flud.Fencode.Decode.{fdecode, depth}
use flud.Fencode.Values.{text_eq}
use flud.Peers.{Peers, update_node}

-- What the node has learnt of others, `_challenges` with the end of each, and the files under
-- `kstoredir`.
pub record Server : Type 0 where
  pub peers : Peers
  pub challenges : Dict (List ℕ) ℕ
  pub kstore : Dict (List ℕ) (List ℕ)

-- What a response says: the challenge, or one of the fixed texts.
pub data Said : Type 0 where
  challenge_sent : List ℕ → Said
  challenge_failed group_challenge_failed : Said

pub record Response : Type 0 where
  pub status : ℕ
  pub said : Said

-- What the code takes from elsewhere: `FludRSA.id` and `encrypt` of a key, `hashstring` of a key and
-- the node's own group, the bytes of the node's own id, and `b64decode` of a stripped text with
-- `decode("utf-8", errors="replace")`.
pub record Library : Type 0 where
  pub id_of : ℕ → ℕ
  pub encrypt : ℕ → List ℕ → Result (List ℕ)
  pub group_hash : ℕ → List ℕ
  pub own_id : List ℕ
  pub decode_token : List ℕ → Result (List ℕ)

-- `auth.startswith(…)`, with what stands behind the prefix
unfoldable pub after_prefix : List ℕ → List ℕ → Option (List ℕ)
after_prefix [] s = some s
after_prefix (a ∷ p) [] = none
after_prefix (a ∷ p) (b ∷ s) = let rest = after_prefix p s in if a == b then rest else none

-- `split(":", 1)` where there is a colon
unfoldable pub split_colon : List ℕ → Option (List ℕ × List ℕ)
split_colon [] = none
split_colon (c ∷ s) =
    let rest = split_colon s in
    if c == b':'
    then some ([], s)
    else elim rest [ none ↦ none | some (user, password) ↦ some (c ∷ user, password) ]

abbrev pub basic : List ℕ
basic = b'B' ∷ b'a' ∷ b's' ∷ b'i' ∷ b'c' ∷ b' ' ∷ []

-- `_parse_basic_auth` of the `Authorization` header, which is empty where there is none
unfoldable pub parse_basic_auth : Library → List ℕ → Option (List ℕ × List ℕ)
unfolding after_prefix split_colon
parse_basic_auth lib auth = elim (after_prefix basic auth) [
  | none ↦ none
  | some token ↦ elim (lib.decode_token token) [
    | raise e ↦ none
    | ok raw ↦ elim (split_colon raw) [ none ↦ some (raw, []) | some pair ↦ some pair ]
  ]
]

-- `primitive_to * 15`
abbrev pub lifetime : ℕ
lifetime = 3800 * 15 * 1000000000

unfoldable pub add_challenge : ℕ → List ℕ → Server → Server
unfolding same_text
add_challenge now challenge s = record s {
  challenges = put challenge (now + lifetime) s.challenges;
}

-- A challenge as the key of a dict: the keys that are there are bytes, which equal nothing else.
abbrev pub as_key : Value → Result (Option (List ℕ))
as_key (bytes_value b) = ok (some b)
as_key v = if hashable v then ok none else raise type_error

-- `fdecode` of the response, or the response itself where that raises
unfoldable pub challenge_of : List ℕ → Value
challenge_of response = elim (fdecode (depth 1) (str_value response)) [
  | ok v ↦ v
  | raise e ↦ str_value response
]

unfoldable pub expire_challenge : List ℕ → Server → Result Server
unfolding challenge_of same_text
expire_challenge response s = do
  key ← as_key (challenge_of response)
  elim key [
    | none ↦ ok s
    | some challenge ↦ ok (record s { challenges = remove challenge s.challenges })
  ]

-- The challenge that is still open, if there is one: by its end, and by the key of the response.
unfoldable pub still_open : ℕ → List ℕ → Server → Option ℕ → Server × Option (List ℕ)
still_open now challenge s none = (s, none)
still_open now challenge s (some expiry) =
    if ltb expiry now
    then (record s { challenges = remove challenge s.challenges }, none)
    else (s, some challenge)

unfoldable pub find_open : ℕ → Server → Option (List ℕ) → Server × Option (List ℕ)
unfolding still_open same_text
find_open now s none = (s, none)
find_open now s (some challenge) = still_open now challenge s (get challenge s.challenges)

unfoldable pub get_challenge : ℕ → List ℕ → Server → Result (Server × Option (List ℕ))
unfolding challenge_of find_open
get_challenge now response s = do key ← as_key (challenge_of response); ok (find_open now s key)

-- The first of the random numbers that does not start with a zero. No more draws is the model's end.
unfoldable pub draw : List (List ℕ) → Result (List ℕ)
draw [] = raise recursion_error
draw ([] ∷ draws) = raise index_error
draw ((b ∷ bs) ∷ draws) = let again = draw draws in if b == 0 then again else ok (b ∷ bs)

unfoldable pub send_challenge : Library → ℕ → List (List ℕ) → ℕ → Server → Server × Result Response
unfolding draw add_challenge
send_challenge lib now draws ku s = elim (draw draws) [
  | raise e ↦ (s, raise e)
  | ok challenge ↦ (
    add_challenge now challenge s,
    (do
      bytes ← lib.encrypt ku (lib.own_id ++ challenge)
      echallenge ← fencode false (bytes_value bytes)
      ok (record { status = 401; said = challenge_sent echallenge })),
  )
]

abbrev pub forbidden : Said → Response
forbidden said = record { status = 403; said = said }

-- `updateNode` of a requester that is authenticated
unfoldable pub update_requester :
    Library → String → ℕ → ℕ → Server → Server × Result (Option Response)
unfolding update_node
update_requester lib host port ku s =
    let (p, result) = update_node lib.id_of s.peers host port (some ku) (some (lib.id_of ku)) in
    (record s { peers = p }, (do u ← result; ok none))

-- The answer to a response to a challenge.
unfoldable pub check_response :
    Library → ℕ → String → ℕ → ℕ → List ℕ → List ℕ → Server → Server × Result (Option Response)
unfolding get_challenge expire_challenge update_requester same_text
check_response lib now host port ku response group s = elim (get_challenge now response s) [
  | raise e ↦ (s, raise e)
  | ok (s1, none) ↦ (s1, ok (some (forbidden challenge_failed)))
  | ok (s1, some []) ↦ (s1, ok (some (forbidden challenge_failed)))
  | ok (s1, some (c ∷ challenge)) ↦ elim (expire_challenge response s1) [
    | raise e ↦ (s1, raise e)
    | ok s2 ↦
        if same_text group (lib.group_hash ku)
        then update_requester lib host port ku s2
        else (s2, ok (some (forbidden group_challenge_failed)))
  ]
]

-- `_authenticate`: the response that refuses the request, or nothing.
unfoldable pub authenticate :
    Library
    → ℕ
    → List (List ℕ)
    → List ℕ
    → ℕ
    → String
    → ℕ
    → Server
    → Server × Result (Option Response)
unfolding send_challenge parse_basic_auth check_response
authenticate lib now draws auth ku host port s =
    let (s', sent) = send_challenge lib now draws ku s in
    let challenged : Server × Result (Option Response) = (s', (do r ← sent; ok (some r))) in
    elim (parse_basic_auth lib auth) [
      | none ↦ challenged
      | some ([], group) ↦ challenged
      | some (r ∷ response, []) ↦ challenged
      | some (r ∷ response, g ∷ group) ↦
          check_response lib now host port ku (r ∷ response) (g ∷ group) s
    ]
