-- ===== src/Client/Challenge.antt =====
-- flud/protocol/ClientPrimitives.py: the answer to a server's challenge.
use flud.Prelude.{
  ℕ, false, none, some, List, [], ◌∷◌, ◌++◌, Result, ok, raise, imposter_error, type_error, length,
  take, drop, ◌>>=◌, if◌then◌else◌,
}
use flud.Prelude.Text.{strip, starts_lower, cut}
use flud.Fencode.Utf8.{utf8_encode}
use flud.Fencode.Values.{Value, bytes_value, str_value, same_text}
use flud.Fencode.Encode.{fencode}
use flud.Fencode.Decode.{fdecode, depth}

abbrev pub challenge_word : List ℕ
challenge_word = b'c' ∷ b'h' ∷ b'a' ∷ b'l' ∷ b'l' ∷ b'e' ∷ b'n' ∷ b'g' ∷ b'e' ∷ []

-- `_normalize_challenge` of a text
unfoldable pub normalize_challenge : List ℕ → List ℕ
unfolding strip starts_lower cut
normalize_challenge challenge =
    let stripped = strip challenge in
    if starts_lower challenge_word stripped
    then elim (cut b'=' stripped) [ none ↦ stripped | some (before, after) ↦ strip after ]
    else stripped

-- What the client takes from elsewhere: `decrypt` of its private key, and `b2a_base64` of bytes, with
-- the newline at its end stripped. The rest is its configuration's `groupIDu`.
pub record Answerer : Type 0 where
  pub decrypt : Value → Result (List ℕ)
  pub b2a_base64 : List ℕ → List ℕ
  pub group_idu : List ℕ

-- What is sliced is a bytes.
abbrev pub as_bytes : Value → Result (List ℕ)
as_bytes (bytes_value b) = ok b
as_bytes v = raise type_error

abbrev pub basic_word : List ℕ
basic_word = b'B' ∷ b'a' ∷ b's' ∷ b'i' ∷ b'c' ∷ b' ' ∷ []

-- `answerChallenge` for a server with the id `sid`: the header `Authorization`.
unfoldable pub answer_challenge : Answerer → List ℕ → List ℕ → Result (List ℕ)
unfolding normalize_challenge same_text
answer_challenge me sid challenge = do
  ciphertext ← fdecode (depth 1) (str_value (normalize_challenge challenge))
  plaintext ← me.decrypt ciphertext
  response ← fencode false (bytes_value plaintext)
  decoded ← fdecode (depth 1) (str_value response)
  bytes ← as_bytes decoded
  if same_text (take (length sid) bytes) sid
      then (do
        answer ← fencode false (bytes_value (drop (length sid) bytes))
        encoded ← utf8_encode (answer ++ (b':' ∷ me.group_idu))
        ok (basic_word ++ me.b2a_base64 encoded))
      else raise imposter_error
