-- ===== src/Client/Handshake.antt =====
-- flud/protocol/ClientPrimitives.py and AiohttpServer.py: a server's challenge, the client's answer,
-- and the request with that answer.
use flud.Prelude.{
  ℕ, suc, ◌+◌, ◌<◌, ◌≤◌, ◌^◌, ◌≡◌, refl, sym, ap, ◌∙◌, true, none, some, List, ◌∷◌, ◌++◌, ok, All,
  String, get, All-append, arith, get-put, beq_self,
}
use flud.Prelude.Text.{lstrip, rstrip, strip, starts_lower, cut, unless_last_space, is_space}
use flud.Routing.Table.{idspace}
use flud.Fencode.Base64.{b64encode, IsByte}
use flud.Fencode.Parts.{take-length, drop-length}
use flud.Fencode.Values.{bytes_value, str_value, same_text, same_text_iff, IsGood, plain, text_eq}
use flud.Fencode.Decode.{fdecode, depth}
use flud.Fencode.RoundTrip.{fdecode-fencode}
use flud.Server.Auth.{
  Server, Library, challenge_sent, send_challenge, draw, authenticate, parse_basic_auth,
  challenge_of, as_key, after_prefix, lifetime, add_challenge,
}
use flud.Server.Kept.{Kept, authenticate-accepts}
use flud.Client.Challenge.{
  Answerer, normalize_challenge, answer_challenge, challenge_word, basic_word,
}
use flud.Client.Tokens.{
  fencode_bytes, encoded-IsVisible, rstrip_visible, split_colon-visible, IsAscii,
  utf8_encode-IsAscii, visible-IsAscii, IsVisible,
}

-- `"challenge = %s" % echallenge`
unfoldable pub challenge_body : List ℕ → List ℕ
challenge_body e = challenge_word ++ (b' ' ∷ b'=' ∷ b' ' ∷ e)

-- The client takes the encoded challenge out of the body.
normalized :
    (e : List ℕ)
    → All IsVisible (b'b' ∷ e)
    → normalize_challenge (challenge_body (b'b' ∷ e)) ≡ b'b' ∷ e
unfolding normalize_challenge challenge_body strip rstrip lstrip is_space unless_last_space
    starts_lower cut
normalized e h = rw (rstrip_visible (b'b' ∷ e) h) (rstrip_visible (b'b' ∷ e) h)

decoded :
    (bs : List ℕ)
    → All IsByte bs
    → fdecode (depth 1) (str_value (b'b' ∷ b64encode bs)) ≡ ok (bytes_value bs)
unfolding IsGood plain
decoded bs h = fdecode-fencode (bytes_value bs) (b'b' ∷ b64encode bs) h (fencode_bytes bs)

module _ (me : Answerer) (sid secret enc : List ℕ) (enc_bytes : All IsByte enc)
    (secret_bytes : All IsByte secret) (sid_bytes : All IsByte sid)
    (group_ascii : All IsAscii me.group_idu)
    (opens : me.decrypt (bytes_value enc) ≡ ok (sid ++ secret)) where
  -- The text that the header `Authorization` encodes.
  abbrev plain_answer : List ℕ
  plain_answer = (b'b' ∷ b64encode secret) ++ (b':' ∷ me.group_idu)

  answered :
      answer_challenge me sid (challenge_body (b'b' ∷ b64encode enc))
      ≡ ok (basic_word ++ me.b2a_base64 plain_answer)
  unfolding answer_challenge
  answered =
      let plaintext = sid ++ secret in
      let same : same_text sid sid ≡ true = (same_text_iff sid sid).1 refl in
      let text_ascii =
        visible-IsAscii (b'b' ∷ b64encode secret) (encoded-IsVisible secret secret_bytes) in
      let whole : All IsAscii plain_answer =
        All-append IsAscii (b'b' ∷ b64encode secret) (b':' ∷ me.group_idu) text_ascii
          (omega arith, group_ascii) in
      rw
        (
          answer_challenge,
          normalized (b64encode enc) (encoded-IsVisible enc enc_bytes),
          decoded enc enc_bytes,
          opens,
          fencode_bytes plaintext,
          decoded plaintext (All-append IsByte sid secret sid_bytes secret_bytes),
          take-length sid secret,
          same,
          drop-length sid secret,
          fencode_bytes secret,
          utf8_encode-IsAscii plain_answer whole,
        )
        refl

-- The challenge that a server has sent, and what stands in its dict then.
sent_challenge :
    (lib : Library) (now : ℕ) (draws : List (List ℕ)) (ku : ℕ) (s : Server) (challenge enc : List ℕ)
    → draw draws ≡ ok challenge
    → lib.encrypt ku (lib.own_id ++ challenge) ≡ ok enc
    → send_challenge lib now draws ku s ≡ (
      add_challenge now challenge s,
      ok (record { status = 401; said = challenge_sent (b'b' ∷ b64encode enc) }),
    )
unfolding send_challenge
sent_challenge lib now draws ku s challenge enc drawn locked =
    rw (send_challenge, drawn, locked, fencode_bytes enc) refl

stands_sent :
    (now : ℕ) (challenge : List ℕ) (s : Server)
    → get challenge (add_challenge now challenge s).challenges ≡ some (now + lifetime)
unfolding add_challenge same_text
stands_sent now challenge s =
    get-put challenge challenge (now + lifetime) s.challenges
    ∙ (let self : same_text challenge challenge ≡ true = beq_self text_eq challenge in rw self refl)

key_of : (bs : List ℕ) → All IsByte bs → as_key (challenge_of (b'b' ∷ b64encode bs)) ≡ ok (some bs)
unfolding challenge_of
key_of bs h = rw (challenge_of, decoded bs h) refl

parsed :
    (lib : Library) (token response group : List ℕ)
    → All IsVisible response
    → lib.decode_token token ≡ ok (response ++ (b':' ∷ group))
    → parse_basic_auth lib (basic_word ++ token) ≡ some (response, group)
unfolding parse_basic_auth after_prefix
parsed lib token response group h e =
    rw (parse_basic_auth, e, split_colon-visible response group h) refl

module _ (lib : Library) (stop : ℕ) (small : stop ≤ suc (2 ^ idspace))
    (in_space : (ku : ℕ) → lib.id_of ku < stop) (me : Answerer) (ku : ℕ) (g : ℕ) (gs : List ℕ)
    (opens : (m enc : List ℕ) → lib.encrypt ku m ≡ ok enc → me.decrypt (bytes_value enc) ≡ ok m)
    (locks : (m enc : List ℕ) → All IsByte m → lib.encrypt ku m ≡ ok enc → All IsByte enc)
    (token : (text : List ℕ) → All IsAscii text → lib.decode_token (me.b2a_base64 text) ≡ ok text)
    (group : me.group_idu ≡ lib.group_hash ku) (some_group : me.group_idu ≡ g ∷ gs)
    (group_ascii : All IsAscii me.group_idu) (own_bytes : All IsByte lib.own_id) where
  -- A server draws a challenge that starts with no zero and encrypts it, with its own id, for the
  -- key of a client of its group, whose private key opens what that key encrypts, and the two
  -- sides' base64 fits: the response has the status 401 and the encoded challenge. The client
  -- answers the body of that response without an exception, and the server lets a request with that
  -- answer through, in every state in order in which the challenge still stands, until it runs out.
  pub answer_challenge-accepted :
      (now : ℕ) (draws : List (List ℕ)) (s s' : Server) (c : ℕ) (cs enc : List ℕ) (later : ℕ)
      (draws' : List (List ℕ)) (host : String) (port : ℕ)
      → draw draws ≡ ok (c ∷ cs)
      → All IsByte (c ∷ cs)
      → lib.encrypt ku (lib.own_id ++ (c ∷ cs)) ≡ ok enc
      → Kept lib stop s'
      → get (c ∷ cs) s'.challenges ≡ get (c ∷ cs) (send_challenge lib now draws ku s).0.challenges
      → later ≤ now + lifetime
      → (e : List ℕ) × (h : List ℕ) × ((send_challenge lib now draws ku s).1
          ≡ ok (record { status = 401; said = challenge_sent e }))
        × (answer_challenge me lib.own_id (challenge_body e) ≡ ok h)
        × ((authenticate lib later draws' h ku host port s').1 ≡ ok none)
  answer_challenge-accepted now draws s s' c cs enc later draws' host port drawn bytes locked kept
        stands in_time =
      let sent = sent_challenge lib now draws ku s (c ∷ cs) enc drawn locked in
      let response = b'b' ∷ b64encode (c ∷ cs) in
      let text = response ++ (b':' ∷ me.group_idu) in
      let h = basic_word ++ me.b2a_base64 text in
      let visible = encoded-IsVisible (c ∷ cs) bytes in
      let ascii : All IsAscii text =
        All-append IsAscii response (b':' ∷ me.group_idu) (visible-IsAscii response visible)
          (omega arith, group_ascii) in
      let read_back =
        parsed lib (me.b2a_base64 text) response me.group_idu visible (token text ascii)
        ∙ ap (λ l. some (response, l)) some_group in
      let there =
        stands ∙ ap (λ r. get (c ∷ cs) r.0.challenges) sent ∙ stands_sent now (c ∷ cs) s in
      (
        b'b' ∷ b64encode enc,
        h,
        ap (λ r. r.1) sent,
        answered me lib.own_id (c ∷ cs) enc
            (locks (lib.own_id ++ (c ∷ cs)) enc
              (All-append IsByte lib.own_id (c ∷ cs) own_bytes bytes) locked)
            bytes own_bytes group_ascii (opens (lib.own_id ++ (c ∷ cs)) enc locked),
        authenticate-accepts lib stop small in_space later draws' h ku host port s' b'b' g c
            (b64encode (c ∷ cs)) gs cs (now + lifetime) kept read_back (key_of (c ∷ cs) bytes) there
            in_time (sym some_group ∙ group),
      )
