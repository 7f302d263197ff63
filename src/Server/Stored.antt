-- ===== src/Server/Stored.antt =====
-- flud/protocol/AiohttpServer.py: what `_handle_meta_get` finds after `_handle_meta_put`.
use flud.Prelude.{
  ℕ, ◌≡◌, ◌≢◌, refl, sym, ap, ◌∙◌, Bool, true, false, some, List, [], ◌∷◌, Result, ok, raise, get,
  put, get-put, ◌>>=◌, arith, beq_self, length, none, key_error, false,
}
use flud.Fencode.Values.{
  Value, Values, Entries, none_value, bool_value, int_value, bytes_value, str_value, fencoded_value,
  list_value, tuple_value, dict_value, nil, cons, end, entry, plain, plain_values, plain_entries,
  IsGood, same_text, same_key,
}
use flud.Fencode.Utf8.{utf8_encode, utf8_decode, utf8_scan, utf8_decode-utf8_encode}
use flud.Fencode.Encode.{fencode, fencode_values, fencode_entries}
use flud.Fencode.Decode.{fdecode, depth, put_entry}
use flud.BlockFile.Accounting.{get_entry}
use flud.Fencode.Alphabet.{IsChar-fencode}
use flud.Fencode.Parts.{fencode-nonempty}
use flud.Fencode.RoundTrip.{fdecode-fencode}
use flud.Fencode.Values.{text_eq}
use flud.Server.Auth.{Server}
use flud.Server.Meta.{
  b_key, put_meta, get_meta, encoded, part_for, told_of, save, answer, Answer, contents,
  nothing_told,
}

-- A bool is encoded as its number.
mutual
  unfolding fencode fencode_values fencode_entries plain plain_values plain_entries

  fencode-plain : (l : Bool) (v : Value) → fencode l (plain v) ≡ fencode l v
  fencode-plain l none_value = refl
  fencode-plain l (bool_value b) = refl
  fencode-plain l (int_value n) = refl
  fencode-plain l (bytes_value s) = refl
  fencode-plain l (str_value s) = refl
  fencode-plain l (fencoded_value s) = refl
  fencode-plain l (list_value xs) = rw (fencode_values-plain xs) refl
  fencode-plain l (tuple_value xs) = rw (fencode_values-plain xs) refl
  fencode-plain l (dict_value es) = rw (fencode_entries-plain es) refl

  fencode_values-plain : (xs : Values) → fencode_values (plain_values xs) ≡ fencode_values xs
  fencode_values-plain nil = refl
  fencode_values-plain (cons x xs) = rw (fencode-plain true x, fencode_values-plain xs) refl

  fencode_entries-plain : (es : Entries) → fencode_entries (plain_entries es) ≡ fencode_entries es
  fencode_entries-plain end = refl
  fencode_entries-plain (entry k v es) =
      rw (fencode-plain true k, fencode-plain true v, fencode_entries-plain es) refl

-- A value that is no dict.
abbrev pub NoDict : Value → Type 0
NoDict (dict_value es) = ⊥
NoDict v = Unit

-- What a response of 200 is to hold for a value, where it is one: the UTF-8 of the value's encoding.
abbrev pub Written : Value → List ℕ → Type 0
Written v bytes = (text : List ℕ) × (fencode false v ≡ ok text) × (utf8_encode text ≡ ok bytes)

-- What a node is due of a value, whose own encoding is `bytes`: all of what is no dict, and of a dict
-- without the node's id; of a dict with it, exactly the entry `b` and the node's own, in this order,
-- and an exception where there is no entry `b`.
pub data Due (node_id bytes : List ℕ) : Value → Result Answer → Type 0 where
  no_dict : (v : Value) → NoDict v → Due node_id bytes v (ok (answer 200 (contents bytes)))
  no_part :
      (es : Entries)
      → get_entry (str_value node_id) es ≡ none
      → Due node_id bytes (dict_value es) (ok (answer 200 (contents bytes)))
  own_part :
      (es : Entries) (own b : Value) (part : List ℕ)
      → get_entry (str_value node_id) es ≡ some own
      → get_entry (str_value (b'b' ∷ [])) es ≡ some b
      → same_text (b'b' ∷ []) node_id ≡ false
      → Written
          (dict_value (entry (str_value (b'b' ∷ [])) b (entry (str_value node_id) own end)))
          part
      → Due node_id bytes (dict_value es) (ok (answer 200 (contents part)))
  lacks_b :
      (es : Entries) (own : Value)
      → get_entry (str_value node_id) es ≡ some own
      → get_entry (str_value (b'b' ∷ [])) es ≡ none
      → Due node_id bytes (dict_value es) (raise key_error)

-- The response of what was told is built as one chain.
answered :
    (p : Result Value)
    → (do told ← (do resp ← p; body ← encoded resp; ok (contents body)); ok (answer 200 told))
      ≡ (do resp ← p; body ← encoded resp; ok (answer 200 (contents body)))
answered (raise e) = refl
answered (ok resp) = go (encoded resp)
  where
    go :
        (m : Result (List ℕ))
        → (do told ← (do body ← m; ok (contents body)); ok (answer 200 told))
          ≡ (do body ← m; ok (answer 200 (contents body)))
    go (raise e) = refl
    go (ok body) = refl

-- The response of a part, and of an exception.
respond_part : Result Value → Result Answer
respond_part p = do resp ← p; body ← encoded resp; ok (answer 200 (contents body))

respond_part-ok :
    (p : Result Value) (resp : Value) (body : List ℕ)
    → p ≡ ok resp
    → encoded resp ≡ ok body
    → respond_part p ≡ ok (answer 200 (contents body))
unfolding respond_part
respond_part-ok p resp body h e = rw (h, e) refl

part_for-NoDict : (node_id : List ℕ) (v : Value) → NoDict v → part_for node_id v ≡ ok v
unfolding part_for
part_for-NoDict node_id none_value h = refl
part_for-NoDict node_id (bool_value b) h = refl
part_for-NoDict node_id (int_value n) h = refl
part_for-NoDict node_id (bytes_value s) h = refl
part_for-NoDict node_id (str_value s) h = refl
part_for-NoDict node_id (fencoded_value s) h = refl
part_for-NoDict node_id (list_value xs) h = refl
part_for-NoDict node_id (tuple_value xs) h = refl
part_for-NoDict node_id (dict_value es) h = absurd h

part_for-Due :
    (node_id bytes : List ℕ) (w : Value) (r : Result Answer)
    → encoded w ≡ ok bytes
    → Due node_id bytes w r
    → respond_part (part_for node_id w) ≡ r
part_for-Due node_id bytes w _ whole (no_dict _ h) =
    respond_part-ok (part_for node_id w) w bytes (part_for-NoDict node_id w h) whole
part_for-Due node_id bytes w _ whole (no_part es h) =
    let all : part_for node_id (dict_value es) ≡ ok (dict_value es) =
      unfold part_for in rw (part_for, h) refl in
    respond_part-ok (part_for node_id (dict_value es)) (dict_value es) bytes all whole
part_for-Due node_id bytes w _ whole (lacks_b es own h g) =
    let none_at_all : part_for node_id (dict_value es) ≡ raise key_error =
      unfold part_for in rw (part_for, h, g) refl in
    ap respond_part none_at_all ∙ (unfold respond_part in refl)
part_for-Due node_id bytes w _ whole (own_part es own b part h g other (text, e, u)) =
    let resp = dict_value (entry b_key b (entry (str_value node_id) own end)) in
    let two : part_for node_id (dict_value es) ≡ ok resp =
      unfold part_for put_entry same_key in rw (part_for, h, g, other) refl in
    let coded : encoded resp ≡ ok part = unfold encoded in rw (encoded, e) u in
    respond_part-ok (part_for node_id (dict_value es)) resp part two coded

module _ (v : Value) (text bytes : List ℕ) (good : IsGood v) (is_text : fencode false v ≡ ok text)
    (is_bytes : utf8_encode text ≡ ok bytes) where
  decoded : utf8_decode bytes ≡ ok text
  decoded = utf8_decode-utf8_encode text bytes (IsChar-fencode false v text good is_text) is_bytes

  read_back : fdecode (depth 1) (bytes_value bytes) ≡ ok (plain v)
  unfolding fdecode
  read_back = rw (fdecode, decoded) (fdecode-fencode v text good is_text)

  encoded-plain : encoded (plain v) ≡ ok bytes
  unfolding encoded
  encoded-plain = rw (encoded, fencode-plain false v, is_text) is_bytes

  some_bytes : bytes ≢ []
  unfolding utf8_decode utf8_scan
  some_bytes e =
      let none_read : ok [] ≡ ok text = ap utf8_decode (sym e) ∙ decoded in
      let nothing : [] ≡ text = cc in
      absurd (omega (arith, ap length nothing, fencode-nonempty false v text is_text))

  put_meta_lem :
      (key : List ℕ) (s : Server)
      → put_meta key text s ≡ (save key bytes s, ok (answer 200 nothing_told))
  unfolding put_meta
  put_meta_lem key s = rw (put_meta, fdecode-fencode v text good is_text, encoded-plain) refl

  -- What is told of a value, for its part.
  told_part :
      (node_id key bs : List ℕ) (t : Server)
      → bs ≡ bytes
      → (do told ← told_of node_id key t (some bs); ok (answer 200 told))
        ≡ respond_part (part_for node_id (plain v))
  unfolding told_of respond_part
  told_part node_id key [] t e = absurd (some_bytes (sym e))
  told_part node_id key (b ∷ bs) t e =
      rw (told_of, e, read_back) (answered (part_for node_id (plain v)))

  -- For a Python value as `IsGood` says, that `fencode` writes as `text`, with `bytes` as its
  -- UTF-8: the put of `text` under a key returns 200. On every server whose file of that key is the
  -- one that the put leaves, a get of the key comes to what the requester is due of the value, with
  -- bools in it as their numbers: of what is no dict, and of a dict without the requester's id, 200
  -- with `bytes`; of a dict with it and with an entry `b`, where these are two and can be written,
  -- 200 with the encoding of a dict of exactly the entry `b` and the requester's own; and of one
  -- with it and without an entry `b` the exception `KeyError`.
  pub get_meta-put_meta :
      (node_id key : List ℕ) (s t : Server) (response : Result Answer)
      → get key t.kstore ≡ get key (put_meta key text s).0.kstore
      → Due node_id bytes (plain v) response
      → ((put_meta key text s).1 ≡ ok (answer 200 nothing_told))
        × (get_meta node_id key t ≡ response)
  unfolding get_meta
  get_meta-put_meta node_id key s t response same due =
      let there : get key t.kstore ≡ some bytes =
        same ∙ ap (λ o. get key o.0.kstore) (put_meta_lem key s) ∙ stored in
      (
        ap (λ o. o.1) (put_meta_lem key s),
        rw (get_meta, there)
            (told_part node_id key bytes t refl
              ∙ part_for-Due node_id bytes (plain v) response encoded-plain due),
      )
    where
      stored : get key (put key bytes s.kstore) ≡ some bytes
      stored =
          get-put key key bytes s.kstore
          ∙ (let self : same_text key key ≡ true = beq_self text_eq key in rw self refl)
