-- ===== src/Security/Crypto.antt =====
-- packages/platform-core/src/platform_core/security/crypto.py: the compact signed tokens of slot
-- offers and of the protection against forged requests. HMAC-SHA256, base64 and JSON are parameters.
use soomsuite_agent.Prelude.{
  ◌≡◌, refl, ap, ◌∙◌, String, str_append, str_eq, str_eq_iff, Bool, true, Option, none, some,
  if◌then◌else◌, ◌==◌, inl, inr, Option-cases, Bool-cases,
}
use Prim.Native.Char.{Char, code}
use Prim.Native.String.append

-- The standard library's `hmac`, `base64` without padding, and `json`, on a payload of type `P`.
pub record TokenCodec (P : Type 0) : Type 0 where
  pub hmac_hex : String → String → String
  pub b64e : String → String
  pub b64d : String → Option String
  pub canonical_json : P → String
  pub json_loads : String → Option P

abbrev is_dot : Char → Bool
is_dot c = code c == 46

abbrev split_at : Char → String → Option (String × String) → Option (String × String)
split_at c s (some (front, back)) = some (String.◌∷◌ c front, back)
split_at c s none = if is_dot c then some ("", s) else none

-- `text.rsplit(".", 1)`, with `none` where there is no dot
unfoldable pub rsplit : String → Option (String × String)
rsplit String.[] = none
rsplit (String.◌∷◌ c s) = split_at c s (rsplit s)

module _ {P : Type 0} (codec : TokenCodec P) where
  unfoldable pub hmac_sign : String → String → String
  hmac_sign key message = codec.hmac_hex key message

  unfoldable pub hmac_verify : String → String → String → Bool
  unfolding hmac_sign
  hmac_verify key message signature = str_eq (hmac_sign key message) signature

  unfoldable pub sign_token : String → P → String
  unfolding hmac_sign
  sign_token key payload =
      let body = codec.b64e (codec.canonical_json payload) in
      str_append body (str_append "." (hmac_sign key body))

  abbrev read_body : Option String → Option P
  read_body none = none
  read_body (some text) = codec.json_loads text

  abbrev verify_parts : String → Option (String × String) → Option P
  verify_parts key none = none
  verify_parts key (some (body, sig)) =
      if str_eq (codec.hmac_hex key body) sig then read_body (codec.b64d body) else none

  unfoldable pub verify_token : String → String → Option P
  unfolding rsplit hmac_verify
  verify_token key token = verify_parts key (rsplit token)

rsplit-str_append :
    (body sig : String)
    → rsplit sig ≡ none
    → rsplit (str_append body (str_append "." sig)) ≡ some (body, sig)
unfolding rsplit
rsplit-str_append String.[] sig plain =
    let dot : str_append "." sig ≡ String.◌∷◌ "." sig =
      append.cons "." "" sig ∙ ap (String.◌∷◌ ".") (append.nil sig) in
    let start : str_append "" (str_append "." sig) ≡ String.◌∷◌ "." sig =
      append.nil (str_append "." sig) ∙ dot in
    rw (start, plain) refl
rsplit-str_append (String.◌∷◌ c s) sig plain =
    let ih = rsplit-str_append s sig plain in rw (append.cons c s (str_append "." sig), ih) refl

-- Where JSON gives the payload back and base64 any text, and a signature, which is hexadecimal, has
-- no dot, a token verifies under the key that signed it, and gives the payload back.
pub verify_token-sign_token :
    {P : Type 0} (codec : TokenCodec P) (key : String) (payload : P)
    → codec.json_loads (codec.canonical_json payload) ≡ some payload
    → ((text : String) → codec.b64d (codec.b64e text) ≡ some text)
    → ((message : String) → rsplit (codec.hmac_hex key message) ≡ none)
    → verify_token codec key (sign_token codec key payload) ≡ some payload
unfolding sign_token verify_token hmac_sign hmac_verify
verify_token-sign_token codec key payload loads decodes plain =
    let body = codec.b64e (codec.canonical_json payload) in
    let same : str_eq (codec.hmac_hex key body) (codec.hmac_hex key body) ≡ true =
      (str_eq_iff (codec.hmac_hex key body) (codec.hmac_hex key body)).1 refl in
    rw
      (
        rsplit-str_append body (codec.hmac_hex key body) (plain body),
        same,
        decodes (codec.canonical_json payload),
      )
      loads

-- A token that verifies is a body and its signature under the key: the payload was read from the
-- body that the signature covers.
pub verify_token-IsSigned :
    {P : Type 0} (codec : TokenCodec P) (key token : String) (payload : P)
    → verify_token codec key token ≡ some payload
    → (body : String) × (text : String) × (rsplit token ≡ some (body, codec.hmac_hex key body))
      × (codec.b64d body ≡ some text)
      × (codec.json_loads text ≡ some payload)
unfolding verify_token hmac_verify hmac_sign
verify_token-IsSigned codec key token payload h = elim (Option-cases (rsplit token)) [
  | inl whole ↦ let e : none ≡ some payload = rw whole at h in absurd (cc)
  | inr ((body, sig), cut) ↦ elim (Bool-cases (str_eq (codec.hmac_hex key body) sig)) [
    | inr forged ↦ let e : none ≡ some payload = rw (cut, forged) at h in absurd (cc)
    | inl signed ↦ elim (Option-cases (codec.b64d body)) [
      | inl garbled ↦ let e : none ≡ some payload = rw (cut, signed, garbled) at h in absurd (cc)
      | inr (text, decoded) ↦
          let e : codec.json_loads text ≡ some payload = rw (cut, signed, decoded) at h in
          let same = (str_eq_iff (codec.hmac_hex key body) sig).0 signed in
          (body, text, rw same cut, decoded, e)
    ]
  ]
]
