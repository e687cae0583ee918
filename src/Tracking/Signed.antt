-- ===== src/Tracking/Signed.antt =====
-- Signed tokens, written and read.
use Prim.Native.Char.{code}
use Prim.Native.String.{◌++◌}
use text.Mathlib.TextLemmas.{cons-append, nil-append}
use email_service_with_aws_s.Base.{
  String, ◌≡◌, refl, sym, ap, ◌∙◌, true, false, some, Bool-cases, Option-cases, [], ◌∷◌, inl, inr,
  nat_eq, arith, Bytes, bytes_eq, Error, Result-cases, ok, err, ok-injective, is_ok,
}
use email_service_with_aws_s.Tracking.Tokens.{
  Token, Signer, Tracker, has_dot, split_at_dot, sign, verify_parts, verify,
}

split_at_dot-append :
    (a b : String) → has_dot a ≡ false → split_at_dot (a ++ ("." ++ b)) ≡ some (a, b)
unfolding split_at_dot
split_at_dot-append String.[] b h =
    rw (nil-append ("." ++ b)) (rw (cons-append "." "" b) (rw (nil-append b) refl))
split_at_dot-append (String.◌∷◌ c s) b h =
    rw (cons-append c s ("." ++ b)) (elim (Bool-cases (nat_eq (code c) b'.')) [
      | inl m ↦ absurd (ground (arith, m, h))
      | inr m ↦ rw (m, split_at_dot-append s b (ground (arith, m, h))) refl
    ])

bytes_eq_refl : (b : Bytes) → bytes_eq b b ≡ true
bytes_eq_refl [] = refl
bytes_eq_refl (x ∷ b) = ground (arith, bytes_eq_refl b)

eq_of_bytes : (a b : Bytes) → bytes_eq a b ≡ true → a ≡ b
eq_of_bytes [] [] h = refl
eq_of_bytes [] (y ∷ b) h = cc
eq_of_bytes (x ∷ a) [] h = cc
eq_of_bytes (x ∷ a) (y ∷ b) h = ground (arith, eq_of_bytes a b)

module _ (signer : Signer) (tracker : Tracker) where
  open signer use {marshal, unmarshal, encode, decode, hmac}

  verify_parts-encode :
      (t : Token) (payload : Bytes)
      → marshal t ≡ ok payload
      → verify_parts signer tracker (encode payload) (encode (hmac tracker.secret (encode payload)))
        ≡ ok t
  unfolding verify_parts
  verify_parts-encode t payload m =
      rw
        (
          signer.decode-encode (hmac tracker.secret (encode payload)),
          bytes_eq_refl (hmac tracker.secret (encode payload)),
          signer.decode-encode payload,
          signer.unmarshal-marshal t payload m,
          verify_parts,
        )
        refl

  abbrev token_of : Bytes → String
  token_of payload = encode payload ++ ("." ++ encode (hmac tracker.secret (encode payload)))

  signed_as :
      (t : Token) (payload : Bytes)
      → marshal t ≡ ok payload
      → sign signer tracker t ≡ ok (token_of payload)
  unfolding sign
  signed_as t payload m = rw (m, sign) refl

  unsigned : (t : Token) (x : Error) → marshal t ≡ err x → is_ok (sign signer tracker t) ≡ false
  unfolding sign
  unsigned t x m = rw (m, sign) refl

  verify_token :
      (t : Token) (payload : Bytes)
      → marshal t ≡ ok payload
      → verify signer tracker (token_of payload) ≡ ok t
  unfolding verify
  verify_token t payload m =
      rw
        (
          split_at_dot-append (encode payload) (encode (hmac tracker.secret (encode payload)))
              (signer.encoded_no_dot payload),
          verify,
        )
        (verify_parts-encode t payload m)

  -- A token that was signed is verified under the same secret, and gives its payload back.
  pub verify-sign :
      (t : Token) (signed : String)
      → sign signer tracker t ≡ ok signed
      → verify signer tracker signed ≡ ok t
  verify-sign t signed e = elim (Result-cases (marshal t)) [
    | inr (x, m) ↦ cc (unsigned t x m, ap is_ok e)
    | inl (payload, m) ↦
        let same : token_of payload ≡ signed =
          ok-injective (token_of payload) signed (sym (signed_as t payload m) ∙ e) in
        rw (← same) (verify_token t payload m)
  ]

  -- The text after the first dot is the digest of the text before it.
  pub record IsAuthentic (token : String) : Type 0 where
    pub encoded : String
    pub signature : String
    pub split : split_at_dot token ≡ some (encoded, signature)
    pub digest : decode signature ≡ ok (hmac tracker.secret encoded)

  parts_authentic :
      (encoded signature : String) (t : Token)
      → verify_parts signer tracker encoded signature ≡ ok t
      → decode signature ≡ ok (hmac tracker.secret encoded)
  unfolding verify_parts
  parts_authentic encoded signature t e = elim (Result-cases (decode signature)) [
    | inr (x, m) ↦ cc (rw (m, verify_parts) at e)
    | inl (sig, m) ↦ elim (Bool-cases (bytes_eq sig (hmac tracker.secret encoded))) [
      | inr m' ↦ cc (rw (m, m', verify_parts) at e)
      | inl m' ↦ m ∙ ap ok (eq_of_bytes sig (hmac tracker.secret encoded) m')
    ]
  ]

  -- A token that is verified carries the digest of its payload under the secret.
  pub verify-IsAuthentic :
      (token : String) (t : Token) → verify signer tracker token ≡ ok t → IsAuthentic token
  unfolding verify
  verify-IsAuthentic token t e = elim (Option-cases (split_at_dot token)) [
    | inl m ↦ cc (rw (m, verify) at e)
    | inr (p, m) ↦ record {
      encoded = p.0;
      signature = p.1;
      split = m;
      digest = parts_authentic p.0 p.1 t (rw (m, verify) at e);
    }
  ]
