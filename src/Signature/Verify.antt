-- ===== src/Signature/Verify.antt =====
-- When VerifySignature accepts.
use web_hook_project.Prelude.{
  ℕ, suc, ◌+◌, ◌^◌, ◌≤◌, ◌<◌, ◌≢◌, ◌↔◌, true, false, not, ◌&&◌, List, [], ◌∷◌, ◌++◌, some, ◌≡◌,
  refl, ◌∙◌, arith, Text, ◌==◌, text_eq, text_beq, text_beq_iff, text_beq_refl, ◌⊎◌, All, All-map,
}
use web_hook_project.Prelude.Int.{ℤ, pos}
use web_hook_project.Prelude.Decimal.{
  decimal, decimal_ℤ, parse_int, parse_int-decimal, decimal_cons,
}
use web_hook_project.Domain.{is_empty}
use web_hook_project.Signature.{
  read_header, header_of, to_sign, is_stale, sign_payload, verify_signature, any_secret,
  verify_signature_with_secrets,
}
use web_hook_project.Signature.Parts.{read_header-header_of}

-- Hexadecimal digits as hex.EncodeToString writes them.
abbrev pub IsHex : ℕ → Type 0
IsHex c = (b'0' ≤ c) × (c ≤ b'f')

abbrev pub IsHexText : Text → Type 0
IsHexText t = (t ≢ []) × All IsHex t

hex-free : (t : Text) → IsHexText t → All (λ x. x ≢ b',') t
hex-free t h = All-map IsHex (λ x. x ≢ b',') (λ x d. omega arith) t h.1

decimal_full : (n : ℕ) → is_empty (decimal n) ≡ false
unfolding text_beq
decimal_full n = let (c, s, e) = decimal_cons n in rw e

is_empty_full : (t : Text) → t ≢ [] → is_empty t ≡ false
is_empty_full t h = ground (arith, text_beq_iff t [])

-- Timestamps from 1970 on that fit in an int64.
abbrev pub IsTimestamp : ℤ → Type 0
IsTimestamp ts = (n : ℕ) × (ts ≡ pos n) × (n < 2 ^ 63)

module _ (hmac_hex : Text → Text → Text) where
  verify_read :
      (now ts : ℤ) (secret header payload t s : Text) (tolerance : ℤ)
      → read_header header ≡ record { timestamp = t; signature = s }
      → is_empty header ≡ false
      → is_empty t ≡ false
      → is_empty s ≡ false
      → parse_int t ≡ some ts
      → verify_signature hmac_hex now secret header payload tolerance
        ≡ (not (is_stale tolerance now ts) && (hmac_hex secret (to_sign ts payload) == s))
  unfolding verify_signature
  verify_read now ts secret header payload t s tolerance read full t_full s_full parsed =
      ground arith

  -- What VerifySignature computes on a header that SignPayload made, perhaps under another secret
  -- and for another payload: the timestamp is not stale and the two MACs agree.
  pub verify_signed :
      (now : ℤ) (ts : ℤ) (secret other payload payload' : Text) (tolerance : ℤ)
      → ((secret message : Text) → IsHexText (hmac_hex secret message))
      → IsTimestamp ts
      → verify_signature hmac_hex now other
          (sign_payload hmac_hex secret ts payload)
          payload'
          tolerance
        ≡ (not (is_stale tolerance now ts)
            && (hmac_hex other (to_sign ts payload') == hmac_hex secret (to_sign ts payload)))
  unfolding sign_payload header_of decimal_ℤ text_beq
  verify_signed now ts secret other payload payload' tolerance hex (n, is, fits) =
      let sig = hmac_hex secret (to_sign ts payload) in
      let full = hex secret (to_sign ts payload) in
      verify_read now ts other (header_of ts sig) payload' (decimal_ℤ ts) sig tolerance
        (read_header-header_of ts sig (hex-free sig full)) refl (rw is (decimal_full n))
        (is_empty_full sig full.0) (rw is (parse_int-decimal n fits))

-- With a tolerance above 0 and times of clocks from 1970 on and below 2^62 seconds, where int64 does
-- not wrap around, a timestamp is stale just if it is more than the tolerance away from now.
pub is_stale_lem :
    (tolerance now ts : ℕ)
    → tolerance < 2 ^ 63
    → now < 2 ^ 62
    → ts < 2 ^ 62
    → (is_stale (pos (suc tolerance)) (pos now) (pos ts) ≡ true)
      ↔ ((now + suc tolerance < ts) ⊎ (ts + suc tolerance < now))
unfolding is_stale
is_stale_lem tolerance now ts small here there = ground arith

module _ (hmac_hex : Text → Text → Text)
    (hex : (secret message : Text) → IsHexText (hmac_hex secret message)) where
  verify_fresh :
      (now ts : ℤ) (secret payload : Text) (tolerance : ℤ)
      → IsTimestamp ts
      → is_stale tolerance now ts ≡ false
      → verify_signature hmac_hex now secret
          (sign_payload hmac_hex secret ts payload)
          payload
          tolerance
        ≡ true
  verify_fresh now ts secret payload tolerance time fresh =
      verify_signed hmac_hex now ts secret secret payload payload tolerance hex time
      ∙ rw fresh (text_beq_refl (hmac_hex secret (to_sign ts payload)))

  any_secret-append :
      (now : ℤ) (before after : List Text) (secret header payload : Text) (tolerance : ℤ)
      → is_empty secret ≡ false
      → verify_signature hmac_hex now secret header payload tolerance ≡ true
      → any_secret hmac_hex now (before ++ (secret ∷ after)) header payload tolerance ≡ true
  unfolding any_secret
  any_secret-append now [] after secret header payload tolerance full good = ground arith
  any_secret-append now (s ∷ before) after secret header payload tolerance full good =
      ground (arith, any_secret-append now before after secret header payload tolerance full good)

  -- During a rotation a receiver that knows several secrets accepts what was signed under any one of
  -- them that is not empty: if `hmac_hex` gives texts of hexadecimal digits, the timestamp is from
  -- 1970 on and fits in an int64, and it is not stale. With the one secret this is the round trip of
  -- SignPayload and VerifySignature.
  pub verify_rotated :
      (now ts : ℤ) (before after : List Text) (secret payload : Text) (tolerance : ℤ)
      → secret ≢ []
      → IsTimestamp ts
      → is_stale tolerance now ts ≡ false
      → let header = sign_payload hmac_hex secret ts payload in
        (verify_signature hmac_hex now secret header payload tolerance ≡ true)
        × (verify_signature_with_secrets hmac_hex now
              (before ++ (secret ∷ after))
              header
              payload
              tolerance
            ≡ true)
  unfolding verify_signature_with_secrets sign_payload header_of text_beq
  verify_rotated now ts [] after secret payload tolerance full time fresh =
      let good = verify_fresh now ts secret payload tolerance time fresh in
      (
        good,
        any_secret-append now [] after secret (sign_payload hmac_hex secret ts payload) payload
            tolerance (is_empty_full secret full) good,
      )
  verify_rotated now ts (s ∷ before) after secret payload tolerance full time fresh =
      let good = verify_fresh now ts secret payload tolerance time fresh in
      (
        good,
        any_secret-append now (s ∷ before) after secret (sign_payload hmac_hex secret ts payload)
            payload tolerance (is_empty_full secret full) good,
      )
