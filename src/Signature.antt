-- ===== src/Signature.antt =====
-- internal/dispatcher/hmac.go: signing payloads and checking signature headers.
pub mod Parts
pub mod Verify
use web_hook_project.Prelude.{
  ℕ, suc, ◌+◌, ◌-◌, ◌%◌, ◌^◌, ◌<◌, Bool, true, false, not, ◌&&◌, ◌||◌, List, [], ◌∷◌, ◌++◌, Option,
  none, some, Text, codes, ◌==◌, text_eq, nat_eq, if◌then◌else◌, All, ltb,
}
use web_hook_project.Prelude.Int.{ℤ, pos, negsuc, is_positive, ltb_ℤ, pos_part, neg_part}
use web_hook_project.Prelude.Decimal.{decimal_ℤ, parse_int}
use web_hook_project.Domain.{is_empty}

-- strings.Split at a one-byte separator
unfoldable pub split : ℕ → Text → List Text
split c [] = [] ∷ []
split c (x ∷ s) =
    let rest = split c s in
    if x == c
    then [] ∷ rest
    else (elim rest [ [] ↦ (x ∷ []) ∷ [] | part ∷ parts ↦ (x ∷ part) ∷ parts ])

-- strings.SplitN(s, sep, 2) at a one-byte separator; `none` where it gives one part
unfoldable pub cut : ℕ → Text → Option (Text × Text)
cut c [] = none
cut c (x ∷ s) =
    let rest = cut c s in
    if x == c then some ([], s) else (elim rest [ none ↦ none | some (k, v) ↦ some (x ∷ k, v) ])

-- timestampStr and expectedSig
pub record Fields : Type 0 where
  pub timestamp : Text
  pub signature : Text

-- One turn of the loop over the parts.
abbrev pub read_part : Text → Fields → Fields
read_part part f = elim (cut b'=' part) [
  | none ↦ f
  | some (k, v) ↦
      if k == codes "t"
      then record f { timestamp = v }
      else if k == codes "v1"
      then record f { signature = v }
      else f
]

unfoldable pub read_parts : List Text → Fields → Fields
read_parts [] f = f
read_parts (part ∷ parts) f = read_parts parts (read_part part f)

abbrev pub read_header : Text → Fields
read_header header = read_parts (split b',' header) (record { timestamp = []; signature = [] })

-- fmt.Sprintf("%d.%s", timestamp, payload)
abbrev pub to_sign : ℤ → Text → Text
to_sign ts payload = decimal_ℤ ts ++ (b'.' ∷ payload)

-- fmt.Sprintf("t=%d,v1=%s", timestamp, signature)
unfoldable pub header_of : ℤ → Text → Text
header_of ts signature = codes "t=" ++ (decimal_ℤ ts ++ (codes ",v1=" ++ signature))

-- The bits of an int64, and the number that they stand for.
abbrev pub bits : ℤ → ℕ
bits (pos n) = n % 2 ^ 64
bits (negsuc n) = 2 ^ 64 - suc (n % 2 ^ 64)

abbrev pub of_bits : ℕ → ℤ
of_bits b = if ltb b (2 ^ 63) then pos b else negsuc (2 ^ 64 - 1 - b)

-- a - b and -a on int64
abbrev pub sub64 : ℤ → ℤ → ℤ
sub64 a b = of_bits ((bits a + (2 ^ 64 - bits b)) % 2 ^ 64)

-- The timestamp is further from `now` than the tolerance, if there is a tolerance.
unfoldable pub is_stale : ℤ → ℤ → ℤ → Bool
is_stale tolerance now ts =
    is_positive tolerance
    && (ltb_ℤ tolerance (sub64 now ts) || ltb_ℤ (sub64 now ts) (sub64 (pos 0) tolerance))

-- `hmac_hex` is HMAC-SHA256 of a message under a secret, in hexadecimal: crypto/hmac, crypto/sha256
-- and encoding/hex.
module _ (hmac_hex : Text → Text → Text) where
  unfoldable pub sign_payload : Text → ℤ → Text → Text
  sign_payload secret ts payload = header_of ts (hmac_hex secret (to_sign ts payload))

  -- `now` is time.Now().Unix().
  unfoldable pub verify_signature : ℤ → Text → Text → Text → ℤ → Bool
  verify_signature now secret header payload tolerance =
      let f = read_header header in
      if is_empty header
      then false
      else if is_empty f.timestamp || is_empty f.signature
      then false
      else (elim (parse_int f.timestamp) [
        | none ↦ false
        | some ts ↦
            if is_stale tolerance now ts
            then false
            else hmac_hex secret (to_sign ts payload) == f.signature
      ])

  -- The loop of VerifySignatureWithSecrets; `now` is taken to be one second for all secrets.
  unfoldable pub any_secret : ℤ → List Text → Text → Text → ℤ → Bool
  any_secret now [] header payload tolerance = false
  any_secret now (secret ∷ secrets) header payload tolerance =
      let others = any_secret now secrets header payload tolerance in
      if not (is_empty secret) && verify_signature now secret header payload tolerance
      then true
      else others

  unfoldable pub verify_signature_with_secrets : ℤ → List Text → Text → Text → ℤ → Bool
  verify_signature_with_secrets now secrets header payload tolerance = elim secrets [
    | [] ↦ false
    | s ∷ ss ↦ if is_empty header then false else any_secret now (s ∷ ss) header payload tolerance
  ]
