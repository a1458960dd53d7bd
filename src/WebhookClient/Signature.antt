-- ===== src/WebhookClient/Signature.antt =====
-- sdk/go/webhookclient/signature.go: checking signature headers, and how it compares with the
-- dispatcher's check.
use web_hook_project.Prelude.{
  ℕ, zero, suc, ◌+◌, ◌-◌, length, Bool, true, false, not, ◌&&◌, ◌||◌, List, [], ◌∷◌, map, Option,
  none, some, ◌≡◌, refl, sym, ap, ◌∙◌, subst, arith, Text, codes, ◌==◌, text_eq, nat_eq,
  if◌then◌else◌, All, leb, Option-cases, inl, inr,
}
use web_hook_project.Prelude.Int.{ℤ}
use web_hook_project.Prelude.Decimal.{parse_int}
use web_hook_project.Domain.{is_empty}
use web_hook_project.Signature.{
  Fields, split, cut, to_sign, is_stale, read_part, read_parts, verify_signature,
}

-- unicode.IsSpace on the bytes of UTF-8: the spaces of one byte, and the length of the space that a
-- text begins with, 0 if there is none.
abbrev pub is_space : ℕ → Bool
is_space c = (leb 9 c && leb c 13) || c == 32

-- U+0085 and U+00A0
abbrev pub is_space2 : ℕ → ℕ → Bool
is_space2 c d = c == 194 && (d == 133 || d == 160)

-- U+1680, U+2000 to U+200A, U+2028, U+2029, U+202F, U+205F and U+3000
abbrev pub is_space3 : ℕ → ℕ → ℕ → Bool
is_space3 c d e =
    (c == 225 && d == 154 && e == 128)
    || (c == 226 && d == 128 && ((leb 128 e && leb e 138) || e == 168 || e == 169 || e == 175))
    || (c == 226 && d == 129 && e == 159)
    || (c == 227 && d == 128 && e == 128)

unfoldable pub space_size : Text → ℕ
space_size [] = 0
space_size (c ∷ []) = if is_space c then 1 else 0
space_size (c ∷ d ∷ []) = if is_space c then 1 else if is_space2 c d then 2 else 0
space_size (c ∷ d ∷ e ∷ s) =
    if is_space c then 1 else if is_space2 c d then 2 else if is_space3 c d e then 3 else 0

-- The spaces in front are dropped; `left` bytes are left of the space that is being dropped.
unfoldable pub trim_from : ℕ → Text → Text
trim_from left [] = []
trim_from (suc left) (c ∷ s) = trim_from left s
trim_from zero (c ∷ s) =
    let size = space_size (c ∷ s) in
    let rest = trim_from (size - 1) s in if size == 0 then c ∷ s else rest

-- The spaces at the end are dropped, one after another.
unfoldable pub trim_right : Text → Text
trim_right [] = []
trim_right (c ∷ s) =
    let rest = trim_right s in if space_size (c ∷ rest) == length (c ∷ rest) then [] else c ∷ rest

-- strings.TrimSpace
abbrev pub trim_space : Text → Text
trim_space s = trim_right (trim_from 0 s)

-- strings.ToLower on ASCII letters: the lower case of another letter is no hexadecimal digit, so it
-- does not matter to a comparison with a text of these.
abbrev pub lower : ℕ → ℕ
lower c = if leb 65 c && leb c 90 then c + 32 else c

abbrev pub to_lower : Text → Text
to_lower s = map lower s

-- One turn of the loop over the parts.
abbrev pub read_trimmed_part : Text → Fields → Fields
read_trimmed_part part f = elim (cut b'=' part) [
  | none ↦ f
  | some (k, v) ↦
      if trim_space k == codes "t"
      then record f { timestamp = trim_space v }
      else if trim_space k == codes "v1"
      then record f { signature = trim_space v }
      else f
]

unfoldable pub read_trimmed_parts : List Text → Fields → Fields
read_trimmed_parts [] f = f
read_trimmed_parts (part ∷ parts) f = read_trimmed_parts parts (read_trimmed_part part f)

module _ (hmac_hex : Text → Text → Text) where
  -- VerifySignature; `now` is time.Now().Unix().
  unfoldable pub verify_signature_trimmed : ℤ → Text → Text → Text → ℤ → Bool
  verify_signature_trimmed now secret header payload tolerance =
      let f = read_trimmed_parts (split b',' header) (record { timestamp = []; signature = [] }) in
      if is_empty secret || is_empty header
      then false
      else if is_empty f.timestamp || is_empty f.signature
      then false
      else (elim (parse_int f.timestamp) [
        | none ↦ false
        | some ts ↦
            if is_stale tolerance now ts
            then false
            else to_lower (hmac_hex secret (to_sign ts payload)) == to_lower f.signature
      ])

-- A byte of ASCII that TrimSpace and ToLower leave.
abbrev pub is_plain : ℕ → Bool
is_plain c = leb c 127 && not (is_space c) && not (leb 65 c && leb c 90)

abbrev pub IsPlain : Text → Type 0
IsPlain s = All (λ c. is_plain c ≡ true) s

space_size_plain : (c : ℕ) (s : Text) → is_plain c ≡ true → space_size (c ∷ s) ≡ 0
unfolding space_size
space_size_plain c [] h = ground arith
space_size_plain c (d ∷ []) h = ground arith
space_size_plain c (d ∷ e ∷ s) h = ground arith

trim_from_plain : (s : Text) → IsPlain s → trim_from 0 s ≡ s
unfolding trim_from
trim_from_plain [] h = refl
trim_from_plain (c ∷ s) (h, hs) = ground (arith, space_size_plain c s h)

trim_right_plain : (s : Text) → IsPlain s → trim_right s ≡ s
unfolding trim_right
trim_right_plain [] h = refl
trim_right_plain (c ∷ s) (h, hs) =
    rw (trim_right_plain s hs) (ground (arith, space_size_plain c s h))

trim_space_plain : (s : Text) → IsPlain s → trim_space s ≡ s
trim_space_plain s h = ap trim_right (trim_from_plain s h) ∙ trim_right_plain s h

to_lower_plain : (s : Text) → IsPlain s → to_lower s ≡ s
to_lower_plain [] h = refl
to_lower_plain (c ∷ s) (h, hs) = ground (arith, to_lower_plain s hs)

parts-IsPlain :
    (b : Bool) (x : ℕ) (rest : List Text)
    → is_plain x ≡ true
    → All IsPlain rest
    → All IsPlain (
        if b
        then [] ∷ rest
        else (elim rest [ [] ↦ (x ∷ []) ∷ [] | part ∷ parts ↦ (x ∷ part) ∷ parts ]))
parts-IsPlain true x rest h hs = (tt, hs)
parts-IsPlain false x [] h hs = ((h, tt), tt)
parts-IsPlain false x (part ∷ parts) h (hp, hs) = ((h, hp), hs)

split-IsPlain : (c : ℕ) (s : Text) → IsPlain s → All IsPlain (split c s)
unfolding split
split-IsPlain c [] h = (tt, tt)
split-IsPlain c (x ∷ s) (h, hs) = parts-IsPlain (x == c) x (split c s) h (split-IsPlain c s hs)

abbrev IsPlainPair : Option (Text × Text) → Type 0
IsPlainPair none = Unit {0}
IsPlainPair (some (k, v)) = IsPlain k × IsPlain v

pair_plain :
    (b : Bool) (x : ℕ) (s : Text) (rest : Option (Text × Text))
    → is_plain x ≡ true
    → IsPlain s
    → IsPlainPair rest
    → IsPlainPair
        (if b then some ([], s) else (elim rest [ none ↦ none | some (k, v) ↦ some (x ∷ k, v) ]))
pair_plain true x s rest h hs hr = (tt, hs)
pair_plain false x s none h hs hr = tt
pair_plain false x s (some (k, v)) h hs (hk, hv) = ((h, hk), hv)

cut_plain : (c : ℕ) (s : Text) → IsPlain s → IsPlainPair (cut c s)
unfolding cut
cut_plain c [] h = tt
cut_plain c (x ∷ s) (h, hs) = pair_plain (x == c) x s (cut c s) h hs (cut_plain c s hs)

abbrev read_found : Option (Text × Text) → Fields → Fields
read_found o f = elim o [
  | none ↦ f
  | some (k, v) ↦
      if k == codes "t"
      then record f { timestamp = v }
      else if k == codes "v1"
      then record f { signature = v }
      else f
]

chosen-IsPlain :
    (is_timestamp is_signature : Bool) (v : Text) (f : Fields)
    → IsPlain v
    → IsPlain f.signature
    → IsPlain
        (if is_timestamp
          then record f { timestamp = v }
          else if is_signature
          then record f { signature = v }
          else f).signature
chosen-IsPlain true b v f hv hf = hf
chosen-IsPlain false true v f hv hf = hv
chosen-IsPlain false false v f hv hf = hf

-- On plain parts the two loops read the same fields, and the fields are plain.
read_part-IsPlain :
    (part : Text) (f : Fields)
    → IsPlain part
    → IsPlain f.signature
    → (read_trimmed_part part f ≡ read_part part f) × IsPlain (read_part part f).signature
read_part-IsPlain part f h hf = elim (Option-cases (cut b'=' part)) [
  | inl bare ↦ (
    ground arith,
    subst (λ (o : Option (Text × Text)). IsPlain (read_found o f).signature) (sym bare) hf,
  )
  | inr ((k, v), found) ↦
      let (hk, hv) = subst IsPlainPair found (cut_plain b'=' part h) in
      let same_key = trim_space_plain k hk in
      let same_value = trim_space_plain v hv in
      (
        ground arith,
        subst (λ (o : Option (Text × Text)). IsPlain (read_found o f).signature) (sym found)
            (chosen-IsPlain (k == codes "t") (k == codes "v1") v f hv hf),
      )
]

read_parts-IsPlain :
    (parts : List Text) (f : Fields)
    → All IsPlain parts
    → IsPlain f.signature
    → (read_trimmed_parts parts f ≡ read_parts parts f) × IsPlain (read_parts parts f).signature
unfolding read_trimmed_parts read_parts
read_parts-IsPlain [] f h hf = (refl, hf)
read_parts-IsPlain (part ∷ parts) f (h, hs) hf =
    let (same, plain) = read_part-IsPlain part f h hf in
    let (same', plain') = read_parts-IsPlain parts (read_part part f) hs plain in
    (ap (read_trimmed_parts parts) same ∙ same', plain')

-- On a header of ASCII without spaces and capital letters, under a secret that is not empty, and with such
-- a text as the MAC, the client's check and the dispatcher's agree.
pub verify_signature_trimmed_lem :
    (hmac_hex : Text → Text → Text) (now : ℤ) (secret header payload : Text) (tolerance : ℤ)
    → ((key msg : Text) → IsPlain (hmac_hex key msg))
    → is_empty secret ≡ false
    → IsPlain header
    → verify_signature_trimmed hmac_hex now secret header payload tolerance
      ≡ verify_signature hmac_hex now secret header payload tolerance
unfolding verify_signature_trimmed verify_signature
verify_signature_trimmed_lem hmac_hex now secret header payload tolerance hex full plain =
    let start : Fields = record { timestamp = []; signature = [] } in
    let (same, signature_plain) =
      read_parts-IsPlain (split b',' header) start (split-IsPlain b',' header plain) tt in
    let f = read_parts (split b',' header) start in
    let lowered = to_lower_plain f.signature signature_plain in
    rw same (elim (Option-cases (parse_int f.timestamp)) [
      | inl unread ↦ ground arith
      | inr (ts, read) ↦
          let lowered' = to_lower_plain _ (hex secret (to_sign ts payload)) in ground arith
    ])
