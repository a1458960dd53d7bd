-- ===== src/Signature/Parts.antt =====
-- The parts of a header that SignPayload makes.
use web_hook_project.Prelude.{
  ℕ, suc, ◌≤◌, ◌≢◌, [], ◌∷◌, ◌++◌, ◌≡◌, refl, ap, ◌∙◌, arith, Text, codes, text_eq, nat_eq,
  text_beq, All, All-map,
}
use web_hook_project.Prelude.Int.{ℤ, pos, negsuc}
use web_hook_project.Prelude.Decimal.{decimal, decimal_ℤ, decimal-All}
use web_hook_project.Signature.{split, cut, read_parts, read_header, header_of}

split-free : (c : ℕ) (s : Text) → All (λ x. x ≢ c) s → split c s ≡ s ∷ []
unfolding split
split-free c [] h = refl
split-free c (x ∷ s) h = ground (arith, split-free c s h.1)

split-append : (c : ℕ) (s t : Text) → All (λ x. x ≢ c) s → split c (s ++ (c ∷ t)) ≡ s ∷ split c t
unfolding split
split-append c [] t h = ground arith
split-append c (x ∷ s) t h = ground (arith, split-append c s t h.1)

digits-free : (n : ℕ) → All (λ x. x ≢ b',') (decimal n)
digits-free n =
    All-map (λ c. (b'0' ≤ c) × (c ≤ b'9')) (λ x. x ≢ b',') (λ x d. omega arith) (decimal n)
      (decimal-All n)

decimal_ℤ-free : (ts : ℤ) → All (λ x. x ≢ b',') (decimal_ℤ ts)
unfolding decimal_ℤ
decimal_ℤ-free (pos n) = digits-free n
decimal_ℤ-free (negsuc n) = (omega arith, digits-free (suc n))

-- The loop over the parts of a header finds the timestamp and the signature it was made from.
pub read_header-header_of :
    (ts : ℤ) (signature : Text)
    → All (λ x. x ≢ b',') signature
    → read_header (header_of ts signature)
      ≡ record { timestamp = decimal_ℤ ts; signature = signature }
unfolding header_of read_parts cut text_beq
read_header-header_of ts signature free =
    let first : All (λ x. x ≢ b',') (codes "t=" ++ decimal_ℤ ts) =
      (omega arith, (omega arith, decimal_ℤ-free ts)) in
    let second : All (λ x. x ≢ b',') (codes "v1=" ++ signature) =
      (omega arith, (omega arith, (omega arith, free))) in
    let parts : split b',' (header_of ts signature)
        ≡ (codes "t=" ++ decimal_ℤ ts) ∷ (codes "v1=" ++ signature) ∷ [] =
      split-append b',' (codes "t=" ++ decimal_ℤ ts) (codes "v1=" ++ signature) first
      ∙ ap (λ l. (codes "t=" ++ decimal_ℤ ts) ∷ l)
          (split-free b',' (codes "v1=" ++ signature) second) in
    ap (λ ps. read_parts ps (record { timestamp = []; signature = [] })) parts
