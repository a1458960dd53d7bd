-- ===== src/Dispatcher/Ranges.antt =====
-- internal/dispatcher/ssrf.go: the restricted IPv4 addresses as ranges of numbers.
use web_hook_project.Prelude.{
  ℕ, ◌+◌, ◌*◌, ◌<◌, Bool, true, false, ◌&&◌, ◌||◌, List, [], ◌∷◌, ◌++◌, some, nat_eq, text_eq,
  text_beq, ltb, leb, ◌≡◌, refl, sym, arith,
}
use web_hook_project.Dispatcher.Restricted.{
  Ip, mapped_prefix, to4, agree, any_contains, private_ip_blocks, is_restricted_ip, is_loopback,
  is_private, is_multicast, is_unspecified, is_link_local_unicast, is_link_local_multicast,
}

abbrev pub v4 : ℕ → ℕ → ℕ → ℕ → Ip
v4 a b c d = a ∷ b ∷ c ∷ d ∷ []

abbrev pub value4 : ℕ → ℕ → ℕ → ℕ → ℕ
value4 a b c d = ((a * 256 + b) * 256 + c) * 256 + d

abbrev pub in_range : ℕ × ℕ → ℕ → Bool
in_range (low, high) n = leb low n && ltb n high

-- The first address of each range and the first one behind it.
abbrev pub restricted_ranges : List (ℕ × ℕ)
restricted_ranges =
    (value4 0 0 0 0, value4 1 0 0 0)
    ∷ (value4 10 0 0 0, value4 11 0 0 0)
    ∷ (value4 100 64 0 0, value4 100 128 0 0)
    ∷ (value4 127 0 0 0, value4 128 0 0 0)
    ∷ (value4 169 254 0 0, value4 169 255 0 0)
    ∷ (value4 172 16 0 0, value4 172 32 0 0)
    ∷ (value4 192 0 0 0, value4 192 0 1 0)
    ∷ (value4 192 0 2 0, value4 192 0 3 0)
    ∷ (value4 192 168 0 0, value4 192 169 0 0)
    ∷ (value4 198 18 0 0, value4 198 20 0 0)
    ∷ (value4 198 51 100 0, value4 198 51 101 0)
    ∷ (value4 203 0 113 0, value4 203 0 114 0)
    ∷ (value4 224 0 0 0, value4 256 0 0 0)
    ∷ []

abbrev pub in_ranges : List (ℕ × ℕ) → ℕ → Bool
in_ranges [] n = false
in_ranges (r ∷ rs) n = in_range r n || in_ranges rs n

-- The ranges of the blocks in their order, with the overlaps.
abbrev block_ranges : List (ℕ × ℕ)
block_ranges =
    (value4 127 0 0 0, value4 128 0 0 0)
    ∷ (value4 10 0 0 0, value4 11 0 0 0)
    ∷ (value4 172 16 0 0, value4 172 32 0 0)
    ∷ (value4 192 168 0 0, value4 192 169 0 0)
    ∷ (value4 169 254 0 0, value4 169 255 0 0)
    ∷ (value4 0 0 0 0, value4 1 0 0 0)
    ∷ (value4 100 64 0 0, value4 100 128 0 0)
    ∷ (value4 192 0 0 0, value4 192 0 1 0)
    ∷ (value4 192 0 2 0, value4 192 0 3 0)
    ∷ (value4 198 18 0 0, value4 198 20 0 0)
    ∷ (value4 198 51 100 0, value4 198 51 101 0)
    ∷ (value4 203 0 113 0, value4 203 0 114 0)
    ∷ (value4 224 0 0 0, value4 240 0 0 0)
    ∷ (value4 240 0 0 0, value4 256 0 0 0)
    ∷ (value4 255 255 255 255, value4 256 0 0 0)
    ∷ []

block_ranges_sorted : (n : ℕ) → in_ranges block_ranges n ≡ in_ranges restricted_ranges n
block_ranges_sorted n = ground arith

covered : (p q r : Bool) → (p ≡ true → r ≡ true) → q ≡ r → (p || q) ≡ r
covered true q r inside same = sym (inside refl)
covered false q r inside same = same

either : (p q r : Bool) → (p ≡ true → r ≡ true) → (q ≡ true → r ≡ true) → (p || q) ≡ true → r ≡ true
either true q r left right h = left refl
either false q r left right h = right h

module _ (a b c d : ℕ) (ha : a < 256) (hb : b < 256) (hc : c < 256) (hd : d < 256) where
  block_127 :
      agree 8 (v4 127 0 0 0) (v4 a b c d)
      ≡ in_range (value4 127 0 0 0, value4 128 0 0 0) (value4 a b c d)
  unfolding agree
  block_127 = ground arith

  block_10 :
      agree 8 (v4 10 0 0 0) (v4 a b c d)
      ≡ in_range (value4 10 0 0 0, value4 11 0 0 0) (value4 a b c d)
  unfolding agree
  block_10 = ground arith

  block_172_16 :
      agree 12 (v4 172 16 0 0) (v4 a b c d)
      ≡ in_range (value4 172 16 0 0, value4 172 32 0 0) (value4 a b c d)
  unfolding agree
  block_172_16 = ground arith

  block_192_168 :
      agree 16 (v4 192 168 0 0) (v4 a b c d)
      ≡ in_range (value4 192 168 0 0, value4 192 169 0 0) (value4 a b c d)
  unfolding agree
  block_192_168 = ground arith

  block_169_254 :
      agree 16 (v4 169 254 0 0) (v4 a b c d)
      ≡ in_range (value4 169 254 0 0, value4 169 255 0 0) (value4 a b c d)
  unfolding agree
  block_169_254 = ground arith

  block_0 :
      agree 8 (v4 0 0 0 0) (v4 a b c d) ≡ in_range (value4 0 0 0 0, value4 1 0 0 0) (value4 a b c d)
  unfolding agree
  block_0 = ground arith

  block_100_64 :
      agree 10 (v4 100 64 0 0) (v4 a b c d)
      ≡ in_range (value4 100 64 0 0, value4 100 128 0 0) (value4 a b c d)
  unfolding agree
  block_100_64 = ground arith

  block_192_0_0 :
      agree 24 (v4 192 0 0 0) (v4 a b c d)
      ≡ in_range (value4 192 0 0 0, value4 192 0 1 0) (value4 a b c d)
  unfolding agree
  block_192_0_0 = ground arith

  block_192_0_2 :
      agree 24 (v4 192 0 2 0) (v4 a b c d)
      ≡ in_range (value4 192 0 2 0, value4 192 0 3 0) (value4 a b c d)
  unfolding agree
  block_192_0_2 = ground arith

  block_198_18 :
      agree 15 (v4 198 18 0 0) (v4 a b c d)
      ≡ in_range (value4 198 18 0 0, value4 198 20 0 0) (value4 a b c d)
  unfolding agree
  block_198_18 = ground arith

  block_198_51_100 :
      agree 24 (v4 198 51 100 0) (v4 a b c d)
      ≡ in_range (value4 198 51 100 0, value4 198 51 101 0) (value4 a b c d)
  unfolding agree
  block_198_51_100 = ground arith

  block_203_0_113 :
      agree 24 (v4 203 0 113 0) (v4 a b c d)
      ≡ in_range (value4 203 0 113 0, value4 203 0 114 0) (value4 a b c d)
  unfolding agree
  block_203_0_113 = ground arith

  block_224 :
      agree 4 (v4 224 0 0 0) (v4 a b c d)
      ≡ in_range (value4 224 0 0 0, value4 240 0 0 0) (value4 a b c d)
  unfolding agree
  block_224 = ground arith

  block_240 :
      agree 4 (v4 240 0 0 0) (v4 a b c d)
      ≡ in_range (value4 240 0 0 0, value4 256 0 0 0) (value4 a b c d)
  unfolding agree
  block_240 = ground arith

  block_255_255_255_255 :
      agree 32 (v4 255 255 255 255) (v4 a b c d)
      ≡ in_range (value4 255 255 255 255, value4 256 0 0 0) (value4 a b c d)
  unfolding agree
  block_255_255_255_255 = ground arith

  blocks_ranges :
      any_contains private_ip_blocks (v4 a b c d) ≡ in_ranges restricted_ranges (value4 a b c d)
  unfolding private_ip_blocks to4
  blocks_ranges =
      rw
        (
          block_127, block_10, block_172_16, block_192_168, block_169_254, block_0, block_100_64,
          block_192_0_0, block_192_0_2, block_198_18, block_198_51_100, block_203_0_113, block_224,
          block_240, block_255_255_255_255,
        )
        (block_ranges_sorted (value4 a b c d))

  abbrev here : Bool
  here = in_ranges restricted_ranges (value4 a b c d)

  loopback_here : is_loopback (v4 a b c d) ≡ true → here ≡ true
  unfolding to4
  loopback_here h = ground arith

  unicast_here : is_link_local_unicast (v4 a b c d) ≡ true → here ≡ true
  unfolding to4
  unicast_here h = ground arith

  local_multicast_here : is_link_local_multicast (v4 a b c d) ≡ true → here ≡ true
  unfolding to4
  local_multicast_here h = ground arith

  multicast_here : is_multicast (v4 a b c d) ≡ true → here ≡ true
  unfolding to4
  multicast_here h = ground arith

  unspecified_here : is_unspecified (v4 a b c d) ≡ true → here ≡ true
  unfolding to4 text_beq
  unspecified_here h = ground arith

  private_here : is_private (v4 a b c d) ≡ true → here ≡ true
  unfolding to4
  private_here h = ground arith

  short_here : is_restricted_ip (some (v4 a b c d)) ≡ in_ranges restricted_ranges (value4 a b c d)
  unfolding is_restricted_ip to4
  short_here =
      covered _ _ here
        (either _ _ here
          (either _ _ here
            (either _ _ here
              (either _ _ here (either _ _ here loopback_here unicast_here) local_multicast_here)
              multicast_here)
            unspecified_here)
          private_here)
        blocks_ranges

  -- An IPv4 address is restricted just if its number is in one of the ranges, written in 4 bytes or
  -- mapped into 16.
  pub is_restricted_ip_lem :
      (is_restricted_ip (some (v4 a b c d)) ≡ in_ranges restricted_ranges (value4 a b c d))
      × (is_restricted_ip (some (mapped_prefix ++ v4 a b c d))
          ≡ in_ranges restricted_ranges (value4 a b c d))
  unfolding is_restricted_ip to4 text_beq
  is_restricted_ip_lem = (short_here, short_here)
