-- ===== src/Dispatcher/Restricted.antt =====
-- internal/dispatcher/ssrf.go: the addresses to which no request may go. The methods of net.IP and
-- net.IPNet are written out on the bytes of an address.
use web_hook_project.Prelude.{
  ℕ, ◌-◌, ◌/◌, ◌%◌, ◌^◌, min, Bool, true, false, ◌&&◌, ◌||◌, List, [], ◌∷◌, Option, none, some,
  ◌==◌, nat_eq, if◌then◌else◌, text_eq, length, take, drop,
}

-- net.IP: the bytes of an address.
abbrev pub Ip : Type 0
Ip = List ℕ

abbrev pub byte : ℕ → Ip → ℕ
byte n [] = 0
byte n (b ∷ ip) = if n == 0 then b else byte (n - 1) ip

abbrev pub mapped_prefix : Ip
mapped_prefix = 0 ∷ 0 ∷ 0 ∷ 0 ∷ 0 ∷ 0 ∷ 0 ∷ 0 ∷ 0 ∷ 0 ∷ 255 ∷ 255 ∷ []

-- To4
unfoldable pub to4 : Ip → Option Ip
to4 ip =
    if length ip == 4
    then some ip
    else if length ip == 16 && take 12 ip == mapped_prefix
    then some (drop 12 ip)
    else none

-- What a method tests of the four bytes, or else of an address of 16 bytes.
abbrev pub tested : (Ip → Bool) → (Ip → Bool) → Ip → Bool
tested short long ip = elim (to4 ip) [ some v4 ↦ short v4 | none ↦ length ip == 16 && long ip ]

abbrev pub v6_zeros : ℕ → Ip
v6_zeros last = 0 ∷ 0 ∷ 0 ∷ 0 ∷ 0 ∷ 0 ∷ 0 ∷ 0 ∷ 0 ∷ 0 ∷ 0 ∷ 0 ∷ 0 ∷ 0 ∷ 0 ∷ last ∷ []

abbrev pub is_unspecified : Ip → Bool
is_unspecified = tested (λ v4. v4 == (0 ∷ 0 ∷ 0 ∷ 0 ∷ [])) (λ v6. v6 == v6_zeros 0)

abbrev pub is_loopback : Ip → Bool
is_loopback = tested (λ v4. byte 0 v4 == 127) (λ v6. v6 == v6_zeros 1)

abbrev pub is_private : Ip → Bool
is_private =
    tested
      (λ v4.
        byte 0 v4 == 10
        || (byte 0 v4 == 172 && byte 1 v4 / 16 == 1)
        || (byte 0 v4 == 192 && byte 1 v4 == 168))
      (λ v6. byte 0 v6 / 2 == 126)

abbrev pub is_multicast : Ip → Bool
is_multicast = tested (λ v4. byte 0 v4 / 16 == 14) (λ v6. byte 0 v6 == 255)

abbrev pub is_link_local_multicast : Ip → Bool
is_link_local_multicast =
    tested (λ v4. byte 0 v4 == 224 && byte 1 v4 == 0 && byte 2 v4 == 0)
      (λ v6. byte 0 v6 == 255 && byte 1 v6 % 16 == 2)

abbrev pub is_link_local_unicast : Ip → Bool
is_link_local_unicast =
    tested (λ v4. byte 0 v4 == 169 && byte 1 v4 == 254)
      (λ v6. byte 0 v6 == 254 && byte 1 v6 / 64 == 2)

-- net.IPNet: a network and how many of its bits count.
abbrev pub Block : Type 0
Block = Ip × ℕ

-- The first `bits` bits of two addresses of the same length agree.
unfoldable pub agree : ℕ → Ip → Ip → Bool
agree bits [] [] = true
agree bits [] (x ∷ xs) = false
agree bits (n ∷ ns) [] = false
agree bits (n ∷ ns) (x ∷ xs) =
    let rest = agree (bits - 8) ns xs in
    n / 2 ^ (8 - min 8 bits) == x / 2 ^ (8 - min 8 bits) && rest

abbrev pub four_bytes : Ip → Ip
four_bytes ip = elim (to4 ip) [ some v4 ↦ v4 | none ↦ ip ]

-- Contains
abbrev pub contains : Block → Ip → Bool
contains (net, bits) ip = length (four_bytes ip) == length net && agree bits net (four_bytes ip)

-- privateIPBlocks, as init makes them
unfoldable pub private_ip_blocks : List Block
private_ip_blocks =
    (127 ∷ 0 ∷ 0 ∷ 0 ∷ [], 8)
    ∷ (10 ∷ 0 ∷ 0 ∷ 0 ∷ [], 8)
    ∷ (172 ∷ 16 ∷ 0 ∷ 0 ∷ [], 12)
    ∷ (192 ∷ 168 ∷ 0 ∷ 0 ∷ [], 16)
    ∷ (169 ∷ 254 ∷ 0 ∷ 0 ∷ [], 16)
    ∷ (0 ∷ 0 ∷ 0 ∷ 0 ∷ [], 8)
    ∷ (100 ∷ 64 ∷ 0 ∷ 0 ∷ [], 10)
    ∷ (192 ∷ 0 ∷ 0 ∷ 0 ∷ [], 24)
    ∷ (192 ∷ 0 ∷ 2 ∷ 0 ∷ [], 24)
    ∷ (198 ∷ 18 ∷ 0 ∷ 0 ∷ [], 15)
    ∷ (198 ∷ 51 ∷ 100 ∷ 0 ∷ [], 24)
    ∷ (203 ∷ 0 ∷ 113 ∷ 0 ∷ [], 24)
    ∷ (224 ∷ 0 ∷ 0 ∷ 0 ∷ [], 4)
    ∷ (240 ∷ 0 ∷ 0 ∷ 0 ∷ [], 4)
    ∷ (255 ∷ 255 ∷ 255 ∷ 255 ∷ [], 32)
    ∷ (v6_zeros 1, 128)
    ∷ (v6_zeros 0, 128)
    ∷ (254 ∷ 128 ∷ 0 ∷ 0 ∷ 0 ∷ 0 ∷ 0 ∷ 0 ∷ 0 ∷ 0 ∷ 0 ∷ 0 ∷ 0 ∷ 0 ∷ 0 ∷ 0 ∷ [], 10)
    ∷ (252 ∷ 0 ∷ 0 ∷ 0 ∷ 0 ∷ 0 ∷ 0 ∷ 0 ∷ 0 ∷ 0 ∷ 0 ∷ 0 ∷ 0 ∷ 0 ∷ 0 ∷ 0 ∷ [], 7)
    ∷ (255 ∷ 0 ∷ 0 ∷ 0 ∷ 0 ∷ 0 ∷ 0 ∷ 0 ∷ 0 ∷ 0 ∷ 0 ∷ 0 ∷ 0 ∷ 0 ∷ 0 ∷ 0 ∷ [], 8)
    ∷ (32 ∷ 1 ∷ 13 ∷ 184 ∷ 0 ∷ 0 ∷ 0 ∷ 0 ∷ 0 ∷ 0 ∷ 0 ∷ 0 ∷ 0 ∷ 0 ∷ 0 ∷ 0 ∷ [], 32)
    ∷ []

abbrev pub any_contains : List Block → Ip → Bool
any_contains [] ip = false
any_contains (block ∷ blocks) ip = contains block ip || any_contains blocks ip

-- IsRestrictedIP; `none` is a nil address.
unfoldable pub is_restricted_ip : Option Ip → Bool
is_restricted_ip none = true
is_restricted_ip (some ip) =
    let ip = four_bytes ip in
    is_loopback ip
    || is_link_local_unicast ip
    || is_link_local_multicast ip
    || is_multicast ip
    || is_unspecified ip
    || is_private ip
    || any_contains private_ip_blocks ip
