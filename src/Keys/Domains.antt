-- ===== src/Keys/Domains.antt =====
-- Which domains `DomainKey` of go/rail/types.go tells apart.
use juice_rail.Base.{ℕ, ◌≡◌, ◌≢◌, refl, ap, sym, ◌∙◌, some, [], ◌∷◌, ◌++◌, map, arith}
use juice_rail.Base.Int.{pos}
use juice_rail.Base.Lists.{Bytes, All}
use juice_rail.Base.Binary.{set_bytes, address_bytes, set_bytes-address_bytes, All-address_bytes}
use juice_rail.Base.Decimal.{IsDigit, format, All-format, format-injective, print_ℤ}
use juice_rail.Base.Error.{ok}
use juice_rail.Attempt.{to_lower}
use juice_rail.Domain.{Domain, validate}
use juice_rail.Domain.Validity.{domain_validate_iff}
use juice_rail.Ident.{encode_hex}
use juice_rail.Ident.RoundTrip.{encode_hex-injective, map-encode_hex}
use juice_rail.Keys.{Eth, chain_text, domain_key}

-- `Address.Hex` is, but for the case of its letters, "0x" and the digits of the 20 bytes.
abbrev pub SpellsAddresses : Eth → Type 0
SpellsAddresses eth =
    (a : ℕ) → map to_lower (eth.address_hex a) ≡ b'0' ∷ b'x' ∷ encode_hex (address_bytes a)

-- So it is if the letters are in lower case.
pub lower_case-SpellsAddresses :
    (eth : Eth)
    → ((a : ℕ) → eth.address_hex a ≡ b'0' ∷ b'x' ∷ encode_hex (address_bytes a))
    → SpellsAddresses eth
unfolding to_lower
lower_case-SpellsAddresses eth lower a =
    ap (map to_lower) (lower a)
    ∙ ap (λ s. b'0' ∷ b'x' ∷ s) (map-encode_hex (address_bytes a) (All-address_bytes a))

not_colon : (c : ℕ) → IsDigit c → c ≢ b':'
not_colon c digit = λ same. ground arith

-- Digits end at the first colon.
split_at_colon :
    (s t u v : Bytes)
    → All IsDigit s
    → All IsDigit t
    → s ++ b':' ∷ u ≡ t ++ b':' ∷ v
    → (s ≡ t) × (u ≡ v)
split_at_colon [] [] u v a b h = (refl, cc)
split_at_colon [] (d ∷ t) u v a b h = absurd (not_colon d b.0 cc)
split_at_colon (c ∷ s) [] u v a b h = absurd (not_colon c a.0 cc)
split_at_colon (c ∷ s) (d ∷ t) u v a b h =
    let (rest, after) = split_at_colon s t u v a.1 b.1 cc in (cc, after)

address_again : (a b : ℕ) → encode_hex (address_bytes a) ≡ encode_hex (address_bytes b) → a ≡ b
address_again a b h =
    sym (set_bytes-address_bytes a)
    ∙ ap (set_bytes 0) (
        encode_hex-injective (address_bytes a) (address_bytes b) (All-address_bytes a)
          (All-address_bytes b) h)
    ∙ set_bytes-address_bytes b

keys_agree :
    (eth : Eth) (m n a b : ℕ)
    → SpellsAddresses eth
    → domain_key eth (some (pos m)) a ≡ domain_key eth (some (pos n)) b
    → (m ≡ n) × (a ≡ b)
unfolding domain_key chain_text print_ℤ
keys_agree eth m n a b spells h =
    let (chain, token) = split_at_colon (format m) (format n) _ _ (All-format m) (All-format n) h in
    let digits : encode_hex (address_bytes a) ≡ encode_hex (address_bytes b) =
      cut2 (sym (spells a) ∙ token ∙ spells b) in
    (format-injective m n chain, address_again a b digits)
  where
    cut2 : {s t : Bytes} → b'0' ∷ b'x' ∷ s ≡ b'0' ∷ b'x' ∷ t → s ≡ t
    cut2 e = cc

-- Two valid domains with the same key are on the same chain and have the same token, where go-ethereum spells
-- an address as "0x" and the digits of its 20 bytes, in some case.
pub domain_key-injective :
    (eth : Eth) (d d' : Domain)
    → SpellsAddresses eth
    → validate d ≡ ok tt
    → validate d' ≡ ok tt
    → domain_key eth d.chain_id d.token ≡ domain_key eth d'.chain_id d'.token
    → (d.chain_id ≡ d'.chain_id) × (d.token ≡ d'.token)
domain_key-injective eth d d' spells valid valid' h =
    let (m, em, m_up) = ((domain_validate_iff d).0 valid).chain in
    let (n, en, n_up) = ((domain_validate_iff d').0 valid').chain in
    let (same, token) =
      keys_agree eth m n d.token d'.token spells (
        ap (λ o. domain_key eth o d.token) (sym em) ∙ h ∙ ap (λ o. domain_key eth o d'.token) en) in
    (em ∙ ap (λ k. some (pos k)) same ∙ sym en, token)
