-- ===== src/Venue/Words.antt =====
-- The data that `signPermit` of go/rail/venue.go hashes.
use mathlib.Core.List.{append-nil}
use juice_rail.Base.{ℕ, zero, suc, ◌^◌, ◌<◌, ◌≡◌, refl, sym, ap, ◌∙◌, List, [], ◌∷◌, ◌++◌}
use juice_rail.Base.Lists.{Bytes, length, take, drop}
use juice_rail.Base.Binary.{set_bytes, word_bytes, length-word_bytes, set_bytes-word_bytes}
use juice_rail.Venue.{Permit, magnitude, struct_data}

-- The words of 32 bytes that a reader of the encoding finds.
unfoldable pub words : ℕ → Bytes → List ℕ
words zero s = []
words (suc n) s = set_bytes 0 (take 32 s) ∷ words n (drop 32 s)

take-append : (s t : Bytes) → take (length s) (s ++ t) ≡ s
take-append [] t = refl
take-append (b ∷ s) t = ap (λ l. b ∷ l) (take-append s t)

drop-append : (s t : Bytes) → drop (length s) (s ++ t) ≡ t
drop-append [] t = refl
drop-append (b ∷ s) t = drop-append s t

words-word_bytes :
    (k n : ℕ) (s : Bytes) → n < 2 ^ 256 → words (suc k) (word_bytes n ++ s) ≡ n ∷ words k s
unfolding words
words-word_bytes k n s h =
    let e = length-word_bytes n h in
    let front : take 32 (word_bytes n ++ s) ≡ word_bytes n =
      rw (← e) (take-append (word_bytes n) s) in
    let back : drop 32 (word_bytes n ++ s) ≡ s = rw (← e) (drop-append (word_bytes n) s) in
    rw (front, back, set_bytes-word_bytes n) refl

-- What a word can hold.
pub record Fits (typehash : ℕ) (p : Permit) : Type 0 where
  pub typehash_fits : typehash < 2 ^ 256
  pub owner_fits : p.owner < 2 ^ 256
  pub spender_fits : p.spender < 2 ^ 256
  pub value_fits : magnitude p.value < 2 ^ 256
  pub nonce_fits : magnitude p.nonce < 2 ^ 256
  pub deadline_fits : p.deadline < 2 ^ 256

words-one : (n : ℕ) → n < 2 ^ 256 → words 1 (word_bytes n) ≡ n ∷ []
unfolding words
words-one n h = ap (λ s. words 1 s) (sym (append-nil (word_bytes n))) ∙ words-word_bytes 0 n [] h

-- A reader that takes the data of a permit word by word finds the type hash and the five fields, the value and
-- the nonce without their signs. Each number fits in a word of 32 bytes.
pub words-struct_data :
    (typehash : ℕ) (p : Permit)
    → Fits typehash p
    → words 6 (struct_data typehash p)
      ≡ typehash ∷ p.owner ∷ p.spender ∷ magnitude p.value ∷ magnitude p.nonce ∷ p.deadline ∷ []
unfolding struct_data
words-struct_data typehash p f =
    rw
      (
        words-word_bytes 5 typehash _ f.typehash_fits,
        words-word_bytes 4 p.owner _ f.owner_fits,
        words-word_bytes 3 p.spender _ f.spender_fits,
        words-word_bytes 2 (magnitude p.value) _ f.value_fits,
        words-word_bytes 1 (magnitude p.nonce) _ f.nonce_fits,
        words-one p.deadline f.deadline_fits,
      )
      refl
