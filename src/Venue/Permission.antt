-- ===== src/Venue/Permission.antt =====
-- The permit that `permitCall` of go/rail/venue.go signs and packs.
use mathlib.Core.Path.{subst}
use juice_rail.Base.{ℕ, ◌+◌, ◌%◌, ◌≡◌, sym, ap, ◌∙◌, arith, none, [], ◌∷◌, ◌++◌}
use juice_rail.Base.Int.{ℤ, pos, pos_part, neg_part}
use juice_rail.Base.Lists.{Bytes, take, drop, get_or}
use juice_rail.Base.Error.{ok, ok-injective}
use juice_rail.Domain.{Domain}
use juice_rail.Chain.{
  Chain, Abi, Method, token_abi, address_value, uint_value, uint8_value, bytes32_value, self_permit,
  permit_typehash,
}
use juice_rail.Base.Binary.{set_bytes, word_bytes}
use juice_rail.Machine.{World, M, lift, pure, ◌>>=◌}
use juice_rail.Machine.Answers.{first_answered}
use juice_rail.Venue.{
  Permit, Signature, call_word, token_uint, struct_data, magnitude, permit_message, signature_of,
  sign_permit, router_of, permit_call,
}
use juice_rail.Venue.Told.{Told, token_call, told, token_number}

-- The data of a permit that the account signs: what EIP-712 hashes.
abbrev permit_data : Chain → Domain → ℕ → ℤ → ℕ → ℕ → ℕ → Bytes
permit_data c d account limit deadline separator nonce =
    0x19
    ∷ 0x01
    ∷ (word_bytes separator
        ++ word_bytes (
            c.keccak (
              word_bytes (permit_typehash c)
              ++ (word_bytes account
                  ++ (word_bytes d.venue.router
                      ++ (word_bytes (pos_part limit + neg_part limit)
                          ++ (word_bytes nonce ++ word_bytes deadline)))))))

-- The account's signature of a permit of the router over `limit`, for the separator and the nonce that
-- the token's contract told.
pub record Permitted (c : Chain) (d : Domain) (account : ℕ) (limit : ℤ) (deadline : ℕ) (n : c.Node)
    (v r s : ℕ) : Type 0 where
  pub separator : Bytes
  pub told_separator : Told c d n Method.domain_separator [] separator
  pub nonce : Bytes
  pub told_nonce :
      Told c d
        (c.call_contract (token_call d told_separator.payload) none n).1
        Method.nonces
        (address_value account ∷ [])
        nonce
  pub signature : Bytes
  pub signed :
      c.sign_digest (
        c.keccak
          (permit_data c d account limit deadline (set_bytes 0 separator) (set_bytes 0 nonce)))
      ≡ ok signature
  pub v_is : v ≡ (get_or signature 64 0 + 27) % 256
  pub r_is : r ≡ set_bytes 0 (take 32 signature)
  pub s_is : s ≡ set_bytes 0 (take 32 (drop 32 signature))

-- The permit call.
pub record PermitCall (c : Chain) (d : Domain) (account : ℕ) (limit : ℤ) (deadline : ℕ) (n : c.Node)
    (abi : Abi) (out : Bytes) : Type 0 where
  pub v : ℕ
  pub r : ℕ
  pub s : ℕ
  pub permitted : Permitted c d account limit deadline n v r s
  pub packed :
      c.pack abi self_permit (
        address_value d.token
        ∷ uint_value limit
        ∷ uint_value (pos deadline)
        ∷ uint8_value v
        ∷ bytes32_value r
        ∷ bytes32_value s
        ∷ [])
      ≡ ok out

abbrev permit_of : Domain → ℕ → ℤ → ℕ → ℕ → Permit
permit_of d account limit deadline nonce = record {
  owner = account;
  spender = d.venue.router;
  value = limit;
  nonce = pos nonce;
  deadline = deadline;
}

module _ (c : Chain) (d : Domain) (account : ℕ) (limit : ℤ) (deadline : ℕ) where
  signed_data :
      (separator nonce : Bytes) (w : World c.Node) (sig : Signature)
      → (sign_permit c
          (set_bytes 0 separator)
          (permit_of d account limit deadline (set_bytes 0 nonce))
          w).0
        ≡ ok sig
      → (signature : Bytes) × (c.sign_digest (
            c.keccak
              (permit_data c d account limit deadline (set_bytes 0 separator) (set_bytes 0 nonce)))
          ≡ ok signature)
        × (signature_of signature ≡ sig)
  unfolding sign_permit permit_message struct_data magnitude
  signed_data separator nonce w sig h =
      let (signature, signed, rest) =
        first_answered (λ signature. pure (signature_of signature))
          (lift (
            c.sign_digest (
              c.keccak (
                permit_message c (set_bytes 0 separator)
                  (permit_of d account limit deadline (set_bytes 0 nonce))))))
          w sig h in
      let plain : set_bytes 0 nonce + 0 ≡ set_bytes 0 nonce = omega arith in
      (
        signature,
        subst
            (λ k.
              c.sign_digest
                (c.keccak (permit_data c d account limit deadline (set_bytes 0 separator) k))
              ≡ ok signature)
            plain signed,
        ok-injective (ap (λ x. x.0) (sym rest) ∙ h),
      )

  abbrev packed_permit : Signature → M c.Node Bytes
  packed_permit sig = lift (
      c.pack (router_of d) self_permit (
        address_value d.token
        ∷ uint_value limit
        ∷ uint_value (pos deadline)
        ∷ uint8_value sig.v
        ∷ bytes32_value sig.r
        ∷ bytes32_value sig.s
        ∷ []))

  abbrev with_nonce : Bytes → ℤ → M c.Node Bytes
  with_nonce separator nonce =
      sign_permit c (set_bytes 0 separator) (record {
        owner = account;
        spender = d.venue.router;
        value = limit;
        nonce = nonce;
        deadline = deadline;
      })
      >>= λ sig. packed_permit sig

  abbrev with_separator : Bytes → M c.Node Bytes
  with_separator separator =
      token_uint c none d.token Method.nonces (address_value account ∷ []) >>= λ nonce.
      with_nonce separator nonce

  module _ (w : World c.Node) (out : Bytes) where
    pub permit_calls :
        (permit_call c d account limit deadline w).0 ≡ ok out
        → PermitCall c d account limit deadline w.node (router_of d) out
    unfolding permit_call signature_of
    permit_calls h =
        let (separator, h1, e1) =
          first_answered with_separator
            (call_word c none d.token token_abi Method.domain_separator []) w out h in
        let v : World c.Node =
          (call_word c none d.token token_abi Method.domain_separator [] w).1 in
        let (t, after) = told c d Method.domain_separator [] w separator h1 in
        let (number, h2, e2) =
          first_answered (with_nonce separator)
            (token_uint c none d.token Method.nonces (address_value account ∷ [])) v out
            (ap (λ x. x.0) (sym e1) ∙ h) in
        let x : World c.Node =
          (token_uint c none d.token Method.nonces (address_value account ∷ []) v).1 in
        let (nonce, u, is_nonce) =
          token_number c d Method.nonces (address_value account ∷ []) v number h2 in
        let h3 : (with_nonce separator (pos (set_bytes 0 nonce)) x).0 ≡ ok out =
          subst (λ k. (with_nonce separator k x).0 ≡ ok out) is_nonce
            (ap (λ y. y.0) (sym (e1 ∙ e2)) ∙ h) in
        let (sig, h4, e4) =
          first_answered packed_permit
            (sign_permit c (set_bytes 0 separator)
              (permit_of d account limit deadline (set_bytes 0 nonce)))
            x out h3 in
        let (signature, signed, sig_is) = signed_data separator nonce x sig h4 in
        record {
          v = sig.v;
          r = sig.r;
          s = sig.s;
          permitted = record {
            separator = separator;
            told_separator = t;
            nonce = nonce;
            told_nonce =
                subst (λ n. Told c d n Method.nonces (address_value account ∷ []) nonce) after u;
            signature = signature;
            signed = signed;
            v_is = ap (λ y. y.v) (sym sig_is);
            r_is = ap (λ y. y.r) (sym sig_is);
            s_is = ap (λ y. y.s) (sym sig_is);
          };
          packed = ap (λ y. y.0) (sym e4) ∙ h3;
        }
