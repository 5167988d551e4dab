-- ===== src/Venue/Told.antt =====
-- What the token's contract tells: `callWord` and `tokenUint` of go/rail/venue.go.
use mathlib.Core.Path.{subst}
use juice_rail.Base.{◌≡◌, inl, inr, refl, sym, ap, ◌∙◌, Bool-cases, ==_iff, ◌==◌, none, List}
use juice_rail.Base.Int.{ℤ, pos}
use juice_rail.Base.Lists.{Bytes, length}
use juice_rail.Base.Error.{ok, err, plain, Result, ok-injective}
use juice_rail.Domain.{Domain}
use juice_rail.Chain.{Chain, CallMsg, Method, Value, token_abi}
use juice_rail.Base.Binary.{set_bytes}
use juice_rail.Machine.{World, lift, ask, pure, continue}
use juice_rail.Machine.Answers.{first_answered}
use juice_rail.Venue.{call, one_word, call_word, token_uint}

abbrev pub token_call : Domain → Bytes → CallMsg
token_call d payload = record { sender = 0; to = d.token; payload = payload; gas = 0 }

-- A node, asked for a word of the token's contract, answers with it.
pub record Told (c : Chain) (d : Domain) (n : c.Node) (m : Method) (values : List Value)
    (out : Bytes) : Type 0 where
  pub payload : Bytes
  pub packed : c.pack token_abi m values ≡ ok payload
  pub answered : (c.call_contract (token_call d payload) none n).0 ≡ ok out
  pub is_word : length out ≡ 32

one_word_is : (x out : Bytes) → one_word x ≡ ok out → (x ≡ out) × (length x ≡ 32)
unfolding one_word
one_word_is x out h = elim (Bool-cases (length x == 32)) [
  | inl e ↦ (ok-injective (rw e at h), (==_iff (length x) 32).0 e)
  | inr e ↦ (let no : err plain ≡ ok out = rw e at h in cc)
]

module _ (c : Chain) (d : Domain) (m : Method) (values : List Value) (w : World c.Node)
    (out : Bytes) where
  -- The answer, and the node after it.
  abbrev pub ToldFirst : World c.Node → Type 0
  ToldFirst v =
      (t : Told c d w.node m values out) × (v.node
        ≡ (c.call_contract (token_call d t.payload) none w.node).1)

  told_word :
      (payload : Bytes) (a : Result Bytes) (v : World c.Node)
      → c.pack token_abi m values ≡ ok payload
      → (c.call_contract (token_call d payload) none w.node).0 ≡ a
      → v.node ≡ (c.call_contract (token_call d payload) none w.node).1
      → (continue a (λ x. lift (one_word x)) v).0 ≡ ok out
      → ToldFirst (continue a (λ x. lift (one_word x)) v).1
  told_word payload (err e) v packed said after h = cc
  told_word payload (ok x) v packed said after h =
      let (same, long) = one_word_is x out h in
      (
        record {
          payload = payload;
          packed = packed;
          answered = said ∙ ap ok same;
          is_word = subst (λ y. length y ≡ 32) same long;
        },
        after,
      )

  told_packed :
      (p : Result Bytes)
      → c.pack token_abi m values ≡ p
      → let asked : Result Bytes × World c.Node =
          continue p (λ payload. ask (c.call_contract (token_call d payload) none)) w in
        (continue asked.0 (λ x. lift (one_word x)) asked.1).0 ≡ ok out
        → let asked : Result Bytes × World c.Node =
            continue p (λ payload. ask (c.call_contract (token_call d payload) none)) w in
          ToldFirst (continue asked.0 (λ x. lift (one_word x)) asked.1).1
  unfolding ask
  told_packed (err e) packed h = cc
  told_packed (ok payload) packed h =
      told_word payload (c.call_contract (token_call d payload) none w.node).0 _ packed refl refl h

  pub told :
      (call_word c none d.token token_abi m values w).0 ≡ ok out
      → ToldFirst (call_word c none d.token token_abi m values w).1
  unfolding call_word call
  told h = told_packed (c.pack token_abi m values) refl h

pub token_number :
    (c : Chain) (d : Domain) (m : Method) (values : List Value) (w : World c.Node) (value : ℤ)
    → (token_uint c none d.token m values w).0 ≡ ok value
    → (out : Bytes) × Told c d w.node m values out × (value ≡ pos (set_bytes 0 out))
unfolding token_uint
token_number c d m values w value h =
    let (out, read, rest) =
      first_answered (λ out. pure (pos (set_bytes 0 out)))
        (call_word c none d.token token_abi m values) w value h in
    (out, (told c d m values w out read).0, sym (ok-injective (ap (λ x. x.0) (sym rest) ∙ h)))
