-- ===== src/Command/Steps.antt =====
-- The two ways in which cmd/railctl/main.go makes a payment: `Pay`, and step by step.
use juice_rail.Base.{ℕ, ◌≡◌, refl, true, false, ◌⊎◌, inl, inr, Option, []}
use juice_rail.Base.Int.{ℤ}
use juice_rail.Base.Error.{Result, ok, err, need_refill}
use juice_rail.Machine.{World, continue, ◌>>=◌}
use juice_rail.Attempt.{send}
use juice_rail.Pay.{prepare}
use juice_rail.Refill.{Paid, is_refilled, pay_after, pay}
use juice_rail.Command.{App, after_send, after_prepare, steps, after_pay, pay_amount}

-- `-no-refill`, and neither flag.
abbrev pub declining : App → App
declining a = record { rail = a.rail; halt_after = []; no_refill = true; eth = a.eth }

abbrev pub default : App → App
default a = record { rail = a.rail; halt_after = []; no_refill = false; eth = a.eth }

paid_by : ℕ → Paid
paid_by hash = record { tx_hash = hash; refill_id = 0; refill_tx = 0 }

module _ (a : App) (id : ℕ) (amount : Option ℤ) where
  sent :
      (res : Result ℕ) (v : World a.rail.chain.Node)
      → continue res (after_send (declining a) id) v
        ≡ continue
            (continue {B = Paid} res (λ hash w. (ok (paid_by hash), w)) v).0
            (after_pay (default a) id)
            (continue {B = Paid} res (λ hash w. (ok (paid_by hash), w)) v).1
  unfolding after_send after_pay is_refilled paid_by
  sent (ok hash) v = refl
  sent (err e) v = refl

  prepared :
      (res : Result (Unit {0})) (v : World a.rail.chain.Node)
      → (continue res (λ u. after_prepare (declining a) id) v
          ≡ (pay_after a.rail id amount res >>= λ out. after_pay (default a) id out) v)
        ⊎ ((res ≡ err need_refill)
            × (continue res (λ u. after_prepare (declining a) id) v ≡ (err need_refill, v)))
  unfolding after_prepare pay_after paid_by
  prepared (ok u) v = inl (sent (send a.rail id v).0 (send a.rail id v).1)
  prepared (err need_refill) v = inr (refl, refl)
  prepared (err e) v = inl refl

-- Either `-no-refill` makes no difference, and the payment in steps has the same answer and leaves the same
-- world as `Pay`, errors included; or the preparation says that a refill is needed, and the payment in steps is
-- refused with that answer and has done no more than the preparation.
pub pay_amount-declining :
    (a : App) (id kind to : ℕ) (amount : Option ℤ) (w : World a.rail.chain.Node)
    → (pay_amount (declining a) id kind to amount w ≡ pay_amount (default a) id kind to amount w)
      ⊎ (((prepare a.rail id kind to amount w).0 ≡ err need_refill)
          × (pay_amount (declining a) id kind to amount w
              ≡ (err need_refill, (prepare a.rail id kind to amount w).1)))
unfolding pay_amount steps pay
pay_amount-declining a id kind to amount w =
    prepared a id amount (prepare a.rail id kind to amount w).0
      (prepare a.rail id kind to amount w).1
