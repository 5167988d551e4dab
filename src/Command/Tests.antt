-- ===== src/Command/Tests.antt =====
-- The theorems on commands, at a concrete account.
use juice_rail.Base.{◌≡◌, ◌⊎◌, false, some, []}
use juice_rail.Base.Int.{pos}
use juice_rail.Base.Error.{err, need_refill}
use juice_rail.Pay.{prepare}
use juice_rail.Command.{App, pay_amount}
use juice_rail.Command.Steps.{declining, default, pay_amount-declining}
use juice_rail.Samples.{sample_rail, sample_world, sample_eth}

abbrev sample_app : App
sample_app = record { rail = sample_rail; halt_after = []; no_refill = false; eth = sample_eth }

pay_amount-declining_example :
    (pay_amount (declining sample_app) 9 1 900 (some (pos 50)) sample_world
      ≡ pay_amount (default sample_app) 9 1 900 (some (pos 50)) sample_world)
    ⊎ (((prepare sample_rail 9 1 900 (some (pos 50)) sample_world).0 ≡ err need_refill)
        × (pay_amount (declining sample_app) 9 1 900 (some (pos 50)) sample_world
            ≡ (err need_refill, (prepare sample_rail 9 1 900 (some (pos 50)) sample_world).1)))
pay_amount-declining_example = pay_amount-declining sample_app 9 1 900 (some (pos 50)) sample_world
