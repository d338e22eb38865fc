-- ===== src/Payout/Payments.antt =====
-- The payment commands that `execute_payout` of execution_manager.py hands to the payment gateway.
pub mod Sent
pub mod Twice
use media_center.Prelude.{ℕ, String, ◌≡◌, refl, List, arith, some, true}
use media_center.Payout.Types.{PayoutQueueItem}
use media_center.Payout.Commands.{PayoutPaymentCommand}
use media_center.Payout.State.{Gateway}
use media_center.Payout.Effects.{HidesTrail}

abbrev pub payments_of : Gateway → List PayoutPaymentCommand
payments_of g = g.payments

pub payments-HidesTrail : HidesTrail payments_of
payments-HidesTrail = record { log = λ g l. refl; bus = λ g b. refl }
