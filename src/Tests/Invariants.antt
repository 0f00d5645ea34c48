-- ===== src/Tests/Invariants.antt =====
-- A run that creates a payment, receives its webhook twice, reconciles and publishes.
use dinapay_connector_binanc.Shared.{lit, List, [], ◌∷◌, ◌≡◌, refl, length}
use dinapay_connector_binanc.Effects.{World}
use dinapay_connector_binanc.Program.{
  Action, create_payment, receive_webhook, reconcile_tick, publish_tick, run,
}
use dinapay_connector_binanc.Invariants.Outbox.{IsMirrored, run-IsMirrored}
use dinapay_connector_binanc.Invariants.Scheduled.{IsScheduled, run-IsScheduled}
use dinapay_connector_binanc.Tests.Machine.{machine}
use dinapay_connector_binanc.Tests.Setup.{service, publisher, command, start, paid_answer}

abbrev actions : List Action
actions =
    create_payment command (lit "k1")
    ∷ receive_webhook (lit "c1") []
    ∷ receive_webhook (lit "c1") []
    ∷ reconcile_tick
    ∷ publish_tick
    ∷ []

abbrev final : World
final = run service publisher actions (start paid_answer)

run-IsMirrored_example : IsMirrored final.db
run-IsMirrored_example =
    run-IsMirrored service publisher actions (start paid_answer) (record { mirrored = refl })

run-IsScheduled_example : IsScheduled final.db
unfolding machine
run-IsScheduled_example =
    run-IsScheduled service publisher actions (start paid_answer) (record { scheduled = refl })

-- The second webhook is not recorded again.
webhook_recorded_once : length final.db.inbound_events ≡ 1
unfolding machine
webhook_recorded_once = refl
