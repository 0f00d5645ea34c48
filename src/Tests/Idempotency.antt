-- ===== src/Tests/Idempotency.antt =====
-- Creation, twice with one key.
use dinapay_connector_binanc.Shared.{◌≤◌, lit, List, [], ◌∷◌, ◌≡◌, refl, length}
use dinapay_connector_binanc.Program.{Action, create_payment, run}
use dinapay_connector_binanc.Idempotency.Create.{create_requests, create_requests-le-one}
use dinapay_connector_binanc.Tests.Machine.{machine}
use dinapay_connector_binanc.Tests.Setup.{service, publisher, command, start, created_answer}

abbrev twice : List Action
twice = create_payment command (lit "k1") ∷ create_payment command (lit "k1") ∷ []

create_requests-le-one_example :
    create_requests (lit "k1") service publisher twice (start created_answer) ≤ 1
create_requests-le-one_example =
    create_requests-le-one (lit "k1") service publisher twice (start created_answer)

-- One request is sent, and one order is stored.
twice_sends_once : length (run service publisher twice (start created_answer)).sent ≡ 1
unfolding machine
twice_sends_once = refl
