-- ===== src/Tests/Verification.antt =====
-- A signed webhook, and a claim of the order that a creation stores.
use mathlib.Core.List.{Permᴰ}
use dinapay_connector_binanc.Shared.{
  ◌+◌, lit, Text, [], ◌∷◌, ◌≡◌, ◌↔◌, refl, any, length, min, count_where, select, List, Bool, ◌++◌,
  false,
}
use dinapay_connector_binanc.Core.Error.{ok}
use dinapay_connector_binanc.Store.Schema.{Database, Order}
use dinapay_connector_binanc.Store.Schedule.{claimable, chosen}
use dinapay_connector_binanc.Store.Schedule.Claim.{
  IsOrdered, is_before, may_be_claimed, chosen-IsOrdered,
}
use dinapay_connector_binanc.BinancePay.Client.{unix_epoch}
use dinapay_connector_binanc.BinancePay.Webhook.{verify_webhook}
use dinapay_connector_binanc.BinancePay.Webhook.Verified.{IsVerified, verify_webhook-IsVerified}
use dinapay_connector_binanc.App.Service.{create}
use dinapay_connector_binanc.Tests.Machine.{machine}
use dinapay_connector_binanc.Tests.Setup.{service, command, start, created_answer, crypto}

abbrev hmac : Text → Text → Text
hmac k text = 171 ∷ []

-- A second after the time stamp, with the signature in lower case.
verify_webhook-IsVerified_example :
    (verify_webhook hmac crypto
        (lit "1000")
        (lit "n")
        (lit "ab")
        (lit "{}")
        (lit "secret")
        (lit " ")
        (unix_epoch + 2_000_000_000)
      ≡ ok tt)
    ↔ IsVerified hmac
        (lit "1000")
        (lit "n")
        (lit "{}")
        (lit "ab")
        (lit "secret")
        (unix_epoch + 2_000_000_000)
unfolding machine
verify_webhook-IsVerified_example =
    verify_webhook-IsVerified hmac crypto (lit "1000") (lit "n") (lit "ab") (lit "{}")
      (lit "secret") (lit " ") (unix_epoch + 2_000_000_000) refl

accepted :
    verify_webhook hmac crypto
      (lit "1000")
      (lit "n")
      (lit "ab")
      (lit "{}")
      (lit "secret")
      (lit " ")
      (unix_epoch + 2_000_000_000)
    ≡ ok tt
unfolding machine verify_webhook
accepted = refl

abbrev stored : Database
stored = (create service command (lit "k1") (start created_answer)).1.db

abbrev unlocked : Text → Text → Bool
unlocked c p = false

chosen-IsOrdered_example :
    let rows = chosen unlocked 5 65_000_000_000_000_000_000 stored in
    ((others : List Order) × Permᴰ
        (select (may_be_claimed unlocked 65_000_000_000_000_000_000) stored.orders)
        (rows ++ others)
      × (any (is_before rows) others ≡ false))
    × IsOrdered rows
    × (length rows
        ≡ min 5 (count_where (may_be_claimed unlocked 65_000_000_000_000_000_000) stored.orders))
chosen-IsOrdered_example = chosen-IsOrdered unlocked 5 65_000_000_000_000_000_000 stored

one_is_taken : length (chosen unlocked 5 65_000_000_000_000_000_000 stored) ≡ 1
unfolding machine chosen claimable
one_is_taken = refl
