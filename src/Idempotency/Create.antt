-- ===== src/Idempotency/Create.antt =====
-- The requests that the creates of one key send: Create of service.go over a run.
use dinapay_connector_binanc.Shared.{
  ℕ, suc, ◌+◌, ◌-◌, ◌≤◌, Text, List, [], ◌∷◌, ◌≡◌, refl, ◌⊎◌, inl, inr, Bool, true, false, Option,
  none, some, arith, length, ap, ◌==◌, text_eq, if◌then◌else◌, text_beq_iff,
}
use dinapay_connector_binanc.Core.Error.{Result, ok, err}
use dinapay_connector_binanc.Core.Model.{CreatePaymentCommand, ProviderPayment}
use dinapay_connector_binanc.Core.Value.{Value}
use dinapay_connector_binanc.Core.Encode.{encode_create_command}
use dinapay_connector_binanc.Store.Operations.{reserve_create}
use dinapay_connector_binanc.BinancePay.Client.{Client}
use dinapay_connector_binanc.App.Service.{Service, validate, request_hash, create, after_reserve}
use dinapay_connector_binanc.Publisher.{Publisher}
use dinapay_connector_binanc.Effects.{World, ◌>>=◌, continue, pure}
use dinapay_connector_binanc.Program.{Action, create_payment, perform}
use dinapay_connector_binanc.Program.Requests.{create_reserved-Keeps}
use dinapay_connector_binanc.Program.Keeps.{perform-Keeps}
use dinapay_connector_binanc.Invariants.Reserved.{is_reserved, IsReserved, reserved_tables}
use dinapay_connector_binanc.Idempotency.Sends.{reserve_create-Quiet, create_reserved-Once}
use dinapay_connector_binanc.Idempotency.Reserve.{reserve_granted}

-- What a create may do: send nothing, or take the free key and send at most one request.
abbrev pub Effect : Text → World → World → Type 0
Effect key w w' =
    (w'.sent ≡ w.sent)
    ⊎ ((is_reserved key w.db ≡ false)
        × (is_reserved key w'.db ≡ true)
        × (length w'.sent ≤ suc (length w.sent)))

module _ (s : Service) (cmd : CreatePaymentCommand) (key : Text) (w : World) where
  after_reserve-Effect :
      (c : Client) (r : Result (Option ProviderPayment)) (w' : World)
      → w'.sent ≡ w.sent
      → (r ≡ ok none → (is_reserved key w.db ≡ false) × (is_reserved key w'.db ≡ true))
      → Effect key w (continue r (after_reserve s c cmd key) w').1
  unfolding after_reserve pure
  after_reserve-Effect c (ok none) w' quiet granted = inr (
    (granted refl).0,
    ((create_reserved-Keeps {I = IsReserved key} ⦃k = reserved_tables key⦄ s c cmd key).at w'
        (record { reserved = (granted refl).1 })).reserved,
    omega (arith, ap length quiet, (create_reserved-Once s c cmd key).at w'),
  )
  after_reserve-Effect c (ok (some p)) w' quiet granted = inl quiet
  after_reserve-Effect c (err e) w' quiet granted = inl quiet

  after_validate-Effect :
      (r : Result Client) (hash : Text) (v : Value)
      → Effect key w (continue r (λ c. reserve_create key hash v >>= after_reserve s c cmd key) w).1
  unfolding ◌>>=◌
  after_validate-Effect (ok c) hash v =
      let (r, w') = reserve_create key hash v w in
      after_reserve-Effect c r w' ((reserve_create-Quiet key hash v).at w)
        (reserve_granted key hash v w)
  after_validate-Effect (err e) hash v = inl refl

  pub create-Effect : Effect key w (create s cmd key w).1
  unfolding create ◌>>=◌
  create-Effect =
      after_validate-Effect (validate s cmd key) (request_hash w.env (encode_create_command cmd))
        (encode_create_command cmd)

-- The requests that the creates of a key send in a run.
is_create : Text → Action → Bool
is_create key (create_payment cmd k) = k == key
is_create key _ = false

unfoldable pub create_requests : Text → Service → Publisher → List Action → World → ℕ
unfolding is_create
create_requests key s p [] w = 0
create_requests key s p (a ∷ rest) w =
    (if is_create key a then length (perform s p a w).1.sent - length w.sent else 0)
    + create_requests key s p rest (perform s p a w).1

module _ (key : Text) (s : Service) (p : Publisher) where
  perform-Effect :
      (a : Action) (w : World) → is_create key a ≡ true → Effect key w (perform s p a w).1
  unfolding perform is_create ◌>>=◌
  perform-Effect (create_payment cmd k) w h =
      rw ((text_beq_iff k key).0 h) (create-Effect s cmd key w)
  perform-Effect _ w h = cc

  stays_reserved :
      (a : Action) (w : World)
      → is_reserved key w.db ≡ true
      → is_reserved key (perform s p a w).1.db ≡ true
  stays_reserved a w h =
      ((perform-Keeps {I = IsReserved key} ⦃k = reserved_tables key⦄ s p a).at w
        (record { reserved = h })).reserved

  create_requests-reserved :
      (actions : List Action) (w : World)
      → is_reserved key w.db ≡ true
      → create_requests key s p actions w ≡ 0
  unfolding create_requests
  create_requests-reserved [] w h = refl
  create_requests-reserved (a ∷ rest) w h = ground (
    arith,
    perform-Effect a w,
    stays_reserved a w h,
    create_requests-reserved rest (perform s p a w).1 (stays_reserved a w h),
  )

  -- In any run of the program, from any state and whatever the surroundings do, all the creates
  -- with one idempotency key together send at most one request to the provider.
  pub create_requests-le-one :
      (actions : List Action) (w : World) → create_requests key s p actions w ≤ 1
  unfolding create_requests
  create_requests-le-one [] w = omega arith
  create_requests-le-one (a ∷ rest) w = ground (
    arith,
    perform-Effect a w,
    create_requests-reserved rest (perform s p a w).1,
    create_requests-le-one rest (perform s p a w).1,
  )
