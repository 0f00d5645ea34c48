-- ===== src/Idempotency/Repeat.antt =====
-- What a successful creation leaves behind, and the creation that repeats it.
use dinapay_connector_binanc.Shared.{
  Text, lit, ◌≡◌, ◌≢◌, ◌<◌, Option, refl, sym, ◌∙◌, ap, suc, List, [], ◌∷◌, true, false, none, some,
  arith, any, find?, update_where,
}
use dinapay_connector_binanc.Core.Error.{Result, ok, err}
use dinapay_connector_binanc.Core.Value.{Time, Value}
use dinapay_connector_binanc.Core.Model.{CreatePaymentCommand, ProviderPayment}
use dinapay_connector_binanc.Core.Encode.{marshal_payment, encode_create_command, year_10000}
use dinapay_connector_binanc.Core.RoundTrip.{decode-encode_payment}
use dinapay_connector_binanc.Idempotency.Replay.{create-stored}
use dinapay_connector_binanc.Idempotency.Canonical.{IsCanonical}
use dinapay_connector_binanc.Invariants.Reserved.{is_reserved}
use dinapay_connector_binanc.Store.Schema.{Database, Operation}
use dinapay_connector_binanc.Store.Orders.{has_id}
use dinapay_connector_binanc.Store.Operations.{
  has_key, completed, new_operation, insert_operation, reserve_create,
}
use dinapay_connector_binanc.BinancePay.Client.{Client}
use dinapay_connector_binanc.App.Service.{Service, after_reserve, create, validate, request_hash}
use dinapay_connector_binanc.Effects.{M, World, continue, ◌>>=◌, now}
use dinapay_connector_binanc.Effects.Sql.{exec, exec_at, query}
use dinapay_connector_binanc.Idempotency.Complete.{
  create_reserved-ok, reserve_create-new, find?-completed,
}

-- The key's operation is completed with the payment, and the payment's order is stored.
abbrev pub IsStored : Text → Text → ProviderPayment → Database → Type 0
IsStored key hash p d =
    (o : Operation) × (find? (has_key key) d.operations ≡ some o)
    × (o.request_hash ≡ hash)
    × (o.status ≡ lit "completed")
    × (o.response_payload ≡ marshal_payment p)
    × (any (has_id p.provider_connection_id p.provider_payment_id) d.orders ≡ true)

-- The same, of a payment whose maps are read back as they are.
abbrev IsKept : Text → Text → ProviderPayment → Database → Type 0
IsKept key hash p d = IsStored key hash p d × IsCanonical p

module _ (s : Service) (cmd : CreatePaymentCommand) (key : Text) (w : World)
    (p : ProviderPayment) where
  after_reserve-IsKept :
      (c : Client) (hash : Text) (v : Value) (t : Time) (os : List Operation)
      (r : Result (Option ProviderPayment)) (w1 : World)
      → ((q : ProviderPayment) → r ≢ ok (some q))
      → (r ≡ ok none → w1.db.operations ≡ new_operation key hash v t ∷ os)
      → (continue r (after_reserve s c cmd key) w1).0 ≡ ok p
      → IsKept key hash p (continue r (after_reserve s c cmd key) w1).1.db
  unfolding after_reserve completed new_operation
  after_reserve-IsKept c hash v t os (ok none) w1 fresh granted h =
      let (u, operations, order, maps) = create_reserved-ok s c cmd key w1 p h in
      let first = find?-completed key hash v (marshal_payment p) u t os in
      let found =
        ap (find? (has_key key)) (
          operations
          ∙ ap (update_where (has_key key) (completed (marshal_payment p) u)) (granted refl))
        ∙ first in
      (
        (
          completed (marshal_payment p) u (new_operation key hash v t),
          found,
          refl,
          refl,
          refl,
          order,
        ),
        maps,
      )
  after_reserve-IsKept c hash v t os (ok (some q)) w1 fresh granted h = ground (arith, fresh q)
  after_reserve-IsKept c hash v t os (err e) w1 fresh granted h = cc

reserve_create-fresh :
    (key hash : Text) (v : Value) (w : World) (q : ProviderPayment)
    → is_reserved key w.db ≡ false
    → (reserve_create key hash v w).0 ≢ ok (some q)
unfolding reserve_create insert_operation exec exec_at query now ◌>>=◌
reserve_create-fresh key hash v w q fresh = ground arith

first-ok :
    {A B : Type 0} (r : Result A) (f : A → M B) (w : World) (b : B)
    → (continue r f w).0 ≡ ok b
    → (a : A) × (r ≡ ok a)
first-ok (ok a) f w b h = (a, refl)
first-ok (err e) f w b h = cc

module _ (s : Service) (cmd : CreatePaymentCommand) (key : Text) (w : World)
    (p : ProviderPayment) where
  after_validate-IsKept :
      (r : Result Client) (hash : Text) (v : Value)
      → is_reserved key w.db ≡ false
      → (continue r (λ c. reserve_create key hash v >>= after_reserve s c cmd key) w).0 ≡ ok p
      → IsKept key hash p
          (continue r (λ c. reserve_create key hash v >>= after_reserve s c cmd key) w).1.db
  unfolding ◌>>=◌
  after_validate-IsKept (ok c) hash v free h =
      let (r, w1) = reserve_create key hash v w in
      after_reserve-IsKept s cmd key w p c hash v (w.env.clock w.step) w.db.operations r w1
        (λ q. reserve_create-fresh key hash v w q free) (reserve_create-new key hash v w) h
  after_validate-IsKept (err e) hash v free h = cc

  create-IsKept :
      is_reserved key w.db ≡ false
      → (create s cmd key w).0 ≡ ok p
      → IsKept key (request_hash w.env (encode_create_command cmd)) p (create s cmd key w).1.db
  unfolding create ◌>>=◌
  create-IsKept free h =
      after_validate-IsKept (validate s cmd key) (request_hash w.env (encode_create_command cmd))
        (encode_create_command cmd) free h

  -- A creation with a fresh key that answers a payment leaves the key's operation completed, with the
  -- hash of the request, and an order with the payment's identifier. The operation's response is the
  -- payment's JSON, or NULL where the payment has no JSON because one of its two times lies in the year
  -- 10000 or later.
  pub create-IsStored :
      is_reserved key w.db ≡ false
      → (create s cmd key w).0 ≡ ok p
      → IsStored key (request_hash w.env (encode_create_command cmd)) p (create s cmd key w).1.db
  create-IsStored free h = (create-IsKept free h).0

  validate-ok : (create s cmd key w).0 ≡ ok p → (c : Client) × (validate s cmd key ≡ ok c)
  unfolding create ◌>>=◌
  validate-ok h = first-ok (validate s cmd key) _ w p h

  -- A creation with a fresh key that answered a payment whose two times lie before the year 10000,
  -- repeated in any later world `v` with the same surroundings and the tables that it left, answers the
  -- payment without its amount and currency. It sends nothing and changes no table. The two statements
  -- that it runs must not fail.
  pub create-repeat :
      (v : World)
      → is_reserved key w.db ≡ false
      → (create s cmd key w).0 ≡ ok p
      → p.observed_at < year_10000
      → p.expires_at < year_10000
      → v.env ≡ w.env
      → v.db ≡ (create s cmd key w).1.db
      → v.env.fault (suc v.step) ≡ none
      → v.env.fault (suc (suc (suc v.step))) ≡ none
      → let (answer, v') = create s cmd key v in
        (answer ≡ ok (record p { amount = []; currency = [] }))
        × (v'.db ≡ v.db)
        × (v'.sent ≡ v.sent)
  create-repeat v free h seen expires same_env same_db calm quiet =
      let ((o, found, hash, done, stored, order), maps) = create-IsKept free h in
      let (c, valid) = validate-ok h in
      let (m, n) = maps v.env.float_text in
      let (text, written, decoded) = decode-encode_payment v.env.float_text p seen expires m n in
      let (answer, tables, sent) =
        create-stored s cmd key v o c text valid
          (ap (λ (d : Database). find? (has_key key) d.operations) same_db ∙ found) calm quiet
          (hash ∙ ap (λ e. request_hash e (encode_create_command cmd)) (sym same_env)) done
          (stored ∙ written) in
      (answer ∙ decoded, tables, sent)
