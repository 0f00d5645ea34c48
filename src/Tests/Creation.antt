-- ===== src/Tests/Creation.antt =====
-- Creation, its repetition, and a key that another request has.
use dinapay_connector_binanc.Shared.{
  true, lit, text_eq, text_beq_iff, [], ◌∷◌, none, some, ◌≡◌, ◌↔◌, ◌⊎◌, refl, arith, inr,
}
use dinapay_connector_binanc.Core.Error.{is_ok, message, Error, ok, err, conflict}
use dinapay_connector_binanc.Core.Value.{Value, str, num, end, field, obj}
use dinapay_connector_binanc.Core.Encode.{marshal_payment, encode_payment, encode_create_command}
use dinapay_connector_binanc.Core.Stored.{decode_payment}
use dinapay_connector_binanc.Core.RoundTrip.{decode-encode_payment}
use dinapay_connector_binanc.Store.Schema.{Operation, empty}
use dinapay_connector_binanc.Effects.{World}
use dinapay_connector_binanc.BinancePay.Client.{Client}
use dinapay_connector_binanc.App.Service.{create, validate, request_hash}
use dinapay_connector_binanc.Idempotency.Replay.{IsReplayed, create-replay, create-conflict}
use dinapay_connector_binanc.Idempotency.Repeat.{IsStored, create-IsStored, create-repeat}
use dinapay_connector_binanc.Tests.Machine.{machine}
use dinapay_connector_binanc.Tests.Setup.{service, command, start, created_answer, answered}

decode-encode_payment_example :
    (v : Value) × (marshal_payment answered ≡ some v)
    × (decode_payment (λ text. ok text) v ≡ ok (record answered { amount = []; currency = [] }))
unfolding machine
decode-encode_payment_example =
    decode-encode_payment (λ text. ok text) answered (omega arith) (omega arith) refl refl

create_answers : (create service command (lit "k1") (start created_answer)).0 ≡ ok answered
unfolding machine
create_answers = refl

create-IsStored_example :
    IsStored
      (lit "k1")
      (request_hash (start created_answer).env (encode_create_command command))
      answered
      (create service command (lit "k1") (start created_answer)).1.db
unfolding machine
create-IsStored_example =
    create-IsStored service command (lit "k1") (start created_answer) answered refl refl

abbrev after : World
after = (create service command (lit "k1") (start created_answer)).1

create-repeat_example :
    ((create service command (lit "k1") after).0
      ≡ ok (record answered { amount = []; currency = [] }))
    × ((create service command (lit "k1") after).1.db ≡ after.db)
    × ((create service command (lit "k1") after).1.sent ≡ after.sent)
unfolding machine
create-repeat_example =
    create-repeat service command (lit "k1") (start created_answer) answered after refl refl
      (omega arith) (omega arith) refl refl refl refl

-- A key whose operation is completed, and one whose operation is not.
abbrev operation : Operation
operation = record {
  idempotency_key = lit "k1";
  request_hash = lit "07";
  request_payload = obj end;
  status = lit "completed";
  response_payload = some (encode_payment answered);
  error_message = none;
  updated_at = 5;
}

abbrev used : Operation → World
used o = record (start created_answer) { db = record empty { operations = o ∷ [] } }

create-replay_example :
    (((create service command (lit "k1") (used operation)).0
        ≡ ok (record answered { amount = []; currency = [] }))
      ↔ IsReplayed service command
          (lit "k1")
          (used operation)
          operation
          (record answered { amount = []; currency = [] }))
    × ((create service command (lit "k1") (used operation)).1.db ≡ (used operation).db)
    × ((create service command (lit "k1") (used operation)).1.sent ≡ [])
unfolding machine
create-replay_example =
    create-replay service command (lit "k1") (used operation) operation
      (record answered { amount = []; currency = [] }) refl refl refl

-- The payment is answered.
replayed :
    (create service command (lit "k1") (used operation)).0
    ≡ ok (record answered { amount = []; currency = [] })
unfolding machine
replayed = refl

abbrev processing : Operation
processing = record operation { status = lit "processing" }

create-conflict_example :
    (((c : Client) × (validate service command (lit "k1") ≡ ok c)
        × ((create service command (lit "k1") (used processing)).0 ≡ err conflict))
      ⊎ ((e : Error) × (validate service command (lit "k1") ≡ err e)
          × ((create service command (lit "k1") (used processing)).0 ≡ err e)))
    × ((create service command (lit "k1") (used processing)).1.db ≡ (used processing).db)
    × ((create service command (lit "k1") (used processing)).1.sent ≡ [])
unfolding machine
create-conflict_example =
    create-conflict service command (lit "k1") (used processing) processing refl refl refl
      (inr (λ h. cc ((text_beq_iff (lit "processing") (lit "completed")).1 h)))

conflicting : (create service command (lit "k1") (used processing)).0 ≡ err conflict
unfolding machine
conflicting = refl

-- The provider answers an expiry at the start of the year 10000.
abbrev far_answer : Value
far_answer = obj (
    field (lit "status") (str (lit "SUCCESS")) (
      field (lit "data")
        (obj (
          field (lit "prepayId") (str (lit "p1"))
            (field (lit "expireTime") (num (lit "253402300800000")) end)))
        end))

abbrev far_after : World
far_after = (create service command (lit "k1") (start far_answer)).1

-- The creation answers a payment, and no repetition does.
far_payment : is_ok (create service command (lit "k1") (start far_answer)).0 ≡ true
unfolding machine
far_payment = refl

far_repeat :
    (create service command (lit "k1") far_after).0
    ≡ err (message (lit "unexpected end of JSON input"))
unfolding machine
far_repeat = refl
