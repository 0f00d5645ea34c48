-- ===== src/Idempotency/Replay.antt =====
-- A create whose key has been used.
use dinapay_connector_binanc.Shared.{
  suc, Text, lit, ◌≡◌, ◌≢◌, ◌⊎◌, ◌↔◌, ◌∙◌, refl, sym, inl, inr, Option-cases, true, Option, none,
  some, arith, any, find?, text_beq_iff, List, [], ◌∷◌,
}
use dinapay_connector_binanc.Core.Value.{Value}
use dinapay_connector_binanc.Core.Error.{Error, Result, ok, err, conflict}
use dinapay_connector_binanc.Core.Model.{CreatePaymentCommand, ProviderPayment}
use dinapay_connector_binanc.Core.Encode.{encode_create_command}
use dinapay_connector_binanc.Core.Stored.{decode_payment}
use dinapay_connector_binanc.Store.Schema.{Operation}
use dinapay_connector_binanc.Store.Operations.{
  has_key, insert_operation, replay_operation, reserve_create,
}
use dinapay_connector_binanc.BinancePay.Client.{Client}
use dinapay_connector_binanc.App.Service.{Service, validate, request_hash, create, after_reserve}
use dinapay_connector_binanc.Effects.{World, ◌>>=◌, now}
use dinapay_connector_binanc.Effects.Sql.{exec, exec_at, query}

find?-some-any :
    (key : Text) (os : List Operation) (o : Operation)
    → find? (has_key key) os ≡ some o
    → any (has_key key) os ≡ true
unfolding find? any
find?-some-any key [] o h = cc
find?-some-any key (x ∷ os) o h = ground (arith, find?-some-any key os o)

abbrev map_result : Result ProviderPayment → Result (Option ProviderPayment)
map_result (ok p) = ok (some p)
map_result (err e) = err e

module _ (f : Text → Result Text) (hash : Text) (o : Operation) where
  replay-conflict :
      (o.request_hash ≢ hash) ⊎ (o.status ≢ lit "completed")
      → replay_operation f hash (some o) ≡ err conflict
  unfolding replay_operation
  replay-conflict h =
      ground (arith, text_beq_iff o.request_hash hash, text_beq_iff o.status (lit "completed"))

  replay-stored :
      (v : Value)
      → o.request_hash ≡ hash
      → o.status ≡ lit "completed"
      → o.response_payload ≡ some v
      → replay_operation f hash (some o) ≡ decode_payment f v
  unfolding replay_operation
  replay-stored v same done stored =
      ground (arith, text_beq_iff o.request_hash hash, text_beq_iff o.status (lit "completed"))

  replay-ok :
      (p : ProviderPayment)
      → replay_operation f hash (some o) ≡ ok p
      → (o.request_hash ≡ hash)
        × (o.status ≡ lit "completed")
        × ((v : Value) × (o.response_payload ≡ some v) × (decode_payment f v ≡ ok p))
  unfolding replay_operation
  replay-ok p h = elim (Option-cases o.response_payload) [
    | inl e ↦
        ground (arith, text_beq_iff o.request_hash hash, text_beq_iff o.status (lit "completed"))
    | inr (v, e) ↦
        let same : o.request_hash ≡ hash = ground (arith, text_beq_iff o.request_hash hash) in
        let done : o.status ≡ lit "completed" =
          ground (arith, text_beq_iff o.status (lit "completed")) in
        (same, done, (v, e, sym (replay-stored v same done e) ∙ h))
  ]

module _ (s : Service) (cmd : CreatePaymentCommand) (key : Text) (w : World) (o : Operation) where
  reserve_create-taken :
      (hash : Text) (v : Value) (r : Result ProviderPayment)
      → find? (has_key key) w.db.operations ≡ some o
      → w.env.fault (suc w.step) ≡ none
      → w.env.fault (suc (suc (suc w.step))) ≡ none
      → replay_operation w.env.float_text hash (some o) ≡ r
      → let (answer, w') = reserve_create key hash v w in
        (answer ≡ map_result r) × (w'.db ≡ w.db) × (w'.sent ≡ w.sent)
  unfolding reserve_create insert_operation exec exec_at query now ◌>>=◌
  reserve_create-taken hash v (ok p) found calm quiet e =
      ground (arith, find?-some-any key w.db.operations o)
  reserve_create-taken hash v (err x) found calm quiet e =
      ground (arith, find?-some-any key w.db.operations o)

  -- The operation that has the key, as this command finds it.
  abbrev replayed : Result ProviderPayment
  replayed =
      replay_operation w.env.float_text (request_hash w.env (encode_create_command cmd)) (some o)

  create-taken :
      (c : Client) (r : Result ProviderPayment)
      → validate s cmd key ≡ ok c
      → find? (has_key key) w.db.operations ≡ some o
      → w.env.fault (suc w.step) ≡ none
      → w.env.fault (suc (suc (suc w.step))) ≡ none
      → replayed ≡ r
      → let (answer, w') = create s cmd key w in (answer ≡ r) × (w'.db ≡ w.db) × (w'.sent ≡ w.sent)
  unfolding create after_reserve ◌>>=◌
  create-taken c (ok p) valid found calm quiet e = ground (
    arith,
    reserve_create-taken (request_hash w.env (encode_create_command cmd))
        (encode_create_command cmd) (ok p) found calm quiet e,
  )
  create-taken c (err x) valid found calm quiet e = ground (
    arith,
    reserve_create-taken (request_hash w.env (encode_create_command cmd))
        (encode_create_command cmd) (err x) found calm quiet e,
  )

  create-invalid :
      (e : Error)
      → validate s cmd key ≡ err e
      → let (answer, w') = create s cmd key w in
        (answer ≡ err e) × (w'.db ≡ w.db) × (w'.sent ≡ w.sent)
  unfolding create ◌>>=◌
  create-invalid e invalid = ground arith

  -- A command that passes validation, and repeats the request of a completed operation
  pub create-stored :
      (c : Client) (v : Value)
      → validate s cmd key ≡ ok c
      → find? (has_key key) w.db.operations ≡ some o
      → w.env.fault (suc w.step) ≡ none
      → w.env.fault (suc (suc (suc w.step))) ≡ none
      → o.request_hash ≡ request_hash w.env (encode_create_command cmd)
      → o.status ≡ lit "completed"
      → o.response_payload ≡ some v
      → let (answer, w') = create s cmd key w in
        (answer ≡ decode_payment w.env.float_text v) × (w'.db ≡ w.db) × (w'.sent ≡ w.sent)
  create-stored c v valid found calm quiet same done stored =
      create-taken c (decode_payment w.env.float_text v) valid found calm quiet (
        replay-stored w.env.float_text (request_hash w.env (encode_create_command cmd)) o v same
          done stored)

  -- What a create with a used key must find, to answer the payment `p`.
  abbrev pub IsReplayed : ProviderPayment → Type 0
  IsReplayed p =
      ((c : Client) × (validate s cmd key ≡ ok c))
      × (o.request_hash ≡ request_hash w.env (encode_create_command cmd))
      × (o.status ≡ lit "completed")
      × ((v : Value) × (o.response_payload ≡ some v) × (decode_payment w.env.float_text v ≡ ok p))

  answers-IsReplayed :
      (r : Result Client) (p : ProviderPayment)
      → validate s cmd key ≡ r
      → find? (has_key key) w.db.operations ≡ some o
      → w.env.fault (suc w.step) ≡ none
      → w.env.fault (suc (suc (suc w.step))) ≡ none
      → (create s cmd key w).0 ≡ ok p
      → IsReplayed p
  answers-IsReplayed (err e) p valid found calm quiet h = ground (arith, create-invalid e valid)
  answers-IsReplayed (ok c) p valid found calm quiet h =
      let (answer, tables, sent) = create-taken c replayed valid found calm quiet refl in
      let hash = request_hash w.env (encode_create_command cmd) in
      let (same, done, stored) = replay-ok w.env.float_text hash o p (sym answer ∙ h) in
      ((c, valid), same, done, stored)

  used-unchanged :
      (r : Result Client)
      → validate s cmd key ≡ r
      → find? (has_key key) w.db.operations ≡ some o
      → w.env.fault (suc w.step) ≡ none
      → w.env.fault (suc (suc (suc w.step))) ≡ none
      → let w' = (create s cmd key w).1 in (w'.db ≡ w.db) × (w'.sent ≡ w.sent)
  used-unchanged (err e) valid found calm quiet =
      let (answer, tables, sent) = create-invalid e valid in (tables, sent)
  used-unchanged (ok c) valid found calm quiet =
      let (answer, tables, sent) = create-taken c replayed valid found calm quiet refl in
      (tables, sent)

  -- A create whose key has an operation answers a payment if and only if the command passes
  -- validation, the operation is completed and has the hash of the command, and the payment is what
  -- its stored response decodes to. Whatever it answers, it sends nothing and changes no table. The two
  -- statements that it may run must not fail.
  pub create-replay :
      (p : ProviderPayment)
      → find? (has_key key) w.db.operations ≡ some o
      → w.env.fault (suc w.step) ≡ none
      → w.env.fault (suc (suc (suc w.step))) ≡ none
      → let (answer, w') = create s cmd key w in
        ((answer ≡ ok p) ↔ IsReplayed p) × (w'.db ≡ w.db) × (w'.sent ≡ w.sent)
  create-replay p found calm quiet =
      let (tables, sent) = used-unchanged (validate s cmd key) refl found calm quiet in
      (
        (
          λ h. answers-IsReplayed (validate s cmd key) p refl found calm quiet h,
          λ ((c, valid), same, done, (v, stored, decoded)).
              (create-stored c v valid found calm quiet same done stored).0 ∙ decoded,
        ),
        tables,
        sent,
      )

  conflict-of :
      (r : Result Client)
      → validate s cmd key ≡ r
      → find? (has_key key) w.db.operations ≡ some o
      → w.env.fault (suc w.step) ≡ none
      → w.env.fault (suc (suc (suc w.step))) ≡ none
      → (o.request_hash ≢ request_hash w.env (encode_create_command cmd))
        ⊎ (o.status ≢ lit "completed")
      → let (answer, w') = create s cmd key w in
        (((c : Client) × (validate s cmd key ≡ ok c) × (answer ≡ err conflict))
          ⊎ ((e : Error) × (validate s cmd key ≡ err e) × (answer ≡ err e)))
        × (w'.db ≡ w.db)
        × (w'.sent ≡ w.sent)
  conflict-of (err e) valid found calm quiet other =
      let (answer, tables, sent) = create-invalid e valid in (inr (e, valid, answer), tables, sent)
  conflict-of (ok c) valid found calm quiet other =
      let hash = request_hash w.env (encode_create_command cmd) in
      let (answer, tables, sent) =
        create-taken c (err conflict) valid found calm quiet
          (replay-conflict w.env.float_text hash o other) in
      (inl (c, valid, answer), tables, sent)

  -- A create whose key has an operation that is of another request, or not completed, is refused: with
  -- a conflict where the command passes validation, and with the error of the validation otherwise. It
  -- sends nothing and changes no table. The two statements that it may run must not fail.
  pub create-conflict :
      find? (has_key key) w.db.operations ≡ some o
      → w.env.fault (suc w.step) ≡ none
      → w.env.fault (suc (suc (suc w.step))) ≡ none
      → (o.request_hash ≢ request_hash w.env (encode_create_command cmd))
        ⊎ (o.status ≢ lit "completed")
      → let (answer, w') = create s cmd key w in
        (((c : Client) × (validate s cmd key ≡ ok c) × (answer ≡ err conflict))
          ⊎ ((e : Error) × (validate s cmd key ≡ err e) × (answer ≡ err e)))
        × (w'.db ≡ w.db)
        × (w'.sent ≡ w.sent)
  create-conflict found calm quiet other =
      conflict-of (validate s cmd key) refl found calm quiet other
