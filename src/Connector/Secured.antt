-- ===== src/Connector/Secured.antt =====
-- The credentials of the connector that main starts.
use mathlib.Core.Path.{subst}
use dinapay_connector_binanc.Shared.{
  ℕ, zero, suc, Text, lit, List, [], ◌∷◌, ◌≡◌, ◌≢◌, refl, sym, ◌∙◌, ◌==◌, text_eq, Option, some,
  none, arith, if◌then◌else◌, text_beq,
}
use dinapay_connector_binanc.Shared.Int.{ℤ, pos, negsuc}
use dinapay_connector_binanc.Strings.Numbers.{parse_int}
use dinapay_connector_binanc.Core.Error.{Error, Result, ok, err}
use dinapay_connector_binanc.Core.Decode
use dinapay_connector_binanc.Core.Model.{Connection}
use dinapay_connector_binanc.Effects.{World, M, ◌>>=◌, continue, pure, lift}
use dinapay_connector_binanc.BinancePay.Client
use dinapay_connector_binanc.BinancePay.Client.{Client}
use dinapay_connector_binanc.App.Service
use dinapay_connector_binanc.Publisher
use dinapay_connector_binanc.HttpApi.Server.{WebhookCredential}
use dinapay_connector_binanc.Connector.{boot}
use dinapay_connector_binanc.Connector.Configuration.{
  Process, Connector, Connected, required, env_int, or_fallback, client_for, credential_for,
  connect,
}

-- Clients and webhook credentials belong to the same connections, and no key of theirs is empty.
pub data AreKeyed : List (Text × Client) → List (Text × WebhookCredential) → Type 0 where
  no_keys : AreKeyed [] []
  more :
      (id : Text) (client : Client) (credential : WebhookCredential)
      (clients : List (Text × Client)) (credentials : List (Text × WebhookCredential))
      → client.api_key ≢ []
      → client.secret_key ≢ []
      → credential.hmac_secret ≡ client.secret_key
      → AreKeyed clients credentials
      → AreKeyed ((id, client) ∷ clients) ((id, credential) ∷ credentials)

pub record IsPositive (n : ℤ) : Type 0 where
  pub value : ℕ
  pub same : n ≡ pos (suc value)

pub record IsSecured (c : Connector) : Type 0 where
  pub service_token : c.server.service_token ≢ []
  pub publisher_token : c.publisher.token ≡ c.server.service_token
  pub keyed : AreKeyed c.server.service.clients c.server.webhook_credentials
  pub same_service : c.service ≡ c.server.service
  pub concurrency : IsPositive c.concurrency

bind-ok :
    {A B : Type 0} (r : Result A) (f : A → Result B) (b : B)
    → Decode.◌>>=◌ r f ≡ ok b
    → (a : A) × (r ≡ ok a) × (f a ≡ ok b)
bind-ok (ok a) f b h = (a, refl, h)
bind-ok (err e) f b h = cc

text-filled :
    (text value : Text) (e : Error)
    → (if text == [] then err e else ok text) ≡ ok value
    → (value ≢ []) × (text ≡ value)
unfolding text_beq
text-filled [] value e h = cc
text-filled (c ∷ text) value e h = let same : c ∷ text ≡ value = cc in (λ q. cc, same)

required-filled :
    (p : Process) (name value : Text)
    → required p name ≡ ok value
    → (value ≢ []) × (p.getenv name ≡ value)
unfolding required
required-filled p name value h = text-filled (p.getenv name) value _ h

new-keys :
    (parse_url : Text → Result (Unit {0})) (base api secret proxy : Text) (client : Client)
    → Client.new parse_url base api secret proxy ≡ ok client
    → (client.api_key ≡ api) × (client.secret_key ≡ secret)
unfolding Client.new
new-keys parse_url base api secret proxy client h = ground arith

client_for-keys :
    (p : Process) (c : Connection) (client : Client)
    → client_for p c ≡ ok client
    → (client.api_key ≢ [])
      × (client.secret_key ≢ [])
      × (p.getenv c.secret_key_env ≡ client.secret_key)
unfolding client_for
client_for-keys p c client h =
    let (api, read_api, h1) = bind-ok (required p c.api_key_env) _ client h in
    let (secret, read_secret, h2) = bind-ok (required p c.secret_key_env) _ client h1 in
    let (same_api, same_secret) =
      new-keys p.parse_url c.base_url api secret c.proxy_url client h2 in
    let (api_filled, _) = required-filled p c.api_key_env api read_api in
    let (secret_filled, from) = required-filled p c.secret_key_env secret read_secret in
    (
      λ q. api_filled (sym same_api ∙ q),
      λ q. secret_filled (sym same_secret ∙ q),
      from ∙ sym same_secret,
    )

connect-AreKeyed :
    (p : Process) (connections : List Connection) (made result : Connected)
    → AreKeyed made.clients made.credentials
    → connect p connections made ≡ ok result
    → AreKeyed result.clients result.credentials
unfolding connect credential_for
connect-AreKeyed p [] made result k h =
    let same : made ≡ result = cc in
    subst (λ (m : Connected). AreKeyed m.clients m.credentials) same k
connect-AreKeyed p (c ∷ rest) made result k h =
    let (client, made_client, h1) = bind-ok (client_for p c) _ result h in
    let (api, secret, same) = client_for-keys p c client made_client in
    connect-AreKeyed p rest _ result
      (AreKeyed.more c.id client (credential_for p c) _ _ api secret same k) h1

env_int-IsPositive : (p : Process) (name : Text) (n : ℕ) → IsPositive (env_int p name (pos (suc n)))
unfolding env_int or_fallback
env_int-IsPositive p name n = from (parse_int (p.getenv name))
  where
    from : (o : Option ℤ) → IsPositive (or_fallback (pos (suc n)) o)
    from none = record { value = n; same = refl }
    from (some (pos zero)) = record { value = n; same = refl }
    from (some (pos (suc m))) = record { value = m; same = refl }
    from (some (negsuc m)) = record { value = n; same = refl }

-- Whatever the action returns has the property.
record Yields {A : Type 0} (m : M A) (P : A → Type 0) : Type 0 where
  at : (w : World) (a : A) → (m w).0 ≡ ok a → P a

module _ {A : Type 0} where
  Yields-lift : (r : Result A) → Yields (lift r) (λ a. r ≡ ok a)
  unfolding lift
  Yields-lift r = record { at = λ w a h. h }

  Yields-any : (m : M A) → Yields m (λ _. Unit {0})
  Yields-any m = record { at = λ w a h. tt }

  Yields-pure : {P : A → Type 0} (a : A) → P a → Yields (pure a) P
  unfolding pure
  Yields-pure {P} a k = record { at = λ w b h. let same : a ≡ b = cc in subst P same k }

  Yields-bind :
      {B : Type 0} {Q : B → Type 0} {P : A → Type 0} (m : M B) (f : B → M A)
      → Yields m Q
      → ((b : B) → Q b → Yields (f b) P)
      → Yields (m >>= f) P
  unfolding ◌>>=◌
  Yields-bind {B} {Q} {P} m f y k = record {
    at = λ w a h. let (r, v) = m w in after r v (y.at w) a h;
  }
    where
      after :
          (r : Result B) (v : World)
          → ((b : B) → r ≡ ok b → Q b)
          → (a : A) → (continue r f v).0 ≡ ok a
          → P a
      after (ok b) v q a h = (k b (q b refl)).at v a h
      after (err e) v q a h = cc

-- When main starts the connector, the service token is not empty, and the publisher uses the same; each
-- connection with a client has a webhook credential and no other has one; the client's two keys are
-- not empty, and the webhook secret is the secret key, so that no webhook is checked against an
-- empty secret; and the reconciler has at least one worker.
pub boot-IsSecured : (p : Process) (w : World) (c : Connector) → (boot p w).0 ≡ ok c → IsSecured c
unfolding boot Service.new Publisher.new
boot-IsSecured p w c h = booted.at w c h
  where
    booted : Yields (boot p) IsSecured
    booted = Yields-bind _ _ (Yields-any _) (λ database u.
        Yields-bind _ _ (Yields-lift _) (λ token t. Yields-bind _ _ (Yields-any _) (λ text u.
          Yields-bind _ _ (Yields-any _) (λ env u. Yields-bind _ _ (Yields-any _) (λ connections u.
            Yields-bind _ _ (Yields-lift _) (λ connected k.
              Yields-bind _ _ (Yields-any _) (λ opened u.
                Yields-bind _ _ (Yields-any _) (λ webhook_url u.
                  Yields-bind _ _ (Yields-any _) (λ v2_url u. Yields-pure _ (record {
                    service_token = (required-filled p (lit "SERVICE_TOKEN") token t).0;
                    publisher_token = refl;
                    keyed = connect-AreKeyed p connections _ connected AreKeyed.no_keys k;
                    same_service = refl;
                    concurrency = env_int-IsPositive p (lit "RECONCILE_CONCURRENCY") 7;
                  }))))))))))
