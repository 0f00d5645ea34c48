-- ===== src/Effects.antt =====
-- The surroundings of the program, and the monad of its actions. What the clock reads, whether a
-- statement fails, what a peer answers and what the random source returns is chosen by an arbitrary
-- environment at every step.
pub mod Sql
pub mod Keeps
pub mod Sent
use dinapay_connector_binanc.Shared.{
  ℕ, suc, ◌+◌, ◌-◌, Text, List, [], ◌∷◌, Option, none, some, Bool, true, false,
}
use dinapay_connector_binanc.Core.Value.{Time, Value}
use dinapay_connector_binanc.Core.Error.{Error, Result, ok, err, message, is_ok}
use dinapay_connector_binanc.Strings.Rational.{Rat}
use dinapay_connector_binanc.Store.Schema.{Database, OperationalStats}

pub record HttpRequest : Type 0 where
  pub url : Text
  pub headers : List (Text × Text)
  pub body : Text

pub record HttpResponse : Type 0 where
  pub status_code : ℕ
  pub body : Text

-- Each field that takes a number is read at the number of the step.
pub record Env : Type 0 where
  pub clock : ℕ → Time
  pub fault : ℕ → Option Text
  pub http : ℕ → HttpRequest → Result HttpResponse
  pub random : ℕ → ℕ → Result Text
  pub print_json : Value → Text
  pub parse_json : Text → Result Value
  -- the first JSON value of a body, as a Decoder reads it behind a limit of 1 MiB; the error is that
  -- of the reader, after the text
  pub decode_json : Text → Option Text → Result Value
  -- time.Time's UnmarshalJSON of a string
  pub parse_time : Text → Result Time
  -- how a number is printed that was read as a float64, if it is in its range
  pub float_text : Text → Result Text
  pub sha256 : Text → Text
  pub hmac_sha512 : Text → Text → Text
  -- big.Rat.SetString on texts that are no plain decimals
  pub rational : Text → Option Rat
  -- the value that a timestamptz column keeps of a time
  pub timestamptz : Time → Time
  -- the text of a unique violation
  pub violation : Text
  -- is the row of this connection and payment locked by another transaction?
  pub locked : ℕ → Text → Text → Bool

-- The calls of package observability, in order of the newest first.
pub data Metric : Type 0 where
  provider : Text → Bool → ℕ → Metric
  webhook publish reconciliation : Text → Metric
  -- SetPersistent
  persistent : OperationalStats → Metric
  -- ObserveHTTP: the method, the pattern of the route, the status, and the time that it took
  served : Text → Text → ℕ → ℕ → Metric

pub record World : Type 0 where
  pub env : Env
  pub step : ℕ
  pub db : Database
  pub sent : List HttpRequest
  pub metrics : List Metric

abbrev pub tick : World → World
tick w = record w { step = suc w.step }

abbrev pub M : Type 0 → Type 0
M A = World → Result A × World

module _ {A : Type 0} where
  unfoldable pub pure : A → M A
  pure a w = (ok a, w)

  unfoldable pub fail : Error → M A
  fail e w = (err e, w)

  unfoldable pub lift : Result A → M A
  lift r w = (r, w)

  -- What the action can see of the world.
  unfoldable pub gets : (World → A) → M A
  gets f w = (ok (f w), w)

  -- value, err := action
  unfoldable pub attempt : M A → M (Result A)
  attempt m w = let (r, w') = m w in (ok r, w')

  -- _ = action
  unfoldable pub ignore : M A → M (Unit {0})
  ignore m w = let (_, w') = m w in (ok tt, w')

-- if err != nil { return …, err }, and the rest
abbrev pub continue : {A B : Type 0} → Result A → (A → M B) → M B
continue (ok a) f w = f a w
continue (err e) f w = (err e, w)

infixl 5 ◌>>=◌ ◌>>◌
unfoldable pub ◌>>=◌ : {A B : Type 0} → M A → (A → M B) → M B
unfolding pure fail lift gets attempt ignore
◌>>=◌ m f w = let (r, w') = m w in continue r f w'

abbrev pub ◌>>◌ : {A B : Type 0} → M A → M B → M B
m >> k = m >>= λ _. k

abbrev pub get_env : M Env
get_env = gets (λ w. w.env)

-- time.Now(), and s.now()
unfoldable pub now : M Time
now w = (ok (w.env.clock w.step), tick w)

unfoldable pub observe : Metric → M (Unit {0})
observe m w = (ok tt, record w { metrics = m ∷ w.metrics })

-- observability.ObserveProvider(operation, err, time.Since(started))
unfoldable pub observe_provider : {A : Type 0} → Text → Result A → Time → M (Unit {0})
unfolding now observe
observe_provider operation r started = do
  finished ← now
  observe (provider operation (is_ok r) (finished - started))

-- http.Client.Do: what was sent is on record, whatever the answer.
unfoldable pub http_do : HttpRequest → M HttpResponse
http_do req w = (w.env.http w.step req, record w { step = suc w.step; sent = req ∷ w.sent })

-- crypto/rand
unfoldable pub random_bytes : ℕ → M Text
random_bytes size w = (w.env.random w.step size, tick w)
