-- ===== src/Google/Fake.antt =====
-- The deterministic credentials and transport of integrations/google_provider.py.
use Prim.Native.String.{◌++◌ as ◌<>◌}
use velox_server.Prelude.{String, false, Option, none, some, [], ◌∷◌, string_eq, if◌then◌else◌}
use velox_server.Prelude.Result.{Result, ok, err, ◌>>=◌}
use velox_server.Prelude.Dict
use velox_server.Prelude.Dict.{Dict}
use velox_server.Prelude.Text.{strip, is_blank}
use velox_server.Actions.{flag, text}
use velox_server.Workers.Executor.{permanent}
use velox_server.Google.{
  GoogleCredentials, GoogleProviderRequest, GoogleProviderFailure, GoogleProviderResponse,
  status_or, failed_body,
}

-- a or b, of optional values that are true whenever they are there
abbrev either_of {ℓ} : {A : Type ℓ} → Option A → Option A → Option A
either_of none b = b
either_of (some a) b = some a

-- FakeGoogleCredentialsProvider and its subclass FakeCalendarCredentialsProvider
module _ (service : String) (failures : Dict String GoogleProviderFailure) where
  -- The failure for an identifier that is missing.
  missing : String → GoogleProviderFailure
  missing field_name = record {
    category = permanent;
    message = service <> " credentials request missing " <> field_name;
    retryable = false;
    provider_status_code = none;
    provider_reason = none;
    metadata = ("field", text field_name) ∷ [];
  }

  -- FakeGoogleCredentialsProvider._normalize_identifier
  normalize_identifier : Option String → String → Result GoogleProviderFailure String
  unfolding missing
  normalize_identifier none field_name = err (missing field_name)
  normalize_identifier (some value) field_name =
      if is_blank value then err (missing field_name) else ok (strip value)

  fake_credentials : String → String → Result GoogleProviderFailure GoogleCredentials
  fake_credentials principal account =
      elim (either_of (Dict.get failures (principal <> ":" <> account))
        (either_of (Dict.get failures principal) (Dict.get failures account))) [
          | some failure ↦ err failure
          | none ↦ ok (record {
            access_token = "fake-" <> service <> "-access-token:" <> principal <> ":" <> account;
            principal = principal;
            account = account;
            token_type = "Bearer";
            expires_at = some "2099-01-01T00:00:00Z";
          })
        ]

  -- FakeGoogleCredentialsProvider.get_credentials
  unfoldable pub get_credentials :
      Option String → Option String → Result GoogleProviderFailure GoogleCredentials
  unfolding normalize_identifier fake_credentials
  get_credentials principal account = normalize_identifier principal "principal" >>= λ p.
      normalize_identifier account "account" >>= λ a. fake_credentials p a

-- FakeGoogleTransportClient
module _ (service : String) (responses : Dict String GoogleProviderResponse)
    (failures : Dict String GoogleProviderFailure) where
  -- _request_key
  request_key : GoogleProviderRequest → String
  request_key request = request.method <> ":" <> request.path <> ":" <> request.operation

  -- _default_response
  unfoldable pub default_response :
      GoogleProviderRequest → GoogleCredentials → GoogleProviderResponse
  default_response request credentials = record {
    status_code = 200;
    body =
        ("external_execution_performed", flag false)
        ∷ ("integration", text service)
        ∷ ("adapter", text "fake_transport")
        ∷ ("operation", text request.operation)
        ∷ ("path", text request.path)
        ∷ ("method", text request.method)
        ∷ ("token_type", text credentials.token_type)
        ∷ ("principal", text credentials.principal)
        ∷ ("account", text credentials.account)
        ∷ [];
    failure = none;
  }

  -- execute, with the `_default_response` of the class
  unfoldable pub execute :
      (GoogleProviderRequest → GoogleCredentials → GoogleProviderResponse)
      → GoogleProviderRequest
      → GoogleCredentials
      → GoogleProviderResponse
  unfolding request_key
  execute default request credentials =
      let key = request_key request in
      elim (either_of (Dict.get failures key) (Dict.get failures request.operation)) [
        | some failure ↦ record {
          status_code = status_or failure.provider_status_code 500;
          body = failed_body service "fake_transport" request;
          failure = some failure;
        }
        | none ↦ elim (either_of (Dict.get responses key) (Dict.get responses request.operation)) [
          | some response ↦ response
          | none ↦ default request credentials
        ]
      ]
