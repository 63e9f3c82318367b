-- ===== src/Google.antt =====
-- integrations/google_provider.py: the provider boundary that the Google integrations share.
pub mod Fake
use Prim.Native.String.{◌++◌ as ◌<>◌}
use velox_server.Prelude.{
  ℕ, zero, suc, String, Bool, true, false, Option, none, some, [], ◌∷◌, ◌==◌, string_eq, option_eq,
  not, ◌||◌, option_map, if◌then◌else◌,
}
use velox_server.Prelude.Result.{Result, ok, err, Step}
use velox_server.Prelude.Dict.{Dict}
use velox_server.Prelude.Text.{strip}
use velox_server.Actions.{Value, flag, text}
use velox_server.Workers.Executor.{WorkerExecutionFailureCategory, permanent, WorkerAccountContext}

pub record GoogleCredentials : Type 0 where
  pub access_token : String
  pub principal : String
  pub account : String
  pub token_type : String
  pub expires_at : Option String

pub record GoogleProviderRequest : Type 0 where
  pub operation : String
  pub path : String
  pub method : String
  pub body : Option (Dict String Value)
  pub query : Dict String Value
  pub account_context : Option WorkerAccountContext

pub record GoogleProviderFailure : Type 0 where
  pub category : WorkerExecutionFailureCategory
  pub message : String
  pub retryable : Bool
  pub provider_status_code : Option ℕ
  pub provider_reason : Option String
  pub metadata : Dict String Value

-- The headers, which nothing reads, are left out.
pub record GoogleProviderResponse : Type 0 where
  pub status_code : ℕ
  pub body : Dict String Value
  pub failure : Option GoogleProviderFailure

-- The protocols GoogleCredentialsProvider and GoogleTransportClient over the world that they act on.
-- A GoogleCredentialsProviderError is its failure.
abbrev pub GoogleCredentialsProvider : Type 0 → Type 0
GoogleCredentialsProvider W =
    Option String → Option String → Step W GoogleProviderFailure GoogleCredentials

abbrev pub GoogleTransportClient : Type 0 → Type 0
GoogleTransportClient W = GoogleProviderRequest → GoogleCredentials → W → GoogleProviderResponse × W

pub record GoogleProviderComposition (W : Type 0) : Type 0 where
  pub service : String
  pub credentials_provider : GoogleCredentialsProvider W
  pub transport_client : GoogleTransportClient W

-- failure.provider_status_code or d
unfoldable pub status_or : Option ℕ → ℕ → ℕ
status_or none d = d
status_or (some zero) d = d
status_or (some (suc n)) d = suc n

-- The body of a response that stands for a failure.
unfoldable pub failed_body : String → String → GoogleProviderRequest → Dict String Value
failed_body service adapter request =
    ("external_execution_performed", flag false)
    ∷ ("integration", text service)
    ∷ ("adapter", text adapter)
    ∷ ("operation", text request.operation)
    ∷ ("failed", flag true)
    ∷ []

-- A supplied identifier that is not the one of the request's account context.
unfoldable pub mismatches : Option String → Option String → Bool
mismatches none requested = false
mismatches (some supplied) requested = not (some (strip supplied) == requested)

unfoldable pub account_mismatch : String → GoogleProviderFailure
account_mismatch service = record {
  category = permanent;
  message = service <> " provider request account context mismatch";
  retryable = false;
  provider_status_code = none;
  provider_reason = none;
  metadata = ("field", text "account_context") ∷ [];
}

module _ {W : Type 0} (c : GoogleProviderComposition W) where
  -- The transport, with the credentials of a principal and an account.
  with_credentials :
      GoogleProviderRequest
      → Result GoogleProviderFailure GoogleCredentials × W
      → GoogleProviderResponse × W
  unfolding status_or failed_body
  with_credentials request (err failure, w) = (
    record {
      status_code = status_or failure.provider_status_code 500;
      body = failed_body c.service "fake_provider_composition" request;
      failure = some failure;
    },
    w,
  )
  with_credentials request (ok credentials, w) = c.transport_client request credentials w

  -- The provider's call, for the account context of the request.
  with_account :
      GoogleProviderRequest
      → Option String
      → Option String
      → Option WorkerAccountContext
      → W
      → GoogleProviderResponse × W
  unfolding mismatches account_mismatch with_credentials failed_body
  with_account request principal account none w =
      with_credentials request (c.credentials_provider principal account w)
  with_account request principal account (some context) w =
      if mismatches principal context.principal
        || mismatches account (some context.account_identifier)
      then (
        record {
          status_code = 400;
          body = failed_body c.service "fake_provider_composition" request;
          failure = some (account_mismatch c.service);
        },
        w,
      )
      else with_credentials request
          (c.credentials_provider context.principal (some context.account_identifier) w)

  -- GoogleProviderComposition.execute
  unfoldable pub execute :
      GoogleProviderRequest → Option String → Option String → W → GoogleProviderResponse × W
  unfolding with_account
  execute request principal account w =
      with_account request principal account request.account_context w
