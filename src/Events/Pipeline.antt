-- ===== src/Events/Pipeline.antt =====
-- The pipeline that classifies an event and resolves its context (classifier.py, context.py and
-- pipeline.py of core/events), and the planner (core/planner.py).
use velox_server.Prelude.{
  ℕ, String, Option, none, some, ◌==◌, string_eq, ◌||◌, List, [], ◌∷◌, ◌++◌, if◌then◌else◌,
}
use velox_server.Prelude.Dict
use velox_server.Prelude.Dict.{Dict}
use velox_server.Prelude.Text.{contains}
use velox_server.Actions.{
  Uuid, Instant, Value, text, obj, field, end, of_optional, Action, ExecutorRole, content_review,
  content_summary, context_preparation, known_role,
}
use velox_server.Events.{UniversalEvent}

-- The confidence of the rules is 1.0; it is kept in hundredths.
pub record EventClassification : Type 0 where
  pub category : String
  pub confidence : ℕ
  pub labels : List String
  pub reason : Option String

pub record ResolvedContext : Type 0 where
  pub event : UniversalEvent
  pub classification : EventClassification
  pub context : Dict String Value
  pub sources : List String
  pub confidence : ℕ
  pub reason : Option String

pub record IntegrationRouteContext : Type 0 where
  pub provider : String
  pub principal : Option String
  pub account_identifier : String

pub record ProcessedEvent : Type 0 where
  pub event : UniversalEvent
  pub classification : EventClassification
  pub context : ResolvedContext
  pub integration_route : Option IntegrationRouteContext

-- The category of a lower-case source.
unfoldable pub category_of : String → String
category_of source =
    if contains source "github" || contains source "github.com"
    then "github"
    else if contains source "gmail" || contains source "google-mail"
    then "gmail"
    else if contains source "calendar"
        || contains source "google-calendar"
        || contains source "apple-calendar"
    then "calendar"
    else "unknown"

-- RuleBasedEventClassifier.classify; `lower` is CPython's `str.lower`.
unfoldable pub classify : (String → String) → UniversalEvent → EventClassification
unfolding category_of
classify lower event = record {
  category = category_of (lower event.source);
  confidence = 100;
  labels = event.source ∷ event.type ∷ [];
  reason = some "Rule-based v0 classification based on event source.";
}

-- BaseContextResolver.resolve
unfoldable pub resolve_context : UniversalEvent → EventClassification → ResolvedContext
resolve_context event classification = record {
  event = event;
  classification = classification;
  context = [];
  sources = [];
  confidence = classification.confidence;
  reason = some "Base context resolver v0 returned no additional context.";
}

-- EventProcessingPipeline.process with both
unfoldable pub process_event :
    (String → String) → UniversalEvent → Option IntegrationRouteContext → ProcessedEvent
unfolding classify resolve_context
process_event lower event route = record {
  event = event;
  classification = classify lower event;
  context = resolve_context event (classify lower event);
  integration_route = route;
}

-- The two tables of `BasePlanner`.
unfoldable pub action_type_of : String → Option (String × ExecutorRole)
action_type_of category =
    if category == "github"
    then some ("review_pull_request", content_review)
    else if category == "gmail"
    then some ("summarize_email", content_summary)
    else if category == "calendar"
    then some ("prepare_meeting", context_preparation)
    else none

calendar_entry : String → Option Value → Dict String Value
calendar_entry category none = []
calendar_entry category (some v) =
    if category == "calendar" then ("calendar_event_id", v) ∷ [] else []

route_entries : Option IntegrationRouteContext → Dict String Value
route_entries none = []
route_entries (some r) =
    ("capability_provider", text r.provider)
    ∷ (
      "account_context",
      obj (
          field "principal" (of_optional r.principal)
            (field "account_identifier" (text r.account_identifier) end)),
    )
    ∷ []

-- BasePlanner._build_action_payload
unfoldable pub build_action_payload : ProcessedEvent → Dict String Value
unfolding calendar_entry route_entries
build_action_payload p =
    calendar_entry p.classification.category (Dict.get p.event.payload "calendar_event_id")
    ++ route_entries p.integration_route

-- BasePlanner.plan; `uuid_text` is `str` of a UUID, and `id` and `now` are the new action's.
unfoldable pub plan_event : (Uuid → String) → ProcessedEvent → Uuid → Instant → List Action
unfolding action_type_of build_action_payload
plan_event uuid_text p id now = elim (action_type_of p.classification.category) [
  | none ↦ []
  | some (type, role) ↦
      record {
        id = id;
        type = type;
        target = uuid_text p.event.id;
        payload = build_action_payload p;
        executor_role = known_role role;
        created_at = now;
        metadata =
            ("event_id", text (uuid_text p.event.id))
            ∷ ("category", text p.classification.category)
            ∷ [];
      }
      ∷ []
]
