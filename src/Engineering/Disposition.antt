-- ===== src/Engineering/Disposition.antt =====
-- integrations/software_engineering_disposition.py: KEEP or DISCARD of a finished execution.
pub mod Finished
use velox_server.Prelude.{
  String, Bool, true, false, Option, none, some, is_none, not, ◌&&◌, ◌||◌, ◌==◌, string_eq, nat_eq,
  option_eq, List, [], ◌∷◌, any, if◌then◌else◌, ◌≡◌, refl,
}
use velox_server.Prelude.Result.{Result, ok, err, raise_if, ◌>>=◌, ◌>>◌, Step, continue}
use velox_server.Prelude.Dict
use velox_server.Actions.{Uuid, Instant}
use velox_server.Runs.{WorkProductDisposition, RunState, RunError}
use velox_server.Engineering.{RunRepository, is_canonical_state}
use velox_server.Engineering.WorkProduct.{IdentityError, DispositionResult, succeeded, record_of}

-- SoftwareEngineeringDisposition{NotFound,Route,State}Error by its message; `repository_raised`
-- is the repository's own error.
pub data DispositionError : Type 0 where
  not_found wrong_route not_finished no_service unverifiable : DispositionError
  repository_raised : RunError → DispositionError

-- `apply` of the injected work-product service, which acts on a world of type `W`.
abbrev pub Disposer : Type 0 → Type 0
Disposer W = Uuid → WorkProductDisposition → Step W IdentityError DispositionResult

-- `status in {"succeeded", "failed", "skipped"}` and a finishing time
unfoldable pub is_finished : RunState → Bool
is_finished s =
    any (λ t. s.execution_status == some t) ("succeeded" ∷ "failed" ∷ "skipped" ∷ [])
    && not (is_none s.execution_finished_at)

unfoldable pub reported : {A : Type 0} → Result RunError A → Result DispositionError A
reported (ok a) = ok a
reported (err e) = err (repository_raised e)

-- The state tests of `apply`, and the service that it needs.
unfoldable pub permitted :
    {W : Type 0} → Option (Disposer W) → Option RunState → Result DispositionError (Disposer W)
unfolding is_canonical_state is_finished
permitted service none = err not_found
permitted service (some s) = do
  raise_if (not (is_canonical_state s)) wrong_route
  raise_if (not (is_finished s)) not_finished
  elim service [ none ↦ err no_service | some disposer ↦ ok disposer ]

module _ {S W : Type 0} (repository : RunRepository S) (service : Option (Disposer W)) where
  -- What `apply` does with the service's answer: a success is recorded.
  unfoldable pub record_success :
      Instant
      → Result IdentityError DispositionResult × W
      → S
      → Result DispositionError DispositionResult × (S × W)
  unfolding succeeded record_of reported
  record_success now (err e, w) store = (err unverifiable, (store, w))
  record_success now (ok result, w) store =
      let (answer, store') = repository.record_disposition (record_of result) now store in
      if succeeded result
      then (reported answer >> ok result, (store', w))
      else (ok result, (store, w))

  -- apply
  unfoldable pub apply :
      Uuid → WorkProductDisposition → Instant → Step (S × W) DispositionError DispositionResult
  unfolding permitted reported record_success
  apply i disposition now (store, w) =
      continue (reported (repository.get i store) >>= permitted service, (store, w))
        λ disposer x. record_success now (disposer i disposition x.1) x.0
