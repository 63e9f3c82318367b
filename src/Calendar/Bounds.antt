-- ===== src/Calendar/Bounds.antt =====
-- What an accepted request satisfies: its window and its bounds.
use velox_server.Prelude.{ℕ, ◌≤◌, ◌<◌, String, Option, none, some, ◌≡◌, refl, arith, subst}
use velox_server.Prelude.Result.{Result, ok, err}
use velox_server.Actions.{Value, num, text}
use velox_server.Calendar.{
  Timestamps, RequestError, validated_timestamp, bounded_int, valid_token, CalendarEventListRequest,
  CalendarEventListOrchestrationRequest, new_list_request, new_orchestration_request,
  max_max_results, max_max_pages,
}

-- The int of a payload, or 0.
abbrev pub int_of : Option Value → ℕ
int_of (some (num n)) = n
int_of _ = 0

pub bounded_int-ok :
    (owner field_name : String) (maximum : ℕ) (v : Option Value) {n : ℕ}
    → bounded_int owner field_name maximum v ≡ ok n
    → (int_of v ≡ n) × ((1 ≤ n) × (n ≤ maximum))
unfolding bounded_int
bounded_int-ok owner field_name maximum (some (num n)) h = ground arith
bounded_int-ok owner field_name maximum v h = ground arith

-- The window of a request: the two texts are those of the payload, and the moments are in order.
abbrev pub Window : Timestamps → Option Value → Option Value → String → String → Type 0
Window t time_min time_max first last =
    (start : ℕ) × ((end : ℕ) × ((validated_timestamp t time_min "time_min" ≡ ok (first, start))
        × ((validated_timestamp t time_max "time_max" ≡ ok (last, end)) × (start < end))))

module _ (t : Timestamps) (time_min time_max max_results : Option Value) where
  pub list_request-ok :
      (page_token : Option Value) {r : CalendarEventListRequest}
      → new_list_request t time_min time_max max_results page_token ≡ ok r
      → Window t time_min time_max r.time_min r.time_max
        × ((int_of max_results ≡ r.max_results)
            × ((1 ≤ r.max_results) × (r.max_results ≤ max_max_results)))
  unfolding new_list_request
  list_request-ok page_token {r} h =
      parts (validated_timestamp t time_min "time_min") (validated_timestamp t time_max "time_max")
        (bounded_int "calendar list request" "max_results" max_max_results max_results)
        (valid_token page_token) refl refl refl refl h
    where
      parts :
          (x y : Result RequestError (String × ℕ)) (b : Result RequestError ℕ)
          (k : Result RequestError (Option String))
          → validated_timestamp t time_min "time_min" ≡ x
          → validated_timestamp t time_max "time_max" ≡ y
          → bounded_int "calendar list request" "max_results" max_max_results max_results ≡ b
          → valid_token page_token ≡ k
          → new_list_request t time_min time_max max_results page_token ≡ ok r
          → Window t time_min time_max r.time_min r.time_max
            × ((int_of max_results ≡ r.max_results)
                × ((1 ≤ r.max_results) × (r.max_results ≤ max_max_results)))
      parts (err e) y b k p q u v h = absurd (ground arith)
      parts (ok x) (err e) b k p q u v h = absurd (ground arith)
      parts (ok (a, start)) (ok (c, end)) (err e) k p q u v h = absurd (ground arith)
      parts (ok (a, start)) (ok (c, end)) (ok n) (err e) p q u v h = absurd (ground arith)
      parts (ok (a, start)) (ok (c, end)) (ok n) (ok token) p q u v h = (
        (start, (end, (ground arith, (ground arith, ground arith)))),
        ground (
          arith,
          bounded_int-ok "calendar list request" "max_results" max_max_results max_results u,
        ),
      )

  -- A walk that is accepted has an ordered window of the payload's two timestamps, and its page size
  -- and page limit are those of the payload, between 1 and 50 and between 1 and 10.
  pub orchestration_request-ok :
      (max_pages : Option Value) {r : CalendarEventListOrchestrationRequest}
      → new_orchestration_request t time_min time_max max_results max_pages ≡ ok r
      → Window t time_min time_max r.time_min r.time_max
        × (((int_of max_results ≡ r.max_results)
              × ((1 ≤ r.max_results) × (r.max_results ≤ max_max_results)))
            × ((int_of max_pages ≡ r.max_pages)
                × ((1 ≤ r.max_pages) × (r.max_pages ≤ max_max_pages))))
  unfolding new_orchestration_request
  orchestration_request-ok max_pages {r} h =
      parts (new_list_request t time_min time_max max_results none)
        (bounded_int "calendar list orchestration" "max_pages" max_max_pages max_pages) refl refl h
    where
      parts :
          (x : Result RequestError CalendarEventListRequest) (b : Result RequestError ℕ)
          → new_list_request t time_min time_max max_results none ≡ x
          → bounded_int "calendar list orchestration" "max_pages" max_max_pages max_pages ≡ b
          → new_orchestration_request t time_min time_max max_results max_pages ≡ ok r
          → Window t time_min time_max r.time_min r.time_max
            × (((int_of max_results ≡ r.max_results)
                  × ((1 ≤ r.max_results) × (r.max_results ≤ max_max_results)))
                × ((int_of max_pages ≡ r.max_pages)
                    × ((1 ≤ r.max_pages) × (r.max_pages ≤ max_max_pages))))
      parts (err e) b p u h = absurd (ground arith)
      parts (ok x) (err e) p u h = absurd (ground arith)
      parts (ok x) (ok n) p u h =
          let bounds =
            bounded_int-ok "calendar list orchestration" "max_pages" max_max_pages max_pages u in
          let e : record {
            time_min = x.time_min;
            time_max = x.time_max;
            max_results = x.max_results;
            max_pages = n;
          }
              ≡ r =
            ground arith in
          subst
            (λ (k : CalendarEventListOrchestrationRequest).
              Window t time_min time_max k.time_min k.time_max
              × (((int_of max_results ≡ k.max_results)
                    × ((1 ≤ k.max_results) × (k.max_results ≤ max_max_results)))
                  × ((int_of max_pages ≡ k.max_pages)
                      × ((1 ≤ k.max_pages) × (k.max_pages ≤ max_max_pages)))))
            e ((list_request-ok none p).0, ((list_request-ok none p).1, bounds))

-- A timestamp that is accepted is a text of the payload.
pub validated-text :
    (t : Timestamps) (v : Option Value) (field_name : String) {s : String} {moment : ℕ}
    → validated_timestamp t v field_name ≡ ok (s, moment)
    → v ≡ some (text s)
unfolding validated_timestamp
validated-text t (some (text u)) field_name h = ground arith
validated-text t (some v) field_name h = absurd (ground arith)
validated-text t none field_name h = absurd (ground arith)

-- The same window and page size are accepted again, with a token that is none or unpadded.
pub page_request-ok :
    (t : Timestamps) (first last : String) (n start end : ℕ) (v : Option Value)
    (token : Option String)
    → validated_timestamp t (some (text first)) "time_min" ≡ ok (first, start)
    → validated_timestamp t (some (text last)) "time_max" ≡ ok (last, end)
    → start < end
    → 1 ≤ n
    → n ≤ max_max_results
    → valid_token v ≡ ok token
    → new_list_request t (some (text first)) (some (text last)) (some (num n)) v
      ≡ ok (record { time_min = first; time_max = last; max_results = n; page_token = token })
unfolding new_list_request bounded_int
page_request-ok t first last n start end v token p q o lo hi k = ground arith
