-- ===== src/Calendar/Fake/Steps.antt =====
-- The slices that the fake provider's pages are, and the tokens between them.
use velox_server.Prelude.{
  ℕ, ◌+◌, ◌≤◌, ◌<◌, String, false, Option, none, some, List, [], ◌∷◌, ◌++◌, map, ◌≡◌, refl, ap, sym,
  ◌∙◌, arith, Bool-cases, inl, inr, All, any, ◌==◌, string_eq, length,
}
use velox_server.Prelude.Slices.{take, drop, take_all, take-add, length-drop, length-take_of_le}
use velox_server.Calendar.{CalendarEvent, event_fields}
use velox_server.Calendar.Fake.{page_token}
use velox_server.Calendar.Fake.Page.{page_token_inj, following}

map-append :
    (es ds : List CalendarEvent)
    → map event_fields (es ++ ds) ≡ map event_fields es ++ map event_fields ds
map-append [] ds = refl
map-append (e ∷ es) ds = ap (λ xs. event_fields e ∷ xs) (map-append es ds)

module _ (str_int : ℕ → String) (ordered : List CalendarEvent) (offset limit : ℕ) where
  abbrev pub chunk : List CalendarEvent
  chunk = take limit (drop offset ordered)

  abbrev pub next : Option String
  next = following str_int (offset + length chunk) (length ordered)

  -- The last page: no token follows.
  pub next_last : offset ≤ length ordered → length ordered ≤ offset + limit → next ≡ none
  unfolding following
  next_last inside h =
      let whole =
        take_all limit (drop offset ordered) (omega (arith, length-drop offset ordered)) in
      let e : offset + length chunk ≡ length ordered =
        omega (arith, length-drop offset ordered, ap length whole) in
      ground arith

  -- Any other page is full, and the next one begins where it ends.
  pub next_middle :
      offset + limit < length ordered → next ≡ some (page_token str_int (offset + limit))
  unfolding following
  next_middle h =
      let full : length chunk ≡ limit =
        length-take_of_le limit (drop offset ordered) (omega (arith, length-drop offset ordered)) in
      rw full (ground arith)

  pub events-extend :
      map event_fields (take offset ordered) ++ map event_fields chunk
      ≡ map event_fields (take (offset + limit) ordered)
  events-extend =
      sym (map-append (take offset ordered) chunk)
      ∙ ap (map event_fields) (take-add offset limit (offset + limit) ordered refl)

-- The tokens that the walk has seen stand for offsets up to one.
abbrev pub SeenUpTo : (ℕ → String) → ℕ → String → Type 0
SeenUpTo str_int offset s = (m : ℕ) × (s ≡ page_token str_int m) × (m ≤ offset)

module _ (str_int : ℕ → String) (digits : String → Option ℕ)
    (read_back : (n : ℕ) → digits (str_int n) ≡ some n) where
  pub not_seen :
      (offset n : ℕ) (seen : List String)
      → All (SeenUpTo str_int offset) seen
      → offset < n
      → any (λ s. page_token str_int n == s) seen ≡ false
  not_seen offset n [] h lt = refl
  not_seen offset n (s ∷ seen) h lt = elim (Bool-cases (page_token str_int n == s)) [
    | inl same ↦
        let e = (string_eq.eqb_iff (page_token str_int n) s).0 same in
        let e' = page_token_inj str_int digits read_back n h.0.0 (e ∙ h.0.1) in absurd (omega arith)
    | inr other ↦ rw other (not_seen offset n seen h.1 lt)
  ]
