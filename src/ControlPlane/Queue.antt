-- ===== src/ControlPlane/Queue.antt =====
-- core/action_queue.py: `ActionQueue`, a FIFO list of actions.
use velox_server.Prelude.{
  ℕ, ◌≡◌, refl, Option, none, some, List, [], ◌∷◌, ◌++◌, arith, length, nat_eq, ◌==◌, if◌then◌else◌,
  All, Bool-cases, inl, inr, ◌≢◌, sym, ◌∙◌,
}
use mathlib.Core.List.{append_assoc, append-nil}
use velox_server.Actions.{Uuid, Action}

unfoldable pub enqueue : List Action → Action → List Action
enqueue q a = q ++ a ∷ []

unfoldable pub enqueue_many : List Action → List Action → List Action
enqueue_many q [] = q
enqueue_many q (a ∷ more) = enqueue_many (enqueue q a) more

unfoldable pub dequeue : List Action → Option Action × List Action
dequeue [] = (none, [])
dequeue (a ∷ q) = (some a, q)

unfoldable pub find : List Action → Uuid → Option Action
find [] i = none
find (a ∷ q) i = if a.id == i then some a else find q i

-- `remove` pops the first action with the id.
unfoldable pub remove : List Action → Uuid → Option Action × List Action
remove [] i = (none, [])
remove (a ∷ q) i =
    let (found, rest) = remove q i in if a.id == i then (some a, q) else (found, a ∷ rest)

abbrev pub count : List Action → ℕ
count = length

pub enqueue_many-eq-append : (q more : List Action) → enqueue_many q more ≡ q ++ more
unfolding enqueue_many enqueue
enqueue_many-eq-append q [] = sym (append-nil q)
enqueue_many-eq-append q (a ∷ more) =
    enqueue_many-eq-append (q ++ a ∷ []) more ∙ append_assoc q (a ∷ []) more

-- What `remove` takes out is what `find` sees, at one position of the queue, with an id that
-- nothing before it has; the actions before and after it keep their places.
pub remove_splits :
    (q : List Action) (i : Uuid) {a : Action}
    → find q i ≡ some a
    → (before after : List Action) × (q ≡ before ++ a ∷ after)
      × (remove q i ≡ (some a, before ++ after))
      × All (λ b. b.id ≢ i) before
      × (a.id ≡ i)
unfolding find remove
remove_splits [] i h = cc
remove_splits (b ∷ q) i {a} h = elim (Bool-cases (b.id == i)) [
  | inl here ↦ ([], q, ground arith, ground arith, tt, ground arith)
  | inr not_here ↦
      let (before, after, e, r, distinct, same) = remove_splits q i {a = a} (ground arith) in
      (b ∷ before, after, ground arith, ground arith, (ground arith, distinct), same)
]

pub remove-none : (q : List Action) (i : Uuid) → find q i ≡ none → remove q i ≡ (none, q)
unfolding find remove
remove-none [] i h = refl
remove-none (a ∷ q) i h = ground (arith, remove-none q i)
