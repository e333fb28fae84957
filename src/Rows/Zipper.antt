-- ===== src/Rows/Zipper.antt =====
-- A state of the traverser seen from its current visitor: the visitors before it, from the nearest
-- on, and the visitors after it; and what the steps of the traverser do to such a state.
pub mod Ends
use postgres_protobuf.Common.{
  ℕ, suc, ◌+◌, ◌-◌, ◌≤◌, ◌≡◌, refl, ap, ◌∙◌, Option, none, some, List, [], ◌∷◌, arith, eq→==, ne→==,
  ◌==◌, if◌then◌else◌, length, get_elem?, set, lt→ltb, not_lt→ltb,
}
use native.Mathlib.Nat.{zero-add}
use postgres_protobuf.Outcome.{Error, Outcome, done, M, and_then}
use postgres_protobuf.Library.{CodedInputStream}
use postgres_protobuf.Visitor.{Visitor, visit_end_field, visit_popped}
use postgres_protobuf.Visitor.Filters.{MapFilter}
use postgres_protobuf.Traverser.State.{Traversal, StackElement}
use postgres_protobuf.Traverser.Steps.{
  SubScan, call, raise, emit, push_visitor, pop_visitor, push_loop, popped_at, finish, end_field,
  pop_loop, decrement_depth_and_end_field_and_pop_visitors,
}

abbrev pub zip : {A : Type 0} → List A → List A → List A
zip [] rest = rest
zip (x ∷ front) rest = zip front (x ∷ rest)

module _ {A : Type 0} where
  get_at :
      (front rest : List A) (i : ℕ)
      → get_elem? (zip front rest) (length front + i) ≡ get_elem? rest i
  get_at [] rest i = rw zero-add refl
  get_at (x ∷ front) rest i =
      ap (get_elem? (zip front (x ∷ rest))) (omega arith) ∙ get_at front (x ∷ rest) (suc i)

  set_at :
      (front rest : List A) (i : ℕ) (v : A)
      → set (zip front rest) (length front + i) v ≡ zip front (set rest i v)
  set_at [] rest i v = rw zero-add refl
  set_at (x ∷ front) rest i v =
      ap (λ k. set (zip front (x ∷ rest)) k v) (omega arith) ∙ set_at front (x ∷ rest) (suc i) v

  pub get_here :
      (front rest : List A) (v : A) → get_elem? (zip front (v ∷ rest)) (length front) ≡ some v
  get_here front rest v =
      ap (get_elem? (zip front (v ∷ rest))) (omega arith) ∙ get_at front (v ∷ rest) 0

  pub set_here :
      (front rest : List A) (v w : A)
      → set (zip front (v ∷ rest)) (length front) w ≡ zip front (w ∷ rest)
  set_here front rest v w =
      ap (λ k. set (zip front (v ∷ rest)) k w) (omega arith) ∙ set_at front (v ∷ rest) 0 w

  pub length-zip : (front rest : List A) → length (zip front rest) ≡ length front + length rest
  length-zip [] rest = omega arith
  length-zip (x ∷ front) rest = omega (arith, length-zip front (x ∷ rest))

abbrev pub element : ℕ → ℕ → StackElement
element visitor depth_added = record { visitor = visitor; depth_added = depth_added }

module _ (lib : CodedInputStream) where
  open lib use {Stream}

  -- The current visitor `v` is on top of the stack, pushed at depth `k`.
  abbrev pub at :
      Stream → List Visitor → Visitor → List Visitor → ℕ → List StackElement → ℕ → Traversal Stream
  at s front v back k stack d = record {
    stream = s;
    visitors = zip front (v ∷ back);
    stack = element (length front) k ∷ stack;
    visitor = length front;
    depth = d;
  }

  -- What the loop does with a visitor's answer.
  abbrev pushes : ℕ → (ℕ → Visitor → Visitor × ℕ) → ℕ → M (Traversal Stream) (Unit {0})
  pushes fuel method new_visitor st =
      if new_visitor == st.visitor
      then done tt st
      else and_then (λ _. push_loop lib fuel method) (push_visitor lib new_visitor st)

  module _ (s : Stream) (front : List Visitor) (v : Visitor) (back : List Visitor) (k : ℕ)
      (stack : List StackElement) (d : ℕ) where
    pub call-at :
        {A : Type 0} (default : A) (method : ℕ → Visitor → Visitor × A)
        → call lib default method (at s front v back k stack d)
          ≡ done (method (length front) v).1 (at s front (method (length front) v).0 back k stack d)
    unfolding call
    call-at default method =
        rw (get_here front back v, call)
          (ap
            (λ vs.
              done (method (length front) v).1
                (record (at s front v back k stack d) { visitors = vs }))
            (set_here front back v (method (length front) v).0))

    pub emit-at :
        (method : Visitor → Visitor × Option Error) (v' : Visitor)
        → method v ≡ (v', none)
        → emit lib method (at s front v back k stack d) ≡ done tt (at s front v' back k stack d)
    unfolding emit
    emit-at method v' e =
        ap (and_then (raise lib)) (call-at none (λ _. method))
        ∙ ap
            (λ (p : Visitor × Option Error).
              and_then (raise lib) (done p.1 (at s front p.0 back k stack d)))
            e

    pub end_at :
        (sub : SubScan) (v' : Visitor)
        → visit_end_field v ≡ (v', none)
        → end_field lib sub (at s front v back k stack d) ≡ done tt (at s front v' back k stack d)
    unfolding end_field
    end_at sub v' e =
        ap (and_then (finish lib sub)) (call-at none (λ _. visit_end_field))
        ∙ ap
            (λ (p : Visitor × Option MapFilter).
              and_then (finish lib sub) (done p.1 (at s front p.0 back k stack d)))
            e

    -- A visitor that keeps the field, or hands it on to a visitor that keeps it.
    pub keeps_at :
        (fuel : ℕ) (method : ℕ → Visitor → Visitor × ℕ) (v' : Visitor)
        → method (length front) v ≡ (v', length front)
        → push_loop lib (suc fuel) method (at s front v back k stack d)
          ≡ done tt (at s front v' back k stack d)
    unfolding push_loop
    keeps_at fuel method v' e =
        ap (and_then (pushes fuel method)) (call-at (length front) method)
        ∙ ap
            (λ (p : Visitor × ℕ).
              and_then (pushes fuel method) (done p.1 (at s front p.0 back k stack d)))
            e
        ∙ rw (eq→== (length front) (length front) refl) refl

  pub hands_at :
      (s : Stream) (front : List Visitor) (v v' w w' : Visitor) (back : List Visitor) (k : ℕ)
      (stack : List StackElement) (d fuel : ℕ) (method : ℕ → Visitor → Visitor × ℕ)
      → method (length front) v ≡ (v', suc (length front))
      → method (suc (length front)) w ≡ (w', suc (length front))
      → push_loop lib (suc (suc fuel)) method (at s front v (w ∷ back) k stack d)
        ≡ done tt (at s (v' ∷ front) w' back d (element (length front) k ∷ stack) d)
  unfolding push_loop push_visitor
  hands_at s front v v' w w' back k stack d fuel method e f =
      ap (and_then (pushes (suc fuel) method))
        (call-at s front v (w ∷ back) k stack d (length front) method)
      ∙ ap
          (λ (p : Visitor × ℕ).
            and_then (pushes (suc fuel) method) (done p.1 (at s front p.0 (w ∷ back) k stack d)))
          e
      ∙ rw (ne→== (suc (length front)) (length front) (omega arith))
          (keeps_at s (v' ∷ front) w back d (element (length front) k ∷ stack) d fuel method w' f)

  popped_here :
      (front : List Visitor) (w : Visitor) (back : List Visitor)
      → popped_at (length front) (zip front (w ∷ back)) ≡ zip front (visit_popped w ∷ back)
  popped_here front w back =
      rw (get_here front back w, popped_at) (set_here front back w (visit_popped w))

  pub pop_at :
      (s : Stream) (front : List Visitor) (x w : Visitor) (back : List Visitor) (j k : ℕ)
      (stack : List StackElement) (d : ℕ)
      → pop_visitor lib (at s (x ∷ front) w back j (element (length front) k ∷ stack) d)
        ≡ done tt (at s front x (visit_popped w ∷ back) k stack d)
  unfolding pop_visitor
  pop_at s front x w back j k stack d =
      ap (λ vs. done tt (record (at s front x (visit_popped w ∷ back) k stack d) { visitors = vs }))
        (popped_here (x ∷ front) w back)
