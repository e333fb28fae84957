-- ===== src/Rows/Zipper/Ends.antt =====
-- The end of a field: the visitors that it was handed to are popped.
use postgres_protobuf.Common.{
  ℕ, suc, ◌+◌, ◌-◌, ◌≤◌, ◌≡◌, refl, ap, ◌∙◌, none, List, ◌∷◌, arith, length, lt→ltb, not_lt→ltb,
}
use postgres_protobuf.Outcome.{Outcome, done, and_then}
use postgres_protobuf.Library.{CodedInputStream}
use postgres_protobuf.Visitor.{Visitor, visit_end_field, visit_popped}
use postgres_protobuf.Traverser.State.{Traversal, StackElement}
use postgres_protobuf.Traverser.Steps.{
  SubScan, end_field, pop_loop, decrement_depth_and_end_field_and_pop_visitors,
}
use postgres_protobuf.Rows.Zipper.{at, element, pop_at, end_at}

add_sub : (d : ℕ) → d + 1 - 1 ≡ d
add_sub d = omega arith

module _ (lib : CodedInputStream) (sub : SubScan) where
  open lib use {Stream}

  stops_at :
      (s : Stream) (front : List Visitor) (v : Visitor) (back : List Visitor) (k : ℕ)
      (stack : List StackElement) (d : ℕ)
      → k ≤ d
      → pop_loop lib sub (element (length front) k ∷ stack) (at lib s front v back k stack d)
        ≡ done tt (at lib s front v back k stack d)
  unfolding pop_loop
  stops_at s front v back k stack d h = rw (not_lt→ltb d k (omega arith)) refl

  pops_at :
      (s : Stream) (front : List Visitor) (x x' w : Visitor) (back : List Visitor) (k : ℕ)
      (stack rest : List StackElement) (d : ℕ)
      → visit_end_field x ≡ (x', none)
      → pop_loop lib sub
          (element (suc (length front)) (d + 1) ∷ rest)
          (at lib s (x ∷ front) w back (d + 1) (element (length front) k ∷ stack) d)
        ≡ pop_loop lib sub rest (at lib s front x' (visit_popped w ∷ back) k stack d)
  unfolding pop_loop
  pops_at s front x x' w back k stack rest d e = rw (lt→ltb d (d + 1) (omega arith)) (
      ap (λ o. and_then (λ _. pop_loop lib sub rest) (and_then (λ _. end_field lib sub) o))
        (pop_at lib s front x w back (d + 1) k stack d)
      ∙ ap (and_then (λ _. pop_loop lib sub rest))
          (end_at lib s front x (visit_popped w ∷ back) k stack d sub x' e))

  -- The end of a field, from the state in which the depth is back.
  abbrev ended : Traversal Stream → Outcome (Traversal Stream) (Unit {0})
  ended st = and_then (λ _ st'. pop_loop lib sub st'.stack st') (end_field lib sub st)

  decrement_at :
      (s : Stream) (front : List Visitor) (v v' : Visitor) (back : List Visitor) (k : ℕ)
      (stack : List StackElement) (d : ℕ)
      → visit_end_field v ≡ (v', none)
      → decrement_depth_and_end_field_and_pop_visitors lib sub
          (at lib s front v back k stack (d + 1))
        ≡ pop_loop lib sub (element (length front) k ∷ stack) (at lib s front v' back k stack d)
  unfolding decrement_depth_and_end_field_and_pop_visitors
  decrement_at s front v v' back k stack d e =
      ap (λ k'. ended (at lib s front v back k stack k')) (add_sub d)
      ∙ ap (and_then (λ _ st'. pop_loop lib sub st'.stack st'))
          (end_at lib s front v back k stack d sub v' e)

  -- The end of a field that the current visitor has kept.
  pub kept_at :
      (s : Stream) (front : List Visitor) (v v' : Visitor) (back : List Visitor) (k : ℕ)
      (stack : List StackElement) (d : ℕ)
      → k ≤ d
      → visit_end_field v ≡ (v', none)
      → decrement_depth_and_end_field_and_pop_visitors lib sub
          (at lib s front v back k stack (d + 1))
        ≡ done tt (at lib s front v' back k stack d)
  kept_at s front v v' back k stack d h e =
      decrement_at s front v v' back k stack d e ∙ stops_at s front v' back k stack d h

  -- The end of a field that was handed on to the current visitor `w` by the one before.
  pub handed_at :
      (s : Stream) (front : List Visitor) (x x' w w' : Visitor) (back : List Visitor) (k : ℕ)
      (stack : List StackElement) (d : ℕ)
      → k ≤ d
      → visit_end_field w ≡ (w', none)
      → visit_end_field x ≡ (x', none)
      → decrement_depth_and_end_field_and_pop_visitors lib sub
          (at lib s (x ∷ front) w back (d + 1) (element (length front) k ∷ stack) (d + 1))
        ≡ done tt (at lib s front x' (visit_popped w' ∷ back) k stack d)
  handed_at s front x x' w w' back k stack d h e f =
      decrement_at s (x ∷ front) w w' back (d + 1) (element (length front) k ∷ stack) d e
      ∙ pops_at s front x x' w' back k stack (element (length front) k ∷ stack) d f
      ∙ stops_at s front x' (visit_popped w' ∷ back) k stack d h

  -- The same with a visitor `y` between the two.
  pub handed_twice_at :
      (s : Stream) (front : List Visitor) (x x' y y' w w' : Visitor) (back : List Visitor) (k : ℕ)
      (stack : List StackElement) (d : ℕ)
      → k ≤ d
      → visit_end_field w ≡ (w', none)
      → visit_end_field y ≡ (y', none)
      → visit_end_field x ≡ (x', none)
      → decrement_depth_and_end_field_and_pop_visitors lib sub (
          at lib s
            (y ∷ x ∷ front)
            w
            back
            (d + 1)
            (element (suc (length front)) (d + 1) ∷ element (length front) k ∷ stack)
            (d + 1))
        ≡ done tt (at lib s front x' (visit_popped y' ∷ visit_popped w' ∷ back) k stack d)
  handed_twice_at s front x x' y y' w w' back k stack d h e f g =
      let below : List StackElement = element (length front) k ∷ stack in
      let middle : List StackElement = element (suc (length front)) (d + 1) ∷ below in
      decrement_at s (y ∷ x ∷ front) w w' back (d + 1) middle d e
      ∙ pops_at s (x ∷ front) y y' w' back (d + 1) below middle d f
      ∙ pops_at s front x x' y' (visit_popped w' ∷ back) k stack below d g
      ∙ stops_at s front x' (visit_popped y' ∷ visit_popped w' ∷ back) k stack d h
