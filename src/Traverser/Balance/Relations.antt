-- ===== src/Traverser/Balance/Relations.antt =====
-- Two states of the traverser compared: the same depth and stack of visitors, or more on the stack.
use postgres_protobuf.Common.{
  ℕ, ◌≤◌, ◌≡◌, refl, sym, ap, ◌∙◌, List, [], ◌∷◌, ◌++◌, arith, All, All-append,
}
use mathlib.Core.List.{append_assoc}
use postgres_protobuf.Library.{CodedInputStream}
use postgres_protobuf.Traverser.State.{Traversal, StackElement}
use postgres_protobuf.Traverser.Steps.{top_visitor}

module _ (lib : CodedInputStream) where
  open lib use {Stream}

  -- The same depth, stack and current visitor.
  pub record Same (st st' : Traversal Stream) : Type 0 where
    pub depth : st'.depth ≡ st.depth
    pub stack : st'.stack ≡ st.stack
    pub visitor : st'.visitor ≡ st.visitor

  -- The same depth, and the same stack below visitors that were pushed at that depth.
  pub record Above (st st' : Traversal Stream) : Type 0 where
    pub extra : List StackElement
    pub depth : st'.depth ≡ st.depth
    pub stack : st'.stack ≡ extra ++ st.stack
    pub added : All (λ (e : StackElement). e.depth_added ≡ st.depth) extra
    pub visitor : st'.visitor ≡ top_visitor st.visitor extra

  -- The current visitor is on top of the stack, and was pushed at this depth or before.
  pub record IsGrounded (st : Traversal Stream) : Type 0 where
    pub top : StackElement
    pub rest : List StackElement
    pub stack : st.stack ≡ top ∷ rest
    pub visitor : st.visitor ≡ top.visitor
    pub added : top.depth_added ≤ st.depth

  pub Same-refl : (st : Traversal Stream) → Same st st
  Same-refl st = record { depth = refl; stack = refl; visitor = refl }

  pub Same-trans : {a b c : Traversal Stream} → Same a b → Same b c → Same a c
  Same-trans s t = record {
    depth = t.depth ∙ s.depth;
    stack = t.stack ∙ s.stack;
    visitor = t.visitor ∙ s.visitor;
  }

  pub Same-Above : {a b c : Traversal Stream} → Same a b → Above b c → Above a c
  Same-Above {a} {b} s t = record {
    extra = t.extra;
    depth = t.depth ∙ s.depth;
    stack = t.stack ∙ ap (λ r. t.extra ++ r) s.stack;
    added = rw (← s.depth) t.added;
    visitor = t.visitor ∙ ap (λ v. top_visitor v t.extra) s.visitor;
  }

  pub Above-Same : {a b c : Traversal Stream} → Above a b → Same b c → Above a c
  Above-Same s t = record {
    extra = s.extra;
    depth = t.depth ∙ s.depth;
    stack = t.stack ∙ s.stack;
    added = s.added;
    visitor = t.visitor ∙ s.visitor;
  }

  pub Above-refl : (st : Traversal Stream) → Above st st
  Above-refl st = record { extra = []; depth = refl; stack = refl; added = tt; visitor = refl }

  top_append :
      (v : ℕ) (xs ys : List StackElement)
      → top_visitor (top_visitor v ys) xs ≡ top_visitor v (xs ++ ys)
  top_append v [] ys = refl
  top_append v (x ∷ xs) ys = refl

  pub Above-trans : {a b c : Traversal Stream} → Above a b → Above b c → Above a c
  Above-trans {a} s t = record {
    extra = t.extra ++ s.extra;
    depth = t.depth ∙ s.depth;
    stack = t.stack ∙ ap (λ r. t.extra ++ r) s.stack ∙ sym (append_assoc t.extra s.extra a.stack);
    added =
        All-append (λ (e : StackElement). e.depth_added ≡ a.depth) t.extra s.extra
          (rw (← s.depth) t.added) s.added;
    visitor =
        t.visitor
        ∙ ap (λ v. top_visitor v t.extra) s.visitor
        ∙ top_append a.visitor t.extra s.extra;
  }

  pub Same-IsGrounded : {a b : Traversal Stream} → Same a b → IsGrounded a → IsGrounded b
  Same-IsGrounded s g = record {
    top = g.top;
    rest = g.rest;
    stack = s.stack ∙ g.stack;
    visitor = s.visitor ∙ g.visitor;
    added = rw s.depth g.added;
  }

  on_top :
      (v d : ℕ) (extra : List StackElement) (top : StackElement) (rest : List StackElement)
      → All (λ (e : StackElement). e.depth_added ≡ d) extra
      → v ≡ top.visitor
      → top.depth_added ≤ d
      → (t : StackElement) × (r : List StackElement) × (extra ++ top ∷ rest ≡ t ∷ r)
        × (top_visitor v extra ≡ t.visitor)
        × (t.depth_added ≤ d)
  on_top v d [] top rest a h l = (top, rest, refl, h, l)
  on_top v d (e ∷ es) top rest (a, more) h l = (e, es ++ top ∷ rest, refl, refl, omega arith)

  pub Above-IsGrounded : {a b : Traversal Stream} → Above a b → IsGrounded a → IsGrounded b
  Above-IsGrounded {a} {b} s g =
      let (t, r, e, v, l) =
        on_top a.visitor a.depth s.extra g.top g.rest s.added g.visitor g.added in
      record {
        top = t;
        rest = r;
        stack = s.stack ∙ ap (λ r. s.extra ++ r) g.stack ∙ e;
        visitor = s.visitor ∙ v;
        added = rw s.depth l;
      }
