-- ===== src/Rows/Fields/Picked.antt =====
-- The rows that a length-delimited field adds by its contents.
use postgres_protobuf.Common.{
  ℕ, ◌≤◌, ◌≡◌, refl, sym, ap, ◌∙◌, inl, inr, Bool, true, some, List, [], ◌++◌, if◌then◌else◌,
  Bool-cases, length, Bytes,
}
use mathlib.Core.Path.{subst}
use postgres_protobuf.Library.{CodedInputStream, Protobuf}
use postgres_protobuf.Visitor.{Visitor}
use postgres_protobuf.Visitor.Treatments.{is_message}
use postgres_protobuf.Traverser.State.{StackElement}
use postgres_protobuf.Traverser.Steps.{SubScan}
use postgres_protobuf.Rows.Spec.{
  Shown, as_primitive, as_enum, as_json, Picker, fields, entry, QueryPath, value, pick, picks,
  Tagged, Delimited, bytes_rows,
}
use postgres_protobuf.Rows.Fields.Round.{begins_wanted, begins_message}
use postgres_protobuf.Rows.Fields.Shown.{rows_same}
use postgres_protobuf.Rows.Fields.Treated.{contents_rows-not_message}
use postgres_protobuf.Rows.Fields.Delimited.{Adds, other-Adds, value-Adds, kept-Adds}

module _ (lib : CodedInputStream) (pb : Protobuf) (junk : ℕ) (sub : SubScan) (front : List Visitor)
    (kk : ℕ) (stack : List StackElement) (d number : ℕ) (contents : Bytes) (mode : Bool) (c k : ℕ)
    (s₀ s s₂ : lib.Stream) (t : Tagged lib s₀ number 2 s) (Next : lib.Stream → Type 0)
    (r : Delimited lib s contents s₂ Next) (g : ℕ) (rows : List Bytes) (h : kk ≤ d) where
  shown-Adds :
      (picker : Picker) (shown : Shown) (out : List Bytes)
      → picks picker k number ≡ true
      → bytes_rows pb junk (value shown) contents ≡ some out
      → Adds lib pb junk sub front picker kk stack d number contents mode c k s₀ s s₂ t Next r g
          rows
          (value shown)
          (rows ++ out)
  unfolding bytes_rows is_message
  shown-Adds (fields field index) (as_primitive ty) out p e =
      value-Adds lib pb junk sub front field index kk stack d number contents mode c k s₀ s s₂ t
        Next r g rows (as_primitive ty) out h p (contents_rows-not_message ty contents out e) e
  shown-Adds (fields field index) (as_enum descriptor) out p e =
      value-Adds lib pb junk sub front field index kk stack d number contents mode c k s₀ s s₂ t
        Next r g rows (as_enum descriptor) out h p refl e
  shown-Adds (fields field index) (as_json type_resolver type_url) out p e =
      kept-Adds lib pb junk sub front (fields field index) kk stack d number contents mode c k s₀ s
        s₂ t Next r g rows (as_json type_resolver type_url) out h
        (begins_message (value (as_json type_resolver type_url)) (length front) number k mode c
          (fields field index) refl p)
        e
  shown-Adds (entry want_keys) shown out p e =
      kept-Adds lib pb junk sub front (entry want_keys) kk stack d number contents mode c k s₀ s s₂
        t Next r g rows shown out h
        (begins_wanted (value shown) (length front) number k mode c want_keys p) e

  picked-Adds :
      (picker : Picker) (path : QueryPath) (out : List Bytes)
      → picks picker k number ≡ true
      → bytes_rows pb junk path contents ≡ some out
      → Adds lib pb junk sub front picker kk stack d number contents mode c k s₀ s s₂ t Next r g
          rows path
          (rows ++ out)
  unfolding bytes_rows
  picked-Adds picker (value shown) out p e = shown-Adds picker shown out p e
  picked-Adds picker (pick picker' path') out p e = cc

  -- The field adds the rows of its contents.
  pub contents-Adds :
      (picker : Picker) (path : QueryPath) (out : List Bytes)
      → (if picks picker k number then bytes_rows pb junk path contents else some []) ≡ some out
      → Adds lib pb junk sub front picker kk stack d number contents mode c k s₀ s s₂ t Next r g
          rows path
          (rows ++ out)
  contents-Adds picker path out e =
      let picked = λ (b : Bool). if b then bytes_rows pb junk path contents else some [] in
      elim (Bool-cases (picks picker k number)) [
        | inl p ↦ picked-Adds picker path out p (ap picked (sym p) ∙ e)
        | inr p ↦
            subst
              (Adds lib pb junk sub front picker kk stack d number contents mode c k s₀ s s₂ t Next
                r g rows path)
              (rows_same rows out (ap picked (sym p) ∙ e))
              (other-Adds lib pb junk sub front picker kk stack d number contents mode c k s₀ s s₂ t
                Next r g rows path h p)
      ]
