-- ===== src/Rows/Messages.antt =====
-- The scan of a message by the visitors of a path.
use postgres_protobuf.Common.{
  ℕ, zero, suc, ◌+◌, ◌≤◌, ◌≡◌, refl, sym, ap, ◌∙◌, inl, inr, Bool, true, false, none, some, List,
  [], ◌∷◌, ◌++◌, arith, if◌then◌else◌, Bool-cases, length, Bytes,
}
use mathlib.Core.Path.{subst}
use mathlib.Core.List.{append_assoc}
use postgres_protobuf.Outcome.{Succeeds, succeeds, out_of_fuel, and_then-Succeeds}
use postgres_protobuf.Library.{CodedInputStream, Protobuf}
use postgres_protobuf.Visitor.{Visitor, descend_into_submessage}
use postgres_protobuf.Traverser.State.{Traversal, StackElement}
use postgres_protobuf.Traverser.Steps.{SubScan}
use postgres_protobuf.Traverser.{scan_tag, scan_field, scan_fields}
use postgres_protobuf.Rows.Spec.{
  Message, no_more, scalar, bytes, submessage, Rows, ◌and_rows◌, Picker, fields, entry, QueryPath,
  value, pick, select, chain, picks, counted, Tagged, Decodes, rows_from,
}
use postgres_protobuf.Rows.Zipper.{at, element}
use postgres_protobuf.Rows.Fields.Round.{before, within, Between, scan_fields-round}
use postgres_protobuf.Rows.Fields.Shown.{rows_same}
use postgres_protobuf.Rows.Fields.Scalars.{scalar-Adds}
use postgres_protobuf.Rows.Fields.Delimited.{Adds, other-Adds}
use postgres_protobuf.Rows.Fields.Picked.{contents-Adds}
use postgres_protobuf.Rows.Submessages.{Scans}
use postgres_protobuf.Rows.Submessages.Rounds.{submessage-Adds}
use postgres_protobuf.Rows.Submessages.Entries.{entry-Adds}

-- Rows that come from two parts.
both_rows :
    (a b : Rows) (out : List Bytes)
    → a and_rows b ≡ some out
    → (xs ys : List Bytes) × (a ≡ some xs) × (b ≡ some ys) × (xs ++ ys ≡ out)
both_rows none b out e = cc
both_rows (some xs) none out e = cc
both_rows (some xs) (some ys) out e = (xs, ys, refl, refl, cc)

module _ (lib : CodedInputStream) (pb : Protobuf) (junk : ℕ) (sub : SubScan) where
  open lib use {Stream}

  module _ (Rest : Stream → Type 0) (g : ℕ) (front : List Visitor) (picker : Picker)
      (path : QueryPath) (kk : ℕ) (stack : List StackElement) (d : ℕ) where
    -- The scan from a stream on, by a selector that has seen `c` last and `k` wanted fields.
    abbrev From : ℕ → Stream → Bool → ℕ → ℕ → List Bytes → List Bytes → Type 0
    From fuel s mode c k rows rows' =
        Scans lib pb junk sub Rest g fuel s front picker path mode c k kk stack d rows rows'

    -- The states after the message.
    abbrev Finally : List Bytes → Unit {0} → Traversal Stream → Type 0
    Finally rows' u st' =
        (c' k' : ℕ) × Between lib pb junk sub Rest front picker path kk stack d c' k' rows' u st'

    -- A field and what follows it.
    next_round :
        (Next : Stream → Type 0) (fuel : ℕ) (s s₁ : Stream) (number wire_type : ℕ) (mode : Bool)
        (c k : ℕ) (rows xs ys out : List Bytes) (t : Tagged lib s number wire_type s₁)
        → Succeeds
            (Between lib pb junk sub Next front picker path kk stack d number
              (counted picker number k)
              (rows ++ xs))
            (scan_tag lib pb junk sub
              (scan_field lib pb junk sub g)
              t.tag
              (at lib s₁ front (before picker path mode c k) (chain path rows) kk stack d))
        → ((s' : Stream) (mode' : Bool)
            → Next s'
            → From fuel s' mode' number (counted picker number k) (rows ++ xs) ((rows ++ xs) ++ ys))
        → xs ++ ys ≡ out
        → From (suc fuel) s mode c k rows (rows ++ out)
    next_round Next fuel s s₁ number wire_type mode c k rows xs ys out t first later e =
        subst (From (suc fuel) s mode c k rows) (append_assoc rows xs ys ∙ ap (λ o. rows ++ o) e) (
          subst (Succeeds (Finally ((rows ++ xs) ++ ys)))
            (sym (
              scan_fields-round lib pb junk sub (scan_field lib pb junk sub g) fuel s s₁ front
                (before picker path mode c k) (chain path rows) kk stack d number wire_type t))
            (and_then-Succeeds first λ u st' b.
              let (next, mode', q) = b in
              subst
                (λ st.
                  Succeeds (Finally ((rows ++ xs) ++ ys))
                    (scan_fields lib pb junk sub (scan_field lib pb junk sub g) fuel st))
                (sym q) (later st'.stream mode' next)))

    ends_message :
        (fuel : ℕ) (s : Stream) (mode : Bool) (c k : ℕ) (rows out : List Bytes)
        → Decodes lib no_more Rest s
        → ◌≡◌ {A = Rows} (some []) (some out)
        → From (suc fuel) s mode c k rows (rows ++ out)
    unfolding Decodes scan_fields
    ends_message fuel s mode c k rows out h e =
        let (zero_tag, consumed, rest) = h in
        subst (From (suc fuel) s mode c k rows) (rows_same rows out e)
          (rw (zero_tag, consumed) (succeeds (c, k, (rest, mode, refl))))

  pub scan_fields-Scans :
      (message : Message) (Rest : Stream → Type 0) (g fuel : ℕ) (s : Stream) (front : List Visitor)
      (picker : Picker) (path : QueryPath) (mode : Bool) (c k kk : ℕ) (stack : List StackElement)
      (d : ℕ) (rows out : List Bytes)
      → Decodes lib message Rest s
      → rows_from pb junk picker path k message ≡ some out
      → kk ≤ d
      → Scans lib pb junk sub Rest g fuel s front picker path mode c k kk stack d rows (rows ++ out)
  unfolding Decodes rows_from scan_fields
  scan_fields-Scans message Rest g zero s front picker path mode c k kk stack d rows out m e h =
      out_of_fuel
  scan_fields-Scans no_more Rest g (suc fuel) s front picker path mode c k kk stack d rows out m e
        h =
      ends_message Rest g front picker path kk stack d fuel s mode c k rows out m e
  scan_fields-Scans (scalar number wire_type x rest) Rest g (suc fuel) s front picker path mode c k
        kk stack d rows out m e h =
      let (s₁, t, s₂, r, n) = m in
      let (xs, ys, a, b, o) = both_rows _ _ out e in
      next_round Rest g front picker path kk stack d (Decodes lib rest Rest) fuel s s₁ number
        wire_type mode c k rows xs ys out t
        (scalar-Adds lib pb junk sub front picker kk stack d number wire_type x mode c k s s₁ s₂ t r
          (Decodes lib rest Rest) g rows path xs h a n)
        (λ s' mode' n'.
          scan_fields-Scans rest Rest g fuel s' front picker path mode' number
            (counted picker number k) kk stack d (rows ++ xs) ys n' b h)
        o
  scan_fields-Scans (bytes number contents rest) Rest g (suc fuel) s front picker path mode c k kk
        stack d rows out m e h =
      let (s₁, t, s₂, r) = m in
      let (xs, ys, a, b, o) = both_rows _ _ out e in
      next_round Rest g front picker path kk stack d (Decodes lib rest Rest) fuel s s₁ number 2 mode
        c k rows xs ys out t
        (contents-Adds lib pb junk sub front kk stack d number contents mode c k s s₁ s₂ t
          (Decodes lib rest Rest) r g rows h picker path xs a)
        (λ s' mode' n'.
          scan_fields-Scans rest Rest g fuel s' front picker path mode' number
            (counted picker number k) kk stack d (rows ++ xs) ys n' b h)
        o
  scan_fields-Scans (submessage number contents message rest) Rest g (suc fuel) s front picker
        (value shown) mode c k kk stack d rows out m e h =
      let (s₁, t, s₂, r, limit, s₃, i, inside) = m in
      let (xs, ys, a, b, o) = both_rows _ _ out e in
      next_round Rest g front picker (value shown) kk stack d (Decodes lib rest Rest) fuel s s₁
        number 2 mode c k rows xs ys out t
        (contents-Adds lib pb junk sub front kk stack d number contents mode c k s s₁ s₂ t
          (Decodes lib rest Rest) r g rows h picker (value shown) xs a)
        (λ s' mode' n'.
          scan_fields-Scans rest Rest g fuel s' front picker (value shown) mode' number
            (counted picker number k) kk stack d (rows ++ xs) ys n' b h)
        o
  scan_fields-Scans (submessage number contents message rest) Rest g (suc fuel) s front picker
        (select field' index' path') mode c k kk stack d rows out m e h =
      let (s₁, t, s₂, r, limit, s₃, i, inside) = m in
      let (xs, ys, a, b, o) = both_rows _ _ out e in
      let path : QueryPath = select field' index' path' in
      let picked = λ (b : Bool).
        if b then rows_from pb junk (fields field' index') path' 0 message else some [] in
      next_round Rest g front picker path kk stack d (Decodes lib rest Rest) fuel s s₁ number 2 mode
        c k rows xs ys out t
        (elim (Bool-cases (picks picker k number)) [
          | inl p ↦
              submessage-Adds lib pb junk sub front picker field' index' path' kk stack d number
                contents mode c k s s₁ s₂ s₃ limit t (Decodes lib rest Rest) r rows (rows ++ xs) h p
                i g
                (λ g'.
                  scan_fields-Scans message
                    (λ s₄.
                      Decodes lib rest Rest (lib.decrement_recursion_depth_and_pop_limit limit s₄))
                    g' (suc g') s₃
                    (descend_into_submessage ∷ within picker path true mode number k ∷ front)
                    (fields field' index') path' false 0 0 (d + 1)
                    (element (suc (length front)) (d + 1) ∷ element (length front) kk ∷ stack)
                    (d + 1) rows xs inside (ap picked (sym p) ∙ a) (omega arith))
          | inr p ↦
              subst
                (Adds lib pb junk sub front picker kk stack d number contents mode c k s s₁ s₂ t
                  (Decodes lib rest Rest) r g rows path)
                (rows_same rows xs (ap picked (sym p) ∙ a))
                (other-Adds lib pb junk sub front picker kk stack d number contents mode c k s s₁ s₂
                  t (Decodes lib rest Rest) r g rows path h p)
        ])
        (λ s' mode' n'.
          scan_fields-Scans rest Rest g fuel s' front picker path mode' number
            (counted picker number k) kk stack d (rows ++ xs) ys n' b h)
        o
  scan_fields-Scans (submessage number contents message rest) Rest g (suc fuel) s front picker
        (pick (entry want_keys) path') mode c k kk stack d rows out m e h =
      let (s₁, t, s₂, r, limit, s₃, i, inside) = m in
      let (xs, ys, a, b, o) = both_rows _ _ out e in
      let path : QueryPath = pick (entry want_keys) path' in
      let picked =
        λ (b : Bool). if b then rows_from pb junk (entry want_keys) path' 0 message else some [] in
      next_round Rest g front picker path kk stack d (Decodes lib rest Rest) fuel s s₁ number 2 mode
        c k rows xs ys out t
        (elim (Bool-cases (picks picker k number)) [
          | inl p ↦
              entry-Adds lib pb junk sub front picker want_keys path' kk stack d number contents
                mode c k s s₁ s₂ s₃ limit t (Decodes lib rest Rest) r rows (rows ++ xs) h p i g
                (λ g'.
                  scan_fields-Scans message
                    (λ s₄.
                      Decodes lib rest Rest (lib.decrement_recursion_depth_and_pop_limit limit s₄))
                    g' (suc g') s₃ (within picker path true mode number k ∷ front) (entry want_keys)
                    path' false 0 0 (d + 1) (element (length front) kk ∷ stack) (d + 1) rows xs
                    inside (ap picked (sym p) ∙ a) (omega arith))
          | inr p ↦
              subst
                (Adds lib pb junk sub front picker kk stack d number contents mode c k s s₁ s₂ t
                  (Decodes lib rest Rest) r g rows path)
                (rows_same rows xs (ap picked (sym p) ∙ a))
                (other-Adds lib pb junk sub front picker kk stack d number contents mode c k s s₁ s₂
                  t (Decodes lib rest Rest) r g rows path h p)
        ])
        (λ s' mode' n'.
          scan_fields-Scans rest Rest g fuel s' front picker path mode' number
            (counted picker number k) kk stack d (rows ++ xs) ys n' b h)
        o
