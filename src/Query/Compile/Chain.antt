-- ===== src/Query/Compile/Chain.antt =====
-- The shape of a compiled query: visitors that hand fields on, and one emitter at the end.
use postgres_protobuf.Common.{
  ℕ, ◌-◌, ◌≡◌, refl, inl, inr, Bool, true, false, not, ◌&&◌, Option, none, some, List, [], ◌∷◌,
  ◌++◌, ◌==◌, if◌then◌else◌, Option-cases, length, drop, All, All-append, Bytes, text, bytes_eq,
  substr,
}
use postgres_protobuf.Result.{
  ok, Ensures, returns, throws, bind-Ensures, any-Ensures, if-Ensures, throw_if-Ensures, Ensures-ok,
}
use postgres_protobuf.Common.Strto.{stoll}
use postgres_protobuf.Visitor.Treatments.{is_message}
use postgres_protobuf.Library.{Protobuf, FieldDescriptor}
use postgres_protobuf.Field.{Uninitialized}
use postgres_protobuf.Visitor.{
  Visitor, descend_into_submessage, field_selector, map_filter, all_map_entries, primitive_emitter,
  enum_emitter, message_emitter,
}
use postgres_protobuf.Query.Part.{
  index_of, wanted_key, map_fields, is_bracketed, is_empty, plain, known, find_field,
  field_selector_end, is_enum, DescPtrs, Selection, describe, select_index, select_entries,
  select_map, select_repeated, compile_query_part,
}
use postgres_protobuf.Query.Compile.{
  Compiled, descend, compile_path, compile_last, root_visitors, root_ptrs, create_emitter,
  compile_visitors, asserted,
}

-- A visitor that emits nothing itself.
abbrev pub HandsOn : Visitor → Type 0
HandsOn descend_into_submessage = Unit
HandsOn (field_selector s) = Unit
HandsOn (map_filter f) = Unit
HandsOn (all_map_entries a) = Unit
HandsOn _ = ⊥

-- An emitter that has no rows yet, and no limit.
abbrev pub IsFresh : Visitor → Type 0
IsFresh (primitive_emitter e) = (e.rows ≡ []) × (e.limit ≡ none)
IsFresh (enum_emitter d e) = (e.rows ≡ []) × (e.limit ≡ none)
IsFresh (message_emitter r url e) = (e.rows ≡ []) × (e.limit ≡ none)
IsFresh _ = ⊥

abbrev pub IsChain : List Visitor → Type 0
IsChain vs =
    (front : List Visitor) × (last : Visitor) × (vs ≡ front ++ last ∷ [])
    × All HandsOn front
    × IsFresh last

-- What a step of the compilation adds hands fields on.
abbrev Adds : Selection → Type 0
Adds s = All HandsOn s.added

abbrev Keeps : Compiled → Type 0
Keeps c = All HandsOn c.0

asserted-IsFresh :
    (o : Option ℕ) (k : ℕ → Visitor)
    → ((d : ℕ) → IsFresh (k d))
    → Ensures IsFresh (asserted o (λ d. ok (k d)))
asserted-IsFresh none k h = throws
asserted-IsFresh (some d) k h = returns (h d)

module _ (pb : Protobuf) (u : Uninitialized) where
  select_index-Adds : (s : Bytes) (p : DescPtrs) → Ensures Adds (select_index s p)
  unfolding select_index
  select_index-Adds s p =
      if-Ensures (bytes_eq s (text "*")) (returns tt)
        (bind-Ensures (any-Ensures (index_of s (stoll s))) λ n _. returns tt)

  select_entries-Adds :
      (keys : Bool) (s : Bytes) (k v : FieldDescriptor) (p : DescPtrs)
      → Ensures Adds (select_entries pb u keys s k v p)
  unfolding select_entries
  select_entries-Adds true s k v p = returns (tt, tt)
  select_entries-Adds false s k v p =
      if-Ensures (bytes_eq s (text "*")) (returns (tt, tt))
        (bind-Ensures (any-Ensures (wanted_key pb u k.type s)) λ key _. returns (tt, tt))

  select_map-Adds :
      (keys : Bool) (s : Bytes) (p : DescPtrs) → Ensures Adds (select_map pb u keys s p)
  unfolding select_map
  select_map-Adds keys s p = elim (Option-cases p.desc) [
    | inl e ↦ rw (e, select_map) throws
    | inr (d, e) ↦
        rw (e, select_map)
          (bind-Ensures
            (any-Ensures (map_fields (pb.find_field_by_number d 1) (pb.find_field_by_number d 2)))
            λ kv _. select_entries-Adds keys s kv.0 kv.1 p)
  ]

  select_repeated-Adds :
      (fd : FieldDescriptor) (s : Bytes) (p : DescPtrs) → Ensures Adds (select_repeated pb u fd s p)
  unfolding select_repeated
  select_repeated-Adds fd s p =
      let bracketed = is_bracketed s in
      let keys = bytes_eq s (text "|keys") in
      let inner = if bracketed then substr s 1 (length s - 2) else s in
      throw_if-Ensures (not bracketed && not keys) _ (
        throw_if-Ensures (bracketed && is_empty inner) _ (
          throw_if-Ensures (keys && not fd.is_map) _
            (if-Ensures fd.is_map (select_map-Adds keys inner p) (select_index-Adds inner p))))

  selection-Adds :
      (fd : FieldDescriptor) (s : Bytes) (p : DescPtrs)
      → Ensures Adds (if fd.is_repeated then select_repeated pb u fd s p else ok (plain p))
  selection-Adds fd s p = if-Ensures fd.is_repeated (select_repeated-Adds fd s p) (returns tt)

  part-Keeps :
      (part : Bytes) (c : Compiled) → Keeps c → Ensures Keeps (compile_query_part pb u part c)
  unfolding compile_query_part
  part-Keeps part (vs, ptrs) h = bind-Ensures (any-Ensures (known ptrs.desc part)) λ desc _.
      throw_if-Ensures (is_empty part) _ (
        bind-Ensures (any-Ensures (find_field pb desc part)) λ fd _.
          throw_if-Ensures (not fd.is_repeated && not (field_selector_end part == length part)) _ (
            bind-Ensures (selection-Adds fd (drop (field_selector_end part) part) (describe fd))
              λ s k. returns (All-append HandsOn vs _ h (tt, k))))

  path-Keeps :
      (path buf : Bytes) (c : Compiled)
      → Keeps c
      → Ensures (λ (r : Bytes × Compiled). Keeps r.1) (compile_path pb u path buf c)
  unfolding compile_path
  path-Keeps [] buf c h = returns h
  path-Keeps (ch ∷ path) buf c h =
      if-Ensures (ch == b'.')
        (bind-Ensures (part-Keeps buf c h)
          λ c' k. path-Keeps path [] (descend c') (All-append HandsOn c'.0 _ k (tt, tt)))
        (path-Keeps path (buf ++ ch ∷ []) c h)

  last-Keeps : (r : Bytes × Compiled) → Keeps r.1 → Ensures Keeps (compile_last pb u r)
  last-Keeps ([], c) h = returns h
  last-Keeps (b ∷ bs, c) h = part-Keeps (b ∷ bs) c h

  create_emitter-IsFresh :
      (p : DescPtrs) (r : ℕ) (limit : Option ℕ) → Ensures IsFresh (create_emitter pb p r limit)
  unfolding create_emitter
  create_emitter-IsFresh p r limit =
      if-Ensures (is_message p.ty) (asserted-IsFresh p.desc _ (λ d. (refl, refl))) (
        if-Ensures (is_enum p.ty) (asserted-IsFresh p.enum_desc _ (λ d. (refl, refl)))
          (returns (refl, refl)))

  root-HandsOn : (path : Bytes) → All HandsOn (root_visitors path)
  root-HandsOn [] = tt
  root-HandsOn (ch ∷ path) = (tt, tt)

  -- A query that compiles is a chain: visitors that only hand fields on, and then one emitter, with
  -- no rows yet and with no limit, whatever limit was asked for.
  pub compile_visitors-IsChain :
      (type_resolver desc : ℕ) (path : Bytes) (limit : Option ℕ) (vs : List Visitor)
      → compile_visitors pb u type_resolver desc path limit ≡ ok vs
      → IsChain vs
  unfolding compile_visitors
  compile_visitors-IsChain r desc path limit vs = Ensures-ok {P = IsChain} (
      bind-Ensures (path-Keeps path [] (root_visitors path, root_ptrs desc) (root-HandsOn path))
        λ p k. bind-Ensures (last-Keeps p k) λ c h.
          bind-Ensures (create_emitter-IsFresh c.1 r limit) λ e f. returns (c.0, e, refl, h, f))
