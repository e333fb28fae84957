-- ===== src/Rows/Texts/Compile.antt =====
-- What the text of a path compiles to.
use postgres_protobuf.Common.{
  ℕ, ◌≡◌, refl, sym, ap, ◌∙◌, Bool, true, false, none, Option, some, List, [], ◌∷◌, ◌++◌, All,
  Bytes,
}
use mathlib.Core.List.{append_assoc}
use postgres_protobuf.Result.{Result, ok, ◌>>=◌}
use postgres_protobuf.Library.{FieldType, FieldDescriptor, Protobuf, type_message}
use postgres_protobuf.Field.{Uninitialized}
use postgres_protobuf.Visitor.{Visitor, descend_into_submessage, all_map_entries}
use postgres_protobuf.Visitor.Entries.{new_all_map_entries}
use postgres_protobuf.Visitor.Treatments.{is_message}
use postgres_protobuf.Visitor.Emitters.{new_emitter}
use postgres_protobuf.Query.Part.{DescPtrs, describe, when, is_enum}
use postgres_protobuf.Query.Compile.{
  Compiled, descend, create_emitter, compile_path, compile_last, compile_visitors, root_visitors,
  root_ptrs,
}
use postgres_protobuf.Query.Compile.Paths.{
  IsPart, join, compile_parts, compile_path-join, >>=_assoc,
}
use postgres_protobuf.Rows.Spec.{
  Shown, emitter_of, QueryPath, entry, pick, value, select, ready, type_of, chain,
}
use postgres_protobuf.Rows.Parts.{compile_query_part-Part}
use postgres_protobuf.Rows.Parts.Maps.{
  entry_ptrs, entries_message, message_of, compile_query_part-Entries,
}
use postgres_protobuf.Rows.Texts.{
  IsShown, primitive, enum, json, IsEntry, primitive_entry, json_value, Names, last, next,
  last_entries, next_entries,
}

module _ (pb : Protobuf) (u : Uninitialized) (type_resolver : ℕ) (limit : Option ℕ) where
  -- The end of `CompileQuery`.
  abbrev finish : Compiled → Result (List Visitor)
  finish c = create_emitter pb c.1 type_resolver limit >>= λ emitter. ok (c.0 ++ emitter ∷ [])

  -- The visitors of a path behind other visitors.
  abbrev behind : List Visitor → QueryPath → List Visitor
  behind visitors (value shown) = visitors
  behind visitors (select field index path) =
      visitors ++ ready field index (type_of path) ∷ chain path []
  behind visitors (pick (entry want_keys) path) = visitors

  emitter_created :
      (fd : FieldDescriptor) (shown : Shown)
      → IsShown pb type_resolver fd shown
      → create_emitter pb (describe fd) type_resolver limit ≡ ok (emitter_of shown [])
  unfolding create_emitter describe new_emitter is_message is_enum
  emitter_created fd _ (primitive m e) = rw (m, e) refl
  emitter_created fd _ (enum t) =
      ap (λ ty. create_emitter pb (describe (record fd { type = ty })) type_resolver limit) t
  emitter_created fd _ (json t) =
      ap (λ ty. create_emitter pb (describe (record fd { type = ty })) type_resolver limit) t

  type_shown :
      (fd : FieldDescriptor) (shown : Shown)
      → IsShown pb type_resolver fd shown
      → fd.type ≡ type_of (value shown)
  type_shown fd _ (primitive m e) = refl
  type_shown fd _ (enum t) = t
  type_shown fd _ (json t) = t

  finish_shown :
      (visitors : List Visitor) (fd : FieldDescriptor) (index : Option ℕ) (shown : Shown)
      → IsShown pb type_resolver fd shown
      → finish (visitors ++ ready fd.number index fd.type ∷ [], describe fd)
        ≡ ok (behind visitors (select fd.number index (value shown)))
  finish_shown visitors fd index shown i =
      ap
        (λ r.
          r >>= λ emitter. ok ((visitors ++ ready fd.number index fd.type ∷ []) ++ emitter ∷ []))
        (emitter_created fd shown i)
      ∙ ap ok (
          append_assoc visitors (ready fd.number index fd.type ∷ []) (emitter_of shown [] ∷ [])
          ∙ ap (λ t. visitors ++ ready fd.number index t ∷ emitter_of shown [] ∷ [])
              (type_shown fd shown i))

  entry_created :
      (fd f : FieldDescriptor) (want_keys : Bool) (shown : Shown)
      → IsEntry pb type_resolver f want_keys shown
      → create_emitter pb (entry_ptrs want_keys fd f) type_resolver limit ≡ ok (emitter_of shown [])
  unfolding create_emitter describe new_emitter is_message is_enum
  entry_created fd f _ _ (primitive_entry true m e) = rw (m, e) refl
  entry_created fd f _ _ (primitive_entry false m e) = rw (m, e) refl
  entry_created fd f _ _ (json_value t) =
      ap
        (λ ty. create_emitter pb (entry_ptrs false fd (record f { type = ty })) type_resolver limit)
        t

  entry_type :
      (f : FieldDescriptor) (want_keys : Bool) (shown : Shown)
      → IsEntry pb type_resolver f want_keys shown
      → f.type ≡ type_of (value shown)
  entry_type f _ _ (primitive_entry want_keys m e) = refl
  entry_type f _ _ (json_value t) = t

  -- The visitors of a map's field and of its entries.
  abbrev on_entries : FieldDescriptor → Bool → FieldType → FieldType → List Visitor
  on_entries fd want_keys ty entry_ty =
      ready fd.number none ty ∷ all_map_entries (new_all_map_entries want_keys entry_ty) ∷ []

  finish_entries :
      (visitors : List Visitor) (fd f : FieldDescriptor) (want_keys : Bool) (shown : Shown)
      → fd.type ≡ type_message
      → IsEntry pb type_resolver f want_keys shown
      → finish (visitors ++ on_entries fd want_keys fd.type f.type, entry_ptrs want_keys fd f)
        ≡ ok (behind visitors (select fd.number none (pick (entry want_keys) (value shown))))
  finish_entries visitors fd f want_keys shown t i =
      let es : List Visitor = on_entries fd want_keys fd.type f.type in
      ap (λ r. r >>= λ emitter. ok ((visitors ++ es) ++ emitter ∷ []))
        (entry_created fd f want_keys shown i)
      ∙ ap ok (
          append_assoc visitors es (emitter_of shown [] ∷ [])
          ∙ ap (λ ty. visitors ++ (on_entries fd want_keys ty f.type ++ emitter_of shown [] ∷ [])) t
          ∙ ap
              (λ ty.
                visitors ++ (on_entries fd want_keys type_message ty ++ emitter_of shown [] ∷ []))
              (entry_type f want_keys shown i))

  value_message :
      (fd f : FieldDescriptor)
      → f.type ≡ type_message
      → (entry_ptrs false fd f).desc ≡ some f.message_type
  unfolding is_message
  value_message fd f e = ap (λ t. when (is_message t) f.message_type) e

  compile_parts-Names :
      {desc : ℕ} {part : Bytes} {parts : List Bytes} {path : QueryPath} (visitors : List Visitor)
      (ptrs : DescPtrs)
      → Names pb type_resolver desc part parts path
      → ptrs.desc ≡ some desc
      → (compile_parts pb u part parts (visitors, ptrs) >>= finish) ≡ ok (behind visitors path)
  unfolding compile_parts
  compile_parts-Names {desc} {part} visitors ptrs
        (last {index = index} {fd = fd} {shown = shown} q i) d =
      ap (λ r. r >>= finish) (compile_query_part-Part pb u desc fd part index visitors ptrs q d)
      ∙ finish_shown visitors fd index shown i
  compile_parts-Names {desc} {part} visitors ptrs
        (next {part' = part'} {parts = parts} {index = index} {fd = fd} {field = field}
          {index' = index'} {path = path} q m n)
        d =
      let here : Visitor = ready fd.number index fd.type in
      let rest : List Visitor = ready field index' (type_of path) ∷ chain path [] in
      ap (λ r. (r >>= λ c. compile_parts pb u part' parts (descend c)) >>= finish)
        (compile_query_part-Part pb u desc fd part index visitors ptrs q d)
      ∙ compile_parts-Names ((visitors ++ here ∷ []) ++ descend_into_submessage ∷ []) (describe fd)
          n (message_of fd m)
      ∙ ap ok (
          append_assoc (visitors ++ here ∷ []) (descend_into_submessage ∷ []) rest
          ∙ append_assoc visitors (here ∷ []) (descend_into_submessage ∷ rest)
          ∙ ap (λ t. visitors ++ ready fd.number index t ∷ descend_into_submessage ∷ rest) m)
  compile_parts-Names {desc} {part} visitors ptrs
        (last_entries {fd = fd} {f = f} {want_keys = want_keys} {shown = shown} q i) d =
      ap (λ r. r >>= finish)
        (compile_query_part-Entries pb u desc fd f want_keys part visitors ptrs q d)
      ∙ finish_entries visitors fd f want_keys shown (entries_message q) i
  compile_parts-Names {desc} {part} visitors ptrs
        (next_entries {part' = part'} {parts = parts} {fd = fd} {f = f} {field = field}
          {index' = index'} {path = path} q m n)
        d =
      let es : List Visitor = on_entries fd false fd.type f.type in
      let rest : List Visitor = ready field index' (type_of path) ∷ chain path [] in
      ap (λ r. (r >>= λ c. compile_parts pb u part' parts (descend c)) >>= finish)
        (compile_query_part-Entries pb u desc fd f false part visitors ptrs q d)
      ∙ compile_parts-Names ((visitors ++ es) ++ descend_into_submessage ∷ [])
          (entry_ptrs false fd f) n (value_message fd f m)
      ∙ ap ok (
          append_assoc (visitors ++ es) (descend_into_submessage ∷ []) rest
          ∙ append_assoc visitors es (descend_into_submessage ∷ rest)
          ∙ ap (λ t. visitors ++ (on_entries fd false t f.type ++ descend_into_submessage ∷ rest))
              (entries_message q)
          ∙ ap
              (λ t.
                visitors ++ (on_entries fd false type_message t ++ descend_into_submessage ∷ rest))
              m)

  behind_root :
      {desc : ℕ} {part : Bytes} {parts : List Bytes} {path : QueryPath}
      → Names pb type_resolver desc part parts path
      → behind (descend_into_submessage ∷ []) path ≡ chain path []
  behind_root (last q i) = refl
  behind_root (next q m n) = refl
  behind_root (last_entries q i) = refl
  behind_root (next_entries q m n) = refl

  root_of :
      (part : Bytes) (parts : List Bytes)
      → IsPart part
      → root_visitors (join part parts) ≡ descend_into_submessage ∷ []
  root_of [] parts h = absurd (h.0 refl)
  root_of (c ∷ part) [] h = refl
  root_of (c ∷ part) (part' ∷ parts) h = refl

  -- A path whose parts name fields compiles to the visitors of the path that they stand for.
  pub compile_visitors-Names :
      (desc : ℕ) (part : Bytes) (parts : List Bytes) (path : QueryPath)
      → IsPart part
      → All IsPart parts
      → Names pb type_resolver desc part parts path
      → compile_visitors pb u type_resolver desc (join part parts) limit ≡ ok (chain path [])
  unfolding compile_visitors
  compile_visitors-Names desc part parts path h hs n =
      ap
        (λ vs.
          compile_path pb u (join part parts) [] (vs, root_ptrs desc)
          >>= (λ r. compile_last pb u r >>= finish))
        (root_of part parts h)
      ∙ sym (>>=_assoc (compile_path pb u (join part parts) [] root) (compile_last pb u) finish)
      ∙ ap (λ r. r >>= finish) (compile_path-join pb u part parts root h hs)
      ∙ compile_parts-Names (descend_into_submessage ∷ []) (root_ptrs desc) n refl
      ∙ ap ok (behind_root n)
    where
      root : Compiled
      root = (descend_into_submessage ∷ [], root_ptrs desc)
