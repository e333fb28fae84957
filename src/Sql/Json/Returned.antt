-- ===== src/Sql/Json/Returned.antt =====
-- When the JSON functions return a text.
use postgres_protobuf.Common.{ℕ, ◌≡◌, refl, sym, ap, ◌∙◌, Option, none, some, ◌++◌, Bytes, text}
use postgres_protobuf.Outcome.{
  Error, bad_proto, bad_query, recursion_depth_exceeded, limit_reached, protobuf_not_found,
  bad_alloc, assertion_failed, pg_error, Outcome, done, thrown, stuck, and_then, M, ◌>>=◌,
}
use postgres_protobuf.Result.{Result, ok, err}
use postgres_protobuf.Library.{Protobuf}
use postgres_protobuf.Traverser.Steps.{call}
use postgres_protobuf.DescriptorDb.{DescDb}
use postgres_protobuf.DescriptorDb.Cache.{Descriptors, Cache, get_or_create_cached}
use postgres_protobuf.Postgres.{Answer, returned}
use postgres_protobuf.Sql.{Call, handled, lift, copy_to_varlena}
use postgres_protobuf.Sql.FirstRow.{IsEnough, copy_to_varlena_enough}
use postgres_protobuf.Sql.Json.{
  get_protobuf_info_or_throw, convert_text, converted, report_json_error,
}

not_returned :
    {A : Type 0} (name : Bytes) (e : Error) (a : A) → ¬ (report_json_error name e ≡ returned a)
unfolding report_json_error
not_returned name (bad_proto m) a h = cc
not_returned name (bad_query m) a h = cc
not_returned name recursion_depth_exceeded a h = cc
not_returned name limit_reached a h = cc
not_returned name protobuf_not_found a h = cc
not_returned name bad_alloc a h = cc
not_returned name assertion_failed a h = cc
not_returned name (pg_error m) a h = cc

-- What comes before a value that is returned did not throw.
pub done_before :
    {A B : Type 0} (name : Bytes) (o : Outcome Cache A) (k : A → M Cache B) (b : B) (c' : Cache)
    → handled (report_json_error name) (and_then k o) ≡ some (returned b, c')
    → (x : A) × (c : Cache) × (o ≡ done x c)
      × (handled (report_json_error name) (k x c) ≡ some (returned b, c'))
done_before name (done x c) k b c' h = (x, c, refl, h)
done_before name (thrown e c) k b c' h = absurd (not_returned name e b (cc))
done_before name stuck k b c' h = cc

ok_before :
    {A : Type 0} (r : Result A) (x : A) (c c' : Cache)
    → lift r c ≡ done x c'
    → (r ≡ ok x) × (c ≡ c')
ok_before (ok a) x c c' h = (cc, cc)
ok_before (err e) x c c' h = cc

is_converted : (o : Option Bytes) (s : Bytes) → converted o ≡ ok s → o ≡ some s
is_converted none s h = cc
is_converted (some t) s h = cc

module _ (pb : Protobuf) (convert : ℕ → Bytes → Bytes → Option Bytes) where
  abbrev conversion : Bytes → Bytes × ℕ → Result Bytes
  conversion proto p = converted (convert p.1 (text "type.googleapis.com/" ++ p.0) proto)

  -- The body of the two functions, from the message's name on.
  abbrev pub convert_and_copy : Call → Bytes → Bytes × ℕ → M Cache Bytes
  convert_and_copy call proto p = lift (conversion proto p) >>= copy_to_varlena call.memory

  -- A text comes from a message that was found and converted.
  pub found :
      (call : Call) (spec proto json : Bytes) (db : DescDb) (c c' : Cache)
      → IsEnough call.memory
      → handled
          (report_json_error spec)
          (and_then (convert_and_copy call proto) (lift (get_protobuf_info_or_throw pb db spec) c))
        ≡ some (returned json, c')
      → (c ≡ c')
        × (p : Bytes × ℕ) × (get_protobuf_info_or_throw pb db spec ≡ ok p)
        × (convert p.1 (text "type.googleapis.com/" ++ p.0) proto ≡ some json)
  found call spec proto json db c c' m e =
      let (p, c₁, e₁, e') =
        done_before spec (lift (get_protobuf_info_or_throw pb db spec) c)
          (convert_and_copy call proto) json c' e in
      let (s, c₂, e₂, e'') =
        done_before spec (lift (conversion proto p) c₁) (copy_to_varlena call.memory) json c' e' in
      let (i, q₁) = ok_before (get_protobuf_info_or_throw pb db spec) p c c₁ e₁ in
      let (j, q₂) = ok_before (conversion proto p) s c₁ c₂ e₂ in
      let copied : ◌≡◌ {A = Option (Answer Bytes × Cache)} (some (returned s, c₂))
          (some (returned json, c')) =
        ap (handled (report_json_error spec)) (sym (copy_to_varlena_enough call.memory s c₂ m))
        ∙ e'' in
      let same : (s ≡ json) × (c₂ ≡ c') = (cc copied, cc copied) in
      (q₁ ∙ q₂ ∙ same.1, p, i, is_converted _ json (j ∙ ap ok same.0))

  -- A call that returned a text is the conversion of one, with the descriptor sets that it leaves.
  pub returned_text :
      (d : Descriptors) (call : Call) (spec proto json : Bytes) (c c' : Cache)
      → IsEnough call.memory
      → handled (report_json_error spec) (convert_text pb d convert call spec proto c)
        ≡ some (returned json, c')
      → (db : DescDb) × (get_or_create_cached d call.spi call.callback_memory c ≡ done db c')
        × (p : Bytes × ℕ) × (get_protobuf_info_or_throw pb db spec ≡ ok p)
        × (convert p.1 (text "type.googleapis.com/" ++ p.0) proto ≡ some json)
  unfolding convert_text
  returned_text d call spec proto json c c' m r =
      let (db, c₁, o, r') =
        done_before spec (get_or_create_cached d call.spi call.callback_memory c)
          (λ db. lift (get_protobuf_info_or_throw pb db spec) >>= convert_and_copy call proto) json
          c' r in
      let (q, p, i, j) = found call spec proto json db c₁ c' m r' in
      (db, o ∙ ap (done db) q, p, i, j)
