-- ===== src/Samples/Scans.antt =====
-- The theorems on the traverser and on map entries at concrete inputs.
use postgres_protobuf.Common.{◌≡◌, refl, true, false, none, some, [], ◌∷◌, arith, Bytes}
use postgres_protobuf.Outcome.{Ends}
use postgres_protobuf.Library.{type_int32}
use postgres_protobuf.Visitor.{descend_into_submessage, field_selector, primitive_emitter}
use postgres_protobuf.Visitor.Treatments.{skip, as_submessage}
use postgres_protobuf.Visitor.Selectors.{new_field_selector}
use postgres_protobuf.Visitor.Entries.{AllMapEntries, EntriesScope}
use postgres_protobuf.Visitor.Entries.Handed.{entry_pass, entry_pass_answers, answer_to}
use postgres_protobuf.Traverser.{scan_fields, scan_field, run_traverser}
use postgres_protobuf.Traverser.State.{Traversal}
use postgres_protobuf.Traverser.Balance.Relations.{Same}
use postgres_protobuf.Traverser.Balance.Messages.{scan_fields-Same}
use postgres_protobuf.Samples.WireStream.{wire_stream}
use postgres_protobuf.Samples.WireStream.Forward.{wire_stream-Progress}
use postgres_protobuf.Samples.Library.{sample_protobuf}

abbrev keys_of_e : AllMapEntries
keys_of_e = record { want_keys = true; ty = type_int32; scope = EntriesScope.outermost }

entry_pass_answers_example :
    entry_pass 2 5 (1 ∷ 2 ∷ []) keys_of_e
    ≡ ((2, some (as_submessage, 2)) ∷ (3, none) ∷ (2, some (skip, 2)) ∷ [], keys_of_e)
unfolding answer_to
entry_pass_answers_example = entry_pass_answers 2 5 (1 ∷ 2 ∷ []) keys_of_e refl

abbrev message_a : Bytes
message_a = 8 ∷ 150 ∷ 1 ∷ []

-- The query `M:a` on its root message, about to read the first field.
abbrev begun : Traversal wire_stream.Stream
begun = record {
  stream = wire_stream.create message_a;
  visitors =
      descend_into_submessage
      ∷ field_selector (new_field_selector 1 type_int32 false)
      ∷ primitive_emitter (record { ty = type_int32; limit = none; rows = [] })
      ∷ [];
  stack = record { visitor = 1; depth_added = 0 } ∷ record { visitor = 0; depth_added = 0 } ∷ [];
  visitor = 1;
  depth = 0;
}

scan_fields-Same_example :
    Ends
      (λ (_ : Unit {0}) st'. Same wire_stream begun st')
      (scan_fields wire_stream sample_protobuf 0
        (run_traverser wire_stream sample_protobuf 0 4)
        (scan_field wire_stream sample_protobuf 0 (run_traverser wire_stream sample_protobuf 0 4) 4)
        4
        begun)
scan_fields-Same_example =
    scan_fields-Same wire_stream wire_stream-Progress sample_protobuf 0 4 begun
      (omega (arith, wire_stream-Progress.created message_a))
      (record {
        top = record { visitor = 1; depth_added = 0 };
        rest = record { visitor = 0; depth_added = 0 } ∷ [];
        stack = refl;
        visitor = refl;
        added = omega arith;
      })
