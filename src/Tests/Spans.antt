-- ===== src/Tests/Spans.antt =====
-- Runs of `invariant_errors` of crates/slink-format/src/validate.rs on small documents.
use session_link.Common.{◌≢◌, err, Text-discrete, [], ◌∷◌, Text, codes, ◌≡◌, ◌↔◌, refl, All}
use session_link.Protocol.Json.{Value, Items, Fields}
use session_link.Protocol.Payload.{get, as_str, as_array}
use session_link.Format.Invariants.Fuel.{check_spans_ends}
use session_link.Format.Invariants.{
  Broken, span_id, spans_of, index, parent, climb, climb_all, check_spans, invariant_errors,
}
use session_link.Format.Invariants.Named.{Unique}
use session_link.Format.Invariants.Acyclic.{ChainEnds, invariant_errors_lem}

abbrev span : Text → Text → Value
span id parent_id = Value.object (
    Fields.field (codes "id") (Value.string id)
      (Fields.field (codes "parent_id") (Value.string parent_id) Fields.end))

abbrev document : Items → Value
document spans = Value.object (Fields.field (codes "spans") (Value.array spans) Fields.end)

-- A root, its child, and a span whose parent is not in the document.
abbrev tree : Value
tree = document (
    Items.cons (span (codes "a") (codes "root")) (
      Items.cons (span (codes "root") []) (Items.cons (span (codes "b") (codes "gone")) Items.nil)))

abbrev doubled : Value
doubled = document (Items.cons (span (codes "a") []) (Items.cons (span (codes "a") []) Items.nil))

abbrev ring : Value
ring = document (
    Items.cons (span (codes "a") (codes "b")) (Items.cons (span (codes "b") (codes "a")) Items.nil))

found :
    (invariant_errors tree ≡ [])
    × (invariant_errors doubled ≡ codes "duplicate span id \"a\"" ∷ [])
    × (invariant_errors ring ≡ codes "parent_id cycle involving span \"a\"" ∷ [])
    × (invariant_errors (Value.object Fields.end) ≡ [])
unfolding get as_str as_array span_id spans_of index parent climb climb_all check_spans
    invariant_errors Text-discrete
found = (refl, refl, refl, refl)

invariant_errors_lem_example :
    (invariant_errors tree ≡ [])
    ↔ (Unique (spans_of tree) × All (ChainEnds (spans_of tree)) (spans_of tree))
invariant_errors_lem_example = invariant_errors_lem tree

check_spans_ends_example : check_spans (spans_of ring) ≢ err Broken.out_of_fuel
check_spans_ends_example = check_spans_ends (spans_of ring)
