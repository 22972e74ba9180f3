-- ===== src/Format/Invariants.antt =====
-- crates/slink-format/src/validate.rs: the rules that JSON Schema cannot state, on the spans of a
-- document. A `HashMap` is an association list, a `HashSet` a list.
pub mod Named
pub mod Chains
pub mod Fuel
pub mod Acyclic
use session_link.Common.{
  ℕ, zero, suc, ◌+◌, Bool, true, false, not, ◌&&◌, ◌||◌, Option, none, some, List, [], ◌∷◌, ◌++◌,
  Text, codes, contains, length, ◌==◌, text_eq, if◌then◌else◌, Result, ok, err, ◌>>=◌,
}
use session_link.Common.Options.{is_some}
use session_link.Protocol.Json.{Value, Items, Fields}
use session_link.Protocol.Payload.{get, as_str, as_array}

-- `Value::get`
abbrev pub member : Text → Value → Option Value
member name (Value.object fields) = get name fields
member name _ = none

abbrev pub text_member : Text → Value → Option Text
text_member name value = elim (member name value) [ none ↦ none | some found ↦ as_str found ]

-- `id`: a span's id, empty when it has none.
unfoldable pub span_id : Value → Text
span_id span = elim (text_member (codes "id") span) [ none ↦ [] | some name ↦ name ]

abbrev pub items_of : Items → List Value
items_of Items.nil = []
items_of (Items.cons value items) = value ∷ items_of items

unfoldable pub spans_of : Value → List Value
spans_of document = elim (member (codes "spans") document) [
  | none ↦ []
  | some found ↦ elim (as_array found) [ none ↦ [] | some items ↦ items_of items ]
]

abbrev pub Index : Type 0
Index = List (Text × Value)

-- `HashMap::get`
abbrev pub lookup : Index → Text → Option Value
lookup [] name = none
lookup ((key, span) ∷ rest) name = if key == name then some span else lookup rest name

-- The two kinds of error, with the id that they name.
pub data Broken : Type 0 where
  duplicate cycle : Text → Broken
  out_of_fuel : Broken

-- The first loop: the spans by their ids.
unfoldable pub index : List Value → Index → Result Broken Index
index [] by_id = ok by_id
index (span ∷ spans) by_id = elim (is_some (lookup by_id (span_id span))) [
  | true ↦ err (Broken.duplicate (span_id span))
  | false ↦ index spans ((span_id span, span) ∷ by_id)
]

-- The span that a span names as its parent, if that is in the document.
unfoldable pub parent : Index → Value → Option Value
parent by_id span = elim (text_member (codes "parent_id") span) [
  | none ↦ none
  | some name ↦ if name == [] then none else lookup by_id name
]

-- The `while` loop: the ids seen on the way up, unless one comes again.
unfoldable pub climb : ℕ → Index → List Text → List Text → Option Value → Result Broken (List Text)
climb fuel by_id acyclic seen none = ok seen
climb zero by_id acyclic seen (some span) = err Broken.out_of_fuel
climb (suc fuel) by_id acyclic seen (some span) = elim (contains (span_id span) acyclic) [
  | true ↦ ok seen
  | false ↦ elim (contains (span_id span) seen) [
    | true ↦ err (Broken.cycle (span_id span))
    | false ↦ climb fuel by_id acyclic (span_id span ∷ seen) (parent by_id span)
  ]
]

-- The second loop.
unfoldable pub climb_all : ℕ → Index → List Value → List Text → Result Broken (Unit {0})
climb_all fuel by_id [] acyclic = ok tt
climb_all fuel by_id (span ∷ spans) acyclic = elim (climb fuel by_id acyclic [] (some span)) [
  | err e ↦ err e
  | ok seen ↦ climb_all fuel by_id spans (seen ++ acyclic)
]

-- A round of the `while` loop sees a new id of the document, so that as many rounds as there are
-- spans, and one more, are enough.
unfoldable pub check_spans : List Value → Result Broken (Unit {0})
check_spans spans = do by_id ← index spans []; climb_all (length spans + 1) by_id spans []

abbrev pub line : Broken → Text
line (Broken.duplicate id) = codes "duplicate span id \"" ++ (id ++ codes "\"")
line (Broken.cycle id) = codes "parent_id cycle involving span \"" ++ (id ++ codes "\"")
line Broken.out_of_fuel = []

unfoldable pub invariant_errors : Value → List Text
invariant_errors document = elim (check_spans (spans_of document)) [
  | ok done ↦ []
  | err broken ↦ line broken ∷ []
]
