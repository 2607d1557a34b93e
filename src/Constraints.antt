-- ===== src/Constraints.antt =====
-- The constraint language of capability tokens (raucle/capability.py).
mod Defs
mod FileUri
mod Check
mod Decode
mod Normalise
mod Merge
mod Equal
mod Entries
mod Values
mod Admission
mod Prefixes
mod Sorted
mod Stable
mod Kinds
mod Names
mod Same
pub mod Narrowing
pub mod Meaning
mod DotSegments
pub mod CanonicalUri
pub use Defs.*
unfoldable pub use FileUri.{canonical_file_uri}
unfoldable pub use Check.{
  forbidden_entry, check_forbidden_values, allowed_entry, check_allowed_values, prefix_matches,
  starts_with_entry, check_starts_with, max_entry, check_max_value, min_entry, check_min_value,
  required_entry, check_required_present, combination_entry, check_forbidden_combinations,
  check_constraints,
}
pub use Decode.{known_kinds, decode_scalar, decode_bound, decode_text, decode_kind, list_items}
unfoldable pub use Decode.{
  decode_fields, decode_items, decode_object, decode_list, unknown_members, read_kinds,
  iterated_items, decode_constraints, read_constraints, read_extra,
}
unfoldable pub use Normalise.{normalise_constraints, value_le}
pub use Merge.{has_id, join_forbidden, join_allowed, join_prefix, join_max, join_min, merge_kind}
unfoldable pub use Merge.{union_values, intersect_values, merge_kinds, merge_narrowing}
unfoldable pub use Equal.{constraints_eq}
pub use Admission.{Pass, Pass-of_check, check-of_Pass}
pub use Prefixes.{is_file_uri, HasPlainPrefixes}
pub use Same.{constraints_eq-Pass}
pub use Sorted.{normalise-registered}
