-- ===== src/Constraints/CanonicalUri.antt =====
-- The form of a canonical file URI (`_canonical_file_uri`).
use raucle.Prelude.{◌≡◌, false, some, List, ◌++◌, All, length}
use raucle.Text.{Text, text}
use raucle.Platform.{Platform}
use raucle.Constraints.DotSegments.{IsWhole, IsProper, Resolves}
use raucle.Constraints.FileUri.{join_slash, has_double, collapse}

-- The URI is the scheme and a path without repeated slashes, made from the parts of the URI's own path by
-- the removal of dot segments; no segment that is left has a slash or is a dot segment.
pub record IsResolved (p : Platform) (value u : Text) : Type 0 where
  pub source : Text
  pub located : p.url_path value ≡ some source
  pub parts : List Text
  pub whole : All IsWhole parts
  pub parted : join_slash parts ≡ source
  pub segments : List Text
  pub resolves : Resolves parts segments
  pub proper : All IsProper segments
  pub path : Text
  pub made : path ≡ collapse (length (join_slash segments)) (join_slash segments)
  pub single : has_double path ≡ false
  pub uri : u ≡ text "file://" ++ path
