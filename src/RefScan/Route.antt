-- ===== src/RefScan/Route.antt =====
-- The handler of POST /v1/ref/replace in src/companion/routes/refscan.py. The body enters as what
-- `request.json()` gives.
pub mod Validation
use hactl_companion.Base.{
  ℕ, Bool, true, false, not, Option, none, some, List, [], ◌∷◌, Text, codes, eq_text, if◌then◌else◌,
}
use hactl_companion.Http.{HttpError, bad_request, Result, ok, err}
use hactl_companion.PathGuard.{FilePath}
use hactl_companion.Files.{Disk}
use hactl_companion.Yaml.{Yaml}
use hactl_companion.RefScan.Walk.{SkippedFile}
use hactl_companion.RefScan.Load.{World}
use hactl_companion.RefScan.Scan.{skipped_fields}
use hactl_companion.RefScan.Replace.{Change, Report, replace_yaml_literal}

-- A value in the body, of which the handler sees whether it is a text, and whether it is true.
pub data JsonValue : Type 0 where
  json_text : Text → JsonValue
  json_other : Bool → JsonValue

-- The body: not JSON, no object, or an object's fields.
pub data JsonBody : Type 0 where
  invalid_json : JsonBody
  no_object : JsonBody
  object : List (Text × JsonValue) → JsonBody

-- `body.get(key)`; of two fields with one name the parser keeps the last, so there is one.
unfoldable pub body_get : Text → List (Text × JsonValue) → Option JsonValue
body_get key [] = none
body_get key ((k, v) ∷ fields) =
    let rest = body_get key fields in if eq_text k key then some v else rest

-- The text of a field, where it is one and is not empty.
unfoldable pub nonempty_text : Option JsonValue → Option Text
nonempty_text (some (json_text (c ∷ t))) = some (c ∷ t)
nonempty_text _ = none

-- `bool(body.get("dry_run", True))`.
unfoldable pub truth : Option JsonValue → Bool
truth none = true
truth (some (json_text [])) = false
truth (some (json_text (c ∷ t))) = true
truth (some (json_other b)) = b

-- The answer: its status, its changes, and the skipped files.
pub record ReplaceAnswer : Type 0 where
  pub answer_status : Text
  pub changes : List Change
  pub skipped : Option (List SkippedFile)

unfoldable pub answer : Bool → Result Report × Disk → Result ReplaceAnswer × Disk
unfolding skipped_fields
answer dry_run (err e, d) = (err e, d)
answer dry_run (ok (changed, log), d) = (
  ok (record {
    answer_status = if dry_run then codes "dry_run" else codes "applied";
    changes = changed;
    skipped = skipped_fields log;
  }),
  d,
)

module _ (is_word : ℕ → Bool) (w : World) (yaml : Yaml) (base : Text)
    (clock : FilePath → Text) where
  unfoldable pub replace_checked :
      Option Text → Option Text → Bool → Disk → Result ReplaceAnswer × Disk
  unfolding answer replace_yaml_literal
  replace_checked none new dry_run d = (err (bad_request (codes "Missing 'old' string")), d)
  replace_checked (some old) none dry_run d = (err (bad_request (codes "Missing 'new' string")), d)
  replace_checked (some old) (some new) dry_run d =
      answer dry_run
        (replace_yaml_literal is_word w yaml (w.os.realpath base) old new clock dry_run d)

  unfoldable pub post_ref_replace : JsonBody → Disk → Result ReplaceAnswer × Disk
  unfolding replace_checked body_get nonempty_text truth
  post_ref_replace invalid_json d = (err (bad_request (codes "Request body must be valid JSON")), d)
  post_ref_replace no_object d = (err (bad_request (codes "Request body must be a JSON object")), d)
  post_ref_replace (object fields) d =
      replace_checked (nonempty_text (body_get (codes "old") fields))
        (nonempty_text (body_get (codes "new") fields)) (truth (body_get (codes "dry_run") fields))
        d
