-- ===== src/RefScan/Route/Validation.antt =====
-- When POST /v1/ref/replace (src/companion/routes/refscan.py) leaves the volume alone.
use hactl_companion.Base.{
  ℕ, ◌≡◌, ◌∙◌, refl, Bool, true, false, Option, none, some, List, Text, codes, not, arith,
}
use hactl_companion.Http.{Result, ok, err}
use hactl_companion.PathGuard.{FilePath}
use hactl_companion.Files.{Disk}
use hactl_companion.Yaml.{Yaml}
use hactl_companion.RefScan.Walk.{SkippedFile}
use hactl_companion.RefScan.Load.{World}
use hactl_companion.RefScan.Replace.{
  Change, FileWrite, Report, reported, apply, gather, replace_yaml_literal,
}
use hactl_companion.RefScan.Route.{
  JsonBody, invalid_json, no_object, object, body_get, nonempty_text, truth, answer,
  replace_checked, post_ref_replace,
}

answer-disk : (dry_run : Bool) (r : Result Report × Disk) → (answer dry_run r).1 ≡ r.1
unfolding answer
answer-disk dry_run (err e, d) = refl
answer-disk dry_run (ok report, d) = refl

-- Whether a body is a replacement to be written: an object with `dry_run` false, the rest well-formed.
abbrev pub wants_write : JsonBody → Bool
wants_write invalid_json = false
wants_write no_object = false
wants_write (object fields) = not (truth (body_get (codes "dry_run") fields))

module _ (is_word : ℕ → Bool) (w : World) (yaml : Yaml) (base : Text)
    (clock : FilePath → Text) where
  dry_run-unchanged :
      (target new : Text) (d : Disk)
      → (replace_yaml_literal is_word w yaml (w.os.realpath base) target new clock true d).1 ≡ d
  unfolding replace_yaml_literal
  dry_run-unchanged target new d =
      apply-unchanged (gather is_word w yaml (w.os.realpath base) target new d)
    where
      apply-unchanged :
          (r : Result (List Change × List FileWrite × List SkippedFile))
          → (apply w yaml (w.os.realpath base) clock true r d).1 ≡ d
      apply-unchanged (err e) = unfold apply in refl
      apply-unchanged (ok (changes, writes, log)) = unfold apply reported in refl

  replace_checked-unchanged :
      (old new : Option Text) (d : Disk)
      → (replace_checked is_word w yaml base clock old new true d).1 ≡ d
  unfolding replace_checked
  replace_checked-unchanged none new d = refl
  replace_checked-unchanged (some old) none d = refl
  replace_checked-unchanged (some old) (some new) d =
      answer-disk true
        (replace_yaml_literal is_word w yaml (w.os.realpath base) old new clock true d)
      ∙ dry_run-unchanged old new d

  -- Nothing is written unless the body is an object whose `dry_run` is there and false: a body that is
  -- not JSON, one without the field, and one with any true value leave the volume as it was.
  pub post_ref_replace-unchanged :
      (body : JsonBody) (d : Disk)
      → wants_write body ≡ false
      → (post_ref_replace is_word w yaml base clock body d).1 ≡ d
  unfolding post_ref_replace
  post_ref_replace-unchanged invalid_json d h = refl
  post_ref_replace-unchanged no_object d h = refl
  post_ref_replace-unchanged (object fields) d h =
      let asked : truth (body_get (codes "dry_run") fields) ≡ true = ground (arith, h) in
      rw asked (
        replace_checked-unchanged (nonempty_text (body_get (codes "old") fields))
          (nonempty_text (body_get (codes "new") fields)) d)
