-- ===== src/Sdk/Messages.antt =====
-- The excerpt of a body or an error that is kept of a failure, `TruncateMessage` of pkg/loadwave/failure.go.
-- `unicode.IsPrint` is a parameter.
pub mod Bounds
use load_wave.Prelude.{
  ℕ, ◌+◌, Bool, true, false, ◌&&◌, List, [], ◌∷◌, ◌++◌, if◌then◌else◌, ltb, leb,
}
use load_wave.Sdk.Names.{byte_length}
use load_wave.Text.{Text, is_space, trim}

-- `…`
abbrev pub ellipsis : ℕ
ellipsis = 8230

-- `MaxFailureMessage`
abbrev pub max_failure_message : ℕ
max_failure_message = 240

abbrev pub spaced : Bool → Text → Text
spaced space b = if space && ltb 0 (byte_length b) then b ++ (32 ∷ []) else b

module _ (is_print : ℕ → Bool) where
  -- The loop over the runes, from whether a space is pending and the text built so far.
  unfoldable pub excerpt : Bool → Text → Text → Text
  excerpt space b [] = b
  excerpt space b (r ∷ rs) =
      let pending = excerpt true b rs in
      let skipped = excerpt space b rs in
      let longer = spaced space b in
      let kept = excerpt false (longer ++ (r ∷ [])) rs in
      if is_space r
      then pending
      else if is_print r
      then (if leb max_failure_message (byte_length longer)
          then longer ++ (ellipsis ∷ [])
          else kept)
      else skipped

  unfoldable pub truncate_message : Text → Text
  truncate_message text = excerpt false [] (trim text)
