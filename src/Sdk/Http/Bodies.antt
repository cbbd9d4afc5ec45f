-- ===== src/Sdk/Http/Bodies.antt =====
-- How the body of a response is read, `readBody` of pkg/loadwave/http.go. What the wire gives is a list of
-- bytes, and whether an error follows them instead of the end.
use load_wave.Prelude.{ℕ, ◌+◌, ◌≡◌, Bool, true, false, [], if◌then◌else◌, ltb, length, take, drop}
use load_wave.Text.{Text}

pub record Reader : Type 0 where
  pub bytes : Text
  pub fails : Bool

pub record BodyRead : Type 0 where
  pub consumed : ℕ
  pub buffered : Text
  pub truncated : Bool
  pub failed : Bool

-- `io.Copy` of what a reader has: the bytes, and whether it ends with an error. A limited reader ends after
-- its limit without looking further.
abbrev limited : ℕ → Reader → Reader
limited limit r =
    if ltb (length r.bytes) limit then r else record { bytes = take limit r.bytes; fails = false }

abbrev remaining : ℕ → Reader → Reader
remaining limit r = record r { bytes = drop limit r.bytes }

abbrev after_limit : Reader → Reader → BodyRead
after_limit kept rest = record {
  consumed = length kept.bytes + length rest.bytes;
  buffered = kept.bytes;
  truncated = ltb 0 (length rest.bytes);
  failed = rest.fails;
}

abbrev within_limit : ℕ → Reader → Reader → BodyRead
within_limit limit kept rest =
    if kept.fails
    then record {
      consumed = length kept.bytes;
      buffered = kept.bytes;
      truncated = false;
      failed = true;
    }
    else if ltb (length kept.bytes) limit
    then record {
      consumed = length kept.bytes;
      buffered = kept.bytes;
      truncated = false;
      failed = false;
    }
    else after_limit kept rest

-- The limit is `MaxBodyBytes`, which is positive after `applyDefaults`.
unfoldable pub read_body : Bool → ℕ → Reader → BodyRead
read_body discard limit r =
    if discard
    then record { consumed = length r.bytes; buffered = []; truncated = false; failed = r.fails }
    else within_limit limit (limited limit r) (remaining limit r)

-- What a reading keeps of a reader.
pub record IsReading (discard : Bool) (limit : ℕ) (r : Reader) (b : BodyRead) : Type 0 where
  pub all_counted : b.consumed ≡ length r.bytes
  pub kept : b.buffered ≡ (if discard then [] else take limit r.bytes)
  pub cut : b.truncated ≡ (if discard then false else ltb limit (length r.bytes))
  pub error_kept : b.failed ≡ r.fails
