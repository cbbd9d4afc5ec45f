-- ===== src/Sdk/Http/Errors.antt =====
-- The error labels, `classifyError` of pkg/loadwave/http.go. An error is what `errors.Is` and `errors.As`
-- answer of it, and its text.
use load_wave.Prelude.{Bool, true, false, ◌&&◌, ◌||◌, List, [], refl, ◌∷◌, if◌then◌else◌, ◌==◌, ◌≡◌}
use load_wave.Text.{Text, codes, same_text}

pub record TransportError : Type 0 where
  pub deadline_exceeded : Bool
  pub canceled : Bool
  pub eof : Bool
  pub unexpected_eof : Bool
  pub conn_refused : Bool
  pub conn_reset : Bool
  pub net_timeout : Bool
  pub dns_error : Bool
  pub certificate_error : Bool
  pub text : Text

abbrev begins : Text → Text → Bool
begins [] s = true
begins (p ∷ ps) [] = false
begins (p ∷ ps) (c ∷ cs) = p == c && begins ps cs

-- `strings.Contains`
unfoldable pub contains_text : Text → Text → Bool
contains_text part [] = begins part []
contains_text part (c ∷ cs) = begins part (c ∷ cs) || contains_text part cs

abbrev by_text : Text → Text
by_text text =
    if contains_text (codes "connection refused") text
    then codes "connection_refused"
    else if contains_text (codes "connection reset") text
    then codes "connection_reset"
    else if contains_text (codes "no such host") text
    then codes "dns"
    else if contains_text (codes "tls:") text || contains_text (codes "x509:") text
    then codes "tls"
    else if contains_text (codes "stopped after") text
    then codes "too_many_redirects"
    else codes "unknown"

-- `classifyError` of an error that is not nil.
unfoldable pub classify_error : TransportError → Text
classify_error e =
    if e.deadline_exceeded
    then codes "timeout"
    else if e.canceled
    then codes "canceled"
    else if e.eof || e.unexpected_eof
    then codes "eof"
    else if e.conn_refused
    then codes "connection_refused"
    else if e.conn_reset
    then codes "connection_reset"
    else if e.net_timeout
    then codes "timeout"
    else if e.dns_error
    then codes "dns"
    else if e.certificate_error
    then codes "tls"
    else by_text e.text

-- The nine labels of errors.
abbrev pub vocabulary : List Text
vocabulary =
    codes "timeout"
    ∷ codes "canceled"
    ∷ codes "eof"
    ∷ codes "connection_refused"
    ∷ codes "connection_reset"
    ∷ codes "dns"
    ∷ codes "tls"
    ∷ codes "too_many_redirects"
    ∷ codes "unknown"
    ∷ []

abbrev pub is_listed : Text → List Text → Bool
is_listed s [] = false
is_listed s (t ∷ ts) = same_text s t || is_listed s ts

-- One of the nine.
pub data IsListed (s : Text) : Type 0 where
  listed : is_listed s vocabulary ≡ true → IsListed s

if-IsListed : (b : Bool) {s t : Text} → IsListed s → IsListed t → IsListed (if b then s else t)
if-IsListed true h k = h
if-IsListed false h k = k

by_text-IsListed : (text : Text) → IsListed (by_text text)
by_text-IsListed text =
    if-IsListed (contains_text (codes "connection refused") text) (listed refl) (
      if-IsListed (contains_text (codes "connection reset") text) (listed refl) (
        if-IsListed (contains_text (codes "no such host") text) (listed refl) (
          if-IsListed (contains_text (codes "tls:") text || contains_text (codes "x509:") text)
            (listed refl)
            (if-IsListed (contains_text (codes "stopped after") text) (listed refl)
              (listed refl)))))

-- Whatever the error and its text, `classifyError` gives one of nine labels.
pub classify_error-IsListed : (e : TransportError) → IsListed (classify_error e)
unfolding classify_error
classify_error-IsListed e = if-IsListed e.deadline_exceeded (listed refl) (
    if-IsListed e.canceled (listed refl) (
      if-IsListed (e.eof || e.unexpected_eof) (listed refl) (
        if-IsListed e.conn_refused (listed refl) (
          if-IsListed e.conn_reset (listed refl) (
            if-IsListed e.net_timeout (listed refl) (
              if-IsListed e.dns_error (listed refl)
                (if-IsListed e.certificate_error (listed refl) (by_text-IsListed e.text))))))))
