-- ===== src/Sdk/Http/Paced.antt =====
-- Every request is followed by its pause and recorded once, whatever becomes of it.
use load_wave.Prelude.{
  pos, leb_ℤ, ◌⊎◌, ℕ, ◌+◌, ◌≡◌, Bool, true, false, Option, none, some, List, [], ◌∷◌, ◌++◌,
  if◌then◌else◌,
}
use load_wave.Sdk.Http.Do.{Event, count, think, ClientVu, HttpClient, Done}
use load_wave.Sdk.Floats.{Floats}
use load_wave.Sdk.Http.Exchanges.{Net}
use load_wave.Sdk.Http.{Request, RequestError, bad_url, many_bodies, not_encoded, transport}
use load_wave.Sdk.Pause.{Pause, duration}
use load_wave.Text.{Text, codes, same_text}

module _ {T V : Type 0} where
  -- The pauses that the virtual user is asked for.
  unfoldable pub pauses : List (Event T V) → ℕ
  pauses [] = 0
  pauses (think d ∷ es) = 1 + pauses es
  pauses (e ∷ es) = pauses es

  -- What the requests are counted by.
  unfoldable pub requests : List (Event T V) → List V
  requests [] = []
  requests (count metric labels n ∷ es) =
      let rest = requests es in if same_text metric (codes "http_reqs") then n ∷ rest else rest
  requests (e ∷ es) = requests es

-- Whether a request is counted, by its error: one that was refused for its URL or its body is not.
abbrev pub is_counted : Option RequestError → Bool
is_counted none = true
is_counted (some (transport e)) = true
is_counted (some bad_url) = false
is_counted (some many_bodies) = false
is_counted (some not_encoded) = false

module _ {U J T V W : Type 0} (net : Net U J T V W) where
  -- What a request is counted by: nothing without a virtual user, and 1 or nothing with one.
  abbrev pub user_count : Option (ClientVu T) → Bool → List V
  user_count none b = []
  user_count (some vu) true = net.floats.of_int64 (pos 1) ∷ []
  user_count (some vu) false = []

  -- A pause of two bounds that are not positive is none, and any other is one delay drawn from it.
  abbrev pub Waits : ClientVu T → Pause → List (Event T V) → Type 0
  Waits vu p rest =
      ((leb_ℤ p.min (pos 0) ≡ true) × (leb_ℤ p.max (pos 0) ≡ true) → rest ≡ [])
      × ((leb_ℤ p.min (pos 0) ≡ false) ⊎ (leb_ℤ p.max (pos 0) ≡ false)
          → rest ≡ think (duration (some vu.rand) p) ∷ [])

  -- The pause of the request comes before that of the run; without a virtual user there is none.
  abbrev pub Followed : Option (ClientVu T) → Pause → Option Pause → List (Event T V) → Type 0
  Followed none run own rest = rest ≡ []
  Followed (some vu) run none rest = Waits vu run rest
  Followed (some vu) run (some p) rest = Waits vu p rest

  -- The events of a request are what is recorded of it and then its pause.
  pub record IsDone (c : HttpClient U T) (req : Request J T) (d : Done net) : Type 0 where
    pub front : List (Event T V)
    pub rest : List (Event T V)
    pub splits : d.events ≡ front ++ rest
    pub followed : Followed c.vu c.opts.between_requests req.between_requests rest
    pub no_pause : pauses front ≡ 0
    pub counts : requests front ≡ user_count c.vu (is_counted d.response.err)
