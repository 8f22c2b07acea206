-- ===== src/Facilitator/Auth.antt =====
-- auth.rs of the facilitator: the middleware in front of the protected routes. The header is its
-- text, or `none` where it is absent or not text.
use text.Mathlib.Text
use text.Mathlib.TextEquality
use text.Mathlib.TextPositions.{eq_refl, len-append, slice-append_right, starts_with-append}
use Prim.Native.String.{len, slice, ◌++◌}
use nakama_sol_x.Prelude.{
  ◌<◌, ◌≡◌, ◌↔◌, ◌==◌, refl, Bool, true, false, if◌then◌else◌, Option, none, some, String, Result,
  ok, ok_or, ◌>>=◌, require, arith, inl, inr, Option-cases, Bool-cases,
}
use nakama_sol_x.Facilitator.TopUp.{ApiError, unauthorized, internal}

-- `str::strip_prefix`.
unfoldable strip_prefix : String → String → Option String
strip_prefix s p = if Text.starts_with s p then some (slice s (len p) (len s)) else none

unfoldable pub token_matches : String → String → Bool
token_matches expected presented =
    if len expected == len presented then Text.◌==◌ expected presented else false

abbrev bearer : String
bearer = "Bearer "

unfoldable pub extract_bearer : Option String → Option String
unfolding strip_prefix
extract_bearer none = none
extract_bearer (some value) = elim (strip_prefix value bearer) [
  | none ↦ none
  | some token ↦ if len token == 0 then none else some token
]

-- `api_key` is that of the configuration; the request goes on where the result is `ok`.
unfoldable pub require_bearer : Option String → Option String → Result ApiError (Unit {0})
require_bearer api_key header = do
  expected ← ok_or api_key internal
  presented ← ok_or (extract_bearer header) unauthorized
  require (token_matches expected presented) unauthorized

strip_prefix-append : (p t : String) → strip_prefix (p ++ t) p ≡ some t
unfolding strip_prefix
strip_prefix-append p t = rw (starts_with-append p t, len-append p t, slice-append_right p t) refl

strip_prefix-eq : (s p t : String) → strip_prefix s p ≡ some t → s ≡ p ++ t
unfolding strip_prefix
strip_prefix-eq s p t h = elim (Bool-cases (Text.starts_with s p)) [
  | inr other ↦ absurd (ground arith)
  | inl first ↦
      let (u, whole) = (TextEquality.starts_with_iff s p).0 first in
      let rest = strip_prefix-append p u in cc (whole, rest, h)
]

token_matches_iff : (s t : String) → (token_matches s t ≡ true) ↔ (s ≡ t)
unfolding token_matches
token_matches_iff s t =
    (λ h. (TextEquality.eq_iff s t).0 (ground arith), λ e. rw e (ground (arith, eq_refl t)))

extract_bearer_iff :
    (header : Option String) (token : String)
    → 0 < len token
    → (extract_bearer header ≡ some token) ↔ (header ≡ some (bearer ++ token))
unfolding extract_bearer
extract_bearer_iff none token long = (λ h. cc, λ h. cc)
extract_bearer_iff (some value) token long = (
  λ h. elim (Option-cases (strip_prefix value bearer)) [
    | inl other ↦ absurd (ground arith)
    | inr (t, stripped) ↦
        let same : t ≡ token = ground arith in
        let whole = strip_prefix-eq value bearer t stripped in cc (whole, same)
  ],
  λ e.
      let same : value ≡ bearer ++ token = cc e in
      let stripped = strip_prefix-append bearer token in rw same (ground (arith, stripped)),
)

-- With a key configured, a request goes on to its handler exactly if its header is the word
-- `Bearer`, a blank and the key.
pub require_bearer_iff :
    (key : String) (header : Option String)
    → 0 < len key
    → (require_bearer (some key) header ≡ ok tt) ↔ (header ≡ some ("Bearer " ++ key))
unfolding require_bearer
require_bearer_iff key header long = (
  λ h. elim (Option-cases (extract_bearer header)) [
    | inl missing ↦ absurd (ground arith)
    | inr (token, presented) ↦
        let same : key ≡ token = (token_matches_iff key token).0 (ground arith) in
        (extract_bearer_iff header key long).0 (cc (presented, same))
  ],
  λ e.
      let presented = (extract_bearer_iff header key long).1 e in
      let same = (token_matches_iff key key).1 refl in ground (arith, presented, same),
)
