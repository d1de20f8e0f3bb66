-- ===== src/React/Logs/Errors.antt =====
-- isTranaError of packages/sdk/src/react/error.ts.
use trana.Prelude.{ℕ, ◌≡◌, refl, arith, List, [], ◌∷◌, Option, none, some, Bool, ◌||◌, any, codes}
use trana.React.Logs.{
  Thrown, TranaErrorKind, includes, is_some, markers, marker_in, marker_in_logs, parse_trana_error,
  is_trana_error,
}
use mathlib.Core.Option.{get_or}

-- A text names one of the two markers.
abbrev pub mentions : List ℕ → Bool
mentions text =
    includes (codes "TRANA_NO_REGISTRY") text || includes (codes "TRANA_MISSING_PROOF") text

marker_in-mentions :
    (text : List ℕ) (rest : Option TranaErrorKind)
    → is_some (marker_in markers text rest) ≡ (mentions text || is_some rest)
unfolding marker_in
marker_in-mentions text rest = ground arith

marker_in_logs-any :
    (logs : List (List ℕ)) (rest : Option TranaErrorKind)
    → is_some (marker_in_logs logs rest) ≡ (any mentions logs || is_some rest)
marker_in_logs-any [] rest = refl
marker_in_logs-any (line ∷ logs) rest =
    ground (arith, marker_in-mentions line (marker_in_logs logs rest), marker_in_logs-any logs rest)

-- An exception counts as the guard's exactly when a log line or the message mentions a marker.
pub is_trana_error-mentions :
    (e : Thrown)
    → is_trana_error (some e) ≡ (any mentions (get_or e.logs []) || mentions (get_or e.message []))
unfolding is_trana_error parse_trana_error
is_trana_error-mentions e = ground (
  arith,
  marker_in-mentions (get_or e.message []) none,
  marker_in_logs-any (get_or e.logs []) (marker_in markers (get_or e.message []) none),
)
