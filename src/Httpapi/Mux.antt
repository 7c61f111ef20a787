-- ===== src/Httpapi/Mux.antt =====
-- httpapi/server.go: the patterns of the public listener. A path is the list of its segments, the last
-- one empty behind a trailing slash; every pattern is one for GET, which the library also takes for HEAD.
pub mod First
pub mod Shapes
use debugsymd.Base.{
  ℕ, ◌≡◌, Bool, true, false, Option, none, some, List, [], ◌∷◌, ◌++◌, Bytes, codes, if◌then◌else◌,
  ◌⊎◌, ◌||◌, ◌&&◌, not,
}
use debugsymd.GoStrings.{bytes_eq}

-- `{name...}` is the rest of the path.
pub data Segment : Type 0 where
  literal wildcard rest : Bytes → Segment

pub data Endpoint : Type 0 where
  symstore debuginfo executable source : Endpoint

abbrev pub Pattern : Type 0
Pattern = List Segment × Endpoint

-- the values of the wildcards
abbrev pub Values : Type 0
Values = List (Bytes × Bytes)

abbrev pub join : List Bytes → Bytes
join [] = []
join (s ∷ []) = s
join (s ∷ (t ∷ ts)) = s ++ (codes "/" ++ join (t ∷ ts))

-- What net/http says of a pattern: a wildcard is one segment, not an empty one, and the rest may be
-- empty behind a slash.
unfoldable pub matches : List Segment → List Bytes → Option Values
matches [] [] = some []
matches [] (x ∷ xs) = none
matches (Segment.literal s ∷ ps) [] = none
matches (Segment.literal s ∷ ps) (x ∷ xs) =
    let others = matches ps xs in if bytes_eq s x then others else none
matches (Segment.wildcard name ∷ ps) [] = none
matches (Segment.wildcard name ∷ ps) ([] ∷ xs) = none
matches (Segment.wildcard name ∷ ps) ((b ∷ x) ∷ xs) = elim (matches ps xs) [
  | none ↦ none
  | some values ↦ some ((name, b ∷ x) ∷ values)
]
matches (Segment.rest name ∷ ps) [] = none
matches (Segment.rest name ∷ ps) (x ∷ xs) = some ((name, join (x ∷ xs)) ∷ [])

abbrev pub symstore_pattern : Pattern
symstore_pattern = (
  Segment.wildcard (codes "leading")
      ∷ Segment.wildcard (codes "signature")
      ∷ Segment.wildcard (codes "trailing")
      ∷ [],
  Endpoint.symstore,
)

abbrev pub build_id_pattern : List Segment → Endpoint → Pattern
build_id_pattern segments e =
    (Segment.literal (codes "buildid") ∷ Segment.wildcard (codes "buildid") ∷ segments, e)

abbrev pub debuginfo_pattern : Pattern
debuginfo_pattern = build_id_pattern (Segment.literal (codes "debuginfo") ∷ []) Endpoint.debuginfo

abbrev pub executable_pattern : Pattern
executable_pattern =
    build_id_pattern (Segment.literal (codes "executable") ∷ []) Endpoint.executable

abbrev pub source_pattern : Pattern
source_pattern =
    build_id_pattern (Segment.literal (codes "source") ∷ Segment.rest (codes "srcpath") ∷ [])
      Endpoint.source

abbrev pub debuginfod_patterns : List Pattern
debuginfod_patterns = debuginfo_pattern ∷ executable_pattern ∷ source_pattern ∷ []

unfoldable pub public_patterns : Bool → List Pattern
public_patterns debuginfod = symstore_pattern ∷ (if debuginfod then debuginfod_patterns else [])

-- `http.ServeMux` on a table and a path
abbrev pub ServeMux : Type 0
ServeMux = List Pattern → List Bytes → Option (Endpoint × Values)

abbrev pub In : {A : Type 0} → A → List A → Type 0
In x [] = ⊥
In x (y ∷ xs) = (y ≡ x) ⊎ In x xs

abbrev pub Matches : List Segment → List Bytes → Type 0
Matches segments path = (values : Values) × (matches segments path ≡ some values)

-- What net/http says of its choice: a pattern that matches, and none that matches as well is more
-- specific.
pub record Chosen (table : List Pattern) (path : List Bytes) (e : Endpoint) (values : Values)
    : Type 0 where
  pub segments : List Segment
  pub listed : In (segments, e) table
  pub bound : matches segments path ≡ some values
  pub narrowest :
      (others : List Segment) (e' : Endpoint)
      → In (others, e') table
      → Matches others path
      → (q : List Bytes) → Matches segments q
      → Matches others q

-- No segment is empty but the last one, and none is a dot or two: net/http redirects a request for
-- another path before it looks for a pattern.
abbrev pub is_dots : Bytes → Bool
is_dots s = bytes_eq s (codes ".") || bytes_eq s (codes "..")

unfoldable pub is_clean : List Bytes → Bool
is_clean [] = true
is_clean (s ∷ []) = not (is_dots s)
is_clean (s ∷ (t ∷ ts)) = not (is_dots s) && not (bytes_eq s []) && is_clean (t ∷ ts)

-- A request that no pattern gets has a path that none matches, if it is clean.
pub record IsServeMux (mux : ServeMux) (table : List Pattern) : Type 0 where
  pub chosen :
      (path : List Bytes) (e : Endpoint) (values : Values)
      → mux table path ≡ some (e, values)
      → Chosen table path e values
  pub missed :
      (path : List Bytes) (segments : List Segment) (e : Endpoint)
      → is_clean path ≡ true
      → mux table path ≡ none
      → In (segments, e) table
      → matches segments path ≡ none

-- The first pattern of a list that matches.
unfoldable pub first_match : List Pattern → List Bytes → Option (Endpoint × Values)
first_match [] path = none
first_match ((segments, e) ∷ table) path = elim (matches segments path) [
  | some values ↦ some (e, values)
  | none ↦ first_match table path
]

abbrev pub specific_first : Bool → List Pattern
specific_first debuginfod =
    (if debuginfod then debuginfod_patterns else []) ++ (symstore_pattern ∷ [])
