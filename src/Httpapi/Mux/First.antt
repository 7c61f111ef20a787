-- ===== src/Httpapi/Mux/First.antt =====
-- The public routes do not shadow each other.
use debugsymd.Base.{
  ◌≡◌, if◌then◌else◌, refl, sym, ap, ◌∙◌, Bool, true, false, Option, none, some, List, [], ◌∷◌,
  ◌++◌, Bytes, codes, inl, inr, Option-cases,
}
use debugsymd.GoStrings.{bytes_eq}
use debugsymd.Httpapi.Mux.{
  debuginfo_pattern, executable_pattern, source_pattern, specific_first, Segment, Endpoint, Pattern,
  Values, matches, symstore_pattern, debuginfod_patterns, public_patterns, ServeMux, In, Matches,
  IsServeMux, is_clean, first_match,
}

first_match-none :
    (table : List Pattern) (path : List Bytes)
    → ((segments : List Segment) (e : Endpoint)
        → In (segments, e) table
        → matches segments path ≡ none)
    → first_match table path ≡ none
unfolding first_match
first_match-none [] path h = refl
first_match-none ((segments, e) ∷ table) path h =
    rw (first_match, h segments e (inl refl))
      (first_match-none table path (λ s e' i. h s e' (inr i)))

-- No pattern is as wide as one further on.
abbrev pub Narrow : List Pattern → Type 0
Narrow [] = Unit {0}
Narrow ((segments, e) ∷ table) =
    ((others : List Segment) (e' : Endpoint)
      → In (others, e') table
      → ¬ ((q : List Bytes) → Matches others q → Matches segments q))
    × Narrow table

first_match-chosen :
    (table : List Pattern) (path : List Bytes) (segments : List Segment) (e : Endpoint)
    (values : Values)
    → Narrow table
    → In (segments, e) table
    → matches segments path ≡ some values
    → ((others : List Segment) (e' : Endpoint)
        → In (others, e') table
        → Matches others path
        → (q : List Bytes) → Matches segments q
        → Matches others q)
    → first_match table path ≡ some (e, values)
unfolding first_match
first_match-chosen [] path segments e values n i m h = absurd i
first_match-chosen ((others, e') ∷ table) path segments e values (wide, n) (inl same) m h =
    let a : others ≡ segments = cc in
    let b : e' ≡ e = cc in rw (first_match, ap (λ s. matches s path) a ∙ m, b) refl
first_match-chosen ((others, e') ∷ table) path segments e values (wide, n) (inr i) m h =
    elim (Option-cases (matches others path)) [
      | inl missed ↦
          rw (first_match, missed)
            (first_match-chosen table path segments e values n i m (λ s e'' j. h s e'' (inr j)))
      | inr matched ↦ absurd (wide segments e i (h others e' (inl refl) matched))
    ]

In-last : {A : Type 0} (x y : A) (xs : List A) → In x (y ∷ xs) → In x (xs ++ (y ∷ []))
In-last x y [] i = i
In-last x y (z ∷ xs) (inl same) = inr (In-last x y xs (inl same))
In-last x y (z ∷ xs) (inr (inl same)) = inl same
In-last x y (z ∷ xs) (inr (inr i)) = inr (In-last x y xs (inr i))

In-first : {A : Type 0} (x y : A) (xs : List A) → In x (xs ++ (y ∷ [])) → In x (y ∷ xs)
In-first x y [] i = i
In-first x y (z ∷ xs) (inl same) = inr (inl same)
In-first x y (z ∷ xs) (inr i) = elim (In-first x y xs i) [
  | inl same ↦ inl same
  | inr j ↦ inr (inr j)
]

-- A path that one of the patterns matches and the other does not.
apart :
    (p : Pattern) (segments others : List Segment) (e : Endpoint) (q : List Bytes) (values : Values)
    → p ≡ (others, e)
    → matches p.0 q ≡ some values
    → matches segments q ≡ none
    → ¬ ((path : List Bytes) → Matches others path → Matches segments path)
apart p segments others e q values same m missed wide =
    let it : p.0 ≡ others = ap (λ (x : Pattern). x.0) same in
    let (v, found) = wide q (values, ap (λ s. matches s q) (sym it) ∙ m) in cc

abbrev build_id_path : List Bytes → List Bytes
build_id_path end = codes "buildid" ∷ codes "00" ∷ end

abbrev build_id_values : Values → Values
build_id_values values = (codes "buildid", codes "00") ∷ values

abbrev to_executable : List Bytes
to_executable = build_id_path (codes "executable" ∷ [])

abbrev to_source : List Bytes
to_source = build_id_path (codes "source" ∷ codes "a.c" ∷ [])

abbrev to_symbol : List Bytes
to_symbol = codes "a" ∷ codes "1" ∷ codes "a" ∷ []

abbrev source_values : Values
source_values = build_id_values ((codes "srcpath", codes "a.c") ∷ [])

abbrev symbol_values : Values
symbol_values =
    (codes "leading", codes "a")
    ∷ (codes "signature", codes "1")
    ∷ (codes "trailing", codes "a")
    ∷ []

specific_first-Narrow : (debuginfod : Bool) → Narrow (specific_first debuginfod)
unfolding matches bytes_eq
specific_first-Narrow false = ((λ others e i. absurd i), tt)
specific_first-Narrow true = (
  λ others e j wide. elim j [
    | inl i ↦
        apart _ debuginfo_pattern.0 others e to_executable (build_id_values []) i refl refl wide
    | inr (inl i) ↦ apart _ debuginfo_pattern.0 others e to_source source_values i refl refl wide
    | inr (inr (inl i)) ↦
        apart _ debuginfo_pattern.0 others e to_symbol symbol_values i refl refl wide
    | inr (inr (inr i)) ↦ absurd i
  ],
  (
    λ others e j wide. elim j [
      | inl i ↦ apart _ executable_pattern.0 others e to_source source_values i refl refl wide
      | inr (inl i) ↦ apart _ executable_pattern.0 others e to_symbol symbol_values i refl refl wide
      | inr (inr i) ↦ absurd i
    ],
    (
      λ others e j wide. elim j [
        | inl i ↦ apart _ source_pattern.0 others e to_symbol symbol_values i refl refl wide
        | inr i ↦ absurd i
      ],
      ((λ others e i. absurd i), tt),
    ),
  ),
)

pub chosen-first_match :
    (mux : ServeMux) (debuginfod : Bool) (path : List Bytes) (e : Endpoint) (values : Values)
    → IsServeMux mux (public_patterns debuginfod)
    → mux (public_patterns debuginfod) path ≡ some (e, values)
    → first_match (specific_first debuginfod) path ≡ some (e, values)
unfolding public_patterns
chosen-first_match mux debuginfod path e values is h =
    let order : List Pattern = if debuginfod then debuginfod_patterns else [] in
    let c = is.chosen path e values h in
    first_match-chosen (specific_first debuginfod) path c.segments e values
      (specific_first-Narrow debuginfod) (In-last (c.segments, e) symstore_pattern order c.listed)
      c.bound
      (λ others e' i. c.narrowest others e' (In-first (others, e') symstore_pattern order i))

-- With the debuginfod routes on, a request for a clean path goes to the first of them whose pattern its
-- path matches, and to the symstore route if there is none such and the path matches its pattern. With
-- them off, only the symstore route is there. This holds for every multiplexer that prefers the more
-- specific pattern, whatever it does with paths that are not clean.
pub mux-first_match :
    (mux : ServeMux) (debuginfod : Bool) (path : List Bytes)
    → IsServeMux mux (public_patterns debuginfod)
    → is_clean path ≡ true
    → mux (public_patterns debuginfod) path ≡ first_match (specific_first debuginfod) path
unfolding public_patterns
mux-first_match mux debuginfod path is clean = go (mux (public_patterns debuginfod) path) refl
  where
    order : List Pattern
    order = if debuginfod then debuginfod_patterns else []

    go :
        (r : Option (Endpoint × Values))
        → mux (public_patterns debuginfod) path ≡ r
        → r ≡ first_match (specific_first debuginfod) path
    go none h = sym (
        first_match-none (specific_first debuginfod) path
          (λ s e i. is.missed path s e clean h (In-first (s, e) symstore_pattern order i)))
    go (some (e, values)) h = sym (chosen-first_match mux debuginfod path e values is h)
