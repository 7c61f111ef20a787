-- ===== src/Httpapi/Server/Routes.antt =====
-- Which handler and which label a path gets on the public listener.
use mathlib.Core.Path.{subst}
use debugsymd.Base.{
  ◌≡◌, ◌≢◌, refl, sym, ap, ◌∙◌, Bool, true, false, Option, none, some, List, [], ◌∷◌, Bytes, codes,
  arith, Option-cases, inl, inr, ◌⊎◌,
}
use debugsymd.GoStrings.{Unicode, bytes_eq}
use debugsymd.Dict.{get, bytes_eq_refl}
use debugsymd.Httpapi.Form.{form}
use debugsymd.Httpapi.Handler.{Objects, Answer, symstore_route}
use debugsymd.Httpapi.Debuginfod.{debuginfod_debug, debuginfod_executable, debuginfod_source}
use debugsymd.Httpapi.Metrics.{symstore_form}
use debugsymd.Httpapi.Mux.First.{chosen-first_match}
use debugsymd.Httpapi.Mux.{
  ServeMux, IsServeMux, public_patterns, Segment, Endpoint, Values, join, matches, first_match,
  specific_first, debuginfo_pattern, build_id_pattern, executable_pattern, source_pattern,
  symstore_pattern,
}
use debugsymd.Httpapi.Mux.Shapes.{Matches-leaf, Matches-source, symstore-short}
use debugsymd.Httpapi.Server.{Library, path_value, answer, label}

-- The two routes without a source path.
leaf-value :
    (s : Bytes) (e : Endpoint) (path : List Bytes) (values : Values)
    → matches (build_id_pattern (Segment.literal s ∷ []) e).0 path ≡ some values
    → (x : Bytes) × (path ≡ codes "buildid" ∷ x ∷ s ∷ [])
      × (x ≢ [])
      × (path_value (codes "buildid") values ≡ x)
unfolding matches bytes_eq get
leaf-value s e path values m =
    let (x, is, set) = Matches-leaf s e path (values, m) in
    (
      x,
      is,
      set,
      value x set (sym (ap (matches (build_id_pattern (Segment.literal s ∷ []) e).0) is) ∙ m),
    )
  where
    value :
        (x : Bytes)
        → x ≢ []
        → matches (build_id_pattern (Segment.literal s ∷ []) e).0 (codes "buildid" ∷ x ∷ s ∷ [])
          ≡ some values
        → path_value (codes "buildid") values ≡ x
    value [] set h = absurd (set refl)
    value (b ∷ x) set h =
        let same = bytes_eq_refl s in
        let it : (codes "buildid", b ∷ x) ∷ [] ≡ values = ground arith in
        ap (path_value (codes "buildid")) (sym it)

source-value :
    (path : List Bytes) (values : Values)
    → matches source_pattern.0 path ≡ some values
    → (x y : Bytes) × (xs : List Bytes) × (path ≡ codes "buildid" ∷ x ∷ codes "source" ∷ y ∷ xs)
      × (x ≢ [])
      × (path_value (codes "buildid") values ≡ x)
      × (path_value (codes "srcpath") values ≡ join (y ∷ xs))
unfolding matches bytes_eq get
source-value path values m =
    let (x, y, xs, is, set) = Matches-source path (values, m) in
    let (a, b) = value x y xs set (sym (ap (matches source_pattern.0) is) ∙ m) in
    (x, y, xs, is, set, a, b)
  where
    value :
        (x y : Bytes) (xs : List Bytes)
        → x ≢ []
        → matches source_pattern.0 (codes "buildid" ∷ x ∷ codes "source" ∷ y ∷ xs) ≡ some values
        → (path_value (codes "buildid") values ≡ x)
          × (path_value (codes "srcpath") values ≡ join (y ∷ xs))
    value [] y xs set h = absurd (set refl)
    value (b ∷ x) y xs set h =
        let it : (codes "buildid", b ∷ x) ∷ (codes "srcpath", join (y ∷ xs)) ∷ [] ≡ values = cc in
        (ap (path_value (codes "buildid")) (sym it), ap (path_value (codes "srcpath")) (sym it))

symstore-value :
    (path : List Bytes) (values : Values)
    → matches symstore_pattern.0 path ≡ some values
    → (x y z : Bytes) × (path ≡ x ∷ y ∷ z ∷ [])
      × (x ≢ [])
      × (y ≢ [])
      × (z ≢ [])
      × (path_value (codes "leading") values ≡ x)
      × (path_value (codes "signature") values ≡ y)
      × (path_value (codes "trailing") values ≡ z)
unfolding matches bytes_eq get
symstore-value path values m =
    let (x, y, z, is, p, q, r) = symstore-short path (values, m) in
    let (a, b, c) = value x y z p q r (sym (ap (matches symstore_pattern.0) is) ∙ m) in
    (x, y, z, is, p, q, r, a, b, c)
  where
    value :
        (x y z : Bytes)
        → x ≢ []
        → y ≢ []
        → z ≢ []
        → matches symstore_pattern.0 (x ∷ y ∷ z ∷ []) ≡ some values
        → (path_value (codes "leading") values ≡ x)
          × (path_value (codes "signature") values ≡ y)
          × (path_value (codes "trailing") values ≡ z)
    value [] y z p q r h = absurd (p refl)
    value (a ∷ x) [] z p q r h = absurd (q refl)
    value (a ∷ x) (b ∷ y) [] p q r h = absurd (r refl)
    value (a ∷ x) (b ∷ y) (c ∷ z) p q r h =
        let it : (codes "leading", a ∷ x)
              ∷ (codes "signature", b ∷ y)
              ∷ (codes "trailing", c ∷ z)
              ∷ []
            ≡ values =
          cc in
        (
          ap (path_value (codes "leading")) (sym it),
          ap (path_value (codes "signature")) (sym it),
          ap (path_value (codes "trailing")) (sym it),
        )

leaf-matched :
    (s : Bytes) (e : Endpoint) (y : Bytes)
    → y ≢ []
    → matches (build_id_pattern (Segment.literal s ∷ []) e).0 (codes "buildid" ∷ y ∷ s ∷ []) ≢ none
unfolding matches bytes_eq
leaf-matched s e [] full h = full refl
leaf-matched s e (b ∷ y) full h = let same = bytes_eq_refl s in ground arith

-- The build-id routes without a source path, where they are on.
abbrev pub IsBuildId : Bool → Bytes → Bytes → Type 0
IsBuildId debuginfod x z =
    (debuginfod ≡ true)
    × (x ≡ codes "buildid")
    × ((z ≡ codes "debuginfo") ⊎ (z ≡ codes "executable"))

module _ {File W : Type 0} (lib : Library File W) ⦃u : Unicode⦄ (objects : Objects File) where
  -- The answer and the label of a path's request, as the documentation of the routes has it.
  pub data Routed (debuginfod : Bool) (path : List Bytes) (a : Answer File) (name : Bytes)
      : Type 0 where
    debuginfo :
        (id : Bytes)
        → debuginfod ≡ true
        → path ≡ codes "buildid" ∷ id ∷ codes "debuginfo" ∷ []
        → a ≡ debuginfod_debug objects id
        → name ≡ codes "debuginfo"
        → Routed debuginfod path a name
    executable :
        (id : Bytes)
        → debuginfod ≡ true
        → path ≡ codes "buildid" ∷ id ∷ codes "executable" ∷ []
        → a ≡ debuginfod_executable objects id
        → name ≡ codes "executable"
        → Routed debuginfod path a name
    source :
        (id s : Bytes) (rest : List Bytes)
        → debuginfod ≡ true
        → path ≡ codes "buildid" ∷ id ∷ codes "source" ∷ s ∷ rest
        → a ≡ debuginfod_source objects id (join (s ∷ rest))
        → name ≡ codes "source"
        → Routed debuginfod path a name
    symstore :
        (leading signature trailing : Bytes)
        → path ≡ leading ∷ signature ∷ trailing ∷ []
        → ¬ IsBuildId debuginfod leading trailing
        → a ≡ symstore_route objects leading signature trailing
        → name ≡ form trailing
        → Routed debuginfod path a name

  debuginfo-Routed :
      (path : List Bytes) (v : Values)
      → matches debuginfo_pattern.0 path ≡ some v
      → Routed true path
          (answer lib objects Endpoint.debuginfo v)
          (label lib objects Endpoint.debuginfo v)
  unfolding answer label
  debuginfo-Routed path v m =
      let (id, is, set, it) = leaf-value (codes "debuginfo") Endpoint.debuginfo path v m in
      Routed.debuginfo id refl is (ap (debuginfod_debug objects) it) refl

  executable-Routed :
      (path : List Bytes) (v : Values)
      → matches executable_pattern.0 path ≡ some v
      → Routed true path
          (answer lib objects Endpoint.executable v)
          (label lib objects Endpoint.executable v)
  unfolding answer label
  executable-Routed path v m =
      let (id, is, set, it) = leaf-value (codes "executable") Endpoint.executable path v m in
      Routed.executable id refl is (ap (debuginfod_executable objects) it) refl

  source-Routed :
      (path : List Bytes) (v : Values)
      → matches source_pattern.0 path ≡ some v
      → Routed true path
          (answer lib objects Endpoint.source v)
          (label lib objects Endpoint.source v)
  unfolding answer label
  source-Routed path v m =
      let (id, s, rest, is, set, it, there) = source-value path v m in
      Routed.source id s rest refl is
        (ap (λ x. debuginfod_source objects x (path_value (codes "srcpath") v)) it
          ∙ ap (debuginfod_source objects id) there)
        refl

  symstore-Routed :
      (debuginfod : Bool) (path : List Bytes) (v : Values)
      → matches symstore_pattern.0 path ≡ some v
      → (debuginfod ≡ true → matches debuginfo_pattern.0 path ≡ none)
      → (debuginfod ≡ true → matches executable_pattern.0 path ≡ none)
      → Routed debuginfod path
          (answer lib objects Endpoint.symstore v)
          (label lib objects Endpoint.symstore v)
  unfolding answer label symstore_form
  symstore-Routed debuginfod path v m no_debuginfo no_executable =
      let (x, y, z, is, p, q, r, a, b, c) = symstore-value path v m in
      Routed.symstore x y z is
        (λ t. elim t.2 [
          | inl e ↦
              clash (codes "debuginfo") Endpoint.debuginfo y q
                (is ∙ ap (λ l. l ∷ y ∷ z ∷ []) t.1 ∙ ap (λ l. codes "buildid" ∷ y ∷ l ∷ []) e)
                (no_debuginfo t.0)
          | inr e ↦
              clash (codes "executable") Endpoint.executable y q
                (is ∙ ap (λ l. l ∷ y ∷ z ∷ []) t.1 ∙ ap (λ l. codes "buildid" ∷ y ∷ l ∷ []) e)
                (no_executable t.0)
        ])
        (ap
            (λ l.
              symstore_route objects l (path_value (codes "signature") v)
                (path_value (codes "trailing") v))
            a
          ∙ ap (λ l. symstore_route objects x l (path_value (codes "trailing") v)) b
          ∙ ap (symstore_route objects x y) c)
        (ap form c)
    where
      clash :
          (s : Bytes) (e : Endpoint) (y : Bytes)
          → y ≢ []
          → path ≡ codes "buildid" ∷ y ∷ s ∷ []
          → matches (build_id_pattern (Segment.literal s ∷ []) e).0 path ≡ none
          → ⊥
      clash s e y full is missed =
          leaf-matched s e y full
            (ap (matches (build_id_pattern (Segment.literal s ∷ []) e).0) (sym is) ∙ missed)

  -- What is wanted of the first pattern that matches.
  abbrev Right : Bool → List Bytes → Option (Endpoint × Values) → Type 0
  Right debuginfod path none = Unit {0}
  Right debuginfod path (some (e, v)) =
      Routed debuginfod path (answer lib objects e v) (label lib objects e v)

  first_match-Right :
      (debuginfod : Bool) (path : List Bytes)
      → Right debuginfod path (first_match (specific_first debuginfod) path)
  unfolding first_match
  first_match-Right false path = elim (Option-cases (matches symstore_pattern.0 path)) [
    | inl none_left ↦ rw (first_match, none_left) tt
    | inr (v, m) ↦ rw (first_match, m) (symstore-Routed false path v m (λ e. cc) (λ e. cc))
  ]
  first_match-Right true path = elim (Option-cases (matches debuginfo_pattern.0 path)) [
    | inr (v, m) ↦ rw (first_match, m) (debuginfo-Routed path v m)
    | inl no_debuginfo ↦ elim (Option-cases (matches executable_pattern.0 path)) [
      | inr (v, m) ↦ rw (first_match, no_debuginfo, m) (executable-Routed path v m)
      | inl no_executable ↦ elim (Option-cases (matches source_pattern.0 path)) [
        | inr (v, m) ↦ rw (first_match, no_debuginfo, no_executable, m) (source-Routed path v m)
        | inl no_source ↦ elim (Option-cases (matches symstore_pattern.0 path)) [
          | inr (v, m) ↦
              rw (first_match, no_debuginfo, no_executable, no_source, m)
                (symstore-Routed true path v m (λ e. no_debuginfo) (λ e. no_executable))
          | inl no_symstore ↦
              rw (first_match, no_debuginfo, no_executable, no_source, no_symstore) tt
        ]
      ]
    ]
  ]

  pub mux-Routed :
      (mux : ServeMux) (debuginfod : Bool) (path : List Bytes) (e : Endpoint) (values : Values)
      → IsServeMux mux (public_patterns debuginfod)
      → mux (public_patterns debuginfod) path ≡ some (e, values)
      → Routed debuginfod path (answer lib objects e values) (label lib objects e values)
  mux-Routed mux debuginfod path e values is h =
      subst (Right debuginfod path) (chosen-first_match mux debuginfod path e values is h)
        (first_match-Right debuginfod path)
