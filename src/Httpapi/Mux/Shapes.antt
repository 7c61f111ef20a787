-- ===== src/Httpapi/Mux/Shapes.antt =====
-- The paths that the public patterns match.
use debugsymd.Base.{
  ◌≡◌, ◌≢◌, refl, sym, ap, ◌∙◌, some, List, [], ◌∷◌, Bytes, codes, arith, Option-cases, Bool-cases,
  inl, inr,
}
use debugsymd.GoStrings.{bytes_eq}
use debugsymd.Dict.{eq_of_bytes_eq}
use debugsymd.Httpapi.Mux.{
  Segment, Endpoint, Values, matches, Matches, symstore_pattern, build_id_pattern, source_pattern,
}

pub Matches-end : (path : List Bytes) → Matches [] path → path ≡ []
unfolding matches
Matches-end [] m = refl
Matches-end (x ∷ xs) (v, m) = cc

pub Matches-literal :
    (s : Bytes) (ps : List Segment) (path : List Bytes)
    → Matches (Segment.literal s ∷ ps) path
    → (xs : List Bytes) × (path ≡ s ∷ xs) × Matches ps xs
unfolding matches
Matches-literal s ps [] (v, m) = cc
Matches-literal s ps (x ∷ xs) (v, m) = elim (Bool-cases (bytes_eq s x)) [
  | inl same ↦ (xs, ap (λ y. y ∷ xs) (sym (eq_of_bytes_eq s x same)), (v, ground arith))
  | inr differ ↦ ground arith
]

pub Matches-wildcard :
    (name : Bytes) (ps : List Segment) (path : List Bytes)
    → Matches (Segment.wildcard name ∷ ps) path
    → (x : Bytes) × (xs : List Bytes) × (path ≡ x ∷ xs) × (x ≢ []) × Matches ps xs
unfolding matches
Matches-wildcard name ps [] (v, m) = cc
Matches-wildcard name ps ([] ∷ xs) (v, m) = cc
Matches-wildcard name ps ((b ∷ x) ∷ xs) (v, m) = elim (Option-cases (matches ps xs)) [
  | inl missed ↦ ground arith
  | inr found ↦ (b ∷ x, xs, refl, (λ e. cc), found)
]

pub Matches-build_id :
    (ps : List Segment) (e : Endpoint) (path : List Bytes)
    → Matches (build_id_pattern ps e).0 path
    → (x : Bytes) × (xs : List Bytes) × (path ≡ codes "buildid" ∷ x ∷ xs) × (x ≢ []) × Matches ps xs
Matches-build_id ps e path m =
    let (rest, is, m') = Matches-literal (codes "buildid") _ path m in
    let (x, xs, is', set, found) = Matches-wildcard (codes "buildid") ps rest m' in
    (x, xs, is ∙ ap (λ r. codes "buildid" ∷ r) is', set, found)

-- A path of one of the two routes without a source.
pub Matches-leaf :
    (s : Bytes) (e : Endpoint) (path : List Bytes)
    → Matches (build_id_pattern (Segment.literal s ∷ []) e).0 path
    → (x : Bytes) × (path ≡ codes "buildid" ∷ x ∷ s ∷ []) × (x ≢ [])
Matches-leaf s e path m =
    let (x, xs, is, set, m') = Matches-build_id (Segment.literal s ∷ []) e path m in
    let (end, is', m'') = Matches-literal s [] xs m' in
    let none_left = Matches-end end m'' in
    (x, is ∙ ap (λ r. codes "buildid" ∷ x ∷ r) (is' ∙ ap (λ r. s ∷ r) none_left), set)

abbrev source_segments : List Segment
source_segments = Segment.literal (codes "source") ∷ Segment.rest (codes "srcpath") ∷ []

pub Matches-source :
    (path : List Bytes)
    → Matches source_pattern.0 path
    → (x y : Bytes) × (xs : List Bytes) × (path ≡ codes "buildid" ∷ x ∷ codes "source" ∷ y ∷ xs)
      × (x ≢ [])
unfolding matches
Matches-source path m =
    let (x, xs, is, set, m') = Matches-build_id source_segments Endpoint.source path m in
    let (end, is', (v, m'')) =
      Matches-literal (codes "source") (Segment.rest (codes "srcpath") ∷ []) xs m' in
    go x xs end set is is' v m''
  where
    go :
        (x : Bytes) (xs end : List Bytes)
        → x ≢ []
        → path ≡ codes "buildid" ∷ x ∷ xs
        → xs ≡ codes "source" ∷ end
        → (v : Values) → matches (Segment.rest (codes "srcpath") ∷ []) end ≡ some v
        → (x y : Bytes) × (xs : List Bytes) × (path ≡ codes "buildid" ∷ x ∷ codes "source" ∷ y ∷ xs)
          × (x ≢ [])
    go x xs [] set is is' v m = cc
    go x xs (y ∷ ys) set is is' v m = (x, y, ys, is ∙ ap (λ r. codes "buildid" ∷ x ∷ r) is', set)

pub leaf-symstore :
    (s : Bytes) (e : Endpoint) (path : List Bytes)
    → s ≢ []
    → Matches (build_id_pattern (Segment.literal s ∷ []) e).0 path
    → Matches symstore_pattern.0 path
unfolding matches
leaf-symstore s e path full m =
    let (x, is, set) = Matches-leaf s e path m in
    let (v, found) = shown x s set full in (v, ap (matches symstore_pattern.0) is ∙ found)
  where
    shown :
        (x s : Bytes) → x ≢ [] → s ≢ [] → Matches symstore_pattern.0 (codes "buildid" ∷ x ∷ s ∷ [])
    shown [] s a b = absurd (a refl)
    shown (c ∷ x) [] a b = absurd (b refl)
    shown (c ∷ x) (d ∷ s) a b = (_, refl)

pub symstore-short :
    (path : List Bytes)
    → Matches symstore_pattern.0 path
    → (x y z : Bytes) × (path ≡ x ∷ y ∷ z ∷ []) × (x ≢ []) × (y ≢ []) × (z ≢ [])
symstore-short path m =
    let (x, xs, is, set, m') = Matches-wildcard _ _ path m in
    let (y, ys, is', set', m'') = Matches-wildcard _ _ xs m' in
    let (z, zs, is'', set'', m''') = Matches-wildcard _ _ ys m'' in
    let end = Matches-end zs m''' in
    (
      x,
      y,
      z,
      is ∙ ap (λ r. x ∷ r) (is' ∙ ap (λ r. y ∷ r) (is'' ∙ ap (λ r. z ∷ r) end)),
      set,
      set',
      set'',
    )
