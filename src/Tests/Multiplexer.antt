-- ===== src/Tests/Multiplexer.antt =====
-- A multiplexer that behaves on the public patterns as net/http says: it takes the first that matches, with
-- the more specific ones in front.
use mathlib.Core.Path.{subst}
use debugsymd.Base.{
  ◌≡◌, refl, sym, ap, ◌∙◌, true, Option, none, some, List, Bytes, codes, Option-cases, inl, inr,
  ◌⊎◌,
}
use debugsymd.Httpapi.Mux.Shapes.{Matches-leaf, Matches-source, leaf-symstore, symstore-short}
use debugsymd.Httpapi.Mux.{
  Segment, Endpoint, Pattern, Values, matches, Matches, In, Chosen, IsServeMux, ServeMux,
  symstore_pattern, debuginfo_pattern, executable_pattern, source_pattern, public_patterns,
  specific_first, first_match,
}

symstore-source :
    (path : List Bytes) → Matches source_pattern.0 path → ¬ Matches symstore_pattern.0 path
symstore-source path m m' =
    let (x, y, xs, is, _) = Matches-source path m in
    let (a, b, c, is', _, _, _) = symstore-short path m' in cc

executable-source :
    (path : List Bytes) → Matches executable_pattern.0 path → ¬ Matches source_pattern.0 path
executable-source path m m' =
    let (x, is, set) = Matches-leaf (codes "executable") Endpoint.executable path m in
    let (a, b, c, is', _) = Matches-source path m' in cc

debuginfo-source :
    (path : List Bytes) → Matches debuginfo_pattern.0 path → ¬ Matches source_pattern.0 path
debuginfo-source path m m' =
    let (x, is, set) = Matches-leaf (codes "debuginfo") Endpoint.debuginfo path m in
    let (a, b, c, is', _) = Matches-source path m' in cc

debuginfo-executable :
    (path : List Bytes) → Matches debuginfo_pattern.0 path → ¬ Matches executable_pattern.0 path
debuginfo-executable path m m' =
    let (x, is, set) = Matches-leaf (codes "debuginfo") Endpoint.debuginfo path m in
    let (y, is', set') = Matches-leaf (codes "executable") Endpoint.executable path m' in cc

module _ (path : List Bytes) where
  -- The other pattern does not match the path, or wherever this one does.
  abbrev Judged : Pattern → Pattern → Type 0
  Judged p q = (¬ Matches q.0 path) ⊎ ((r : List Bytes) → Matches p.0 r → Matches q.0 r)

  make_chosen :
      (p : Pattern) (values : Values)
      → In p (public_patterns true)
      → matches p.0 path ≡ some values
      → Judged p symstore_pattern
      → Judged p debuginfo_pattern
      → Judged p executable_pattern
      → Judged p source_pattern
      → Chosen (public_patterns true) path p.1 values
  unfolding public_patterns
  make_chosen p values listed bound a b c d = record {
    segments = p.0;
    listed = listed;
    bound = bound;
    narrowest = λ others e i m. elim i [
      | inl same ↦ judged symstore_pattern others e a same m
      | inr (inl same) ↦ judged debuginfo_pattern others e b same m
      | inr (inr (inl same)) ↦ judged executable_pattern others e c same m
      | inr (inr (inr (inl same))) ↦ judged source_pattern others e d same m
      | inr (inr (inr (inr none_left))) ↦ absurd none_left
    ];
  }
    where
      judged :
          (q : Pattern) (others : List Segment) (e : Endpoint)
          → Judged p q
          → q ≡ (others, e)
          → Matches others path
          → (r : List Bytes) → Matches p.0 r
          → Matches others r
      judged q others e j same m r m' =
          let it : q.0 ≡ others = ap (λ (x : Pattern). x.0) same in
          elim j [
            | inl never ↦ absurd (never (subst (λ s. Matches s path) (sym it) m))
            | inr within ↦ subst (λ s. Matches s r) it (within r m')
          ]

abbrev pub ordered : ServeMux
ordered table path = first_match (specific_first true) path

unmatched : (p : Pattern) (path : List Bytes) → matches p.0 path ≡ none → ¬ Matches p.0 path
unmatched p path missed (v, found) = cc

-- What is wanted of a choice, or of none.
abbrev Right : List Bytes → Option (Endpoint × Values) → Type 0
Right path none =
    (segments : List Segment) (e : Endpoint)
    → In (segments, e) (public_patterns true)
    → matches segments path ≡ none
Right path (some (e, values)) = Chosen (public_patterns true) path e values

missed_all :
    (path : List Bytes)
    → matches symstore_pattern.0 path ≡ none
    → matches debuginfo_pattern.0 path ≡ none
    → matches executable_pattern.0 path ≡ none
    → matches source_pattern.0 path ≡ none
    → Right path none
unfolding public_patterns
missed_all path a b c d segments e i =
    let same =
      λ (p : Pattern) (is : p ≡ (segments, e)). ap (λ (x : Pattern). matches x.0 path) (sym is) in
    elim i [
      | inl is ↦ same symstore_pattern is ∙ a
      | inr (inl is) ↦ same debuginfo_pattern is ∙ b
      | inr (inr (inl is)) ↦ same executable_pattern is ∙ c
      | inr (inr (inr (inl is))) ↦ same source_pattern is ∙ d
      | inr (inr (inr (inr none_left))) ↦ absurd none_left
    ]

ordered-Right : (path : List Bytes) → Right path (first_match (specific_first true) path)
unfolding public_patterns first_match
ordered-Right path = elim (Option-cases (matches debuginfo_pattern.0 path)) [
  | inr (v, m) ↦
      rw (first_match, m)
        (make_chosen path debuginfo_pattern v (inr (inl refl)) m
          (inr (λ r. leaf-symstore (codes "debuginfo") Endpoint.debuginfo r (λ e. cc)))
          (inr (λ r x. x)) (inl (debuginfo-executable path (v, m)))
          (inl (debuginfo-source path (v, m))))
  | inl no_debuginfo ↦ elim (Option-cases (matches executable_pattern.0 path)) [
    | inr (v, m) ↦
        rw (first_match, no_debuginfo, m)
          (make_chosen path executable_pattern v (inr (inr (inl refl))) m
            (inr (λ r. leaf-symstore (codes "executable") Endpoint.executable r (λ e. cc)))
            (inl (unmatched debuginfo_pattern path no_debuginfo)) (inr (λ r x. x))
            (inl (executable-source path (v, m))))
    | inl no_executable ↦ elim (Option-cases (matches source_pattern.0 path)) [
      | inr (v, m) ↦
          rw (first_match, no_debuginfo, no_executable, m)
            (make_chosen path source_pattern v (inr (inr (inr (inl refl)))) m
              (inl (symstore-source path (v, m)))
              (inl (unmatched debuginfo_pattern path no_debuginfo))
              (inl (unmatched executable_pattern path no_executable)) (inr (λ r x. x)))
      | inl no_source ↦ elim (Option-cases (matches symstore_pattern.0 path)) [
        | inr (v, m) ↦
            rw (first_match, no_debuginfo, no_executable, no_source, m)
              (make_chosen path symstore_pattern v (inl refl) m (inr (λ r x. x))
                (inl (unmatched debuginfo_pattern path no_debuginfo))
                (inl (unmatched executable_pattern path no_executable))
                (inl (unmatched source_pattern path no_source)))
        | inl no_symstore ↦
            rw (first_match, no_debuginfo, no_executable, no_source, no_symstore)
              (missed_all path no_symstore no_debuginfo no_executable no_source)
      ]
    ]
  ]
]

pub ordered-IsServeMux : IsServeMux ordered (public_patterns true)
ordered-IsServeMux = record {
  chosen = λ path e values h. subst (Right path) h (ordered-Right path);
  missed = λ path segments e clean h. subst (Right path) h (ordered-Right path) segments e;
}
