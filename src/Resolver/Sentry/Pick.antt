-- ===== src/Resolver/Sentry/Pick.antt =====
-- What `pick` picks.
use Prim.Native.Nat.{Ordering}
use mathlib.Core.HLevel.{⊥_prop}
use mathlib.Core.Logic.Or
use mathlib.Core.List.{
  Mem, Mem-prop, mem-cons_self, mem-cons_of_mem, eq-or-mem_of_mem-cons, not-mem-nil, Perm, Pairwise,
}
use mathlib.Core.List.Perm
use debugsymd.Base.{
  ◌≡◌, ◌≢◌, refl, sym, ap, ◌∙◌, true, false, none, some, List, [], ◌∷◌, arith, ◌⊎◌, inl, inr,
  Bool-cases,
}
use debugsymd.GoStrings.{Unicode}
use debugsymd.Resolver.{Request}
use debugsymd.Resolver.Sentry.{DebugFile, rank, eligible, matches, Sort, IsSort, head?, pick}
use debugsymd.Resolver.Sentry.Order.{rank-IsWeakOrder, rank_equal}

module _ ⦃u : Unicode⦄ (req : Request) where
  Mem-matches :
      (files : List DebugFile) {g : DebugFile}
      → Mem g files
      → eligible req g ≡ true
      → Mem g (matches req files)
  unfolding matches
  Mem-matches [] m e = m
  Mem-matches (f ∷ files) {g} m e = elim (Bool-cases (eligible req f)) [
    | inl y ↦ rw y (
        Or.elim Mem-prop (eq-or-mem_of_mem-cons m) (λ same. rw same mem-cons_self)
          (λ later. mem-cons_of_mem f (Mem-matches files later e)))
    | inr n ↦ rw n (
        Or.elim Mem-prop (eq-or-mem_of_mem-cons m)
          (λ same.
            absurd
              (let e' : eligible req f ≡ true = ap (eligible req) (sym same) ∙ e in ground arith))
          (λ later. Mem-matches files later e))
  ]

  matches-Mem : (files : List DebugFile) {g : DebugFile} → Mem g (matches req files) → Mem g files
  unfolding matches
  matches-Mem [] m = m
  matches-Mem (f ∷ files) {g} m = elim (Bool-cases (eligible req f)) [
    | inl y ↦
        Or.elim Mem-prop (eq-or-mem_of_mem-cons (rw y at m)) (λ same. rw same mem-cons_self)
          (λ later. mem-cons_of_mem f (matches-Mem files later))
    | inr n ↦ mem-cons_of_mem f (matches-Mem files (rw n at m))
  ]

  matches-eligible :
      (files : List DebugFile) {g : DebugFile} → Mem g (matches req files) → eligible req g ≢ false
  unfolding matches
  matches-eligible [] m e = not-mem-nil m
  matches-eligible (f ∷ files) {g} m e = elim (Bool-cases (eligible req f)) [
    | inl y ↦
        Or.elim ⊥_prop (eq-or-mem_of_mem-cons (rw y at m))
          (λ same.
            let e' : eligible req f ≡ false = ap (eligible req) (sym same) ∙ e in ground arith)
          (λ later. matches-eligible files later e)
    | inr n ↦ matches-eligible files (rw n at m) e
  ]

  -- The file is one of those that the request may be given, and none of those ranks below it.
  pub record IsBest (files : List DebugFile) (f : DebugFile) : Type 0 where
    pub member : Mem f files
    pub fits : eligible req f ≡ true
    pub unbeaten :
        (g : DebugFile) → Mem g files → eligible req g ≡ true → rank req g f ≢ Ordering.lt

  head-sorted :
      (l : List DebugFile) {f : DebugFile}
      → Pairwise (λ a b. rank req b a ≢ Ordering.lt) l
      → head? l ≡ some f
      → Mem f l × ((g : DebugFile) → Mem g l → rank req g f ≢ Ordering.lt)
  head-sorted [] p h = absurd (cc)
  head-sorted (x ∷ l) {f} (Pairwise.cons below p) h =
      let same : x ≡ f = cc in
      rw (← same) (
        mem-cons_self,
        λ g m less.
            Or.elim ⊥_prop (eq-or-mem_of_mem-cons m)
              (λ e.
                (rank-IsWeakOrder req).irreflexive x
                  (ap (λ (y : DebugFile). rank req y x) (sym e) ∙ less))
              (λ later. below g later less),
      )

  pick_head :
      (sort : Sort) (laws : IsSort sort) (files : List DebugFile)
      → pick sort files req ≡ head? (sort (rank req) (matches req files))
  unfolding pick
  pick_head sort laws files = go (matches req files) refl
    where
      go :
          (l : List DebugFile)
          → matches req files ≡ l
          → pick sort files req ≡ head? (sort (rank req) (matches req files))
      go [] e = rw (pick, e) (ap head? (sym (Perm.eq-nil (laws.permutes (rank req) []))))
      go (f ∷ rest) e = rw (pick, e) refl

  -- `pick` gives a file exactly when there is one that the request may be given. It is one of those
  -- files, and no other of them ranks below it. This holds for every sort that puts the files in order.
  pub pick-IsBest :
      (sort : Sort) (files : List DebugFile)
      → IsSort sort
      → ((f : DebugFile) × (pick sort files req ≡ some f) × IsBest files f)
        ⊎ ((pick sort files req ≡ none) × ((g : DebugFile) → Mem g files → eligible req g ≡ false))
  pick-IsBest sort files laws = go (sort (rank req) (matches req files)) refl
    where
      to_list :
          {g : DebugFile}
          → Mem g files
          → eligible req g ≡ true
          → Mem g (sort (rank req) (matches req files))
      to_list m e =
          (Perm.mem_iff (laws.permutes (rank req) (matches req files))).1 (Mem-matches files m e)

      of_list :
          {g : DebugFile} → Mem g (sort (rank req) (matches req files)) → Mem g (matches req files)
      of_list m = (Perm.mem_iff (laws.permutes (rank req) (matches req files))).0 m

      go :
          (l : List DebugFile)
          → sort (rank req) (matches req files) ≡ l
          → ((f : DebugFile) × (pick sort files req ≡ some f) × IsBest files f)
            ⊎ ((pick sort files req ≡ none)
                × ((g : DebugFile) → Mem g files → eligible req g ≡ false))
      go [] e = inr (
        pick_head sort laws files ∙ ap head? e,
        λ g m. elim (Bool-cases (eligible req g)) [
          | inl y ↦ absurd (not-mem-nil (rw e at (to_list m y)))
          | inr n ↦ n
        ],
      )
      go (f ∷ rest) e =
          let (top, least) =
            head-sorted (sort (rank req) (matches req files)) {f = f}
              (laws.sorts (rank req) (matches req files) (rank-IsWeakOrder req)) (ap head? e) in
          inl (
            f,
            pick_head sort laws files ∙ ap head? e,
            record {
              member = matches-Mem files (of_list top);
              fits = elim (Bool-cases (eligible req f)) [
                | inl y ↦ y
                | inr n ↦ absurd (matches-eligible files (of_list top) n)
              ];
              unbeaten = λ g m y. least g (to_list m y);
            },
          )

  best_agree :
      {files files' : List DebugFile} {f f' : DebugFile}
      → Perm files files'
      → IsBest files f
      → IsBest files' f'
      → f.sha1 ≡ f'.sha1
  best_agree {f = f} {f' = f'} p b b' =
      rank_equal req f f' (b'.unbeaten f ((Perm.mem_iff p).0 b.member) b.fits)
        (b.unbeaten f' ((Perm.mem_iff p).1 b'.member) b'.fits)

  -- The same files in another order, sorted by another sort, give a file with the same checksum, or no
  -- file in both cases: replicas that the API answers in different orders read the same blob.
  pub pick_stable :
      (sort sort' : Sort) (files files' : List DebugFile)
      → IsSort sort
      → IsSort sort'
      → Perm files files'
      → ((f : DebugFile) × (f' : DebugFile) × (pick sort files req ≡ some f)
          × (pick sort' files' req ≡ some f')
          × (f.sha1 ≡ f'.sha1))
        ⊎ ((pick sort files req ≡ none) × (pick sort' files' req ≡ none))
  pick_stable sort sort' files files' laws laws' p = elim (pick-IsBest sort files laws) [
    | inl (f, e, b) ↦ elim (pick-IsBest sort' files' laws') [
      | inl (f', e', b') ↦ inl (f, f', e, e', best_agree p b b')
      | inr (n, no_file) ↦ absurd (
          let missing = no_file f ((Perm.mem_iff p).0 b.member) in
          let found = b.fits in ground arith)
    ]
    | inr (n, no_file) ↦ elim (pick-IsBest sort' files' laws') [
      | inl (f', e', b') ↦ absurd (
          let missing = no_file f' ((Perm.mem_iff p).1 b'.member) in
          let found = b'.fits in ground arith)
      | inr (n', _) ↦ inr (n, n')
    ]
  ]
