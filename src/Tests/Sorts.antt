-- ===== src/Tests/Sorts.antt =====
-- Insertion sort has what the model asks of `slices.SortFunc`.
use Prim.Native.Nat.{Ordering}
use mathlib.Core.HLevel.{⊥_prop}
use mathlib.Core.Logic.Or
use mathlib.Core.List.{eq-or-mem_of_mem-cons, not-mem-nil, Perm, Pairwise}
use mathlib.Core.List.Perm
use debugsymd.Base.{
  ◌≡◌, ◌≢◌, sym, ap, ◌∙◌, Bool, true, false, List, [], ◌∷◌, inl, inr, arith, Bool-cases,
  if◌then◌else◌,
}
use debugsymd.Resolver.Sentry.{DebugFile, Sort, IsSort, IsWeakOrder}

abbrev below : Ordering → Bool
below Ordering.lt = true
below _ = false

below_lem : (o : Ordering) → below o ≡ true → o ≡ Ordering.lt
below_lem o h = ground arith

not_below : (o : Ordering) → below o ≡ false → o ≢ Ordering.lt
not_below o h = λ e. ground arith

unfoldable pub place :
    (DebugFile → DebugFile → Ordering) → DebugFile → List DebugFile → List DebugFile
place cmp x [] = x ∷ []
place cmp x (y ∷ l) = let rest = place cmp x l in if below (cmp y x) then y ∷ rest else x ∷ y ∷ l

unfoldable pub insertion_sort : Sort
unfolding place
insertion_sort cmp [] = []
insertion_sort cmp (x ∷ l) = place cmp x (insertion_sort cmp l)

module _ (cmp : DebugFile → DebugFile → Ordering) where
  place-Perm : (x : DebugFile) (l : List DebugFile) → Perm (place cmp x l) (x ∷ l)
  unfolding place
  place-Perm x [] = Perm.refl (x ∷ [])
  place-Perm x (y ∷ l) = elim (Bool-cases (below (cmp y x))) [
    | inl b ↦ rw b (Perm.trans (Perm.cons y (place-Perm x l)) (Perm.swap x y l))
    | inr n ↦ rw n (Perm.refl (x ∷ y ∷ l))
  ]

  insertion_sort-Perm : (l : List DebugFile) → Perm (insertion_sort cmp l) l
  unfolding insertion_sort
  insertion_sort-Perm [] = Perm.refl []
  insertion_sort-Perm (x ∷ l) =
      Perm.trans (place-Perm x (insertion_sort cmp l)) (Perm.cons x (insertion_sort-Perm l))

  module _ (order : IsWeakOrder cmp) where
    abbrev Sorted : List DebugFile → Type 0
    Sorted = Pairwise (λ a b. cmp b a ≢ Ordering.lt)

    place-Pairwise : (x : DebugFile) (l : List DebugFile) → Sorted l → Sorted (place cmp x l)
    unfolding place
    place-Pairwise x [] p = Pairwise.cons (λ g m. absurd (not-mem-nil m)) Pairwise.nil
    place-Pairwise x (y ∷ l) (Pairwise.cons h p) = elim (Bool-cases (below (cmp y x))) [
      | inl b ↦ rw b (
          Pairwise.cons
            (λ g m less.
              Or.elim ⊥_prop (eq-or-mem_of_mem-cons ((Perm.mem_iff (place-Perm x l)).0 m))
                (λ same. order.irreflexive y (
                  order.transitive y x y (below_lem (cmp y x) b)
                    (ap (λ (z : DebugFile). cmp z y) (sym same) ∙ less)))
                (λ later. h g later less))
            (place-Pairwise x l p))
      | inr n ↦ rw n (
          Pairwise.cons
            (λ g m less.
              Or.elim ⊥_prop (eq-or-mem_of_mem-cons m)
                (λ same. not_below (cmp y x) n (ap (λ (z : DebugFile). cmp z x) (sym same) ∙ less))
                (λ later. order.incomparable g y x (h g later) (not_below (cmp y x) n) less))
            (Pairwise.cons h p))
    ]

    insertion_sort-Pairwise : (l : List DebugFile) → Sorted (insertion_sort cmp l)
    unfolding insertion_sort
    insertion_sort-Pairwise [] = Pairwise.nil
    insertion_sort-Pairwise (x ∷ l) =
        place-Pairwise x (insertion_sort cmp l) (insertion_sort-Pairwise l)

pub insertion_sort-IsSort : IsSort insertion_sort
insertion_sort-IsSort = record {
  permutes = insertion_sort-Perm;
  sorts = λ cmp l order. insertion_sort-Pairwise cmp order l;
}
