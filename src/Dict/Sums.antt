-- ===== src/Dict/Sums.antt =====
-- A sum over the entries, by a weight.
use debugsymd.Base.{
  ℕ, ◌+◌, ◌≡◌, refl, Option, none, some, List, [], ◌∷◌, arith, Bytes, inl, inr, Bool-cases,
}
use debugsymd.GoStrings.{bytes_eq}
use debugsymd.Dict.{get, put, delete, IsUnique, eq_of_bytes_eq}

module _ {ℓ} {V : Type ℓ} (weight : Bytes → V → ℕ) where
  unfoldable pub sum : List (Bytes × V) → ℕ
  sum [] = 0
  sum ((k, v) ∷ m) = weight k v + sum m

  abbrev pub weight_of : Bytes → Option V → ℕ
  weight_of k none = 0
  weight_of k (some v) = weight k v

  pub sum-put :
      (k : Bytes) (v : V) (m : List (Bytes × V))
      → sum (put k v m) + weight_of k (get k m) ≡ sum m + weight k v
  unfolding sum get put
  sum-put k v [] = omega arith
  sum-put k v ((i, w) ∷ m) = elim (Bool-cases (bytes_eq i k)) [
    | inl e ↦ let same = eq_of_bytes_eq i k e in rw (e, same) (omega arith)
    | inr e ↦ rw e (omega (arith, sum-put k v m))
  ]

  delete_absent : (k : Bytes) (m : List (Bytes × V)) → get k m ≡ none → delete k m ≡ m
  unfolding get delete
  delete_absent k [] h = refl
  delete_absent k ((i, w) ∷ m) h = ground (arith, delete_absent k m)

  pub sum-delete :
      (k : Bytes) (m : List (Bytes × V))
      → IsUnique m
      → sum (delete k m) + weight_of k (get k m) ≡ sum m
  unfolding sum get delete
  sum-delete k [] u = omega arith
  sum-delete k ((i, w) ∷ m) (n, u) = elim (Bool-cases (bytes_eq i k)) [
    | inl e ↦
        let same = eq_of_bytes_eq i k e in
        let gone : delete k m ≡ m = delete_absent k m (rw same at n) in
        rw (e, gone, same) (omega arith)
    | inr e ↦ rw e (omega (arith, sum-delete k m u))
  ]
