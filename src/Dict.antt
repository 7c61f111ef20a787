-- ===== src/Dict.antt =====
-- What is kept under names: an association list with byte strings as keys.
pub mod Sums
use debugsymd.Base.{
  ℕ, ◌≡◌, ◌≢◌, ◌↔◌, refl, sym, ap, ◌∙◌, Bool, true, false, Option, none, some, List, [], ◌∷◌, arith,
  Bytes, if◌then◌else◌, ◌==◌, ◌&&◌, ◌⊎◌, inl, inr, Bool-cases,
}
use mathlib.Core.Path.{ap₂}
use debugsymd.GoStrings.{bytes_eq}

pub bytes_eq_refl : (s : Bytes) → bytes_eq s s ≡ true
unfolding bytes_eq
bytes_eq_refl [] = refl
bytes_eq_refl (c ∷ s) = ground (arith, bytes_eq_refl s)

pub eq_of_bytes_eq : (s t : Bytes) → bytes_eq s t ≡ true → s ≡ t
unfolding bytes_eq
eq_of_bytes_eq [] [] h = refl
eq_of_bytes_eq [] (y ∷ t) h = cc
eq_of_bytes_eq (x ∷ s) [] h = cc
eq_of_bytes_eq (x ∷ s) (y ∷ t) h = ground (arith, eq_of_bytes_eq s t)

pub bytes_eq_iff : (s t : Bytes) → (bytes_eq s t ≡ true) ↔ (s ≡ t)
bytes_eq_iff s t = (eq_of_bytes_eq s t, λ e. rw e (bytes_eq_refl t))

pub bytes_eq_ne : (s t : Bytes) → s ≢ t → bytes_eq s t ≡ false
bytes_eq_ne s t h = elim (Bool-cases (bytes_eq s t)) [
  | inl e ↦ absurd (h (eq_of_bytes_eq s t e))
  | inr e ↦ e
]

module _ {ℓ} {V : Type ℓ} where
  unfoldable pub get : Bytes → List (Bytes × V) → Option V
  get k [] = none
  get k ((j, v) ∷ m) = if bytes_eq j k then some v else get k m

  unfoldable pub put : Bytes → V → List (Bytes × V) → List (Bytes × V)
  put k v [] = (k, v) ∷ []
  put k v ((j, w) ∷ m) = let rest = put k v m in if bytes_eq j k then (j, v) ∷ m else (j, w) ∷ rest

  unfoldable pub delete : Bytes → List (Bytes × V) → List (Bytes × V)
  delete k [] = []
  delete k ((j, w) ∷ m) = let rest = delete k m in if bytes_eq j k then rest else (j, w) ∷ rest

  -- No key stands twice.
  abbrev pub IsUnique : List (Bytes × V) → Type ℓ
  IsUnique [] = Unit
  IsUnique ((k, _) ∷ m) = (get k m ≡ none) × IsUnique m

  pub get-put :
      (j k : Bytes) (v : V) (m : List (Bytes × V))
      → get j (put k v m) ≡ (if bytes_eq k j then some v else get j m)
  unfolding get put
  get-put j k v [] = refl
  get-put j k v ((i, w) ∷ m) =
      ground (arith, bytes_eq_iff k j, bytes_eq_iff i k, bytes_eq_iff i j, get-put j k v m)

  pub get-delete :
      (j k : Bytes) (m : List (Bytes × V))
      → get j (delete k m) ≡ (if bytes_eq k j then none else get j m)
  unfolding get delete
  get-delete j k [] = ground arith
  get-delete j k ((i, w) ∷ m) =
      ground (arith, bytes_eq_iff k j, bytes_eq_iff i k, bytes_eq_iff i j, get-delete j k m)

  pub put-IsUnique : (k : Bytes) (v : V) (m : List (Bytes × V)) → IsUnique m → IsUnique (put k v m)
  unfolding get put
  put-IsUnique k v [] u = (refl, tt)
  put-IsUnique k v ((i, w) ∷ m) (n, u) = elim (Bool-cases (bytes_eq i k)) [
    | inl e ↦ rw e (n, u)
    | inr e ↦
        let differ : bytes_eq k i ≡ false = ground (arith, bytes_eq_iff k i, bytes_eq_iff i k) in
        rw e (get-put i k v m ∙ rw differ n, put-IsUnique k v m u)
  ]

  pub delete-IsUnique : (k : Bytes) (m : List (Bytes × V)) → IsUnique m → IsUnique (delete k m)
  unfolding get delete
  delete-IsUnique k [] u = tt
  delete-IsUnique k ((i, w) ∷ m) (n, u) = elim (Bool-cases (bytes_eq i k)) [
    | inl e ↦ rw e (delete-IsUnique k m u)
    | inr e ↦
        let differ : bytes_eq k i ≡ false = ground (arith, bytes_eq_iff k i, bytes_eq_iff i k) in
        rw e (get-delete i k m ∙ rw differ n, delete-IsUnique k m u)
  ]

  -- What is left behind a deletion was there, under another key.
  pub get-delete-some :
      (j k : Bytes) (m : List (Bytes × V)) {v : V}
      → get j (delete k m) ≡ some v
      → (get j m ≡ some v) × (j ≢ k)
  get-delete-some j k m h =
      let law = get-delete j k m in
      elim (Bool-cases (bytes_eq k j)) [
        | inl e ↦ absurd (ground arith)
        | inr e ↦ (ground arith, λ same. absurd (ground (arith, bytes_eq_iff k j)))
      ]
