-- ===== src/Httpapi/Form/Bounded.antt =====
-- The labels are few.
use debugsymd.Base.{
  ℕ, ◌+◌, ◌≡◌, refl, true, some, List, [], ◌∷◌, ◌⊎◌, inl, inr, Bytes, drop, arith, Bool-cases,
  Option-cases,
}
use mathlib.Core.List.{Mem, mem-cons_self, mem-cons_of_mem}
use debugsymd.GoStrings.{Unicode, to_lower, last_index_byte, bytes_eq}
use debugsymd.Httpapi.Form.{form_other, known_forms, has_key, form}

bytes_eq_lem : (s t : Bytes) → bytes_eq s t ≡ true → s ≡ t
unfolding bytes_eq
bytes_eq_lem [] [] h = refl
bytes_eq_lem [] (y ∷ t) h = cc
bytes_eq_lem (x ∷ s) [] h = cc
bytes_eq_lem (x ∷ s) (y ∷ t) h = ground (arith, bytes_eq_lem s t)

has_key-Mem : (s : Bytes) (keys : List Bytes) → has_key s keys ≡ true → Mem s keys
unfolding has_key
has_key-Mem s [] h = cc
has_key-Mem s (k ∷ keys) h = elim (Bool-cases (bytes_eq s k)) [
  | inl same ↦ rw (bytes_eq_lem s k same) mem-cons_self
  | inr differ ↦ mem-cons_of_mem k (has_key-Mem s keys (ground arith))
]

-- Every leaf name, whatever a client sends, has one of eight labels, so the metric's label set is
-- bounded; and a label other than the fallback is the lower-cased text behind the last dot.
pub form-bounded :
    ⦃u : Unicode⦄ (leaf : Bytes)
    → Mem (form leaf) (form_other ∷ known_forms)
      × ((form leaf ≡ form_other)
          ⊎ ((dot : ℕ) × (last_index_byte leaf b'.' ≡ some dot)
              × (form leaf ≡ to_lower (drop (dot + 1) leaf))))
unfolding form
form-bounded leaf = elim (Option-cases (last_index_byte leaf b'.')) [
  | inl n ↦
      let other : form leaf ≡ form_other = rw (form, n) refl in (rw other mem-cons_self, inl other)
  | inr (dot, e) ↦
      let ext = to_lower (drop (dot + 1) leaf) in
      elim (Bool-cases (has_key ext known_forms)) [
        | inl known ↦
            let labelled : form leaf ≡ ext = rw (form, e, known) refl in
            (
              rw labelled (mem-cons_of_mem form_other (has_key-Mem ext known_forms known)),
              inr (dot, e, labelled),
            )
        | inr unknown ↦
            let other : form leaf ≡ form_other = rw (form, e, unknown) refl in
            (rw other mem-cons_self, inl other)
      ]
]
