-- ===== src/Symstore/DebugId/Pdb.antt =====
-- The debug ID of a PDB signature: a GUID in the canonical form, and the age as a number.
use debugsymd.Base.{
  append-injective, ==_iff, ℕ, ◌≡◌, ◌↔◌, refl, sym, ap, ◌∙◌, true, false, not, ◌&&◌, some, [], ◌∷◌,
  ◌++◌, map, append-nil, arith, Bytes, length, take, drop, ◌==◌, ltb, if◌then◌else◌, length-append,
  take-append, drop-append, length-map,
}
use debugsymd.Symstore.DebugId.Dashes.{remove_all-insert_dashes, length-insert_dashes}
use debugsymd.GoStrings.{Unicode, lower_byte, trim_left, remove_all}
use debugsymd.Symstore.DebugId.{all_hex, is_hex, insert_dashes, dash_uuid, add_age, normalize_pdb}
use debugsymd.Symstore.DebugId.Hex.{
  all_hex-lower, to_lower-hex, all_hex-is_hex, hex_value, hex_value-injective,
  trim_left-first_value, hex_value-trim_left, all_hex-trim_left, IsLower-trim_left,
  map-lower_byte_idem, hex_value-lower,
}

-- What follows the GUID.
abbrev dashed_age : Bytes → Bytes
dashed_age [] = []
dashed_age (c ∷ s) = b'-' ∷ c ∷ s

abbrev trimmed_age : Bytes → Bytes
trimmed_age age = trim_left (map lower_byte age) b'0'

-- A GUID in hexadecimal.
abbrev pub IsGuid : Bytes → Type 0
IsGuid g = (length g ≡ 32) × (all_hex g ≡ true)

value-trimmed_age : (age : Bytes) → all_hex age ≡ true → hex_value (trimmed_age age) ≡ hex_value age
value-trimmed_age age h = hex_value-trim_left (map lower_byte age) ∙ hex_value-lower age h

module _ ⦃u : Unicode⦄ where
  pub dash_uuid-some :
      (g : Bytes) → IsGuid g → dash_uuid g ≡ some (insert_dashes (map lower_byte g))
  unfolding dash_uuid
  dash_uuid-some g (l, h) =
      rw ((==_iff (length g) 32).1 l, all_hex-is_hex g (omega arith) h, to_lower-hex g h)

  dashed :
      (uuid trimmed : Bytes)
      → (if length trimmed == 0 then some uuid else some (uuid ++ (b'-' ∷ trimmed)))
        ≡ some (uuid ++ dashed_age trimmed)
  dashed uuid [] = ap some (sym (append-nil uuid))
  dashed uuid (c ∷ s) = ground arith

  add_age-some :
      (uuid age : Bytes)
      → all_hex age ≡ true
      → add_age uuid age ≡ some (uuid ++ dashed_age (trim_left age b'0'))
  unfolding add_age
  add_age-some uuid [] h = dashed uuid (trim_left [] b'0')
  add_age-some uuid (c ∷ s) h =
      let accepted : (not (length (c ∷ s) == 0) && not (is_hex (c ∷ s))) ≡ false =
        ground (arith, all_hex-is_hex (c ∷ s) (omega arith) h) in
      rw accepted (dashed uuid (trim_left (c ∷ s) b'0'))

  normalize_pdb-some :
      (g age : Bytes)
      → IsGuid g
      → all_hex age ≡ true
      → normalize_pdb (g ++ age)
        ≡ some (insert_dashes (map lower_byte g) ++ dashed_age (trimmed_age age))
  unfolding normalize_pdb
  normalize_pdb-some g age (l, h) ha =
      let long : ltb (length (g ++ age)) 32 ≡ false = ground (arith, length-append g age) in
      let front : take 32 (g ++ age) ≡ g =
        ap (λ (n : ℕ). take n (g ++ age)) (sym l) ∙ take-append g age in
      let back : drop 32 (g ++ age) ≡ age =
        ap (λ (n : ℕ). drop n (g ++ age)) (sym l) ∙ drop-append g age in
      rw (long, front, back, dash_uuid-some g (l, h), to_lower-hex age ha)
        (add_age-some (insert_dashes (map lower_byte g)) (map lower_byte age)
          (all_hex-lower age ha))

  -- The age's text is fixed by the number that it spells.
  trimmed_age-eq :
      (age age' : Bytes)
      → all_hex age ≡ true
      → all_hex age' ≡ true
      → hex_value age ≡ hex_value age'
      → trimmed_age age ≡ trimmed_age age'
  trimmed_age-eq age age' h h' e =
      hex_value-injective (trimmed_age age) (trimmed_age age')
        (all_hex-trim_left _ (all_hex-lower age h)) (all_hex-trim_left _ (all_hex-lower age' h'))
        (IsLower-trim_left _ (map-lower_byte_idem age))
        (IsLower-trim_left _ (map-lower_byte_idem age'))
        (trim_left-first_value _ (all_hex-lower age h))
        (trim_left-first_value _ (all_hex-lower age' h'))
        (value-trimmed_age age h ∙ e ∙ sym (value-trimmed_age age' h'))

  dashed_age-injective : (s t : Bytes) → dashed_age s ≡ dashed_age t → s ≡ t
  dashed_age-injective [] [] e = refl
  dashed_age-injective [] (d ∷ t) e = cc
  dashed_age-injective (c ∷ s) [] e = cc
  dashed_age-injective (c ∷ s) (d ∷ t) e = cc

  parts_agree :
      (g g' age age' : Bytes)
      → IsGuid g
      → IsGuid g'
      → all_hex age ≡ true
      → all_hex age' ≡ true
      → insert_dashes (map lower_byte g) ++ dashed_age (trimmed_age age)
        ≡ insert_dashes (map lower_byte g') ++ dashed_age (trimmed_age age')
      → (map lower_byte g ≡ map lower_byte g') × (hex_value age ≡ hex_value age')
  parts_agree g g' age age' (l, p) (l', p') h h' e =
      let size = length-insert_dashes (map lower_byte g) (length-map lower_byte g ∙ l) in
      let size' = length-insert_dashes (map lower_byte g') (length-map lower_byte g' ∙ l') in
      let (ids, ages) =
        append-injective (insert_dashes (map lower_byte g)) (insert_dashes (map lower_byte g'))
          (size ∙ sym size') e in
      (
        sym (remove_all-insert_dashes _ (all_hex-lower g p))
            ∙ (ap (λ (x : Bytes). remove_all x b'-') ids
                ∙ remove_all-insert_dashes _ (all_hex-lower g' p')),
        sym (value-trimmed_age age h)
            ∙ (ap hex_value (dashed_age-injective (trimmed_age age) (trimmed_age age') ages)
                ∙ value-trimmed_age age' h'),
      )

  -- Two PDB signatures, each a GUID and an age in hexadecimal, have the same debug ID exactly when the
  -- GUIDs agree up to case and the ages are the same number: case and leading zeros do not matter, and
  -- nothing else is lost. In each case there is an ID.
  pub normalize_pdb_canonical :
      (g g' age age' : Bytes)
      → IsGuid g
      → IsGuid g'
      → all_hex age ≡ true
      → all_hex age' ≡ true
      → ((id : Bytes) × (normalize_pdb (g ++ age) ≡ some id))
        × ((normalize_pdb (g ++ age) ≡ normalize_pdb (g' ++ age'))
            ↔ (map lower_byte g ≡ map lower_byte g') × (hex_value age ≡ hex_value age'))
  normalize_pdb_canonical g g' age age' hg hg' h h' =
      let e = normalize_pdb-some g age hg h in
      let e' = normalize_pdb-some g' age' hg' h' in
      let to = λ (same : normalize_pdb (g ++ age) ≡ normalize_pdb (g' ++ age')).
        parts_agree g g' age age' hg hg' h h' (cc (sym e ∙ (same ∙ e'))) in
      (
        (insert_dashes (map lower_byte g) ++ dashed_age (trimmed_age age), e),
        (to, λ both. e ∙ (rw (both.0, trimmed_age-eq age age' h h' both.1) (sym e'))),
      )
