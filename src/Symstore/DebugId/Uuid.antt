-- ===== src/Symstore/DebugId/Uuid.antt =====
-- The two forms of a Mach-O UUID, and the debug ID of a GNU build-id.
use debugsymd.Base.{
  ℕ, ◌≡◌, refl, sym, ap, ◌∙◌, true, false, Option, some, [], ◌∷◌, arith, Bytes, length, Bool-cases,
  inl, inr, All, ==_iff,
}
use mathlib.Core.Path.{ap₂, subst}
use debugsymd.GoStrings.{is_ascii, is_upper, Unicode, lower_byte, to_lower, remove_all}
use debugsymd.Symstore.DebugId.{all_hex, is_hex, insert_dashes, normalize_uuid}
use debugsymd.Symstore.DebugId.Hex.{
  to_lower-hex, is_hex-all_hex, all_hex-is_hex, map-lower_byte_idem, IsLower,
}
use debugsymd.Symstore.DebugId.Dashes.{remove_all-hex, remove_all-insert_dashes}
use debugsymd.Symstore.DebugId.Pdb.{IsGuid, dash_uuid-some}

no_upper : (c : ℕ) → is_upper c ≡ false → lower_byte c ≡ c
unfolding lower_byte
no_upper c h = rw h

IsLower-no_upper : (s : Bytes) → All (λ c. is_upper c ≡ false) s → IsLower s
IsLower-no_upper [] h = refl
IsLower-no_upper (c ∷ s) (hc, hs) = ap₂ ◌∷◌ (no_upper c hc) (IsLower-no_upper s hs)

-- Lower-casing leaves no ASCII capital.
pub to_lower-low : ⦃u : Unicode⦄ (s : Bytes) → IsLower (to_lower s)
unfolding to_lower
to_lower-low ⦃u⦄ s = elim (Bool-cases (is_ascii s)) [
  | inl plain ↦ rw plain (map-lower_byte_idem s)
  | inr other ↦ rw other (IsLower-no_upper (u.lower s) (u.lower_no_upper s))
]

-- Text that is lower-cased again does not change.
to_lower-IsLower : ⦃u : Unicode⦄ (s : Bytes) → all_hex s ≡ true → IsLower s → to_lower s ≡ s
to_lower-IsLower s h l = to_lower-hex s h ∙ l

module _ ⦃u : Unicode⦄ where
  -- the body of `normalizeUUID` behind its first line
  normalize_uuid-some :
      (s g : Bytes)
      → to_lower (remove_all s b'-') ≡ g
      → IsGuid g
      → IsLower g
      → normalize_uuid s ≡ some (g, insert_dashes g)
  unfolding normalize_uuid
  normalize_uuid-some s g e (l, h) low = rw (
    e,
    (==_iff (length g) 32).1 l,
    all_hex-is_hex g (omega arith) h,
    dash_uuid-some g (l, h),
    low,
  )

  normalize_uuid-eq-some :
      (s : Bytes) {simple dashed : Bytes}
      → normalize_uuid s ≡ some (simple, dashed)
      → (to_lower (remove_all s b'-') ≡ simple) × IsGuid simple
  unfolding normalize_uuid
  normalize_uuid-eq-some s {simple} {dashed} h =
      let x = to_lower (remove_all s b'-') in
      elim (Bool-cases (is_hex x)) [
        | inl hex ↦ ground (arith, is_hex-all_hex x hex)
        | inr no_hex ↦ absurd (ground arith)
      ]

  -- A UUID that is accepted has 32 hexadecimal digits and, with dashes, the same digits in groups; both
  -- forms are accepted again, and give the same two forms.
  pub normalize_uuid_idem :
      (s : Bytes) {simple dashed : Bytes}
      → normalize_uuid s ≡ some (simple, dashed)
      → (length simple ≡ 32)
        × (remove_all dashed b'-' ≡ simple)
        × (normalize_uuid simple ≡ some (simple, dashed))
        × (normalize_uuid dashed ≡ some (simple, dashed))
  normalize_uuid_idem s {simple} {dashed} h =
      let (e, guid) = normalize_uuid-eq-some s h in
      let low = subst IsLower e (to_lower-low (remove_all s b'-')) in
      let forms : ◌≡◌ {A = Option (Bytes × Bytes)} (some (simple, dashed))
          (some (simple, insert_dashes simple)) =
        sym h ∙ normalize_uuid-some s simple e guid low in
      let same : dashed ≡ insert_dashes simple = cc in
      let back = remove_all-insert_dashes simple guid.1 in
      let kept = to_lower-IsLower simple guid.1 low in
      (
        guid.0,
        ap (λ (x : Bytes). remove_all x b'-') same ∙ back,
        normalize_uuid-some simple simple (ap to_lower (remove_all-hex simple guid.1) ∙ kept) guid
              low
            ∙ sym forms,
        ap normalize_uuid same
            ∙ (normalize_uuid-some (insert_dashes simple) simple (ap to_lower back ∙ kept) guid low
                ∙ sym forms),
      )
