-- ===== src/Resolver/Sentry/Order.antt =====
-- The ranking of debug files is an order that a sort accepts.
use Prim.Native.Nat.{Ordering}
use debugsymd.Base.{◌≡◌, ◌≢◌, refl, [], ◌∷◌, arith, Bytes, ◌⊎◌, inl, inr}
use debugsymd.GoStrings.{Unicode}
use debugsymd.Resolver.{Request}
use debugsymd.Resolver.Sentry.{DebugFile, compare_bytes, rank, IsWeakOrder}

-- The same text compares as equal, and no other.
pub compare_bytes_eq : (s t : Bytes) → compare_bytes s t ≡ Ordering.eq → s ≡ t
unfolding compare_bytes
compare_bytes_eq [] [] h = refl
compare_bytes_eq [] (y ∷ t) h = absurd (ground arith)
compare_bytes_eq (x ∷ s) [] h = absurd (ground arith)
compare_bytes_eq (x ∷ s) (y ∷ t) h = ground (arith, compare_bytes_eq s t)

pub compare_bytes_refl : (s : Bytes) → compare_bytes s s ≡ Ordering.eq
unfolding compare_bytes
compare_bytes_refl [] = refl
compare_bytes_refl (x ∷ s) = ground (arith, compare_bytes_refl s)

compare_bytes_flip :
    (s t : Bytes) → compare_bytes s t ≡ Ordering.gt → compare_bytes t s ≡ Ordering.lt
unfolding compare_bytes
compare_bytes_flip [] [] h = absurd (ground arith)
compare_bytes_flip [] (y ∷ t) h = absurd (ground arith)
compare_bytes_flip (x ∷ s) [] h = refl
compare_bytes_flip (x ∷ s) (y ∷ t) h = ground (arith, compare_bytes_flip s t)

compare_bytes_trans :
    (s t v : Bytes)
    → compare_bytes s t ≡ Ordering.lt
    → compare_bytes t v ≡ Ordering.lt
    → compare_bytes s v ≡ Ordering.lt
unfolding compare_bytes
compare_bytes_trans s [] v h k = absurd (nothing_below s h)
  where
    nothing_below : (s : Bytes) → compare_bytes s [] ≢ Ordering.lt
    nothing_below [] = λ h. ground arith
    nothing_below (x ∷ s) = λ h. ground arith
compare_bytes_trans s (y ∷ t) [] h k = absurd (ground arith)
compare_bytes_trans [] (y ∷ t) (z ∷ v) h k = refl
compare_bytes_trans (x ∷ s) (y ∷ t) (z ∷ v) h k = ground (arith, compare_bytes_trans s t v)

-- What is not below is equal or above, so the failing comparisons compose as well.
compare_bytes_total :
    (s t : Bytes) → compare_bytes s t ≢ Ordering.lt → (s ≡ t) ⊎ (compare_bytes t s ≡ Ordering.lt)
compare_bytes_total s t h = go (compare_bytes s t) refl
  where
    go : (o : Ordering) → compare_bytes s t ≡ o → (s ≡ t) ⊎ (compare_bytes t s ≡ Ordering.lt)
    go Ordering.lt e = absurd (h e)
    go Ordering.eq e = inl (compare_bytes_eq s t e)
    go Ordering.gt e = inr (compare_bytes_flip s t e)

compare_bytes_incomparable :
    (s t v : Bytes)
    → compare_bytes s t ≢ Ordering.lt
    → compare_bytes t v ≢ Ordering.lt
    → compare_bytes s v ≢ Ordering.lt
compare_bytes_incomparable s t v h k below = elim (compare_bytes_total s t h) [
  | inl same ↦ k (rw (← same) below)
  | inr above ↦ k (compare_bytes_trans t s v above below)
]

compare_bytes_irrefl : (s : Bytes) → compare_bytes s s ≢ Ordering.lt
compare_bytes_irrefl s h = ground (arith, compare_bytes_refl s)

module _ ⦃u : Unicode⦄ where
  -- The ranking that `pick` sorts by is a strict weak order, whatever the request.
  pub rank-IsWeakOrder : (req : Request) → IsWeakOrder (rank req)
  unfolding rank
  rank-IsWeakOrder req = record {
    irreflexive = λ a h. ground (arith, compare_bytes_irrefl a.sha1);
    transitive = λ a b c h k. ground (arith, compare_bytes_trans a.sha1 b.sha1 c.sha1);
    incomparable = λ a b c h k l. ground (arith, compare_bytes_incomparable a.sha1 b.sha1 c.sha1);
  }

  -- Files that neither ranks below the other have the same checksum.
  pub rank_equal :
      (req : Request) (a b : DebugFile)
      → rank req a b ≢ Ordering.lt
      → rank req b a ≢ Ordering.lt
      → a.sha1 ≡ b.sha1
  unfolding rank
  rank_equal req a b h k = elim (compare_bytes_total a.sha1 b.sha1 (λ l. ground arith)) [
    | inl same ↦ same
    | inr below ↦ absurd (ground arith)
  ]
