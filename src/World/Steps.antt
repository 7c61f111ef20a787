-- ===== src/World/Steps.antt =====
-- What a chain of operations did, told from how it ended.
use debugsymd.Base.{◌≡◌, refl, ◌⊎◌, inl, inr}
use debugsymd.Base.Result.{Result, ok, err}
use debugsymd.World.{World, Run, and_then, wrap}

module _ {E A B : Type 0} where
  pub and_then-ok :
      (r : Result E A × World) (f : A → Run E B) {b : B} {w : World}
      → and_then r f ≡ (ok b, w)
      → (a : A) × (v : World) × (r ≡ (ok a, v)) × (f a v ≡ (ok b, w))
  and_then-ok (ok a, v) f h = (a, v, refl, h)
  and_then-ok (err e, v) f h = cc

  pub and_then-err :
      (r : Result E A × World) (f : A → Run E B) {e : E} {w : World}
      → and_then r f ≡ (err e, w)
      → (r ≡ (err e, w)) ⊎ ((a : A) × (v : World) × (r ≡ (ok a, v)) × (f a v ≡ (err e, w)))
  and_then-err (ok a, v) f h = inr (a, v, refl, h)
  and_then-err (err e, v) f h = inl (cc)

module _ {E F A : Type 0} where
  pub wrap-ok :
      (g : E → F) (r : Result E A × World) {a : A} {w : World}
      → wrap g r ≡ (ok a, w)
      → r ≡ (ok a, w)
  wrap-ok g (ok a, v) h = cc
  wrap-ok g (err e, v) h = cc

  pub wrap-err :
      (g : E → F) (r : Result E A × World) {e : F} {w : World}
      → wrap g r ≡ (err e, w)
      → (d : E) × (r ≡ (err d, w))
  wrap-err g (ok a, v) h = cc
  wrap-err g (err d, v) h = (d, cc)
