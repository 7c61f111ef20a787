-- ===== src/Cab/Out/Append.antt =====
-- Writes at the end of a file.
use debugsymd.Base.{
  ℕ, zero, suc, ◌+◌, ◌-◌, ◌≤◌, ◌≡◌, refl, sym, ap, ◌∙◌, false, [], ◌∷◌, ◌++◌, append-nil,
  append_assoc, arith, Bytes, length, take, drop, replicate,
}
use debugsymd.Cab.Out.{
  Out, Outcome, done, failed_with, out_of_fuel, Cab, and_then, ◌>>=◌, overwrite,
}

drop_all : (file : Bytes) (n : ℕ) → drop (length file + n) file ≡ []
unfolding drop
drop_all [] n = go (0 + n)
  where
    go : (k : ℕ) → drop {A = ℕ} k [] ≡ []
    go zero = refl
    go (suc k) = refl
drop_all (c ∷ file) n =
    let e : length (c ∷ file) + n ≡ suc (length file + n) = omega arith in rw e (drop_all file n)

take_all : (file : Bytes) → take (length file) file ≡ file
unfolding take
take_all [] = refl
take_all (c ∷ file) = ap (◌∷◌ c) (take_all file)

pub overwrite_inside :
    (at : ℕ) (p file : Bytes)
    → at ≤ length file
    → overwrite at p file ≡ take at file ++ (p ++ drop (at + length p) file)
unfolding overwrite replicate
overwrite_inside at p file h = let e : at - length file ≡ 0 = omega arith in rw (e, append-nil)

pub overwrite_end : (p file : Bytes) → overwrite (length file) p file ≡ file ++ p
overwrite_end p file =
    overwrite_inside (length file) p file (omega arith) ∙ rw (take_all, drop_all, append-nil)

abbrev pub AtEnd : Out → Type 0
AtEnd s = s.position ≡ length s.contents

-- From `s` to `s'` the bytes `p` were added at the end.
pub record Appends (s : Out) (p : Bytes) (s' : Out) : Type 0 where
  pub contents : s'.contents ≡ s.contents ++ p
  pub at_end : AtEnd s'
  pub healthy : s'.failed ≡ false

pub Appends-trans :
    {s t v : Out} {p q : Bytes} → Appends s p t → Appends t q v → Appends s (p ++ q) v
Appends-trans {s} {t} {v} {p} {q} a b = record {
  contents = b.contents ∙ ap (λ (x : Bytes). x ++ q) a.contents ∙ append_assoc s.contents p q;
  at_end = b.at_end;
  healthy = b.healthy;
}

pub Appends-refl : {s : Out} → AtEnd s → s.failed ≡ false → Appends s [] s
Appends-refl {s} h good = record {
  contents = sym (append-nil s.contents);
  at_end = h;
  healthy = good;
}

and_then-eq-done :
    {A B : Type 0} (o : Outcome A) (f : A → Cab B) {b : B} {s' : Out}
    → and_then o f ≡ done b s'
    → (a : A) × (t : Out) × (o ≡ done a t) × (f a t ≡ done b s')
and_then-eq-done (done a t) f h = (a, t, refl, h)
and_then-eq-done (failed_with e t) f h = absurd (cc)
and_then-eq-done out_of_fuel f h = absurd (cc)

-- A bind that is done has two steps that are done.
pub >>=-eq-done :
    {A B : Type 0} (m : Cab A) (f : A → Cab B) (s : Out) {b : B} {s' : Out}
    → (m >>= f) s ≡ done b s'
    → (a : A) × (t : Out) × (m s ≡ done a t) × (f a t ≡ done b s')
>>=-eq-done m f s h = and_then-eq-done (m s) f h
