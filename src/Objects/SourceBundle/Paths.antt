-- ===== src/Objects/SourceBundle/Paths.antt =====
-- Normal forms of source paths.
use mathlib.Core.Path.{ap₂}
use debugsymd.Base.{
  ℕ, ◌≡◌, ◌≢◌, refl, sym, ap, ◌∙◌, true, false, ◌||◌, List, [], ◌∷◌, ◌++◌, map, Bytes, codes, ◌==◌,
  ==_iff, arith, append_assoc, append-nil, map-append, Bool-cases, inl, inr, All,
}
use debugsymd.GoStrings.{bytes_eq, has_prefix}
use debugsymd.Objects.SourceBundle.{
  segments, segments_from, popped, resolve_dots, join_stack, joined, clean, to_slash, rooted,
  normalize_source_path,
}

abbrev IsSlashed : ℕ → Type 0
IsSlashed c = to_slash c ≡ c

-- Bytes of a segment: no slash of either kind.
abbrev IsInner : Bytes → Type 0
IsInner = All (λ c. (c ≢ b'/') × IsSlashed c)

-- A segment that stays as it is.
record IsPlain (s : Bytes) : Type 0 where
  inner : IsInner s
  kept : (bytes_eq s [] || bytes_eq s (codes ".")) ≡ false
  no_dots : bytes_eq s (codes "..") ≡ false

-- The segments of a stack in front of others, in the order of the text.
abbrev rev : List Bytes → List Bytes → List Bytes
rev [] acc = acc
rev (s ∷ stack) acc = rev stack (s ∷ acc)

IsInner-append : (s t : Bytes) → IsInner s → IsInner t → IsInner (s ++ t)
IsInner-append [] t hs ht = ht
IsInner-append (c ∷ s) t (h, hs) ht = (h, IsInner-append s t hs ht)

segments_from-IsInner :
    (front p : Bytes) → IsInner front → All IsSlashed p → All IsInner (segments_from front p)
unfolding segments_from
segments_from-IsInner front [] hf hp = (hf, tt)
segments_from-IsInner front (c ∷ p) hf (h, hp) = elim (Bool-cases (c == b'/')) [
  | inl e ↦ rw e (hf, segments_from-IsInner [] p tt hp)
  | inr e ↦ rw e (
      segments_from-IsInner (front ++ (c ∷ [])) p
        (IsInner-append front (c ∷ []) hf (((λ k. absurd (ground (arith, ==_iff c b'/'))), h), tt))
        hp)
]

popped-IsPlain : (stack : List Bytes) → All IsPlain stack → All IsPlain (popped stack)
popped-IsPlain [] h = tt
popped-IsPlain (s ∷ stack) (_, h) = h

resolve_dots-IsPlain :
    (stack segs : List Bytes)
    → All IsPlain stack
    → All IsInner segs
    → All IsPlain (resolve_dots stack segs)
unfolding resolve_dots
resolve_dots-IsPlain stack [] hs h = hs
resolve_dots-IsPlain stack (s ∷ segs) hs (i, h) =
    elim (Bool-cases (bytes_eq s [] || bytes_eq s (codes "."))) [
      | inl e ↦ rw e (resolve_dots-IsPlain stack segs hs h)
      | inr e ↦ elim (Bool-cases (bytes_eq s (codes ".."))) [
        | inl d ↦ rw (e, d) (resolve_dots-IsPlain (popped stack) segs (popped-IsPlain stack hs) h)
        | inr d ↦
            rw (e, d)
              (resolve_dots-IsPlain (s ∷ stack) segs
                (record { inner = i; kept = e; no_dots = d }, hs) h)
      ]
    ]

segments_from-inner :
    (front s t : Bytes)
    → IsInner s
    → segments_from front (s ++ (b'/' ∷ t)) ≡ (front ++ s) ∷ segments t
unfolding segments_from
segments_from-inner front [] t h = ap (λ f. f ∷ segments t) (sym (append-nil front))
segments_from-inner front (c ∷ s) t ((n, _), h) = elim (Bool-cases (c == b'/')) [
  | inl e ↦ absurd (n ((==_iff c b'/').0 e))
  | inr e ↦ rw e (
      segments_from-inner (front ++ (c ∷ [])) s t h
      ∙ ap (λ f. f ∷ segments t) (append_assoc front (c ∷ []) s))
]

segments_from-last : (front s : Bytes) → IsInner s → segments_from front s ≡ (front ++ s) ∷ []
unfolding segments_from
segments_from-last front [] h = ap (λ f. f ∷ []) (sym (append-nil front))
segments_from-last front (c ∷ s) ((n, _), h) = elim (Bool-cases (c == b'/')) [
  | inl e ↦ absurd (n ((==_iff c b'/').0 e))
  | inr e ↦ rw e (
      segments_from-last (front ++ (c ∷ [])) s h ∙ ap (λ f. f ∷ []) (append_assoc front (c ∷ []) s))
]

segments-join_stack :
    (stack : List Bytes) (t : Bytes)
    → All IsPlain stack
    → segments (join_stack stack ++ (b'/' ∷ t)) ≡ [] ∷ rev stack (segments t)
unfolding segments_from join_stack
segments-join_stack [] t h = refl
segments-join_stack (s ∷ stack) t (p, h) =
    ap segments (append_assoc (join_stack stack) (b'/' ∷ s) (b'/' ∷ t))
    ∙ segments-join_stack stack (s ++ (b'/' ∷ t)) h
    ∙ ap (λ l. [] ∷ rev stack l) (segments_from-inner [] s t p.inner)

resolve_dots-rev :
    (acc stack l : List Bytes)
    → All IsPlain stack
    → resolve_dots acc (rev stack l) ≡ resolve_dots (stack ++ acc) l
unfolding resolve_dots
resolve_dots-rev acc [] l h = refl
resolve_dots-rev acc (s ∷ stack) l (p, h) =
    resolve_dots-rev acc stack (s ∷ l) h ∙ rw (p.kept, p.no_dots) refl

to_slash_twice : (c : ℕ) → to_slash (to_slash c) ≡ to_slash c
to_slash_twice c = ground arith

map-to_slash-All : (p : Bytes) → All IsSlashed (map to_slash p)
map-to_slash-All [] = tt
map-to_slash-All (c ∷ p) = (to_slash_twice c, map-to_slash-All p)

map-to_slash_twice : (p : Bytes) → map to_slash (map to_slash p) ≡ map to_slash p
map-to_slash_twice [] = refl
map-to_slash_twice (c ∷ p) = ap₂ ◌∷◌ (to_slash_twice c) (map-to_slash_twice p)

rooted-All : (p : Bytes) → All IsSlashed p → All IsSlashed (rooted p)
unfolding rooted
rooted-All p h = elim (Bool-cases (has_prefix p (codes "/"))) [
  | inl e ↦ rw e h
  | inr e ↦ rw e (refl, h)
]

-- the stack of a path
abbrev stack_of : Bytes → List Bytes
stack_of p = resolve_dots [] (segments (rooted (map to_slash p)))

stack_of-IsPlain : (p : Bytes) → All IsPlain (stack_of p)
stack_of-IsPlain p =
    let q = rooted (map to_slash p) in
    resolve_dots-IsPlain [] (segments q) tt
      (segments_from-IsInner [] q tt (rooted-All (map to_slash p) (map-to_slash-All p)))

map-inner : (s : Bytes) → IsInner s → map to_slash s ≡ s
map-inner [] h = refl
map-inner (c ∷ s) ((_, e), h) = ap₂ ◌∷◌ e (map-inner s h)

map-join_stack :
    (stack : List Bytes) → All IsPlain stack → map to_slash (join_stack stack) ≡ join_stack stack
unfolding join_stack
map-join_stack [] h = refl
map-join_stack (s ∷ stack) (p, h) =
    map-append to_slash (join_stack stack) (b'/' ∷ s)
    ∙ ap₂ ◌++◌ (map-join_stack stack h) (ap (λ t. b'/' ∷ t) (map-inner s p.inner))

join_stack-rooted :
    (stack : List Bytes) (t : Bytes)
    → has_prefix (join_stack stack ++ (b'/' ∷ t)) (codes "/") ≡ true
unfolding join_stack has_prefix
join_stack-rooted [] t = refl
join_stack-rooted (s ∷ stack) t =
    ap (λ p. has_prefix p (codes "/")) (append_assoc (join_stack stack) (b'/' ∷ s) (b'/' ∷ t))
    ∙ join_stack-rooted stack (s ++ (b'/' ∷ t))

resolve_dots-join_stack :
    (s : Bytes) (stack : List Bytes)
    → All IsPlain (s ∷ stack)
    → resolve_dots [] (segments (join_stack (s ∷ stack))) ≡ s ∷ stack
unfolding join_stack resolve_dots bytes_eq
resolve_dots-join_stack s stack (p, h) =
    ap (resolve_dots []) (segments-join_stack stack s h)
    ∙ ap (λ l. resolve_dots [] (rev stack l)) (segments_from-last [] s p.inner)
    ∙ resolve_dots-rev [] stack (s ∷ []) h
    ∙ rw (p.kept, p.no_dots) (ap (λ l. s ∷ l) (append-nil stack))

rooted_same : (p : Bytes) → has_prefix p (codes "/") ≡ true → rooted p ≡ p
unfolding rooted
rooted_same p h = rw h refl

normalize-joined :
    (stack : List Bytes) → All IsPlain stack → normalize_source_path (joined stack) ≡ joined stack
unfolding normalize_source_path clean joined rooted segments_from resolve_dots has_prefix bytes_eq
normalize-joined [] h = refl
normalize-joined (s ∷ stack) h =
    ap (λ p. clean (rooted p)) (map-join_stack (s ∷ stack) h)
    ∙ ap clean (rooted_same (join_stack (s ∷ stack)) (join_stack-rooted stack s))
    ∙ ap joined (resolve_dots-join_stack s stack h)

clean-slash : (p : Bytes) → clean (b'/' ∷ p) ≡ clean p
unfolding clean segments_from resolve_dots bytes_eq
clean-slash p = refl

-- What the normal form of a path does not depend on.
pub record IsNormalized (p : Bytes) : Type 0 where
  pub again : normalize_source_path (normalize_source_path p) ≡ normalize_source_path p
  pub leading_slash : normalize_source_path (b'/' ∷ p) ≡ normalize_source_path p
  pub backslashes : normalize_source_path (map to_slash p) ≡ normalize_source_path p

-- The normal form of every path is its own normal form, and the same with one more slash in front and
-- with slashes for the path's backslashes.
pub normalize_source_path-IsNormalized : (p : Bytes) → IsNormalized p
unfolding normalize_source_path clean rooted has_prefix
normalize_source_path-IsNormalized p = record {
  again = normalize-joined (stack_of p) (stack_of-IsPlain p);
  leading_slash = elim (Bool-cases (has_prefix (map to_slash p) (codes "/"))) [
    | inl e ↦ clean-slash (map to_slash p) ∙ ap clean (sym (rooted_same (map to_slash p) e))
    | inr e ↦ rw e refl
  ];
  backslashes = ap (λ q. clean (rooted q)) (map-to_slash_twice p);
}
