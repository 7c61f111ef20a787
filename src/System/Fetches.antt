-- ===== src/System/Fetches.antt =====
-- The whole of `Fetch` and `FetchCompressed`, and the sweep, as runs of the steps of the system.
use debugsymd.Base.{
  ℕ, ◌≡◌, refl, sym, ap, ◌∙◌, Bool, true, Option, none, some, List, arith, Bytes, inl, inr, length,
  take, Bool-cases,
}
use debugsymd.Base.Result.{Result, ok, err}
use debugsymd.World.{
  File, World, Run, Metric, Found, and_then, count, chance, pure, advance, lucky, ◌>>=◌, ◌>>◌,
}
use debugsymd.Resolver.{Request}
use debugsymd.Diskcache.Entries.{Platform, Cache}
use debugsymd.Objects.{
  Remote, Group, ObjectError, role_objects, role_raw_compressed, role_cab_synth, cab_magic,
  label_compressed, clean_up, lookup_role, stage, object, produce_once,
}
use debugsymd.Objects.Synth.{
  Host, reader, starts_with_cab_magic, produce, synthesize_from, synthesize, lookup_roles,
  lookup_next, lookup_compressed, compressed_missed, compressed_found, fetch_compressed, file_only,
}
use debugsymd.Objects.Download.{place, IsRole}
use debugsymd.Objects.Compressed.{starts_with_cab_magic-true}
use debugsymd.System.{Step, Steps, get_elem?}
use debugsymd.System.Runs.{idle, Steps-trans, step}
use debugsymd.System.Service.{
  Follows, Gives, object-Gives, Shares, key_of, lookup_role-Gives, produce_once-Follows,
}
use debugsymd.System.Synthesis.{staged-Steps}

starts_with_cab_magic-files : (r : _) (w : World) → (starts_with_cab_magic r w).1.files ≡ w.files
unfolding starts_with_cab_magic
starts_with_cab_magic-files r w = ground arith

module _ (os : Platform) (c : Cache) (IsRemote : Remote → Type 0) where
  Follows-after :
      {A : Type 0} (o o' : List (Bytes × File)) (w v : World) (r : A × World)
      → Steps os c IsRemote (idle w o) (idle v o')
      → Follows os c IsRemote o' v r
      → Follows os c IsRemote o w r
  Follows-after o o' w v r q f = record { after = f.after; run = Steps-trans os c IsRemote q f.run }

  ends :
      {A : Type 0} (o : List (Bytes × File)) (w : World) (r : A × World)
      → r.1.files ≡ w.files
      → Follows os c IsRemote o w r
  ends o w r same = record { after = o; run = step os c IsRemote (Step.elsewhere r.1 same) }

  Follows-then :
      {E A B : Type 0} (o : List (Bytes × File)) (w : World) (r : Result E A × World)
      (g : A → World → Result E B × World)
      → Follows os c IsRemote o w r
      → ((a : A) (o' : List (Bytes × File)) (v : World) → Follows os c IsRemote o' v (g a v))
      → Follows os c IsRemote o w (and_then r g)
  Follows-then o w (ok a, v) g f k = Follows-after o f.after w v _ f.run (k a f.after v)
  Follows-then o w (err x, v) g f k = record { after = f.after; run = f.run }

  counted-Follows :
      {E A : Type 0} (m : Metric) (r : Result E A) (o : List (Bytes × File)) (w : World)
      → Follows os c IsRemote o w (r, count m w)
  counted-Follows m r o w = ends o w (r, count m w) refl

  lookup_role-Follows :
      (role : Bytes) (req : Request) (o : List (Bytes × File)) (w : World)
      → IsRole role
      → Follows os c IsRemote o w (lookup_role os c role req w)
  lookup_role-Follows role req o w r =
      let g = lookup_role-Gives os c IsRemote role req o w r in
      record { after = g.after; run = g.run }

  lookup_next-Follows :
      (role : Bytes) (rest : Run ObjectError (Option (File × Bytes)))
      → ((o : List (Bytes × File)) (w : World) → Follows os c IsRemote o w (rest w))
      → (found : Option File) (o : List (Bytes × File)) (w : World)
      → Follows os c IsRemote o w (lookup_next os c role rest found w)
  lookup_next-Follows role rest k (some f) o w = ends o w _ refl
  lookup_next-Follows role rest k none o w = k o w

  lookup_compressed-Follows :
      (req : Request) (o : List (Bytes × File)) (w : World)
      → Follows os c IsRemote o w (lookup_compressed os c req w)
  unfolding lookup_compressed lookup_roles
  lookup_compressed-Follows req o w =
      Follows-then o w _ _ (lookup_role-Follows role_raw_compressed req o w IsRole.raw_compressed) (
        lookup_next-Follows role_raw_compressed _ (λ o' v.
          Follows-then o' v _ _ (lookup_role-Follows role_cab_synth req o' v IsRole.cab_synth)
            (lookup_next-Follows role_cab_synth _ (λ q u. ends q u _ refl))))

  module _ (host : Host) where
    synthesize_from-Follows :
        (req : Request) (o : List (Bytes × File)) (f : File) (i : ℕ) (w : World)
        → get_elem? o i ≡ some (place os c role_objects req, f)
        → Follows os c IsRemote o w (synthesize_from os c host req (some f) w)
    unfolding synthesize_from
    synthesize_from-Follows req o f i w given = magic (starts_with_cab_magic (reader host f) w) refl
      where
        staged :
            (is_cab : Bool) (v : World)
            → (is_cab ≡ true → take (length cab_magic) f.contents ≡ cab_magic)
            → Follows os c IsRemote o v (
                and_then
                  (stage os c v)
                  (λ tmp u. clean_up tmp (produce os c host req f is_cab tmp u)))
        staged is_cab v m = record {
          after = o;
          run = staged-Steps os c IsRemote host req o f i is_cab v given m;
        }

        rewound :
            (is_cab : Bool) (v : World)
            → (is_cab ≡ true → take (length cab_magic) f.contents ≡ cab_magic)
            → Follows os c IsRemote o v (
                and_then (chance ObjectError.rewinding v) (λ _.
                  stage os c >>= λ tmp. λ u. clean_up tmp (produce os c host req f is_cab tmp u)))
        rewound is_cab v m = elim (Bool-cases (lucky v.luck)) [
          | inl lucky_now ↦ rw lucky_now (
              Follows-after o o v (advance v) _
                (step os c IsRemote (Step.elsewhere (advance v) refl))
                (staged is_cab (advance v) m))
          | inr bad ↦ rw bad (ends o v _ refl)
        ]

        magic :
            (r : Result ObjectError Bool × World)
            → starts_with_cab_magic (reader host f) w ≡ r
            → Follows os c IsRemote o w (
                and_then r (λ is_cab.
                  chance ObjectError.rewinding
                  >> (stage os c >>= λ tmp.
                      λ u. clean_up tmp (produce os c host req f is_cab tmp u))))
        magic (ok is_cab, v) h =
            let same : v.files ≡ w.files =
              ap (λ (r : Result ObjectError Bool × World). r.1.files) (sym h)
              ∙ starts_with_cab_magic-files (reader host f) w in
            Follows-after o o w v _ (step os c IsRemote (Step.elsewhere v same)) (
              rewound is_cab v
                (λ e. starts_with_cab_magic-true (reader host f) w (h ∙ ap (λ b. (ok b, v)) e)))
        magic (err x, v) h =
            ends o w (err x, v)
              (ap (λ (r : Result ObjectError Bool × World). r.1.files) (sym h)
                ∙ starts_with_cab_magic-files (reader host f) w)

    module _ (remote : Remote) (is : IsRemote remote) (group : Group) where
      synthesize-Follows :
          (req : Request)
          → Shares os c IsRemote remote is group (key_of role_objects req)
          → (o : List (Bytes × File)) (w : World)
          → Follows os c IsRemote o w (synthesize os c host remote group req w)
      unfolding synthesize synthesize_from
      synthesize-Follows req shares o w =
          go (object os c remote group req w)
            (object-Gives os c IsRemote remote is group req o w shares)
        where
          go :
              (r : Result ObjectError (Option File) × World)
              → Gives os c IsRemote (place os c role_objects req) o w r
              → Follows os c IsRemote o w (and_then r (synthesize_from os c host req))
          go (ok (some f), v) g =
              let (i, given) = g.given f refl in
              Follows-after o g.after w v _ g.run (synthesize_from-Follows req g.after f i v given)
          go (ok none, v) g = record { after = g.after; run = g.run }
          go (err x, v) g = record { after = g.after; run = g.run }

      compressed_missed-Follows :
          (req : Request)
          → Shares os c IsRemote remote is group (key_of role_objects req)
          → Shares os c IsRemote remote is group (key_of role_cab_synth req)
          → (o : List (Bytes × File)) (w : World)
          → Follows os c IsRemote o w (compressed_missed os c host remote group req w)
      unfolding compressed_missed
      compressed_missed-Follows req shares shares' o w =
          let own = synthesize os c host remote group req in
          let key = key_of role_cab_synth req in
          let once = produce_once group key own in
          let last : Option (File × Bytes) → Run ObjectError (Option File) =
            λ x. pure (file_only x) in
          let again : Unit {0} → Run ObjectError (Option File) =
            λ _. lookup_compressed os c req >>= last in
          Follows-then o w (ok tt, count (Metric.cache_lookup label_compressed Found.miss) w)
            (λ _. once >>= again)
            (counted-Follows (Metric.cache_lookup label_compressed Found.miss) (ok tt) o w)
            (λ _ p v.
              Follows-then p v (once v) again
                (produce_once-Follows os c IsRemote remote is group key own shares'
                  (synthesize-Follows req shares) p v)
                (λ _ q u.
                  Follows-then q u (lookup_compressed os c req u) last
                    (lookup_compressed-Follows req q u) (λ x l t. ends l t (last x t) refl)))

      compressed_found-Follows :
          (req : Request)
          → Shares os c IsRemote remote is group (key_of role_objects req)
          → Shares os c IsRemote remote is group (key_of role_cab_synth req)
          → (found : Option (File × Bytes)) (o : List (Bytes × File)) (w : World)
          → Follows os c IsRemote o w (compressed_found os c host remote group req found w)
      unfolding compressed_found
      compressed_found-Follows req shares shares' (some (f, role)) o w = counted-Follows _ _ o w
      compressed_found-Follows req shares shares' none o w =
          compressed_missed-Follows req shares shares' o w

      -- A call of FetchCompressed, whatever fails in it and however it ends, is a run of the steps of
      -- the system, if no other call for its two keys is in flight or only ones that are such runs.
      pub fetch_compressed-Follows :
          (req : Request) (o : List (Bytes × File)) (w : World)
          → Shares os c IsRemote remote is group (key_of role_objects req)
          → Shares os c IsRemote remote is group (key_of role_cab_synth req)
          → Follows os c IsRemote o w (fetch_compressed os c host remote group req w)
      unfolding fetch_compressed
      fetch_compressed-Follows req o w shares shares' =
          Follows-then o w _ _ (lookup_compressed-Follows req o w)
            (compressed_found-Follows req shares shares')
