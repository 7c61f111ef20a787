-- ===== src/System/Provenance.antt =====
-- What the cache's entries come from, in every state that the system reaches.
use debugsymd.Base.{
  ℕ, ◌≡◌, ◌≢◌, refl, sym, ap, ◌∙◌, true, false, some, arith, Bytes, inl, inr, Bool-cases,
  Option-cases,
}
use mathlib.Core.Path.{subst}
use debugsymd.Base.Result.{ok}
use debugsymd.GoStrings.{bytes_eq}
use debugsymd.Dict.{get, put, delete, get-put, get-delete, get-delete-some, eq_of_bytes_eq}
use debugsymd.World.{File, World, discard, remove}
use debugsymd.Resolver.{Request}
use debugsymd.Diskcache.Entries.{Platform, Cache, lookup_at, new_temp}
use debugsymd.Diskcache.Entries.Commit.{lookup_at-some}
use debugsymd.Objects.{Remote, role_objects, fill}
use debugsymd.Objects.Stored.{Kept, get-put_same, fill-Kept, new_temp-Kept}
use debugsymd.Objects.Download.{place, IsRole, place-staging_name}
use debugsymd.Objects.Compressed.{mirrored, wrapped}
use debugsymd.System.{System, Phase, Genuine, write_open, get_elem?}

-- What stands there now has stood there before, but for its time.
abbrev pub Before : Bytes → World → World → Type 0
Before p w w' =
    (f : File)
    → get p w'.files ≡ some f
    → (g : File) × (get p w.files ≡ some g) × (g.contents ≡ f.contents)

pub same-Before : (p : Bytes) (w w' : World) → get p w'.files ≡ get p w.files → Before p w w'
same-Before p w w' e f h = (f, sym e ∙ h, refl)

pub write_open-Kept : (tmp text : Bytes) (w : World) → Kept tmp w (write_open tmp text w)
unfolding write_open
write_open-Kept tmp text w p apart = elim (Option-cases (get tmp w.files)) [
  | inl n ↦ rw (n, write_open) refl
  | inr (f, e) ↦ rw (e, write_open) (fill-Kept tmp text w (fill tmp text w) refl p apart)
]

pub write_open-contents :
    (tmp text : Bytes) (w : World) (f : File)
    → get tmp (write_open tmp text w).files ≡ some f
    → f.contents ≡ text
unfolding write_open
write_open-contents tmp text w f h = elim (Option-cases (get tmp w.files)) [
  | inl n ↦ absurd (ground arith)
  | inr (g, e) ↦
      let new : File = record { contents = text; modified = w.now } in
      let there = get-put_same tmp new w.files in
      let same : new ≡ f = ground arith in sym (ap (λ (x : File). x.contents) same)
]

pub remove-Before : (q p : Bytes) (w : World) → Before p w (remove q w).1
unfolding remove
remove-Before q p w f h = (f, ground (arith, get-delete p q w.files), refl)

pub discard-Before : (q p : Bytes) (w : World) → Before p w (discard q w)
unfolding discard
discard-Before q p w = remove-Before q p w

pub lookup_at-Before :
    (q p : Bytes) (w : World) {g : File} {w' : World}
    → lookup_at q w ≡ (ok (some g), w')
    → Before p w w'
lookup_at-Before q p w {g} {w'} h =
    let (found, change, _, _) = lookup_at-some q w h in
    elim change [
      | inl same ↦ same-Before p w w' (ap (get p) same)
      | inr touched ↦ λ f k. elim (Bool-cases (bytes_eq q p)) [
        | inl e ↦
            let new : File = record g { modified = w.now } in
            let there : get p w'.files ≡ some new =
              ap (get p) touched ∙ get-put p q new w.files ∙ rw e refl in
            let it : new ≡ f = cc in
            (
              g,
              ap (λ x. get x w.files) (sym (eq_of_bytes_eq q p e)) ∙ found,
              ap (λ (x : File). x.contents) it,
            )
        | inr e ↦
            let new : File = record g { modified = w.now } in
            let there : get p w'.files ≡ get p w.files =
              ap (get p) touched ∙ get-put p q new w.files ∙ rw e refl in
            (f, sym there ∙ k, refl)
      ]
    ]

module _ (os : Platform) (c : Cache) (IsRemote : Remote → Type 0) where
  -- A place of no entry.
  abbrev pub IsStaging : Bytes → Type 0
  IsStaging tmp = (role : Bytes) (req : Request) → IsRole role → place os c role req ≢ tmp

  -- Every entry, every file that was given out and every text that is about to be committed is genuine.
  pub record IsSound (s : System) : Type 0 where
    pub entries :
        (role : Bytes) (req : Request) (f : File)
        → IsRole role
        → get (place os c role req) s.world.files ≡ some f
        → Genuine os c IsRemote (place os c role req) f.contents
    pub handles :
        (i : ℕ) (p : Bytes) (f : File)
        → get_elem? s.opened i ≡ some (p, f)
        → Genuine os c IsRemote p f.contents
    pub staging : (tmp : Bytes) (phase : Phase) → get tmp s.jobs ≡ some phase → IsStaging tmp
    pub texts :
        (tmp final text : Bytes)
        → get tmp s.jobs ≡ some (Phase.ready final text)
        → Genuine os c IsRemote final text
    pub files :
        (tmp final text : Bytes) (f : File)
        → get tmp s.jobs ≡ some (Phase.ready final text)
        → get tmp s.world.files ≡ some f
        → f.contents ≡ text

  pub IsSound-world :
      (s : System) (w : World)
      → ((role : Bytes) (req : Request) → IsRole role → Before (place os c role req) s.world w)
      → ((tmp final text : Bytes)
          → get tmp s.jobs ≡ some (Phase.ready final text)
          → Before tmp s.world w)
      → IsSound s
      → IsSound (record s { world = w })
  IsSound-world s w places jobs sound = record {
    entries = λ role req f r h.
        let (g, there, same) = places role req r f h in
        subst (Genuine os c IsRemote (place os c role req)) same (sound.entries role req g r there);
    handles = sound.handles;
    staging = sound.staging;
    texts = sound.texts;
    files = λ tmp final text f j h.
        let (g, there, same) = jobs tmp final text j f h in
        sym same ∙ sound.files tmp final text g j there;
  }

  -- A change of one staging file only, that no ready job has open.
  pub IsSound-kept :
      (s : System) (w : World) (tmp : Bytes)
      → IsStaging tmp
      → Kept tmp s.world w
      → ((final text : Bytes) → get tmp s.jobs ≢ some (Phase.ready final text))
      → IsSound s
      → IsSound (record s { world = w })
  IsSound-kept s w tmp staging kept unready sound =
      IsSound-world s w
        (λ role req r.
          same-Before (place os c role req) s.world w
            (kept (place os c role req) (staging role req r)))
        (λ t final text j.
          same-Before t s.world w
            (kept t (λ e. unready final text (ap (λ x. get x s.jobs) (sym e) ∙ j))))
        sound

  pub Genuine-place :
      {p text : Bytes}
      → Genuine os c IsRemote p text
      → (role : Bytes) × (req : Request) × IsRole role × (p ≡ place os c role req)
  Genuine-place (Genuine.object remote is asked loc text n e h) =
      (role_objects, asked, IsRole.objects, refl)
  Genuine-place (Genuine.wrapped host asked f role text g (mirrored magic)) =
      (role, asked, IsRole.raw_compressed, refl)
  Genuine-place (Genuine.wrapped host asked f role text g (wrapped s w)) =
      (role, asked, IsRole.cab_synth, refl)

  pub new_temp-IsStaging :
      (w : World) {tmp : Bytes} {w' : World} → new_temp os c w ≡ (ok tmp, w') → IsStaging tmp
  new_temp-IsStaging w h role req r e =
      place-staging_name os c w role req r (e ∙ (new_temp-Kept os c w h).0)

  -- The phase of one job is set.
  pub IsSound-filling :
      (s : System) (tmp : Bytes)
      → IsStaging tmp
      → IsSound s
      → IsSound (record s { jobs = put tmp Phase.filling s.jobs })
  IsSound-filling s tmp staging sound = record {
    entries = sound.entries;
    handles = sound.handles;
    staging = λ t phase j. elim (Bool-cases (bytes_eq tmp t)) [
      | inl e ↦ subst IsStaging (eq_of_bytes_eq tmp t e) staging
      | inr e ↦ sound.staging t phase (sym (get-put t tmp Phase.filling s.jobs ∙ rw e refl) ∙ j)
    ];
    texts = λ t final text j. sound.texts t final text (still t final text j);
    files = λ t final text f j. sound.files t final text f (still t final text j);
  }
    where
      still :
          (t final text : Bytes)
          → get t (put tmp Phase.filling s.jobs) ≡ some (Phase.ready final text)
          → get t s.jobs ≡ some (Phase.ready final text)
      still t final text j =
          let law = get-put t tmp Phase.filling s.jobs in
          elim (Bool-cases (bytes_eq tmp t)) [
            | inl e ↦ absurd (ground arith)
            | inr e ↦ ground arith
          ]

  pub IsSound-ready :
      (s : System) (tmp final text : Bytes)
      → IsStaging tmp
      → Genuine os c IsRemote final text
      → ((f : File) → get tmp s.world.files ≡ some f → f.contents ≡ text)
      → IsSound s
      → IsSound (record s { jobs = put tmp (Phase.ready final text) s.jobs })
  IsSound-ready s tmp final text staging genuine whole sound = record {
    entries = sound.entries;
    handles = sound.handles;
    staging = λ t phase j. elim (Bool-cases (bytes_eq tmp t)) [
      | inl e ↦ subst IsStaging (eq_of_bytes_eq tmp t e) staging
      | inr e ↦ sound.staging t phase (other t e ∙ j)
    ];
    texts = λ t final' text' j. elim (Bool-cases (bytes_eq tmp t)) [
      | inl e ↦
          let (a, b) = mine t final' text' e j in
          subst (λ x. Genuine os c IsRemote x text') a
            (subst (Genuine os c IsRemote final) b genuine)
      | inr e ↦ sound.texts t final' text' (other t e ∙ j)
    ];
    files = λ t final' text' f j h. elim (Bool-cases (bytes_eq tmp t)) [
      | inl e ↦
          let (a, b) = mine t final' text' e j in
          whole f (ap (λ x. get x s.world.files) (eq_of_bytes_eq tmp t e) ∙ h) ∙ b
      | inr e ↦ sound.files t final' text' f (other t e ∙ j) h
    ];
  }
    where
      other :
          (t : Bytes)
          → bytes_eq tmp t ≡ false
          → get t s.jobs ≡ get t (put tmp (Phase.ready final text) s.jobs)
      other t e = sym (get-put t tmp (Phase.ready final text) s.jobs ∙ rw e refl)

      mine :
          (t final' text' : Bytes)
          → bytes_eq tmp t ≡ true
          → get t (put tmp (Phase.ready final text) s.jobs) ≡ some (Phase.ready final' text')
          → (final ≡ final') × (text ≡ text')
      mine t final' text' e j =
          let law : get t (put tmp (Phase.ready final text) s.jobs)
              ≡ some (Phase.ready final text) =
            get-put t tmp (Phase.ready final text) s.jobs ∙ rw e refl in
          (ground arith, ground arith)

  -- A job is over, and its file gone or of no interest.
  pub IsSound-over :
      (s : System) (tmp : Bytes) → IsSound s → IsSound (record s { jobs = delete tmp s.jobs })
  IsSound-over s tmp sound = record {
    entries = sound.entries;
    handles = sound.handles;
    staging = λ t phase j. sound.staging t phase ((get-delete-some t tmp s.jobs j).0);
    texts = λ t final text j. sound.texts t final text ((get-delete-some t tmp s.jobs j).0);
    files = λ t final text f j. sound.files t final text f ((get-delete-some t tmp s.jobs j).0);
  }
