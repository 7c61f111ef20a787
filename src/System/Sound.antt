-- ===== src/System/Sound.antt =====
-- Every step keeps what the cache's entries come from.
use mathlib.Core.Path.{subst}
use debugsymd.Base.{
  ℕ, zero, suc, ◌≡◌, ◌≢◌, refl, sym, ap, ◌∙◌, false, none, some, [], ◌∷◌, Bytes, inl, inr,
  Bool-cases,
}
use debugsymd.Base.Result.{ok}
use debugsymd.GoStrings.{bytes_eq}
use debugsymd.Dict.{get, put, delete, get-delete-some, get-put, bytes_eq_ne, eq_of_bytes_eq}
use debugsymd.World.{File, World, discard, remove}
use debugsymd.Resolver.{Request}
use debugsymd.Diskcache.Entries.{Platform, Cache, lookup_at, commit_at}
use debugsymd.Diskcache.Entries.Commit.{commit_at-ok, lookup_at-some}
use debugsymd.Objects.{Remote}
use debugsymd.Objects.Stored.{get-put_same, get-delete_other, new_temp-Kept}
use debugsymd.Objects.Download.{place, IsRole}
use debugsymd.System.{System, Phase, Genuine, Step, Steps, write_open, get_elem?}
use debugsymd.System.Provenance.{
  same-Before, write_open-Kept, write_open-contents, remove-Before, discard-Before,
  lookup_at-Before, IsSound, IsSound-world, IsSound-kept, IsSound-filling, IsSound-ready,
  IsSound-over, Genuine-place, new_temp-IsStaging,
}

module _ (os : Platform) (c : Cache) (IsRemote : Remote → Type 0) where
  filling-unready :
      (s : System) (tmp : Bytes)
      → get tmp s.jobs ≡ some Phase.filling
      → (final text : Bytes) → get tmp s.jobs ≢ some (Phase.ready final text)
  filling-unready s tmp j final text k = cc

  -- What was written whole, is written.
  written :
      (s : System) (tmp final text : Bytes)
      → get tmp s.jobs ≡ some Phase.filling
      → Genuine os c IsRemote final text
      → IsSound os c IsRemote s
      → IsSound os c IsRemote (record s {
        world = write_open tmp text s.world;
        jobs = put tmp (Phase.ready final text) s.jobs;
      })
  written s tmp final text j genuine sound =
      let staging = sound.staging tmp Phase.filling j in
      let w = write_open tmp text s.world in
      IsSound-ready os c IsRemote (record s { world = w }) tmp final text staging genuine
        (write_open-contents tmp text s.world)
        (IsSound-kept os c IsRemote s w tmp staging (write_open-Kept tmp text s.world)
          (filling-unready s tmp j) sound)

  opened-handles :
      (s : System) (p : Bytes) (f : File)
      → Genuine os c IsRemote p f.contents
      → IsSound os c IsRemote s
      → IsSound os c IsRemote (record s { opened = (p, f) ∷ s.opened })
  opened-handles s p f genuine sound = record {
    entries = sound.entries;
    handles = handles;
    staging = sound.staging;
    texts = sound.texts;
    files = sound.files;
  }
    where
      handles :
          (i : ℕ) (q : Bytes) (g : File)
          → get_elem? ((p, f) ∷ s.opened) i ≡ some (q, g)
          → Genuine os c IsRemote q g.contents
      handles zero q g h =
          let a : p ≡ q = cc in
          let b : f ≡ g = cc in
          subst (λ x. Genuine os c IsRemote q x) (ap (λ (x : File). x.contents) b)
            (subst (λ x. Genuine os c IsRemote x f.contents) a genuine)
      handles (suc i) q g h = sound.handles i q g h

  committed :
      (s : System) (tmp final text : Bytes) (w : World)
      → get tmp s.jobs ≡ some (Phase.ready final text)
      → commit_at tmp final s.world ≡ (ok tt, w)
      → IsSound os c IsRemote s
      → IsSound os c IsRemote (record s { world = w; jobs = delete tmp s.jobs })
  committed s tmp final text w j h sound =
      let done = commit_at-ok tmp final s.world h in
      let whole : done.staged.contents ≡ text =
        sound.files tmp final text done.staged j done.was_staged in
      record {
        entries = λ role req f r there. elim (Bool-cases (bytes_eq final (place os c role req))) [
          | inl e ↦
              let same = eq_of_bytes_eq final (place os c role req) e in
              let it : done.staged ≡ f =
                (let law : get (place os c role req) w.files ≡ some done.staged =
                    ap (λ p. get p w.files) (sym same)
                    ∙ ap (get final) done.files
                    ∙ get-put_same final done.staged (delete tmp s.world.files) in
                  cc) in
              subst (Genuine os c IsRemote (place os c role req))
                (sym whole ∙ ap (λ (x : File). x.contents) it)
                (subst (λ p. Genuine os c IsRemote p text) same (sound.texts tmp final text j))
          | inr e ↦ sound.entries role req f r (
              sym (
                elsewhere (place os c role req) e
                  (sound.staging tmp (Phase.ready final text) j role req r))
              ∙ there)
        ];
        handles = sound.handles;
        staging = λ t phase k. sound.staging t phase ((get-delete-some t tmp s.jobs k).0);
        texts = λ t final' text' k. sound.texts t final' text' (get-delete-some t tmp s.jobs k).0;
        files = λ t final' text' f k there.
            let k' = (get-delete-some t tmp s.jobs k).0 in
            sound.files t final' text' f k' (
              sym (
                elsewhere t (apart t (Phase.ready final' text') k')
                  (get-delete-some t tmp s.jobs k).1)
              ∙ there);
      }
    where
      elsewhere :
          (p : Bytes) → bytes_eq final p ≡ false → p ≢ tmp → get p w.files ≡ get p s.world.files
      elsewhere p e k =
          let done = commit_at-ok tmp final s.world h in
          ap (get p) done.files
          ∙ get-put p final done.staged (delete tmp s.world.files)
          ∙ rw e refl
          ∙ get-delete_other p tmp s.world.files k

      apart : (t : Bytes) (phase : Phase) → get t s.jobs ≡ some phase → bytes_eq final t ≡ false
      apart t phase k =
          let (role, req, r, is) = Genuine-place os c IsRemote (sound.texts tmp final text j) in
          bytes_eq_ne final t (λ e. sound.staging t phase k role req r (sym is ∙ e))

  -- Every step keeps every entry, every file that was given out and every text that is about to be
  -- committed genuine.
  pub Step-IsSound :
      {s t : System} → Step os c IsRemote s t → IsSound os c IsRemote s → IsSound os c IsRemote t
  Step-IsSound {s} (Step.elsewhere w same) sound =
      IsSound-world os c IsRemote s w
        (λ role req r.
          same-Before (place os c role req) s.world w (ap (get (place os c role req)) same))
        (λ tmp final text j. same-Before tmp s.world w (ap (get tmp) same)) sound
  Step-IsSound {s} (Step.look_up role req f w r h) sound =
      let p = place os c role req in
      let found = (lookup_at-some p s.world h).0 in
      opened-handles (record s { world = w }) p f (sound.entries role req f r found)
        (IsSound-world os c IsRemote s w
          (λ role req r. lookup_at-Before p (place os c role req) s.world h)
          (λ tmp final text j. lookup_at-Before p tmp s.world h) sound)
  Step-IsSound {s} (Step.stage tmp w h free) sound =
      let staging = new_temp-IsStaging os c IsRemote s.world h in
      IsSound-filling os c IsRemote (record s { world = w }) tmp staging
        (IsSound-kept os c IsRemote s w tmp staging (new_temp-Kept os c s.world h).1
          (λ final text j. cc) sound)
  Step-IsSound {s} (Step.write tmp text j) sound =
      IsSound-kept os c IsRemote s (write_open tmp text s.world) tmp
        (sound.staging tmp Phase.filling j) (write_open-Kept tmp text s.world)
        (filling-unready s tmp j) sound
  Step-IsSound {s} (Step.fetched tmp remote asked loc text n j is resolved wrote) sound =
      written s tmp _ text j (Genuine.object remote is asked loc text n resolved wrote) sound
  Step-IsSound {s} (Step.enclosed tmp host asked f role text i j given wraps) sound =
      written s tmp _ text j
        (Genuine.wrapped host asked f role text (sound.handles i _ f given) wraps) sound
  Step-IsSound {s} (Step.commit tmp final text w j h) sound = committed s tmp final text w j h sound
  Step-IsSound {s} (Step.abandon tmp) sound =
      IsSound-over os c IsRemote (record s { world = discard tmp s.world }) tmp
        (IsSound-world os c IsRemote s (discard tmp s.world)
          (λ role req r. discard-Before tmp (place os c role req) s.world)
          (λ t final text j. discard-Before tmp t s.world) sound)
  Step-IsSound {s} (Step.unlink p) sound =
      IsSound-world os c IsRemote s (remove p s.world).1
        (λ role req r. remove-Before p (place os c role req) s.world)
        (λ tmp final text j. remove-Before p tmp s.world) sound
  Step-IsSound {s} Step.restart sound = record {
    entries = sound.entries;
    handles = λ i p f h. cc;
    staging = λ tmp phase h. absurd (unfold get in let no : none ≡ some phase = h in cc);
    texts = λ tmp final text h.
        absurd (unfold get in let no : none ≡ some (Phase.ready final text) = h in cc);
    files = λ tmp final text f h k.
        absurd (unfold get in let no : none ≡ some (Phase.ready final text) = h in cc);
  }

  pub Steps-IsSound :
      {s t : System} → Steps os c IsRemote s t → IsSound os c IsRemote s → IsSound os c IsRemote t
  Steps-IsSound Steps.here sound = sound
  Steps-IsSound (Steps.later r st) sound = Step-IsSound st (Steps-IsSound r sound)

  -- No one has a staging file open, and the cache is one that such a system has left, if it is not empty.
  pub record IsStart (s : System) : Type 0 where
    pub idle : s.jobs ≡ []
    pub none_open : s.opened ≡ []
    pub entries :
        (role : Bytes) (req : Request) (f : File)
        → IsRole role
        → get (place os c role req) s.world.files ≡ some f
        → Genuine os c IsRemote (place os c role req) f.contents

  IsStart-IsSound : (s : System) → IsStart s → IsSound os c IsRemote s
  IsStart-IsSound s start = record {
    entries = start.entries;
    handles = λ i p f h.
        absurd
          (let no : none ≡ some (p, f) = ap (λ l. get_elem? l i) (sym start.none_open) ∙ h in cc);
    staging = λ tmp phase h. absurd (idle tmp phase h);
    texts = λ tmp final text h. absurd (idle tmp (Phase.ready final text) h);
    files = λ tmp final text f h k. absurd (idle tmp (Phase.ready final text) h);
  }
    where
      idle : (tmp : Bytes) (phase : Phase) → get tmp s.jobs ≢ some phase
      idle tmp phase h =
          unfold get in let no : none ≡ some phase = ap (get tmp) (sym start.idle) ∙ h in cc

  -- However downloads, syntheses, lookups, sweeps, failures and restarts of the process are interleaved,
  -- a lookup never gives out a part of an entry or anything else than what a fetch or a synthesis that
  -- succeeded has written: the file of an entry that a lookup finds in a state that is reached from an
  -- empty cache, or from one with such entries only, has the bytes that the store wrote without an error
  -- for the location of a request with that entry, or is the mirror of such bytes or the cabinet around
  -- them. This holds if no staging file gets a name that is still in use.
  pub Steps-lookup :
      (s t : System) (role : Bytes) (req : Request) (f : File) (w : World)
      → IsStart s
      → Steps os c IsRemote s t
      → IsRole role
      → lookup_at (place os c role req) t.world ≡ (ok (some f), w)
      → Genuine os c IsRemote (place os c role req) f.contents
  Steps-lookup s t role req f w start run r h =
      (Steps-IsSound run (IsStart-IsSound s start)).entries role req f r
        ((lookup_at-some (place os c role req) t.world h).0)
