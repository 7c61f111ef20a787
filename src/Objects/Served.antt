-- ===== src/Objects/Served.antt =====
-- What `Fetch` answers, and what it leaves in the cache.
use debugsymd.Base.{
  ℕ, ◌≡◌, ◌≢◌, refl, sym, ap, ◌∙◌, Option, none, some, arith, Bytes, ◌⊎◌, inl, inr,
}
use debugsymd.Base.Result.{ok}
use debugsymd.Dict.{get}
use debugsymd.World.{World, File, Found, Metric, count}
use debugsymd.World.Steps.{and_then-ok, wrap-ok}
use debugsymd.Resolver.{Request, Location}
use debugsymd.Diskcache.Entries.{Platform, Cache, lookup, staging_name}
use debugsymd.Diskcache.Entries.Commit.{lookup_at-some, lookup_at-none}
use debugsymd.Objects.{
  run_or_wait, counting, ObjectError, Remote, Group, role_objects, cache_key, flight_key,
  produce_once, lookup_role, download, object, object_missed, object_found,
}
use debugsymd.Objects.Stored.{staging_name-same, get-put_other, get-put_same}
use debugsymd.Objects.Download.{place-cache_key, place, Downloaded, download-ok}

-- A file with the contents stands there.
pub record Holds (p bytes : Bytes) (w : World) : Type 0 where
  pub at : ℕ
  pub held : get p w.files ≡ some (record { contents = bytes; modified = at })

module _ (os : Platform) (c : Cache) where
  -- A lookup that found the file: at most its time has changed.
  pub record Hit (role : Bytes) (req : Request) (f : File) (w w' : World) : Type 0 where
    pub found : get (place os c role req) w.files ≡ some f
    pub holds : Holds (place os c role req) f.contents w'
    pub others : (p : Bytes) → p ≢ place os c role req → get p w'.files ≡ get p w.files

  pub lookup_role-Hit :
      (role : Bytes) (req : Request) (w : World) {f : File} {w' : World}
      → lookup_role os c role req w ≡ (ok (some f), w')
      → Hit role req f w w'
  unfolding lookup
  lookup_role-Hit role req w {f} {w'} h =
      let p = place os c role req in
      let (found, change, _, _) = lookup_at-some p w (wrap-ok ObjectError.looking_up _ h) in
      elim change [
        | inl same ↦ record {
          found = found;
          holds = record { at = f.modified; held = ap (get p) same ∙ found };
          others = λ q apart. ap (get q) same;
        }
        | inr touched ↦ record {
          found = found;
          holds = record {
            at = w.now;
            held = ap (get p) touched ∙ get-put_same p (record f { modified = w.now }) w.files;
          };
          others = λ q apart.
              ap (get q) touched ∙ get-put_other q p (record f { modified = w.now }) w.files apart;
        }
      ]

  pub lookup_role-miss :
      (role : Bytes) (req : Request) (w : World) {w' : World}
      → lookup_role os c role req w ≡ (ok none, w')
      → (get (place os c role req) w.files ≡ none) × (w'.files ≡ w.files)
  unfolding lookup
  lookup_role-miss role req w {w'} h =
      let (none_there, after) =
        lookup_at-none (place os c role req) w (wrap-ok ObjectError.looking_up _ h) in
      (none_there, ap (λ (x : World). x.files) after)

  -- A lookup of an entry that is there and does not fail finds it.
  pub lookup_role-held :
      (role : Bytes) (req : Request) (bytes : Bytes) (w : World) (x : Option File) {w' : World}
      → Holds (place os c role req) bytes w
      → lookup_role os c role req w ≡ (ok x, w')
      → (f : File) × (x ≡ some f) × (f.contents ≡ bytes) × Hit role req f w w'
  lookup_role-held role req bytes w none held h =
      absurd (let (gone, _) = lookup_role-miss role req w h in let there = held.held in cc)
  lookup_role-held role req bytes w (some f) held h =
      let hit = lookup_role-Hit role req w h in
      let kept : File = record { contents = bytes; modified = held.at } in
      let same : f ≡ kept = (let there = held.held in let found = hit.found in cc) in
      (f, refl, ap (λ (g : File). g.contents) same, hit)

  module _ (remote : Remote) (group : Group) where
    -- The object came from the cache, or else from the store.
    pub data Source (req : Request) (f : File) (w : World) : Type 0 where
      cached : (found : get (place os c role_objects req) w.files ≡ some f) → Source req f w
      fetched :
          (missed : get (place os c role_objects req) w.files ≡ none) (asked : Request)
          (alike : cache_key asked ≡ cache_key req) (loc : Location) (n : ℕ)
          (resolved : remote.resolve asked ≡ ok loc)
          (wrote : remote.fetch loc.bucket loc.key ≡ (f.contents, ok n))
          → Source req f w

    -- An answer of `object`: where the file came from; that its bytes are in the cache now; and that
    -- the rest of the files is as it was.
    pub record Served (req : Request) (f : File) (w w' : World) : Type 0 where
      pub source : Source req f w
      pub holds : Holds (place os c role_objects req) f.contents w'
      pub others :
          (p : Bytes)
          → p ≢ place os c role_objects req
          → p ≢ staging_name os c w
          → get p w'.files ≡ get p w.files

    -- Only the files matter of where it began.
    pub Source-same :
        (req : Request) (f : File) (w v : World)
        → v.files ≡ w.files
        → Source req f v
        → Source req f w
    Source-same req f w v same (Source.cached found) =
        Source.cached (ap (get (place os c role_objects req)) (sym same) ∙ found)
    Source-same req f w v same (Source.fetched missed asked alike loc n resolved wrote) =
        Source.fetched (ap (get (place os c role_objects req)) (sym same) ∙ missed) asked alike loc
          n resolved wrote

    Served-after :
        (req : Request) (f : File) (w v w' : World)
        → v.files ≡ w.files
        → Served req f v w'
        → Served req f w w'
    Served-after req f w v w' same s = record {
      source = Source-same req f w v same s.source;
      holds = s.holds;
      others =
          λ p a b. s.others p a (λ e. b (e ∙ staging_name-same os c v w same)) ∙ ap (get p) same;
    }

    -- No download for the key is in flight, or one for a request with the same key.
    abbrev pub Flight : Request → Type 0
    Flight req =
        let key = flight_key role_objects (cache_key req).0 (cache_key req).1 in
        (group key ≡ none)
        ⊎ ((asked : Request) × (cache_key asked ≡ cache_key req)
            × (group key ≡ some (download os c remote asked)))

    -- The download behind an entry that was produced, by this call or by the one in flight.
    record Produced (req : Request) (w w' : World) : Type 0 where
      asked : Request
      alike : cache_key asked ≡ cache_key req
      end : World
      ran : Downloaded os c remote asked w end
      same : w'.files ≡ end.files

    produce_once-Produced :
        (req : Request) (w : World) {w' : World}
        → Flight req
        → produce_once group
            (flight_key role_objects (cache_key req).0 (cache_key req).1)
            (download os c remote req)
            w
          ≡ (ok tt, w')
        → Produced req w w'
    unfolding produce_once run_or_wait
    produce_once-Produced req w {w'} (inl alone) h =
        let run : download os c remote req w ≡ (ok tt, w') =
          ap (λ o. run_or_wait o (download os c remote req) w) (sym alone) ∙ h in
        record {
          asked = req;
          alike = refl;
          end = w';
          ran = download-ok os c remote req w run;
          same = refl;
        }
    produce_once-Produced req w {w'} (inr (asked, alike, joined)) h =
        let (_, u, first, last) =
          and_then-ok (download os c remote asked w) (λ _. counting Metric.coalesced)
            (ap (λ o. run_or_wait o (download os c remote req) w) (sym joined) ∙ h) in
        record {
          asked = asked;
          alike = alike;
          end = u;
          ran = download-ok os c remote asked w first;
          same = ground arith;
        }

    missed-Served :
        (req : Request) (w : World) (x : Option File) {w' : World}
        → get (place os c role_objects req) w.files ≡ none
        → Flight req
        → object_missed os c remote group req w ≡ (ok x, w')
        → (f : File) × (x ≡ some f) × Served req f w w'
    unfolding object_missed
    missed-Served req w x {w'} missed flight h =
        let v = count (Metric.cache_lookup role_objects Found.miss) w in
        let key = flight_key role_objects (cache_key req).0 (cache_key req).1 in
        let (_, u, ran, again) =
          and_then-ok (produce_once group key (download os c remote req) v)
            (λ _. lookup_role os c role_objects req) h in
        let made = produce_once-Produced req v flight ran in
        let d = made.ran in
        let there : place os c role_objects made.asked ≡ place os c role_objects req =
          place-cache_key os c role_objects made.asked req made.alike in
        let held : Holds (place os c role_objects req) d.bytes u = record {
          at = d.entry.at;
          held =
              ap (get (place os c role_objects req)) made.same
              ∙ (ap (λ (p : Bytes). get p made.end.files) (sym there) ∙ d.entry.stored);
        } in
        let (f, is_some, same, hit) = lookup_role-held role_objects req d.bytes u x held again in
        (
          f,
          is_some,
          record {
            source =
                Source.fetched missed made.asked made.alike d.loc d.n d.resolved
                  (rw same d.fetched);
            holds = hit.holds;
            others = λ p a b.
                hit.others p a ∙ (ap (get p) made.same ∙ d.entry.others p (λ e. a (e ∙ there)) b);
          },
        )

    pub object-Served :
        (req : Request) (w : World) (x : Option File) {w' : World}
        → Flight req
        → object os c remote group req w ≡ (ok x, w')
        → (f : File) × (x ≡ some f) × Served req f w w'
    unfolding object object_found
    object-Served req w x {w'} flight h =
        let (found, v, first, rest) = and_then-ok (lookup_role os c role_objects req w) _ h in
        go found v first rest
      where
        go :
            (found : Option File) (v : World)
            → lookup_role os c role_objects req w ≡ (ok found, v)
            → object_found os c remote group found req v ≡ (ok x, w')
            → (f : File) × (x ≡ some f) × Served req f w w'
        go none v first rest =
            let (missed, same) = lookup_role-miss role_objects req w first in
            let (f, is_some, s) =
              missed-Served req v x (ap (get (place os c role_objects req)) same ∙ missed) flight
                rest in
            (f, is_some, Served-after req f w v w' same s)
        go (some f) v first rest =
            let hit = lookup_role-Hit role_objects req w first in
            let after : w'.files ≡ v.files = ground arith in
            (
              f,
              cc,
              record {
                source = Source.cached hit.found;
                holds = record { at = hit.holds.at; held = cc };
                others = λ p a b. ap (get p) after ∙ hit.others p a;
              },
            )
