-- ===== src/Objects/Envelope.antt =====
-- What `FetchCompressed` answers.
use debugsymd.Base.{◌≡◌, refl, sym, ap, ◌∙◌, Option, none, some, arith, Bytes, ◌⊎◌, inl, inr}
use debugsymd.Base.Result.{ok}
use debugsymd.Dict.{get}
use debugsymd.World.{World, File, Found, Metric, count, counting}
use debugsymd.World.Steps.{and_then-ok}
use debugsymd.Resolver.{Request}
use debugsymd.Diskcache.Entries.{Platform, Cache}
use debugsymd.Objects.{
  Remote, Group, role_raw_compressed, role_cab_synth, label_compressed, cache_key, flight_key,
  run_or_wait, produce_once, object,
}
use debugsymd.Objects.Synth.{
  Host, lookup_compressed, synthesize, synthesize_from, compressed_missed, compressed_found,
  fetch_compressed, file_only,
}
use debugsymd.Objects.Download.{
  place-cache_key, place, place-role, place-staging_name, IsRole, place-cache_key,
}
use debugsymd.Objects.Served.{Source-same, Holds, Source, Flight, object-Served}
use debugsymd.Objects.Compressed.{Wraps, mirrored, wrapped, synthesize_from-Enveloped}
use debugsymd.Objects.Roles.{
  Cached-same, Cached, lookup_compressed-raw, lookup_compressed-synth, lookup_compressed-Cached,
  lookup_compressed-none,
}

module _ (os : Platform) (c : Cache) (host : Host) (remote : Remote) (group : Group) where
  -- An envelope that was made of the object, and stands in its entry.
  pub record Made (req : Request) (w w' : World) : Type 0 where
    pub object : File
    pub source : Source os c remote group req object w
    pub role : Bytes
    pub bytes : Bytes
    pub wraps : Wraps host req object role bytes
    pub holds : Holds (place os c role req) bytes w'
    pub mirror :
        role ≡ role_cab_synth
        → get (place os c role_raw_compressed req) w'.files
          ≡ get (place os c role_raw_compressed req) w.files

  synthesize-Made :
      (req : Request) (w : World) {w' : World}
      → Flight os c remote group req
      → synthesize os c host remote group req w ≡ (ok tt, w')
      → Made req w w'
  unfolding synthesize synthesize_from
  synthesize-Made req w {w'} flight h =
      let (x, v, first, rest) = and_then-ok (object os c remote group req w) _ h in
      let (o, is_some, served) = object-Served os c remote group req w x flight first in
      let run : synthesize_from os c host req (some o) v ≡ (ok tt, w') =
        ap (λ y. synthesize_from os c host req y v) (sym is_some) ∙ rest in
      let made = synthesize_from-Enveloped os c host req o v run in
      let raw = place os c role_raw_compressed req in
      record {
        object = o;
        source = served.source;
        role = made.role;
        bytes = made.bytes;
        wraps = made.wraps;
        holds = record { at = made.entry.at; held = made.entry.stored };
        mirror = λ e.
            made.entry.others raw
              (λ k.
                place-role os c req req IsRole.raw_compressed IsRole.cab_synth (λ q. cc)
                  (k ∙ ap (λ r. place os c r req) e))
              (place-staging_name os c v role_raw_compressed req IsRole.raw_compressed)
            ∙ served.others raw
                (place-role os c req req IsRole.raw_compressed IsRole.objects (λ q. cc))
                (place-staging_name os c w role_raw_compressed req IsRole.raw_compressed);
      }

  -- No synthesis for the key is in flight, or one for a request with the same key; and the same of
  -- the download.
  abbrev pub CabFlight : Request → Type 0
  CabFlight req =
      let key = flight_key role_cab_synth (cache_key req).0 (cache_key req).1 in
      ((group key ≡ none) × Flight os c remote group req)
      ⊎ ((asked : Request) × (cache_key asked ≡ cache_key req)
          × Flight os c remote group asked
          × (group key ≡ some (synthesize os c host remote group asked)))

  -- The synthesis behind an entry that was produced, by this call or by the one in flight.
  pub record MadeOnce (req : Request) (w w' : World) : Type 0 where
    pub asked : Request
    pub alike : cache_key asked ≡ cache_key req
    pub end : World
    pub made : Made asked w end
    pub same : w'.files ≡ end.files

  produce_once-MadeOnce :
      (req : Request) (w : World) {w' : World}
      → CabFlight req
      → produce_once group
          (flight_key role_cab_synth (cache_key req).0 (cache_key req).1)
          (synthesize os c host remote group req)
          w
        ≡ (ok tt, w')
      → MadeOnce req w w'
  unfolding produce_once run_or_wait
  produce_once-MadeOnce req w {w'} (inl (alone, flight)) h = record {
    asked = req;
    alike = refl;
    end = w';
    made =
        synthesize-Made req w flight
          (ap (λ o. run_or_wait o (synthesize os c host remote group req) w) (sym alone) ∙ h);
    same = refl;
  }
  produce_once-MadeOnce req w {w'} (inr (asked, alike, flight, joined)) h =
      let (_, u, first, last) =
        and_then-ok (synthesize os c host remote group asked w) (λ _. counting Metric.coalesced)
          (ap (λ o. run_or_wait o (synthesize os c host remote group req) w) (sym joined) ∙ h) in
      record {
        asked = asked;
        alike = alike;
        end = u;
        made = synthesize-Made asked w flight first;
        same = ground arith;
      }

  -- What a file that was fetched has in it.
  pub data Content (req : Request) (f : File) (w : World) : Type 0 where
    cached : {role : Bytes} → Cached os c req w f role → Content req f w
    made :
        (asked : Request) (alike : cache_key asked ≡ cache_key req) (object : File)
        (source : Source os c remote group asked object w) {role bytes : Bytes}
        (wraps : Wraps host asked object role bytes) (same : f.contents ≡ bytes)
        → Content req f w

  Content-same :
      (req : Request) (f : File) (w v : World)
      → v.files ≡ w.files
      → Content req f v
      → Content req f w
  Content-same req f w v same (Content.cached {role} found) =
      Content.cached (Cached-same os c req f w v same found)
  Content-same req f w v same (Content.made asked alike object source wraps e) =
      Content.made asked alike object (Source-same os c remote group asked object w v same source)
        wraps e

  -- the second lookup
  reopened :
      (req asked : Request) (o : File) {role bytes : Bytes} (u : World) (x : Option (File × Bytes))
      {w' : World}
      → Wraps host asked o role bytes
      → Holds (place os c role req) bytes u
      → (role ≡ role_cab_synth → get (place os c role_raw_compressed req) u.files ≡ none)
      → lookup_compressed os c req u ≡ (ok x, w')
      → (f : File) × (file_only x ≡ some f) × (f.contents ≡ bytes)
  reopened req asked o u x (mirrored magic) held missed h =
      let (f, found, same) = lookup_compressed-raw os c req o.contents u x held h in
      (f, ap file_only found, same)
  reopened req asked o u x (wrapped s written) held missed h =
      let (f, found, same) = lookup_compressed-synth os c req s.contents u x (missed refl) held h in
      (f, ap file_only found, same)

  missed-Content :
      (req : Request) (w : World) (x : Option File) {w' : World}
      → get (place os c role_raw_compressed req) w.files ≡ none
      → CabFlight req
      → compressed_missed os c host remote group req w ≡ (ok x, w')
      → (f : File) × (x ≡ some f) × Content req f w
  unfolding compressed_missed
  missed-Content req w x {w'} missed flight h =
      let v = count (Metric.cache_lookup label_compressed Found.miss) w in
      let key = flight_key role_cab_synth (cache_key req).0 (cache_key req).1 in
      let (_, u, ran, rest) =
        and_then-ok (produce_once group key (synthesize os c host remote group req) v) _ h in
      let (y, u', second, last) = and_then-ok (lookup_compressed os c req u) _ rest in
      let once = produce_once-MadeOnce req v flight ran in
      let m = once.made in
      let move = λ (r : Bytes). place-cache_key os c r once.asked req once.alike in
      let held : Holds (place os c m.role req) m.bytes u = record {
        at = m.holds.at;
        held =
            ap (get (place os c m.role req)) once.same
            ∙ (ap (λ p. get p once.end.files) (sym (move m.role)) ∙ m.holds.held);
      } in
      let raw = place os c role_raw_compressed req in
      let still : m.role ≡ role_cab_synth → get raw u.files ≡ none = λ e.
        ap (get raw) once.same
        ∙ (ap (λ p. get p once.end.files) (sym (move role_raw_compressed))
            ∙ (m.mirror e ∙ (ap (λ p. get p w.files) (move role_raw_compressed) ∙ missed))) in
      let (f, found, same) = reopened req once.asked m.object u y m.wraps held still second in
      let result : file_only y ≡ x = ground arith in
      (
        f,
        sym result ∙ found,
        Content.made once.asked once.alike m.object
            (Source-same os c remote group once.asked m.object w v refl m.source) m.wraps same,
      )

  pub fetch_compressed-Content :
      (req : Request) (w : World) (x : Option File) {w' : World}
      → CabFlight req
      → fetch_compressed os c host remote group req w ≡ (ok x, w')
      → (f : File) × (x ≡ some f) × Content req f w
  unfolding fetch_compressed compressed_found
  fetch_compressed-Content req w x {w'} flight h =
      let (found, v, first, rest) = and_then-ok (lookup_compressed os c req w) _ h in
      go found v first rest
    where
      go :
          (found : Option (File × Bytes)) (v : World)
          → lookup_compressed os c req w ≡ (ok found, v)
          → compressed_found os c host remote group req found v ≡ (ok x, w')
          → (f : File) × (x ≡ some f) × Content req f w
      go (some (f, role)) v first rest =
          (f, ground arith, Content.cached (lookup_compressed-Cached os c req w first))
      go none v first rest =
          let (missed, same) = lookup_compressed-none os c req w first in
          let (f, is_some, content) =
            missed-Content req v x (ap (get (place os c role_raw_compressed req)) same ∙ missed)
              flight rest in
          (f, is_some, Content-same req f w v same content)
