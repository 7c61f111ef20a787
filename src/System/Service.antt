-- ===== src/System/Service.antt =====
-- What `Fetch` and `FetchCompressed` do is a run of the steps of the system.
use mathlib.Core.Path.{subst}
use debugsymd.Base.{ℕ, ◌≡◌, refl, ap, Option, none, some, List, ◌∷◌, Bytes, inl, inr, ◌⊎◌}
use debugsymd.Base.Result.{Result, ok, err}
use debugsymd.World.{File, World, Run, Metric, Found, and_then, wrap, count, counting}
use debugsymd.Resolver.{Request}
use debugsymd.Diskcache.Entries.{Platform, Cache, CacheError, lookup, lookup_at}
use debugsymd.Diskcache.Entries.Commit.{lookup_at-none, lookup_at-err}
use debugsymd.Objects.{
  Remote, Group, ObjectError, role_objects, lookup_role, cache_key, flight_key, run_or_wait,
  produce_once, download, object_missed, object_found, object,
}
use debugsymd.Objects.Download.{place, IsRole}
use debugsymd.System.{Step, Steps, get_elem?}
use debugsymd.System.Runs.{idle, Steps-trans, step, download-Steps}

-- The key of a call in flight.
abbrev pub key_of : Bytes → Request → Bytes
key_of role req = flight_key role (cache_key req).0 (cache_key req).1

module _ (os : Platform) (c : Cache) (IsRemote : Remote → Type 0) where
  -- The call ends where a run of steps does.
  pub record Follows {A : Type 0} (opened : List (Bytes × File)) (w : World) (r : A × World)
      : Type 0 where
    pub after : List (Bytes × File)
    pub run : Steps os c IsRemote (idle w opened) (idle r.1 after)

  -- And a file that it returns was given out on the way.
  pub record Gives {E : Type 0} (p : Bytes) (opened : List (Bytes × File)) (w : World)
      (r : Result E (Option File) × World) : Type 0 where
    pub after : List (Bytes × File)
    pub run : Steps os c IsRemote (idle w opened) (idle r.1 after)
    pub given : (f : File) → r.0 ≡ ok (some f) → (i : ℕ) × (get_elem? after i ≡ some (p, f))

  pub Gives-after :
      {E : Type 0} {p : Bytes} {o o' : List (Bytes × File)} {w v : World}
      {r : Result E (Option File) × World}
      → Steps os c IsRemote (idle w o) (idle v o')
      → Gives p o' v r
      → Gives p o w r
  Gives-after q g = record {
    after = g.after;
    run = Steps-trans os c IsRemote q g.run;
    given = g.given;
  }

  pub lookup_role-Gives :
      (role : Bytes) (req : Request) (o : List (Bytes × File)) (w : World)
      → IsRole role
      → Gives (place os c role req) o w (lookup_role os c role req w)
  unfolding lookup
  lookup_role-Gives role req o w is = go (lookup_at (place os c role req) w) refl
    where
      go :
          (r : Result CacheError (Option File) × World)
          → lookup_at (place os c role req) w ≡ r
          → Gives (place os c role req) o w (wrap ObjectError.looking_up r)
      go (ok (some f), v) h = record {
        after = (place os c role req, f) ∷ o;
        run = step os c IsRemote (Step.look_up role req f v is h);
        given = λ g e. (0, cc);
      }
      go (ok none, v) h = record {
        after = o;
        run = step os c IsRemote (
            Step.elsewhere v
              (ap (λ (x : World). x.files) (lookup_at-none (place os c role req) w h).1));
        given = λ g e. cc;
      }
      go (err x, v) h = record {
        after = o;
        run = step os c IsRemote (Step.elsewhere v (lookup_at-err (place os c role req) w h));
        given = λ g e. cc;
      }

  module _ (remote : Remote) (is : IsRemote remote) (group : Group) where
    -- A call in flight that the caller joins is such a run as well.
    abbrev pub Shares : Bytes → Type 0
    Shares key =
        (group key ≡ none)
        ⊎ ((other : Run ObjectError (Unit {0})) × (group key ≡ some other)
            × ((o : List (Bytes × File)) (w : World) → Follows o w (other w)))

    counted :
        (o : List (Bytes × File)) (w : World) (r : Result ObjectError (Unit {0}) × World)
        → Follows o w r
        → Follows o w (and_then r (λ _. counting Metric.coalesced))
    counted o w (ok tt, v) f = record {
      after = f.after;
      run = Steps.later f.run (Step.elsewhere (count Metric.coalesced v) refl);
    }
    counted o w (err x, v) f = record { after = f.after; run = f.run }

    pub produce_once-Follows :
        (key : Bytes) (own : Run ObjectError (Unit {0}))
        → Shares key
        → ((o : List (Bytes × File)) (w : World) → Follows o w (own w))
        → (o : List (Bytes × File)) (w : World) → Follows o w (produce_once group key own w)
    unfolding produce_once run_or_wait
    produce_once-Follows key own shares mine o w = go (group key) shares
      where
        go :
            (g : Option (Run ObjectError (Unit {0})))
            → (g ≡ none)
              ⊎ ((other : Run ObjectError (Unit {0})) × (g ≡ some other)
                  × ((o : List (Bytes × File)) (w : World) → Follows o w (other w)))
            → Follows o w (run_or_wait g own w)
        go none s = mine o w
        go (some other) (inl n) = cc
        go (some other) (inr (m, e, theirs)) =
            let same : m ≡ other = cc in
            counted o w (other w)
              (subst (λ (x : Run ObjectError (Unit {0})). Follows o w (x w)) same (theirs o w))

    download-Follows :
        (req : Request) (o : List (Bytes × File)) (w : World)
        → Follows o w (download os c remote req w)
    download-Follows req o w = record {
      after = o;
      run = download-Steps os c IsRemote o remote is req w;
    }

    object_missed-Gives :
        (req : Request) (o : List (Bytes × File)) (w : World)
        → Shares (key_of role_objects req)
        → Gives (place os c role_objects req) o w (object_missed os c remote group req w)
    unfolding object_missed
    object_missed-Gives req o w shares =
        let v = count (Metric.cache_lookup role_objects Found.miss) w in
        let key = flight_key role_objects (cache_key req).0 (cache_key req).1 in
        go (produce_once group key (download os c remote req) v)
          (produce_once-Follows key (download os c remote req) shares (download-Follows req) o v)
      where
        go :
            (r : Result ObjectError (Unit {0}) × World)
            → Follows o (count (Metric.cache_lookup role_objects Found.miss) w) r
            → Gives
                (place os c role_objects req)
                o
                w
                (and_then r (λ _. lookup_role os c role_objects req))
        go (ok tt, u) f =
            Gives-after
              (Steps-trans os c IsRemote
                (step os c IsRemote
                  (Step.elsewhere (count (Metric.cache_lookup role_objects Found.miss) w) refl))
                f.run)
              (lookup_role-Gives role_objects req f.after u IsRole.objects)
        go (err x, u) f = record {
          after = f.after;
          run =
              Steps-trans os c IsRemote
                (step os c IsRemote
                  (Step.elsewhere (count (Metric.cache_lookup role_objects Found.miss) w) refl))
                f.run;
          given = λ g e. cc;
        }

    pub object-Gives :
        (req : Request) (o : List (Bytes × File)) (w : World)
        → Shares (key_of role_objects req)
        → Gives (place os c role_objects req) o w (object os c remote group req w)
    unfolding object object_found
    object-Gives req o w shares =
        go (lookup_role os c role_objects req w)
          (lookup_role-Gives role_objects req o w IsRole.objects)
      where
        go :
            (r : Result ObjectError (Option File) × World)
            → Gives (place os c role_objects req) o w r
            → Gives
                (place os c role_objects req)
                o
                w
                (and_then r (λ found. object_found os c remote group found req))
        go (ok (some f), v) g = record {
          after = g.after;
          run =
              Steps.later g.run
                (Step.elsewhere (count (Metric.cache_lookup role_objects Found.hit) v) refl);
          given = λ h e. g.given h (cc);
        }
        go (ok none, v) g = Gives-after g.run (object_missed-Gives req g.after v shares)
        go (err x, v) g = record { after = g.after; run = g.run; given = λ h e. cc }
