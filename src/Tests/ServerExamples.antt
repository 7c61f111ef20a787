-- ===== src/Tests/ServerExamples.antt =====
-- The theorems on the listeners, with a writer that keeps the status that it sends.
use debugsymd.Base.{
  ℕ, ◌≡◌, refl, true, Option, none, some, List, [], ◌∷◌, codes, Bytes, pos, length,
}
use debugsymd.Base.Result.{ok, err}
use debugsymd.GoStrings.{to_lower, bytes_eq}
use debugsymd.Startup.{Level, log_level, BuildInfo, read_build, revision_of, unknown}
use debugsymd.Httpapi.Handler.{FetchError, Objects}
use debugsymd.Httpapi.Response.{Writer, Call}
use debugsymd.Httpapi.Metrics.{Front}
use debugsymd.Httpapi.Mux.{is_clean, public_patterns, specific_first, first_match}
use debugsymd.Httpapi.Mux.First.{mux-first_match}
use debugsymd.Httpapi.Server.{Library}
use debugsymd.Tests.Instances.{ascii_tables}
use debugsymd.Tests.Multiplexer.{ordered, ordered-IsServeMux}

abbrev opened : ℕ → Option ℕ → Option ℕ
opened code none = some code
opened code (some sent) = some sent

abbrev net : Writer (Option ℕ)
net = record {
  write_header = opened;
  write = λ text w. opened 200 w;
  reader_from = none;
  copy = λ text w. ((length text, true), opened 200 w);
  sent = λ w. w;
}

abbrev library : Library ℕ (Option ℕ)
library = record {
  error = λ message code. Call.heading code ∷ Call.writing message ∷ [];
  not_found = Call.heading 404 ∷ [];
  serve_content = λ name file. Call.heading 206 ∷ Call.sending name ∷ [];
  exposition = Call.writing [] ∷ [];
  unrouted = opened 404;
}

abbrev stocked : Objects ℕ
stocked = record {
  fetch = λ req. ok (some 7);
  fetch_compressed = λ req. ok none;
  source_file = λ req path. some (err FetchError.missing);
}

abbrev front : Front (Option ℕ)
front = record { wire = none; requests = []; in_flight = pos 2 }

abbrev debuginfo_path : List Bytes
debuginfo_path = codes "buildid" ∷ codes "0102030405060708090a0b0c0d0e0f10" ∷ codes "debuginfo" ∷ []

mux-first_match_example :
    ordered (public_patterns true) debuginfo_path ≡ first_match (specific_first true) debuginfo_path
unfolding is_clean bytes_eq
mux-first_match_example = mux-first_match ordered true debuginfo_path ordered-IsServeMux refl

level_upper : log_level (codes "WARN") ≡ Level.warn
unfolding log_level to_lower bytes_eq
level_upper = refl

level_other : log_level (codes "trace") ≡ Level.info
unfolding log_level to_lower bytes_eq
level_other = refl

abbrev build : BuildInfo
build = record {
  version = [];
  settings =
      (codes "vcs", codes "git") ∷ (codes "vcs.revision", codes "4f1c") ∷ (codes "-race", []) ∷ [];
}

build_info :
    read_build (codes "go1.25") (some build)
    ≡ record { version = unknown; revision = codes "4f1c"; go_version = codes "go1.25" }
unfolding read_build revision_of bytes_eq
build_info = refl
