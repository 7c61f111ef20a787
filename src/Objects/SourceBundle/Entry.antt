-- ===== src/Objects/SourceBundle/Entry.antt =====
-- Which text `SourceFile` gives.
use mathlib.Core.List.{Mem, mem-cons_self, mem-cons_of_mem}
use debugsymd.Base.{
  false, length-take, ℕ, ◌+◌, ◌≡◌, ◌≤◌, sym, ap, ◌∙◌, Option, none, some, List, [], ◌∷◌, arith,
  Bytes, length, take, leb, ◌⊎◌, inl, inr, Bool-cases, Option-cases,
}
use debugsymd.Base.Result.{ok}
use debugsymd.GoStrings.{bytes_eq}
use debugsymd.Dict.{get, put, get-put, eq_of_bytes_eq}
use debugsymd.Cab.Out.{Reader}
use debugsymd.Objects.{max_source_file_size}
use debugsymd.Objects.SourceBundle.{
  ZipFile, Manifest, normalize_source_path, bundle_manifest_name, by_name, find_entry, read_limited,
  read_entry, read_manifest, bundle_entry,
}

by_name-Mem :
    (name : Bytes) (zip : List ZipFile) (files : List (Bytes × ZipFile)) {f : ZipFile}
    → get name (by_name zip files) ≡ some f
    → (Mem f zip × (f.name ≡ name)) ⊎ (get name files ≡ some f)
unfolding by_name
by_name-Mem name [] files h = inr h
by_name-Mem name (g ∷ zip) files {f} h = elim (by_name-Mem name zip (put g.name g files) h) [
  | inl (m, e) ↦ inl (mem-cons_of_mem g m, e)
  | inr e ↦ elim (Bool-cases (bytes_eq g.name name)) [
    | inl same ↦
        let put_here = get-put name g.name g files in
        let it : g ≡ f = ground arith in
        inl (
          rw it (mem-cons_self),
          ap (λ (z : ZipFile). z.name) (sym it) ∙ eq_of_bytes_eq g.name name same,
        )
    | inr differ ↦ let put_there = get-put name g.name g files in inr (ground arith)
  ]
]

read_limited-ok :
    (limit : ℕ) (r : Reader) {text : Bytes}
    → read_limited limit r ≡ ok text
    → (text ≡ take limit r.left) × (limit ≤ length r.left) ⊎ (text ≡ r.left) × (r.broken ≡ false)
unfolding read_limited
read_limited-ok limit r h = elim (Bool-cases (leb limit (length r.left))) [
  | inl long ↦ inl (ground arith, ground arith)
  | inr short ↦ inr (ground arith, ground arith)
]

read_entry-whole :
    (f : ZipFile) {text : Bytes}
    → read_entry f ≡ ok text
    → (r : Reader) × (f.opened ≡ some r)
      × (text ≡ r.left)
      × (r.broken ≡ false)
      × (length text ≤ max_source_file_size)
unfolding read_entry
read_entry-whole f {text} h = elim (Option-cases f.opened) [
  | inl n ↦ absurd (ground arith)
  | inr (r, e) ↦
      let read : read_limited (max_source_file_size + 1) r ≡ ok text = ground arith in
      let small : length text ≤ max_source_file_size = ground arith in
      elim (read_limited-ok (max_source_file_size + 1) r read) [
        | inr (whole, ends) ↦ (r, e, whole, ends, small)
        | inl (cut, long) ↦
            absurd (omega (arith, ap length cut, length-take (max_source_file_size + 1) r.left))
      ]
]

-- An entry that the manifest lists under the path that is wanted.
record Listed (want : Bytes) (files : List (Bytes × ZipFile)) (m : Manifest) (f : ZipFile)
    : Type 0 where
  name : Bytes
  path : Bytes
  listed : Mem (name, path) m
  agrees : normalize_source_path path ≡ want
  named : get name files ≡ some f

Listed-later :
    (want : Bytes) (files : List (Bytes × ZipFile)) (e : Bytes × Bytes) (m : Manifest) {f : ZipFile}
    → Listed want files m f
    → Listed want files (e ∷ m) f
Listed-later want files e m l = record {
  name = l.name;
  path = l.path;
  listed = mem-cons_of_mem e l.listed;
  agrees = l.agrees;
  named = l.named;
}

find_entry-Listed :
    (want : Bytes) (files : List (Bytes × ZipFile)) (m : Manifest) {f : ZipFile}
    → find_entry want files m ≡ some f
    → Listed want files m f
unfolding find_entry
find_entry-Listed want files [] h = cc
find_entry-Listed want files ((name, path) ∷ m) {f} h =
    elim (Bool-cases (bytes_eq (normalize_source_path path) want)) [
      | inl same ↦ elim (Option-cases (get name files)) [
        | inr (g, e) ↦
            let it : g ≡ f = ground arith in
            record {
              name = name;
              path = path;
              listed = mem-cons_self;
              agrees = eq_of_bytes_eq (normalize_source_path path) want same;
              named = e ∙ ap some it;
            }
        | inl n ↦
            Listed-later want files (name, path) m (find_entry-Listed want files m (ground arith))
      ]
      | inr differ ↦
          Listed-later want files (name, path) m (find_entry-Listed want files m (ground arith))
    ]

-- What a bundle's archive has for a source path: the manifest, an entry that it lists under a path with
-- the same normal form, and the file of that entry's name, with its whole text, read to its end.
pub record Source (decode : Reader → Option Manifest) (zip : List ZipFile)
    (source_path text : Bytes) : Type 0 where
  pub manifest_file : ZipFile
  pub manifest_reader : Reader
  pub manifest : Manifest
  pub in_zip : Mem manifest_file zip × (manifest_file.name ≡ bundle_manifest_name)
  pub opened : manifest_file.opened ≡ some manifest_reader
  pub decoded : decode manifest_reader ≡ some manifest
  pub name : Bytes
  pub path : Bytes
  pub listed : Mem (name, path) manifest
  pub agrees : normalize_source_path path ≡ normalize_source_path source_path
  pub entry : ZipFile
  pub entry_in_zip : Mem entry zip × (entry.name ≡ name)
  pub reader : Reader
  pub entry_opened : entry.opened ≡ some reader
  pub whole : text ≡ reader.left
  pub ends : reader.broken ≡ false
  pub bounded : length text ≤ max_source_file_size

in_zip_of :
    (name : Bytes) (zip : List ZipFile) {f : ZipFile}
    → get name (by_name zip []) ≡ some f
    → Mem f zip × (f.name ≡ name)
in_zip_of name zip {f} h = elim (by_name-Mem name zip [] h) [
  | inl m ↦ m
  | inr n ↦ absurd (unfold get in let no : none ≡ some f = n in cc)
]

module _ (decode : Reader → Option Manifest) where
  pub bundle_entry-Source :
      (zip : List ZipFile) (source_path text : Bytes) (f : ZipFile)
      → bundle_entry decode zip source_path ≡ ok f
      → read_entry f ≡ ok text
      → Source decode zip source_path text
  unfolding bundle_entry read_manifest
  bundle_entry-Source zip source_path text f h k =
      elim (Option-cases (get bundle_manifest_name (by_name zip []))) [
        | inl n ↦ absurd (ground arith)
        | inr (m, e) ↦ elim (Option-cases m.opened) [
          | inl n ↦ absurd (ground arith)
          | inr (r, o) ↦ elim (Option-cases (decode r)) [
            | inl n ↦ absurd (ground arith)
            | inr (manifest, d) ↦
                let found : find_entry (normalize_source_path source_path) (by_name zip []) manifest
                    ≡ some f =
                  ground arith in
                let l =
                  find_entry-Listed (normalize_source_path source_path) (by_name zip []) manifest
                    found in
                let (reader, opened, whole, ends, bounded) = read_entry-whole f k in
                record {
                  manifest_file = m;
                  manifest_reader = r;
                  manifest = manifest;
                  in_zip = in_zip_of bundle_manifest_name zip e;
                  opened = o;
                  decoded = d;
                  name = l.name;
                  path = l.path;
                  listed = l.listed;
                  agrees = l.agrees;
                  entry = f;
                  entry_in_zip = in_zip_of l.name zip l.named;
                  reader = reader;
                  entry_opened = opened;
                  whole = whole;
                  ends = ends;
                  bounded = bounded;
                }
          ]
        ]
      ]
