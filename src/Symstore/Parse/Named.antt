-- ===== src/Symstore/Parse/Named.antt =====
-- The file name and the type of the requests that `Parse` builds.
use debugsymd.Base.{
  ◌≡◌, ◌≢◌, refl, sym, ap, ◌∙◌, Bool, true, false, none, some, arith, Bytes, length, drop, ◌==◌,
  Bool-cases, Option-cases, inl, inr,
}
use debugsymd.GoStrings.{Unicode, to_lower, has_suffix}
use debugsymd.Resolver.{FileType, Request}
use debugsymd.Symstore.Constants.{
  octet_stream, cab_content_type, zip_content_type, prefix_elf_debug, prefix_elf_code,
  prefix_mach_debug, prefix_mach_code, ext_pdb,
}
use debugsymd.Symstore.DebugId.{is_hex, normalize_pdb, normalize_uuid}
use debugsymd.Symstore.Parse.{
  Serve, elf_request, mach_request, pdb_request, pe_request, base_identity, uncompress_leaf,
  is_source_bundle, parse_compressed, parse_bundle, parse_plain, parse,
}

-- The request is for the named file, and not for a source bundle.
abbrev pub IsFor : Bytes → Request → Type 0
IsFor name req = (req.filename ≡ name) × (req.file_type ≢ FileType.source_bundle)

some_injective : {A : Type 0} {a b : A} → some a ≡ some b → a ≡ b
some_injective e = cc

module _ ⦃u : Unicode⦄ where
  elf_request-IsFor :
      (build_id name : Bytes) (ft : FileType) {req : Request}
      → ft ≢ FileType.source_bundle
      → elf_request build_id name ft ≡ some req
      → IsFor name req
  unfolding elf_request
  elf_request-IsFor build_id name ft {req} plain h = elim (Bool-cases (is_hex build_id)) [
    | inl hex ↦ (ground arith, ground arith)
    | inr no_hex ↦ absurd (ground arith)
  ]

  mach_request-IsFor :
      (uuid name : Bytes) (ft : FileType) {req : Request}
      → ft ≢ FileType.source_bundle
      → mach_request uuid name ft ≡ some req
      → IsFor name req
  unfolding mach_request
  mach_request-IsFor uuid name ft {req} plain h = elim (Option-cases (normalize_uuid uuid)) [
    | inl e ↦ absurd (ground arith)
    | inr (p, e) ↦ (ground arith, ground arith)
  ]

  pdb_request-IsFor :
      (signature name : Bytes) {req : Request}
      → pdb_request signature name ≡ some req
      → IsFor name req
  unfolding pdb_request
  pdb_request-IsFor signature name h = elim (Option-cases (normalize_pdb signature)) [
    | inl e ↦ absurd (ground arith)
    | inr (p, e) ↦ (ground arith, ground arith)
  ]

  pe_request-IsFor :
      (signature name : Bytes) {req : Request}
      → pe_request signature name ≡ some req
      → IsFor name req
  unfolding pe_request
  pe_request-IsFor signature name h = elim (Bool-cases (length signature == 0)) [
    | inl e ↦ absurd (ground arith)
    | inr e ↦ (ground arith, ground arith)
  ]

  base_identity-IsFor :
      (signature name : Bytes) (pdb_hint : Bool) {req : Request}
      → base_identity signature name pdb_hint ≡ some req
      → IsFor name req
  unfolding base_identity
  base_identity-IsFor signature name hint {req} h = ground (
    arith,
    elf_request-IsFor (drop (length prefix_elf_debug) signature) name FileType.elf_debug {req = req}
        (λ e. cc),
    elf_request-IsFor (drop (length prefix_elf_code) signature) name FileType.elf_code {req = req}
        (λ e. cc),
    mach_request-IsFor (drop (length prefix_mach_debug) signature) name FileType.mach_debug
        {req = req} (λ e. cc),
    mach_request-IsFor (drop (length prefix_mach_code) signature) name FileType.mach_code
        {req = req} (λ e. cc),
    pdb_request-IsFor signature name {req = req},
    pe_request-IsFor signature name {req = req},
  )

  -- How the trailing name decides the request's file and the answer's form.
  pub data Decided (trailing : Bytes) : Request → Serve → Type 0 where
    compressed :
        {req : Request}
        → uncompress_leaf trailing ≡ some req.filename
        → req.file_type ≢ FileType.source_bundle
        → Decided trailing req (record { content_type = cab_content_type; cab = true })
    bundle :
        {req : Request}
        → uncompress_leaf trailing ≡ none
        → is_source_bundle trailing ≡ true
        → req.filename ≡ trailing
        → req.file_type ≡ FileType.source_bundle
        → Decided trailing req (record { content_type = zip_content_type; cab = false })
    plain :
        {req : Request}
        → uncompress_leaf trailing ≡ none
        → is_source_bundle trailing ≡ false
        → req.filename ≡ trailing
        → req.file_type ≢ FileType.source_bundle
        → Decided trailing req (record { content_type = octet_stream; cab = false })

  parse_compressed-Decided :
      (signature trailing inner : Bytes) {req : Request} {serve : Serve}
      → uncompress_leaf trailing ≡ some inner
      → parse_compressed signature inner ≡ some (req, serve)
      → Decided trailing req serve
  unfolding parse_compressed
  parse_compressed-Decided signature trailing inner {req} {serve} e h =
      let hint = has_suffix (to_lower inner) ext_pdb in
      elim (Option-cases (base_identity signature inner hint)) [
        | inl n ↦ absurd (ground arith)
        | inr (r, s) ↦
            let same_req : r ≡ req = ground arith in
            let form : ◌≡◌ {A = Serve} (record { content_type = cab_content_type; cab = true })
                serve =
              ground arith in
            let (name, kind) = base_identity-IsFor signature inner hint s in
            rw (← form, ← same_req) (Decided.compressed (e ∙ ap some (sym name)) kind)
      ]

  parse_bundle-Decided :
      (signature trailing : Bytes) {req : Request} {serve : Serve}
      → uncompress_leaf trailing ≡ none
      → is_source_bundle trailing ≡ true
      → parse_bundle signature trailing ≡ some (req, serve)
      → Decided trailing req serve
  unfolding parse_bundle
  parse_bundle-Decided signature trailing {req} {serve} n z h =
      elim (Option-cases (base_identity signature trailing true)) [
        | inl n ↦ absurd (ground arith)
        | inr (r, s) ↦
            let same_req : record r { file_type = FileType.source_bundle } ≡ req = ground arith in
            let form : ◌≡◌ {A = Serve} (record { content_type = zip_content_type; cab = false })
                serve =
              ground arith in
            let (name, kind) = base_identity-IsFor signature trailing true s in
            rw (← form, ← same_req) (Decided.bundle n z name refl)
      ]

  parse_plain-Decided :
      (leading signature trailing : Bytes) {req : Request} {serve : Serve}
      → uncompress_leaf trailing ≡ none
      → is_source_bundle trailing ≡ false
      → parse_plain leading signature trailing ≡ some (req, serve)
      → Decided trailing req serve
  unfolding parse_plain
  parse_plain-Decided leading signature trailing {req} {serve} n z h =
      let hint = has_suffix (to_lower leading) ext_pdb in
      elim (Option-cases (base_identity signature trailing hint)) [
        | inl n ↦ absurd (ground arith)
        | inr (r, s) ↦
            let same_req : r ≡ req = ground arith in
            let form : ◌≡◌ {A = Serve} (record { content_type = octet_stream; cab = false }) serve =
              ground arith in
            let (name, kind) = base_identity-IsFor signature trailing hint s in
            rw (← form, ← same_req) (Decided.plain n z name kind)
      ]

  -- A request that `Parse` builds is for the file that the trailing name names. A compressed name asks
  -- for the file that it is the compressed form of, as a cabinet. Any other name asks for the file of
  -- just that name: a source bundle, as a zip archive, when it has that suffix in any case, and
  -- otherwise a file that is no source bundle, as it is stored.
  pub parse-Decided :
      (leading signature trailing : Bytes) {req : Request} {serve : Serve}
      → parse leading signature trailing ≡ some (req, serve)
      → Decided trailing req serve
  unfolding parse
  parse-Decided leading signature trailing h = elim (Option-cases (uncompress_leaf trailing)) [
    | inr (inner, e) ↦ parse_compressed-Decided signature trailing inner e (ground arith)
    | inl n ↦ elim (Bool-cases (is_source_bundle trailing)) [
      | inl z ↦ parse_bundle-Decided signature trailing n z (ground arith)
      | inr z ↦ parse_plain-Decided leading signature trailing n z (ground arith)
    ]
  ]
