-- ===== src/Cab/Writer/Pieces.antt =====
-- The chunks of the loop of `streamBody`, and what the rounds for some of them leave in the file.
use debugsymd.Base.{
  ==_iff, drop_short, take_short, ℕ, zero, suc, ◌+◌, ◌≤◌, ◌<◌, ◌≡◌, ◌≢◌, refl, sym, ap, false, ◌&&◌,
  Option, some, List, [], ◌∷◌, ◌++◌, append-nil, append_assoc, arith, Bytes, length, take, drop,
  length-append, Bool-cases, Option-cases, ◌⊎◌, inl, inr, ◌==◌, if◌then◌else◌,
}
use mathlib.Core.Path.{subst}
use debugsymd.Cab.Constants.{max_blocks, max_block_uncompressed}
use debugsymd.Cab.Out.{Out, done}
use debugsymd.Cab.Out.Append.{Appends-refl, AtEnd, Appends, Appends-trans}
use debugsymd.Cab.Mszip.{block}
use debugsymd.Cab.Layout.{data_block, cut, body}
use debugsymd.Cab.Writer.{write_block, emit_chunk}
use debugsymd.Cab.Writer.Blocks.{write_block-Appends}

-- The chunks that the loop writes for the text that is left, when `blocks` blocks are written.
abbrev pub remaining : ℕ → ℕ → Bytes → List Bytes
remaining blocks k text = if blocks == 0 && length text == 0 then [] ∷ [] else cut k text

pub record Streamed (deflate : Bytes → Option Bytes) (pieces : List Bytes) (s : Out)
    (blocks total : ℕ) (s' : Out) (blocks' total' : ℕ) : Type 0 where
  pub bytes : Bytes
  pub encodes : body deflate pieces ≡ some bytes
  pub appends : Appends s bytes s'
  pub counts : blocks' ≡ blocks + length pieces
  pub sums : total' ≡ total + length bytes
  pub bounded : blocks' ≤ max_blocks

pub cut_nil : (k : ℕ) → cut k [] ≡ []
unfolding cut
cut_nil zero = refl
cut_nil (suc k) = refl

pub remaining_full :
    (b blocks k : ℕ) (text : Bytes)
    → b ≢ 0
    → max_block_uncompressed ≤ length text
    → take max_block_uncompressed text ∷ remaining b k (drop max_block_uncompressed text)
      ≡ remaining blocks (suc k) text
unfolding cut
remaining_full b blocks k text some_blocks full = ground arith

pub remaining_short :
    (blocks k : ℕ) (text : Bytes)
    → length text ≤ k
    → length text < max_block_uncompressed
    → (0 < length text) ⊎ (blocks ≡ 0)
    → text ∷ [] ≡ remaining blocks k text
unfolding cut
remaining_short blocks k [] fits short some_text = ground arith
remaining_short blocks zero (c ∷ text) fits short some_text = absurd (omega arith)
remaining_short blocks (suc k) (c ∷ text) fits short some_text = ground (
  arith,
  take_short max_block_uncompressed (c ∷ text) (omega arith),
  drop_short max_block_uncompressed (c ∷ text) (omega arith),
  cut_nil k,
)

module _ (deflate : Bytes → Option Bytes) where
  pub emit_chunk-Streamed :
      (chunk : Bytes) (blocks total : ℕ) (s : Out) {blocks' total' : ℕ} {s' : Out}
      → AtEnd s
      → blocks ≤ max_blocks
      → (0 < length chunk) ⊎ (blocks ≡ 0)
      → emit_chunk deflate chunk blocks total s ≡ done (blocks', total') s'
      → Streamed deflate (chunk ∷ []) s blocks total s' blocks' total'
  unfolding emit_chunk
  emit_chunk-Streamed chunk blocks total s {blocks'} {total'} {s'} at_end room some_bytes h =
      let written : write_block deflate chunk blocks total s ≡ done (blocks', total') s' =
        ground arith in
      let (payload, e, room', b, t, a) =
        write_block-Appends deflate chunk blocks total s at_end written in
      record {
        bytes = data_block chunk payload ++ [];
        encodes = unfold body in rw e;
        appends = rw append-nil a;
        counts = omega arith;
        sums = rw append-nil t;
        bounded = omega arith;
      }

  emit_nothing :
      (chunk : Bytes) (blocks total : ℕ) (s : Out) {blocks' total' : ℕ} {s' : Out}
      → length chunk ≡ 0
      → blocks ≢ 0
      → emit_chunk deflate chunk blocks total s ≡ done (blocks', total') s'
      → (s ≡ s') × (blocks' ≡ blocks) × (total' ≡ total)
  unfolding emit_chunk
  emit_nothing chunk blocks total s none_left some_blocks h =
      (ground arith, ground arith, ground arith)

  body-append :
      (ps qs : List Bytes) {x y : Bytes}
      → body deflate ps ≡ some x
      → body deflate qs ≡ some y
      → body deflate (ps ++ qs) ≡ some (x ++ y)
  unfolding body
  body-append [] qs h k = cc
  body-append (p ∷ ps) qs {x} {y} h k = elim (Option-cases (block deflate p)) [
    | inl n ↦ absurd (ground arith)
    | inr (payload, e) ↦ elim (Option-cases (body deflate ps)) [
      | inl n ↦ absurd (ground arith)
      | inr (z, e') ↦
          let whole : x ≡ data_block p payload ++ z = ground arith in
          rw (e, body-append ps qs e' k, whole)
            (ap some (sym (append_assoc (data_block p payload) z y)))
    ]
  ]

  pub Streamed-trans :
      {ps qs : List Bytes} {s t v : Out} {b₁ t₁ b₂ t₂ b₃ t₃ : ℕ}
      → Streamed deflate ps s b₁ t₁ t b₂ t₂
      → Streamed deflate qs t b₂ t₂ v b₃ t₃
      → Streamed deflate (ps ++ qs) s b₁ t₁ v b₃ t₃
  Streamed-trans {ps} {qs} p q = record {
    bytes = p.bytes ++ q.bytes;
    encodes = body-append ps qs p.encodes q.encodes;
    appends = Appends-trans p.appends q.appends;
    counts = omega (arith, p.counts, q.counts, length-append ps qs);
    sums = omega (arith, p.sums, q.sums, length-append p.bytes q.bytes);
    bounded = q.bounded;
  }

  pub last_round :
      (text : Bytes) (blocks total k : ℕ) (s : Out) {blocks' total' : ℕ} {s' : Out}
      → AtEnd s
      → s.failed ≡ false
      → blocks ≤ max_blocks
      → length text ≤ k
      → length text < max_block_uncompressed
      → emit_chunk deflate text blocks total s ≡ done (blocks', total') s'
      → Streamed deflate (remaining blocks k text) s blocks total s' blocks' total'
  last_round (c ∷ text) blocks total k s at_end good room enough short h =
      let some_text : 0 < length (c ∷ text) = omega arith in
      rw (← remaining_short blocks k (c ∷ text) enough short (inl some_text))
        (emit_chunk-Streamed (c ∷ text) blocks total s at_end room (inl some_text) h)
  last_round [] blocks total k s at_end good room enough short h = elim (Bool-cases (blocks == 0)) [
    | inl first ↦
        let none_yet = (==_iff blocks 0).0 first in
        rw (← remaining_short blocks k [] enough short (inr none_yet))
          (emit_chunk-Streamed [] blocks total s at_end room (inr none_yet) h)
    | inr later ↦
        let (same, b, t) = emit_nothing [] blocks total s refl (ground arith) h in
        let e : remaining blocks k [] ≡ [] = ground (arith, cut_nil k) in
        rw e (record {
          bytes = [];
          encodes = unfold body in refl;
          appends = subst (Appends s []) same (Appends-refl at_end good);
          counts = omega arith;
          sums = omega arith;
          bounded = omega arith;
        })
  ]
