-- ===== src/Cab/Writer/Stream.antt =====
-- The loop of `streamBody` writes the blocks of the chunks of the text, in order.
use debugsymd.Base.{
  ℕ, zero, suc, ◌+◌, ◌-◌, ◌≤◌, ◌<◌, ◌≡◌, sym, ap, ◌∙◌, Bool, true, false, Option, List, [], ◌∷◌,
  arith, Bytes, length, take, drop, length-take, length-drop, ◌⊎◌, inl, inr, if◌then◌else◌,
}
use mathlib.Core.Path.{subst}
use debugsymd.Cab.Constants.{max_blocks, max_block_uncompressed}
use debugsymd.Cab.Out.{Outcome, Cab, Out, done, Reader}
use debugsymd.Cab.Out.Append.{AtEnd, >>=-eq-done}
use debugsymd.Cab.Writer.{read_chunk, emit_chunk, stream_loop}
use debugsymd.Cab.Writer.Pieces.{
  remaining, Streamed, remaining_full, emit_chunk-Streamed, Streamed-trans, last_round,
}

-- A chunk is full, or it is the rest of a reader that does not fail.
read_chunk-eq-done :
    (r : Reader) (s : Out) {chunk : Bytes} {eof : Bool} {r' : Reader} {s' : Out}
    → read_chunk r s ≡ done (chunk, eof, r') s'
    → (s' ≡ s)
      × ((eof ≡ false)
            × (max_block_uncompressed ≤ length r.left)
            × (chunk ≡ take max_block_uncompressed r.left)
            × (r'.left ≡ drop max_block_uncompressed r.left)
            × (r'.broken ≡ r.broken)
          ⊎ (eof ≡ true)
            × (length r.left < max_block_uncompressed)
            × (chunk ≡ r.left)
            × (r.broken ≡ false))
unfolding read_chunk
read_chunk-eq-done r s h = ground arith

module _ (deflate : Bytes → Option Bytes) where
  full_chunk :
      (r : Reader) (chunk : Bytes)
      → max_block_uncompressed ≤ length r.left
      → chunk ≡ take max_block_uncompressed r.left
      → length chunk ≡ max_block_uncompressed
  full_chunk r chunk full e = rw e (omega (arith, length-take max_block_uncompressed r.left))

  -- A full chunk, and what the rest of the loop writes behind it.
  full_round :
      (r r' : Reader) (chunk : Bytes) (blocks total k : ℕ) (s t : Out) (b n : ℕ)
      {blocks' total' : ℕ} {s' : Out}
      → max_block_uncompressed ≤ length r.left
      → chunk ≡ take max_block_uncompressed r.left
      → r'.left ≡ drop max_block_uncompressed r.left
      → Streamed deflate (chunk ∷ []) s blocks total t b n
      → Streamed deflate (remaining b k r'.left) t b n s' blocks' total'
      → Streamed deflate (remaining blocks (suc k) r.left) s blocks total s' blocks' total'
  full_round r r' chunk blocks total k s t b n full e e' first more =
      let pieces : chunk ∷ remaining b k r'.left ≡ remaining blocks (suc k) r.left =
        rw (e, e') (remaining_full b blocks k r.left (omega (arith, first.counts)) full) in
      rw (← pieces) (Streamed-trans deflate first more)

  pub finish :
      (b b' n n' m m' : ℕ) (t t' : Out) {ps : List Bytes} {s : Out} {blocks total : ℕ}
      → ◌≡◌ {A = Outcome (ℕ × ℕ × ℕ)} (done (b, n, m) t) (done (b', n', m') t')
      → Streamed deflate ps s blocks total t b n
      → Streamed deflate ps s blocks total t' b' n' × (m' ≡ m)
  finish b b' n n' m m' t t' {ps} {s} {blocks} {total} same w =
      let e : b ≡ b' = cc in
      let e' : n ≡ n' = cc in
      let e'' : t ≡ t' = cc in
      (
        subst (λ (x : Out). Streamed deflate ps s blocks total x b' n') e''
            (subst (λ (x : ℕ). Streamed deflate ps s blocks total t b' x) e'
              (subst (λ (x : ℕ). Streamed deflate ps s blocks total t x n) e w)),
        cc,
      )

  goes_on :
      {A : Type 0} (eof : Bool) (x y : Cab A) (s : Out) {a : A} {s' : Out}
      → (if eof then x else y) s ≡ done a s'
      → (eof ≡ false → y s ≡ done a s') × (eof ≡ true → x s ≡ done a s')
  goes_on true x y s h = (λ e. absurd (cc), λ e. h)
  goes_on false x y s h = (λ e. h, λ e. absurd (cc))

  -- A round that is done: its chunk, and the rest of the loop.
  pub record Round (fuel : ℕ) (r : Reader) (blocks total seen : ℕ) (s : Out)
      (blocks' total' seen' : ℕ) (s' : Out) : Type 0 where
    pub chunk : Bytes
    pub eof : Bool
    pub r' : Reader
    pub b : ℕ
    pub n : ℕ
    pub t : Out
    pub reads : read_chunk r s ≡ done (chunk, eof, r') s
    pub emits : emit_chunk deflate chunk blocks total s ≡ done (b, n) t
    pub rest :
        eof ≡ false
        → stream_loop deflate fuel r' b n (seen + length chunk) t ≡ done (blocks', total', seen') s'
    pub ends :
        eof ≡ true
        → ◌≡◌ {A = Outcome (ℕ × ℕ × ℕ)}
            (done (b, n, seen + length chunk) t)
            (done (blocks', total', seen') s')

  stream_loop-Round :
      (fuel : ℕ) (r : Reader) (blocks total seen : ℕ) (s : Out) {blocks' total' seen' : ℕ}
      {s' : Out}
      → stream_loop deflate (suc fuel) r blocks total seen s ≡ done (blocks', total', seen') s'
      → Round fuel r blocks total seen s blocks' total' seen' s'
  unfolding stream_loop
  stream_loop-Round fuel r blocks total seen s h =
      let ((chunk, eof, r'), s₁, h₁, h₂) = >>=-eq-done (read_chunk r) _ s h in
      let ((b, n), t, h₃, h₄) = >>=-eq-done (emit_chunk deflate chunk blocks total) _ s₁ h₂ in
      let same = (read_chunk-eq-done r s h₁).0 in
      let (rest, ends) = goes_on eof _ _ t h₄ in
      record {
        chunk = chunk;
        eof = eof;
        r' = r';
        b = b;
        n = n;
        t = t;
        reads = h₁ ∙ ap (done (chunk, eof, r')) same;
        emits = ap (emit_chunk deflate chunk blocks total) (sym same) ∙ h₃;
        rest = rest;
        ends = ends;
      }

  -- What a loop that is done has written.
  pub stream_loop-Streamed :
      (fuel : ℕ) (r : Reader) (blocks total seen k : ℕ) (s : Out) {blocks' total' seen' : ℕ}
      {s' : Out}
      → AtEnd s
      → s.failed ≡ false
      → blocks ≤ max_blocks
      → length r.left ≤ k
      → stream_loop deflate fuel r blocks total seen s ≡ done (blocks', total', seen') s'
      → Streamed deflate (remaining blocks k r.left) s blocks total s' blocks' total'
        × (seen' ≡ seen + length r.left)
        × (r.broken ≡ false)
  stream_loop-Streamed zero r blocks total seen k s at_end good room enough h =
      absurd (unfold stream_loop in cc)
  stream_loop-Streamed (suc fuel) r blocks total seen k s {blocks'} {total'} {seen'} {s'} at_end
        good room enough h =
      let round = stream_loop-Round fuel r blocks total seen s h in
      elim (read_chunk-eq-done r s round.reads).1 [
        | inl (more, full, e, e', e'') ↦
            let size = full_chunk r round.chunk full e in
            let first =
              emit_chunk-Streamed deflate round.chunk blocks total s at_end room (inl (omega arith))
                round.emits in
            let left : length round.r'.left ≡ length r.left - max_block_uncompressed =
              rw e' (length-drop max_block_uncompressed r.left) in
            let (wrote, seen_all, whole) =
              stream_loop-Streamed fuel round.r' round.b round.n (seen + length round.chunk) (k - 1)
                round.t first.appends.at_end first.appends.healthy first.bounded (omega arith)
                (round.rest more) in
            let k-suc : k ≡ suc (k - 1) = omega arith in
            (
              rw k-suc (
                  full_round r round.r' round.chunk blocks total (k - 1) s round.t round.b round.n
                    full e e' first wrote),
              omega arith,
              sym e'' ∙ whole,
            )
        | inr (last, short, e, whole) ↦
            let emits =
              subst
                (λ (c : Bytes).
                  emit_chunk deflate c blocks total s ≡ done (round.b, round.n) round.t)
                e round.emits in
            let (wrote, seen_all) =
              finish round.b blocks' round.n total' (seen + length round.chunk) seen' round.t s'
                (round.ends last)
                (last_round deflate r.left blocks total k s at_end good room enough short emits) in
            (wrote, omega (arith, seen_all, ap length e), whole)
      ]
