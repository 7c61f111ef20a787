-- ===== src/Httpapi/Response.antt =====
-- httpapi/response.go: the recorder of the status. net/http's ResponseWriter and `io.Copy` are the
-- operations of a `Writer`; a copy gives the number of bytes and whether it succeeded.
use debugsymd.Base.{ℕ, ◌≡◌, ◌≤◌, Bool, Option, none, some, List, [], ◌∷◌, Bytes, if◌then◌else◌}

abbrev pub status_ok : ℕ
status_ok = 200

-- `reader_from` is the writer's own `ReadFrom`, if it has one; `sent` the status that it has sent.
pub record Writer (W : Type 0) : Type 0 where
  pub write_header : ℕ → W → W
  pub write : Bytes → W → W
  pub reader_from : Option (Bytes → W → (ℕ × Bool) × W)
  pub copy : Bytes → W → (ℕ × Bool) × W
  pub sent : W → Option ℕ

-- What net/http says of them: the first final status is the one that is sent, a text before it sends
-- 200, and what follows does not change it.
pub record IsLawful {W : Type 0} (net : Writer W) : Type 0 where
  pub header :
      (code : ℕ) (w : W)
      → net.sent w ≡ none
      → 200 ≤ code
      → net.sent (net.write_header code w) ≡ some code
  pub opening : (text : Bytes) (w : W) → net.sent w ≡ none → net.sent (net.write text w) ≡ some 200
  pub body :
      (text : Bytes) (w : W) (code : ℕ)
      → net.sent w ≡ some code
      → net.sent (net.write text w) ≡ some code
  pub reading :
      (read : Bytes → W → (ℕ × Bool) × W) (text : Bytes) (w : W) (code : ℕ)
      → net.reader_from ≡ some read
      → net.sent w ≡ some code
      → net.sent (read text w).1 ≡ some code
  pub copying :
      (text : Bytes) (w : W) (code : ℕ)
      → net.sent w ≡ some code
      → net.sent (net.copy text w).1 ≡ some code

pub record StatusRecorder (W : Type 0) : Type 0 where
  pub inner : W
  pub status : ℕ

pub data StreamError : Type 0 where
  streaming copying : StreamError

-- What a handler calls on its writer.
pub data Call : Type 0 where
  heading : (code : ℕ) → Call
  writing : Bytes → Call
  sending : Bytes → Call

module _ {W : Type 0} (net : Writer W) where
  unfoldable pub new_status_recorder : W → StatusRecorder W
  new_status_recorder w = record { inner = w; status = status_ok }

  unfoldable pub write_header : ℕ → StatusRecorder W → StatusRecorder W
  write_header code s = record { inner = net.write_header code s.inner; status = code }

  abbrev pub streamed :
      StreamError → StatusRecorder W → (ℕ × Bool) × W → (ℕ × Option StreamError) × StatusRecorder W
  streamed e s ((n, whole), w) = ((n, if whole then none else some e), record s { inner = w })

  unfoldable pub read_from : Bytes → StatusRecorder W → (ℕ × Option StreamError) × StatusRecorder W
  read_from text s = elim net.reader_from [
    | some read ↦ streamed StreamError.streaming s (read text s.inner)
    | none ↦ streamed StreamError.copying s (net.copy text s.inner)
  ]

  -- the methods of the recorder, and of the writer in it
  unfoldable pub play : List Call → StatusRecorder W → StatusRecorder W
  unfolding write_header read_from
  play [] s = s
  play (Call.heading code ∷ calls) s = play calls (write_header code s)
  play (Call.writing text ∷ calls) s = play calls (record s { inner = net.write text s.inner })
  play (Call.sending text ∷ calls) s = play calls (read_from text s).1

  -- `io.Copy` to the writer itself
  unfoldable pub copied_to : Bytes → W → W
  copied_to text w = elim net.reader_from [
    | some read ↦ (read text w).1
    | none ↦ (net.copy text w).1
  ]

  -- the same calls on the writer itself
  unfoldable pub send : List Call → W → W
  unfolding copied_to
  send [] w = w
  send (Call.heading code ∷ calls) w = send calls (net.write_header code w)
  send (Call.writing text ∷ calls) w = send calls (net.write text w)
  send (Call.sending text ∷ calls) w = send calls (copied_to text w)
