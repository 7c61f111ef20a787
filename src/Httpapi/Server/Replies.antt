-- ===== src/Httpapi/Server/Replies.antt =====
-- A handler that sends its status first and once: what the recorder and the client see.
use debugsymd.Base.{ℕ, ◌≡◌, ◌≤◌, refl, none, some, List, [], ◌∷◌, Bytes, Option-cases, inl, inr}
use debugsymd.Httpapi.Response.{
  Writer, IsLawful, StatusRecorder, Call, write_header, read_from, play, new_status_recorder,
}
use debugsymd.Httpapi.Server.{Library}

-- texts only
abbrev pub IsBody : List Call → Type 0
IsBody [] = Unit {0}
IsBody (Call.heading code ∷ calls) = ⊥
IsBody (Call.writing text ∷ calls) = IsBody calls
IsBody (Call.sending text ∷ calls) = IsBody calls

-- A final status and then texts.
pub record Opens (code : ℕ) (calls : List Call) : Type 0 where
  pub others : List Call
  pub begins : calls ≡ Call.heading code ∷ others
  pub texts : IsBody others
  pub final : 200 ≤ code

-- What net/http says of its own replies.
pub record IsReplying {File W : Type 0} (lib : Library File W) : Type 0 where
  pub error : (message : Bytes) (code : ℕ) → 200 ≤ code → Opens code (lib.error message code)
  pub not_found : Opens 404 lib.not_found
  pub content : (name : Bytes) (file : File) → (code : ℕ) × Opens code (lib.serve_content name file)

module _ {W : Type 0} (net : Writer W) (law : IsLawful net) where
  -- The status that was recorded is the one that was sent.
  pub record Agrees (code : ℕ) (s : StatusRecorder W) : Type 0 where
    pub recorded : s.status ≡ code
    pub sent : net.sent s.inner ≡ some code

  read_from-Agrees :
      (code : ℕ) (text : Bytes) (s : StatusRecorder W)
      → Agrees code s
      → Agrees code (read_from net text s).1
  unfolding read_from
  read_from-Agrees code text s a = elim (Option-cases net.reader_from) [
    | inl none_there ↦
        rw none_there
          (record { recorded = a.recorded; sent = law.copying text s.inner code a.sent })
    | inr (read, there) ↦
        rw there
          (record { recorded = a.recorded; sent = law.reading read text s.inner code there a.sent })
  ]

  play-Agrees :
      (code : ℕ) (calls : List Call) (s : StatusRecorder W)
      → IsBody calls
      → Agrees code s
      → Agrees code (play net calls s)
  unfolding play
  play-Agrees code [] s b a = a
  play-Agrees code (Call.heading other ∷ calls) s b a = absurd b
  play-Agrees code (Call.writing text ∷ calls) s b a =
      play-Agrees code calls (record s { inner = net.write text s.inner }) b
        (record { recorded = a.recorded; sent = law.body text s.inner code a.sent })
  play-Agrees code (Call.sending text ∷ calls) s b a =
      play-Agrees code calls (read_from net text s).1 b (read_from-Agrees code text s a)

  pub play-Opens :
      (code : ℕ) (calls : List Call) (w : W)
      → net.sent w ≡ none
      → Opens code calls
      → Agrees code (play net calls (new_status_recorder net w))
  unfolding play new_status_recorder write_header
  play-Opens code calls w fresh o = rw o.begins (
      play-Agrees code o.others (record { inner = net.write_header code w; status = code }) o.texts
        (record { recorded = refl; sent = law.header code w fresh o.final }))
