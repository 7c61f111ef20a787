-- ===== src/Cab/Out.antt =====
-- What cab/writer.go writes to and reads from: an `io.WriteSeeker` over a file, with the faults that
-- are to come, and an `io.Reader`.
pub mod Append
use debugsymd.Base.{
  ℕ, zero, suc, ◌+◌, ◌-◌, Bool, true, false, List, [], ◌∷◌, ◌++◌, if◌then◌else◌, Bytes, length,
  take, drop, replicate,
}

-- How the next operation on the file ends: a write that fails has put down some bytes.
pub data Fault : Type 0 where
  fine : Fault
  fails : ℕ → Fault

-- `failed` is `errWriter.err != nil`. With no fault left every operation succeeds.
pub record Out : Type 0 where
  pub contents : Bytes
  pub position : ℕ
  pub faults : List Fault
  pub failed : Bool

pub data CabError : Type 0 where
  file_too_large size_mismatch empty_name bad_name : CabError
  deflate_failed read_failed write_failed seek_failed : CabError

-- The state is in both results: what was written stays written.
pub data Outcome (A : Type 0) : Type 0 where
  done : A → Out → Outcome A
  failed_with : CabError → Out → Outcome A
  out_of_fuel : Outcome A

abbrev pub Cab : Type 0 → Type 0
Cab A = Out → Outcome A

abbrev pub and_then : {A B : Type 0} → Outcome A → (A → Cab B) → Outcome B
and_then (done a s) f = f a s
and_then (failed_with e s) f = failed_with e s
and_then out_of_fuel f = out_of_fuel

infixl 5 ◌>>=◌ ◌>>◌
abbrev pub ◌>>=◌ : {A B : Type 0} → Cab A → (A → Cab B) → Cab B
◌>>=◌ m f s = and_then (m s) f

abbrev pub ◌>>◌ : {B : Type 0} → Cab (Unit {0}) → Cab B → Cab B
m >> k = m >>= λ _. k

abbrev pub pure : {A : Type 0} → A → Cab A
pure a s = done a s

abbrev pub fail : {A : Type 0} → CabError → Cab A
fail e s = failed_with e s

-- The file after a write of `p` at `at`; a gap behind the end reads as zeros.
unfoldable pub overwrite : ℕ → Bytes → Bytes → Bytes
overwrite at p file =
    take at (file ++ replicate (at - length file) 0) ++ (p ++ drop (at + length p) file)

-- `Write` of the file, as (ok, state).
unfoldable pub write_as : List Fault → Bytes → Out → Bool × Out
write_as [] p s = (
  true,
  record s {
    contents = overwrite s.position p s.contents;
    position = s.position + length p;
    faults = [];
  },
)
write_as (fine ∷ fs) p s = (
  true,
  record s {
    contents = overwrite s.position p s.contents;
    position = s.position + length p;
    faults = fs;
  },
)
write_as (fails n ∷ fs) p s = (
  false,
  record s {
    contents = overwrite s.position (take n p) s.contents;
    position = s.position + length (take n p);
    faults = fs;
  },
)

abbrev pub write_file : Bytes → Out → Bool × Out
write_file p s = write_as s.faults p s

-- `Seek(at, io.SeekStart)`, as (ok, state).
unfoldable pub seek_as : List Fault → ℕ → Out → Bool × Out
seek_as [] at s = (true, record s { position = at; faults = [] })
seek_as (fine ∷ fs) at s = (true, record s { position = at; faults = fs })
seek_as (fails n ∷ fs) at s = (false, record s { faults = fs })

abbrev pub seek_file : ℕ → Out → Bool × Out
seek_file at s = seek_as s.faults at s

-- The bytes that are still to come; behind them the reader ends, or fails if it is broken.
pub record Reader : Type 0 where
  pub left : Bytes
  pub broken : Bool
