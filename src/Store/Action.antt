-- ===== src/Store/Action.antt =====
-- The state of `ArchiveWriter` in recording/store.rs with what is on its disk, and its methods as
-- functions from the state to a result and the new state, which comes back after an error too.
-- Calls of the system may fail: a script says of each, in turn, whether it does.
use vim_config.Prelude.{ℕ, ◌+◌, ◌≡◌, refl, List, Bool, Option}
use vim_config.Outcome.{Result, ok, err, storage}
use vim_config.Store.{StoreOptions, FrameInfo, StoredBlock}

-- A call succeeds with a number, such as the free bytes, or it fails; the number is then how many bytes
-- were written before that.
pub data Io : Type 0 where
  fine : ℕ → Io
  fails : ℕ → Io

abbrev pub Script : Type 0
Script = ℕ → Io

-- `files` are the published frames by their names, `calls` is the number of system calls so far.
pub record ArchiveWriter : Type 0 where
  pub options : StoreOptions
  pub frames : List FrameInfo
  pub active : List StoredBlock
  pub active_wire_bytes : ℕ
  pub usage_bytes : ℕ
  pub next_id : ℕ
  pub poisoned : Bool
  pub journal : Option (List ℕ)
  pub files : List (List ℕ × List ℕ)
  pub manifest : Option (List ℕ)
  pub calls : ℕ

abbrev pub Action : Type 0 → Type 0
Action A = ArchiveWriter → Result A × ArchiveWriter

module _ {A : Type 0} where
  unfoldable pub pure : A → Action A
  pure a w = (ok a, w)

  unfoldable pub lift : Result A → Action A
  lift r w = (r, w)

  unfoldable pub gets : (ArchiveWriter → A) → Action A
  gets f w = (ok (f w), w)

unfoldable pub modify : (ArchiveWriter → ArchiveWriter) → Action (Unit {0})
modify f w = (ok tt, f w)

module _ {A B : Type 0} where
  abbrev pub continue : Result A × ArchiveWriter → (A → Action B) → Result B × ArchiveWriter
  continue (ok a, w) f = f a w
  continue (err e, w) f = (err e, w)

  infixl 5 ◌>>=◌
  unfoldable pub ◌>>=◌ : Action A → (A → Action B) → Action B
  ◌>>=◌ m f w = continue (m w) f

  -- A chain that succeeds has a first step that does.
  pub >>=-eq-ok :
      (m : Action A) (f : A → Action B) (w : ArchiveWriter) {b : B} {w' : ArchiveWriter}
      → (m >>= f) w ≡ (ok b, w')
      → (a : A) × (mid : ArchiveWriter) × (m w ≡ (ok a, mid)) × (f a mid ≡ (ok b, w'))
  unfolding ◌>>=◌
  >>=-eq-ok m f w {b} {w'} h = go (m w) refl h
    where
      go :
          (r : Result A × ArchiveWriter)
          → m w ≡ r
          → continue r f ≡ (ok b, w')
          → (a : A) × (mid : ArchiveWriter) × (m w ≡ (ok a, mid)) × (f a mid ≡ (ok b, w'))
      go (ok a, mid) e h = (a, mid, e, h)
      go (err x, mid) e h = absurd (cc)

infixl 5 ◌>>◌
abbrev pub ◌>>◌ : {B : Type 0} → Action (Unit {0}) → Action B → Action B
m >> k = m >>= λ _. k

abbrev pub outcome : Io → Result ℕ
outcome (fine n) = ok n
outcome (fails n) = err storage

-- One call of the system.
unfoldable pub call : Script → Action ℕ
call io w = (outcome (io w.calls), record w { calls = w.calls + 1 })
