-- ===== src/Store/Writer/Leaves.antt =====
-- Methods of `ArchiveWriter` in recording/store.rs whose call fails, by what holds of the state behind it.
use vim_config.Prelude.{◌≡◌, refl, ap, subst}
use vim_config.Outcome.{Error, Result, ok, err}
use vim_config.Store.Action.{ArchiveWriter, Action, pure, lift, gets, modify, continue, ◌>>=◌}
use vim_config.Store.Publish.Quiet.{Keeps, Quiet, Quiet-ok}

-- What a call leaves if it fails.
pub record Leaves {A : Type 0} (P : ArchiveWriter → Type 0) (m : Action A) (w : ArchiveWriter)
    : Type 0 where
  pub run : {e : Error} {w' : ArchiveWriter} → m w ≡ (err e, w') → P w'

module _ (P : ArchiveWriter → Type 0) where
  Leaves-continue :
      {A B : Type 0} (p : Result A × ArchiveWriter) (f : A → Action B) {e : Error}
      {w' : ArchiveWriter}
      → ((e : Error) (w' : ArchiveWriter) → p ≡ (err e, w') → P w')
      → ((a : A) (mid : ArchiveWriter) → p ≡ (ok a, mid) → Leaves P (f a) mid)
      → continue p f ≡ (err e, w')
      → P w'
  Leaves-continue (ok a, mid) f l k h = (k a mid refl).run h
  Leaves-continue (err x, mid) f l k h = subst P (ap (λ p. p.1) h) (l x mid refl)

  pub Leaves-bind :
      {A B : Type 0} (m : Action A) (f : A → Action B) (w : ArchiveWriter)
      → Leaves P m w
      → ((a : A) (mid : ArchiveWriter) → m w ≡ (ok a, mid) → Leaves P (f a) mid)
      → Leaves P (m >>= f) w
  unfolding ◌>>=◌
  Leaves-bind m f w l k = record { run = λ h. Leaves-continue (m w) f (λ e w' h. l.run h) k h }

  module _ {A : Type 0} where
    pub Leaves-lift : (r : Result A) (w : ArchiveWriter) → P w → Leaves P (lift r) w
    unfolding lift
    Leaves-lift r w p = record { run = λ h. subst P (ap (λ p. p.1) h) p }

    -- A value that is no error.
    pub Leaves-lift_ok : (r : Result A) (w : ArchiveWriter) {a : A} → r ≡ ok a → Leaves P (lift r) w
    unfolding lift
    Leaves-lift_ok r w e = record { run = λ h. absurd (cc) }

    pub Leaves-gets : (f : ArchiveWriter → A) (w : ArchiveWriter) → Leaves P (gets f) w
    unfolding gets
    Leaves-gets f w = record { run = λ h. absurd (cc) }

    pub Leaves-pure : (a : A) (w : ArchiveWriter) → Leaves P (pure a) w
    unfolding pure
    Leaves-pure a w = record { run = λ h. absurd (cc) }

    pub Leaves-Quiet :
        (m : Action A) (w : ArchiveWriter)
        → Quiet m
        → ((w' : ArchiveWriter) → Keeps w w' → P w')
        → Leaves P m w
    Leaves-Quiet m w q k = record { run = λ {e} {w'} h. k w' (Quiet-ok q h) }

  pub Leaves-modify :
      (f : ArchiveWriter → ArchiveWriter) (w : ArchiveWriter) → Leaves P (modify f) w
  unfolding modify
  Leaves-modify f w = record { run = λ h. absurd (cc) }
