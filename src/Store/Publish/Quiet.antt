-- ===== src/Store/Publish/Quiet.antt =====
-- The steps of `publish_blocks` in recording/store.rs that touch only the manifest and the count of bytes,
-- however their calls of the system end.
use vim_config.Prelude.{
  ℕ, ◌≡◌, refl, sym, ap, subst, ◌∙◌, List, length, Bool, true, false, Option, none, some, ltb,
  if◌then◌else◌,
}
use vim_config.Prelude.Bytes.{same}
use vim_config.Outcome.{Result, ok, err, ok-injective}
use vim_config.Store.{FrameInfo, max_manifest_bytes}
use vim_config.Store.Frame.{Codec}
use vim_config.Store.Action.{
  Script, ArchiveWriter, Action, pure, lift, gets, modify, continue, ◌>>=◌, >>=-eq-ok, call,
}
use vim_config.Store.Publish.{
  ensure_capacity_at, atomic_replace, preflight_publication, rebuild_manifest,
}

-- All but the manifest, the count of bytes and the number of calls is the same.
pub record Keeps (w w' : ArchiveWriter) : Type 0 where
  pub options : w'.options ≡ w.options
  pub frames : w'.frames ≡ w.frames
  pub active : w'.active ≡ w.active
  pub active_wire_bytes : w'.active_wire_bytes ≡ w.active_wire_bytes
  pub next_id : w'.next_id ≡ w.next_id
  pub poisoned : w'.poisoned ≡ w.poisoned
  pub journal : w'.journal ≡ w.journal
  pub files : w'.files ≡ w.files

pub Keeps-refl : (w : ArchiveWriter) → Keeps w w
Keeps-refl w = record {
  options = refl;
  frames = refl;
  active = refl;
  active_wire_bytes = refl;
  next_id = refl;
  poisoned = refl;
  journal = refl;
  files = refl;
}

pub Keeps-trans : {a b c : ArchiveWriter} → Keeps a b → Keeps b c → Keeps a c
Keeps-trans p q = record {
  options = q.options ∙ p.options;
  frames = q.frames ∙ p.frames;
  active = q.active ∙ p.active;
  active_wire_bytes = q.active_wire_bytes ∙ p.active_wire_bytes;
  next_id = q.next_id ∙ p.next_id;
  poisoned = q.poisoned ∙ p.poisoned;
  journal = q.journal ∙ p.journal;
  files = q.files ∙ p.files;
}

pub record Quiet {A : Type 0} (m : Action A) : Type 0 where
  pub run : (w : ArchiveWriter) → Keeps w (m w).1

module _ {A : Type 0} where
  pub Quiet-pure : (a : A) → Quiet (pure a)
  unfolding pure
  Quiet-pure a = record { run = Keeps-refl }

  pub Quiet-lift : (r : Result A) → Quiet (lift r)
  unfolding lift
  Quiet-lift r = record { run = Keeps-refl }

  pub Quiet-gets : (f : ArchiveWriter → A) → Quiet (gets f)
  unfolding gets
  Quiet-gets f = record { run = Keeps-refl }

  pub Quiet-if : (b : Bool) (m n : Action A) → Quiet m → Quiet n → Quiet (if b then m else n)
  Quiet-if true m n p q = p
  Quiet-if false m n p q = q

pub Quiet-usage : (n : ℕ) → Quiet (modify (λ w. record w { usage_bytes = n }))
unfolding modify
Quiet-usage n = record {
  run = λ w. record {
    options = refl;
    frames = refl;
    active = refl;
    active_wire_bytes = refl;
    next_id = refl;
    poisoned = refl;
    journal = refl;
    files = refl;
  };
}

pub Quiet-manifest : (m : Option (List ℕ)) → Quiet (modify (λ w. record w { manifest = m }))
unfolding modify
Quiet-manifest m = record {
  run = λ w. record {
    options = refl;
    frames = refl;
    active = refl;
    active_wire_bytes = refl;
    next_id = refl;
    poisoned = refl;
    journal = refl;
    files = refl;
  };
}

Keeps-continue :
    {A B : Type 0} (w : ArchiveWriter) (p : Result A × ArchiveWriter) (f : A → Action B)
    → Keeps w p.1
    → ((a : A) → Quiet (f a))
    → Keeps w (continue p f).1
Keeps-continue w (ok a, mid) f k q = Keeps-trans k ((q a).run mid)
Keeps-continue w (err e, mid) f k q = k

pub Quiet-bind :
    {A B : Type 0} (m : Action A) (f : A → Action B)
    → Quiet m
    → ((a : A) → Quiet (f a))
    → Quiet (m >>= f)
unfolding ◌>>=◌
Quiet-bind m f p q = record { run = λ w. Keeps-continue w (m w) f (p.run w) q }

pub Quiet-call : (io : Script) → Quiet (call io)
unfolding call
Quiet-call io = record {
  run = λ w. record {
    options = refl;
    frames = refl;
    active = refl;
    active_wire_bytes = refl;
    next_id = refl;
    poisoned = refl;
    journal = refl;
    files = refl;
  };
}

module _ (io : Script) where
  pub Quiet-ensure_capacity_at : (n : ℕ) → Quiet (ensure_capacity_at io n)
  unfolding ensure_capacity_at
  Quiet-ensure_capacity_at n = Quiet-bind _ _ (Quiet-gets _) λ w.
      Quiet-bind _ _ (Quiet-lift _) λ projected. Quiet-bind _ _ (Quiet-lift _) λ _.
        Quiet-bind _ _ (Quiet-call io)
          λ free. Quiet-bind _ _ (Quiet-lift _) λ required. Quiet-lift _

  pub Quiet-atomic_replace : (bytes : List ℕ) → Quiet (atomic_replace io bytes)
  unfolding atomic_replace
  Quiet-atomic_replace bytes = Quiet-bind _ _ (Quiet-call io) λ removed.
      Quiet-bind _ _ (Quiet-ensure_capacity_at (length bytes)) λ _.
        Quiet-bind _ _ (Quiet-call io) λ written. Quiet-bind _ _ (Quiet-call io) λ renamed.
          Quiet-bind _ _ (Quiet-gets _) λ w. Quiet-bind _ _ (Quiet-manifest (some bytes)) λ _.
            Quiet-bind _ _ (Quiet-lift _) λ used. Quiet-bind _ _ (Quiet-lift _) λ used'.
              Quiet-bind _ _ (Quiet-usage used')
                λ _. Quiet-bind _ _ (Quiet-call io) λ synced. Quiet-pure tt

  pub Quiet-preflight_publication :
      (c : Codec) (frame : FrameInfo) (n : ℕ) → Quiet (preflight_publication c io frame n)
  unfolding preflight_publication
  Quiet-preflight_publication c frame n = Quiet-bind _ _ (Quiet-gets _) λ frames.
      Quiet-bind _ _ (Quiet-lift _)
        λ manifest. Quiet-bind _ _ (Quiet-lift _) λ additional. Quiet-ensure_capacity_at additional

  Quiet-replace_unless :
      (bytes old : List ℕ) → Quiet (if same old bytes then pure tt else atomic_replace io bytes)
  Quiet-replace_unless bytes old = Quiet-if _ _ _ (Quiet-pure tt) (Quiet-atomic_replace bytes)

  pub Quiet-rebuild_manifest : (c : Codec) → Quiet (rebuild_manifest c io)
  unfolding rebuild_manifest
  Quiet-rebuild_manifest c = Quiet-bind _ _ (Quiet-gets _) λ w.
      Quiet-bind _ _ (Quiet-lift _) λ bytes.
        elim w.manifest
          as (λ m. Quiet (elim m [
            | none ↦ atomic_replace io bytes
            | some old ↦
                if ltb max_manifest_bytes (length old)
                then atomic_replace io bytes
                else do read ← call io; if same old bytes then pure tt else atomic_replace io bytes
          ])) [
            | none ↦ Quiet-atomic_replace bytes
            | some old ↦
                Quiet-if _ _ _ (Quiet-atomic_replace bytes)
                  (Quiet-bind _ _ (Quiet-call io) λ read. Quiet-replace_unless bytes old)
          ]

module _ {A : Type 0} where
  pub Quiet-ok :
      {m : Action A} {w w' : ArchiveWriter} {r : Result A} → Quiet m → m w ≡ (r, w') → Keeps w w'
  Quiet-ok {w} q e = subst (λ p. Keeps w p.1) e (q.run w)

  pub pure_ok :
      (a : A) (w : ArchiveWriter) {r : Result A} {w' : ArchiveWriter} → pure a w ≡ (r, w') → w ≡ w'
  unfolding pure
  pure_ok a w e = ap (λ p. p.1) e

  pub lift_ok :
      (r : Result A) (w : ArchiveWriter) {a : A} {w' : ArchiveWriter}
      → lift r w ≡ (ok a, w')
      → (r ≡ ok a) × (w ≡ w')
  unfolding lift
  lift_ok r w e = (ap (λ p. p.0) e, ap (λ p. p.1) e)

  pub gets_ok :
      (f : ArchiveWriter → A) (w : ArchiveWriter) {a : A} {w' : ArchiveWriter}
      → gets f w ≡ (ok a, w')
      → (f w ≡ a) × (w ≡ w')
  unfolding gets
  gets_ok f w e = (ok-injective (ap (λ p. p.0) e), ap (λ p. p.1) e)

pub modify_ok :
    (f : ArchiveWriter → ArchiveWriter) (w : ArchiveWriter) {r : Result (Unit {0})}
    {w' : ArchiveWriter}
    → modify f w ≡ (r, w')
    → f w ≡ w'
unfolding modify
modify_ok f w e = ap (λ p. p.1) e

-- What a call that succeeds has done to the state.
pub record Does {A : Type 0} (R : ArchiveWriter → ArchiveWriter → Type 0) (m : Action A)
    : Type 0 where
  pub run : (w w' : ArchiveWriter) (a : A) → m w ≡ (ok a, w') → R w w'

module _ {A B : Type 0} (R : ArchiveWriter → ArchiveWriter → Type 0) where
  pub Does-Quiet :
      {m : Action A} {f : A → Action B}
      → ((w mid w' : ArchiveWriter) → Keeps w mid → R mid w' → R w w')
      → Quiet m
      → ((a : A) → Does R (f a))
      → Does R (m >>= f)
  Does-Quiet {m} {f} absorb q d = record {
    run = λ w w' b h.
        let (a, mid, e, h') = >>=-eq-ok m f w h in
        absorb w mid w' (Quiet-ok q e) ((d a).run mid w' b h');
  }

module _ {B : Type 0} (R : ArchiveWriter → ArchiveWriter → Type 0) where
  pub Does-modify_bind :
      (S : ArchiveWriter → ArchiveWriter → Type 0) {f : Unit {0} → Action B}
      (g : ArchiveWriter → ArchiveWriter)
      → ((w w' : ArchiveWriter) → S (g w) w' → R w w')
      → ((u : Unit {0}) → Does S (f u))
      → Does R (modify g >>= f)
  Does-modify_bind S {f} g step d = record {
    run = λ w w' b h.
        let (u, mid, e, h') = >>=-eq-ok (modify g) f w h in
        step w w' (subst (λ m. S m w') (sym (modify_ok g w e)) ((d u).run mid w' b h'));
  }

pub Does-modify :
    (R : ArchiveWriter → ArchiveWriter → Type 0) (g : ArchiveWriter → ArchiveWriter)
    → ((w : ArchiveWriter) → R w (g w))
    → Does R (modify g)
Does-modify R g step = record { run = λ w w' a h. subst (R w) (modify_ok g w h) (step w) }

pub Does-Keeps : {A : Type 0} {m : Action A} → Quiet m → Does Keeps m
Does-Keeps q = record { run = λ w w' a h. Quiet-ok q h }
