-- ===== src/Outcome.antt =====
-- `Result<T>` of recording/model.rs, whose error is a text. The texts are grouped by what they report,
-- since no caller inspects one. Checked operations on machine words.
use vim_config.Prelude.{
  ℕ, ◌-◌, ◌^◌, ◌≡◌, refl, Bool, true, false, Option, none, some, ltb, if◌then◌else◌,
}
use vim_config.Prelude.Int.{ℤ, pos, negsuc}

pub data Error : Type 0 where
  invalid overflow truncated exceeds_limit trailing unsorted noncanonical unsupported mismatch :
      Error
  poisoned conflict exhausted storage unfinished : Error

pub data Result {ℓ} (A : Type ℓ) : Type ℓ where
  ok : A → Result A
  err : Error → Result A

-- `if bad { return Err(e) }`
abbrev pub refuse : (bad : Bool) → Error → Result (Unit {0})
refuse false e = ok tt
refuse true e = err e

-- `?`
module _ {ℓ κ} {A : Type ℓ} {B : Type κ} where
  infixl 5 ◌>>=◌
  abbrev pub ◌>>=◌ : Result A → (A → Result B) → Result B
  err e >>= next = err e
  ok value >>= next = next value

infixl 5 ◌>>◌
abbrev pub ◌>>◌ {ℓ} : {A : Type ℓ} → Result (Unit {0}) → Result A → Result A
check >> next = check >>= λ _. next

-- `.ok_or_else(|| e)`
abbrev pub ok_or {ℓ} : {A : Type ℓ} → Option A → Error → Result A
ok_or none e = err e
ok_or (some a) e = ok a

abbrev pub u32_max : ℕ
u32_max = 2 ^ 32 - 1

abbrev pub u64_max : ℕ
u64_max = 2 ^ 64 - 1

abbrev pub u128_max : ℕ
u128_max = 2 ^ 128 - 1

-- Conversions and sums that must fit a word whose largest value is `top`.
abbrev pub checked : ℕ → ℕ → Option ℕ
checked top n = if ltb top n then none else some n

abbrev pub checked_sub : ℕ → ℕ → Option ℕ
checked_sub a b = if ltb a b then none else some (a - b)

-- The range of an i128.
abbrev pub checked_i128 : ℤ → Option ℤ
checked_i128 (pos n) = if ltb (2 ^ 127 - 1) n then none else some (pos n)
checked_i128 (negsuc n) = if ltb (2 ^ 127 - 1) n then none else some (negsuc n)

-- A chain that succeeds has a first step that does.
module _ {ℓ κ} {A : Type ℓ} {B : Type κ} where
  pub >>=-eq-ok :
      (step : Result A) (next : A → Result B) {last : B}
      → (step >>= next) ≡ ok last
      → (value : A) × (step ≡ ok value) × (next value ≡ ok last)
  >>=-eq-ok (err e) next chain = cc
  >>=-eq-ok (ok value) next chain = (value, refl, chain)

pub ok_or_ok {ℓ} : {A : Type ℓ} (o : Option A) (e : Error) {a : A} → ok_or o e ≡ ok a → o ≡ some a
ok_or_ok none e h = cc
ok_or_ok (some b) e h = cc

pub refuse_ok : (b : Bool) (e : Error) {u : Unit {0}} → refuse b e ≡ ok u → b ≡ false
refuse_ok true e h = cc
refuse_ok false e h = refl

pub ok-injective {ℓ} : {A : Type ℓ} {a b : A} → ok a ≡ ok b → a ≡ b
ok-injective h = cc
