-- ===== src/Shared/Results.antt =====
-- A computation that may panic. A failed `assert!`, `expect` or `panic!` is an `err`, which
-- names the message; the programs never catch a panic.
use mathlib.Core.Path.{◌≡◌, refl, ap}
use mathlib.Core.Logic.{◌≢◌}
use mathlib.Core.Bool.{Bool, true, false}
use mathlib.Core.Option.{Option, none, some}

pub data Result {ℓ κ} (P : Type ℓ) (T : Type κ) : Type (ℓ ⊔ κ) where
  err : P → Result P T
  ok : T → Result P T

infixl 5 ◌>>=◌ ◌>>◌
abbrev pub ◌>>=◌ {ℓ κ μ} :
    {P : Type ℓ} {T : Type κ} {U : Type μ} → Result P T → (T → Result P U) → Result P U
err panic >>= rest = err panic
ok value >>= rest = rest value

-- A statement before the rest of a body.
abbrev pub ◌>>◌ {ℓ κ} : {P : Type ℓ} {U : Type κ} → Result P (Unit {0}) → Result P U → Result P U
statement >> rest = statement >>= λ _. rest

-- `assert!(test, message)`
abbrev pub guard {ℓ} : {P : Type ℓ} → Bool → P → Result P (Unit {0})
guard false panic = err panic
guard true panic = ok tt

-- `option.expect(message)`
abbrev pub expect {ℓ κ} : {P : Type ℓ} {T : Type κ} → Option T → P → Result P T
expect (some value) panic = ok value
expect none panic = err panic

module _ {ℓ κ} {P : Type ℓ} {T : Type κ} where
  err-eq-err {μ} :
      {U : Type μ} {p q : P}
      → ◌≡◌ {A = Result P U} (err p) (err q)
      → ◌≡◌ {A = Result P T} (err p) (err q)
  err-eq-err e = cc

  -- A body that does not panic passed each of its steps.
  pub bind-eq-ok {μ} :
      {U : Type μ} (step : Result P T) (rest : T → Result P U) {u : U}
      → (step >>= rest) ≡ ok u
      → (t : T) × (step ≡ ok t) × (rest t ≡ ok u)
  bind-eq-ok (err panic) rest e = cc
  bind-eq-ok (ok t) rest e = (t, refl, e)

  -- A body whose steps do not panic with one message does not either.
  pub bind-≢-err {μ} :
      {U : Type μ} (step : Result P T) (rest : T → Result P U) (panic : P)
      → step ≢ err panic
      → ((t : T) → rest t ≢ err panic)
      → (step >>= rest) ≢ err panic
  bind-≢-err (err other) rest panic fine then_fine e = fine (err-eq-err e)
  bind-≢-err (ok t) rest panic fine then_fine e = then_fine t e

  pub guard-eq-ok :
      (test : Bool) (panic : P) (rest : Result P T) {t : T}
      → (guard test panic >> rest) ≡ ok t
      → (test ≡ true) × (rest ≡ ok t)
  guard-eq-ok false panic rest e = cc
  guard-eq-ok true panic rest e = (refl, e)

  pub expect-eq-ok : (o : Option T) (panic : P) {t : T} → expect o panic ≡ ok t → o ≡ some t
  expect-eq-ok (some value) panic e = cc
  expect-eq-ok none panic e = cc

  pub ok-eq-ok : {t u : T} → ◌≡◌ {A = Result P T} (ok t) (ok u) → t ≡ u
  ok-eq-ok e = cc

pub guard-true {ℓ} :
    {P : Type ℓ} (test : Bool) (panic : P) {u : Unit {0}}
    → ◌≡◌ {A = Result P (Unit {0})} (guard test panic) (ok u)
    → test ≡ true
guard-true false panic e = cc
guard-true true panic e = refl

pub some-eq-some {ℓ} : {A : Type ℓ} {a b : A} → ◌≡◌ {A = Option A} (some a) (some b) → a ≡ b
some-eq-some e = cc

-- Three results that agree agree in each.
pub ok-triple {ℓ κ} :
    {P : Type ℓ} {T : Type κ} {a b c a' b' c' : T}
    → ◌≡◌ {A = Result P (T × T × T)} (ok (a, b, c)) (ok (a', b', c'))
    → (a ≡ a') × (b ≡ b') × (c ≡ c')
ok-triple {P = P} {T} e =
    let same = ok-eq-ok {P = P} {T = T × T × T} e in
    (
      ap (λ (t : T × T × T). t.0) same,
      ap (λ (t : T × T × T). t.1) same,
      ap (λ (t : T × T × T). t.2) same,
    )

pub ok-pair {ℓ κ} :
    {P : Type ℓ} {T : Type κ} {a b a' b' : T}
    → ◌≡◌ {A = Result P (T × T)} (ok (a, b)) (ok (a', b'))
    → (a ≡ a') × (b ≡ b')
ok-pair {P = P} {T} e =
    let same = ok-eq-ok {P = P} {T = T × T} e in
    (ap (λ (t : T × T). t.0) same, ap (λ (t : T × T). t.1) same)
