-- ===== src/Base/Net/Laws.antt =====
-- Addresses of a host and a port: written with a colon between them, and read again.
use Prim.Native.Char.{Char, code}
use Prim.Native.String.{String, [], ◌∷◌, slice, ◌++◌ as ◌<>◌}
use Prim.Native.String.append.{nil, cons}
use Prim.Native.Nat.{ℕ, zero, suc, ◌+◌, ◌-◌, ◌*◌, ◌/◌, ◌%◌, ◌≤◌, ◌<◌}
use mathlib.Core.Path.{◌≡◌, refl, sym, ap, ◌∙◌, subst}
use mathlib.Core.Logic.{inl, inr}
use mathlib.Core.Bool.{Bool, true, false, not, ◌&&◌}
use mathlib.Core.Option.{some}
use native.Mathlib.Omega.{arith}
use lunaship.Base.Tests.{eqb, leb, Bool-cases}
use lunaship.Base.Text.{is_space, is_empty, itoa, digits_from}
use lunaship.Base.Net.{is_digit, digits_value}

-- Every character passes the test.
abbrev pub Each : (Char → Bool) → String → Type 0
Each test [] = Unit
Each test (c ∷ s) = (test c ≡ true) × Each test s

-- The characters of a host that needs no brackets.
abbrev pub is_plain : Char → Bool
is_plain c =
    not (is_space c)
    && not (eqb (code c) (code ":"))
    && not (eqb (code c) (code "["))
    && not (eqb (code c) (code "]"))

abbrev digit_text : ℕ → String
digit_text d = slice "0123456789" d (d + 1)

digit_char :
    (d : ℕ)
    → d ≤ 9
    → (c : Char) × (digit_text d ≡ c ∷ [])
      × (is_digit c ≡ true)
      × (code c - 48 ≡ d)
      × (is_plain c ≡ true)
unfolding is_space
digit_char zero le = ("0", refl, refl, refl, refl)
digit_char (suc zero) le = ("1", refl, refl, refl, refl)
digit_char (suc (suc zero)) le = ("2", refl, refl, refl, refl)
digit_char (suc (suc (suc zero))) le = ("3", refl, refl, refl, refl)
digit_char (suc (suc (suc (suc zero)))) le = ("4", refl, refl, refl, refl)
digit_char (suc (suc (suc (suc (suc zero))))) le = ("5", refl, refl, refl, refl)
digit_char (suc (suc (suc (suc (suc (suc zero)))))) le = ("6", refl, refl, refl, refl)
digit_char (suc (suc (suc (suc (suc (suc (suc zero))))))) le = ("7", refl, refl, refl, refl)
digit_char (suc (suc (suc (suc (suc (suc (suc (suc zero)))))))) le = ("8", refl, refl, refl, refl)
digit_char (suc (suc (suc (suc (suc (suc (suc (suc (suc zero))))))))) le =
    ("9", refl, refl, refl, refl)
digit_char (suc (suc (suc (suc (suc (suc (suc (suc (suc (suc n)))))))))) le = absurd (ground arith)

Each-weaken :
    (p q : Char → Bool) (s : String) → ((c : Char) → p c ≡ true → q c ≡ true) → Each p s → Each q s
Each-weaken p q [] f h = tt
Each-weaken p q (c ∷ s) f h = (f c h.0, Each-weaken p q s f h.1)

pub nil_text : (t : String) → [] <> t ≡ t
nil_text t = λ i. nil t i

pub cons_text : (c : Char) (s t : String) → (c ∷ s) <> t ≡ c ∷ (s <> t)
cons_text c s t = λ i. cons c s t i

pub one_text : (c : Char) (t : String) → (c ∷ []) <> t ≡ c ∷ t
one_text c t = cons_text c [] t ∙ ap (c ∷◌) (nil_text t)

pub Each-append : (p : Char → Bool) (s t : String) → Each p s → Each p t → Each p (s <> t)
Each-append p [] t h k = subst (Each p) (sym (nil_text t)) k
Each-append p (c ∷ s) t h k = subst (Each p) (sym (cons_text c s t)) (h.0, Each-append p s t h.1 k)

-- What itoa writes: a digit at least, and digits only.
abbrev pub digit_or_plain : Char → Bool
digit_or_plain c = is_digit c && is_plain c

abbrev pub IsNumber : String → Type 0
IsNumber s = Each digit_or_plain s × (is_empty s ≡ false)

-- The first digit of a text.
digit_head :
    (d : ℕ) (rest : String)
    → d ≤ 9
    → (c : Char) × (digit_text d <> rest ≡ c ∷ rest)
      × (is_digit c ≡ true)
      × (code c - 48 ≡ d)
      × (is_plain c ≡ true)
digit_head d rest le =
    let (c, same, digit, value, plain) = digit_char d le in
    (c, ap (λ s. s <> rest) same ∙ one_text c rest, digit, value, plain)

IsNumber-cons :
    (d : ℕ) (rest : String) → d ≤ 9 → Each digit_or_plain rest → IsNumber (digit_text d <> rest)
IsNumber-cons d rest le h =
    let (c, same, digit, value, plain) = digit_head d rest le in
    subst IsNumber (sym same) ((ap (λ b. b && is_plain c) digit ∙ plain, h), refl)

digits_value-cons :
    (n d : ℕ) (rest : String)
    → d ≤ 9
    → digits_value n (digit_text d <> rest) ≡ digits_value (n * 10 + d) rest
unfolding digits_value
digits_value-cons n d rest le =
    let (c, same, digit, value, plain) = digit_head d rest le in
    rw (same, digits_value, digit, value) refl

digits_from-value :
    (fuel n : ℕ) (rest : String)
    → n < fuel
    → Each digit_or_plain rest
    → (digits_value 0 (digits_from fuel n rest) ≡ digits_value n rest)
      × IsNumber (digits_from fuel n rest)
unfolding digits_from
digits_from-value zero n rest less h = absurd (omega arith)
digits_from-value (suc fuel) n rest less h = elim (Bool-cases (leb n 9)) [
  | inl small ↦
      rw (small, digits_from)
        (
          digits_value-cons 0 (n % 10) rest (omega arith)
              ∙ ap (λ k. digits_value k rest) (ground arith),
          IsNumber-cons (n % 10) rest (omega arith) h,
        )
  | inr large ↦
      let (value, number) =
        digits_from-value fuel (n / 10) (digit_text (n % 10) <> rest) (ground arith)
          (IsNumber-cons (n % 10) rest (omega arith) h).0 in
      rw (large, digits_from)
        (
          value
              ∙ digits_value-cons (n / 10) (n % 10) rest (omega arith)
              ∙ ap (λ k. digits_value k rest) (omega arith),
          number,
        )
]

pub itoa-IsNumber : (n : ℕ) → (digits_value 0 (itoa n) ≡ some n) × IsNumber (itoa n)
unfolding itoa digits_value
itoa-IsNumber n = digits_from-value (suc n) n [] (omega arith) tt
