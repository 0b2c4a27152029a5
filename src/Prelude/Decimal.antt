-- ===== src/Prelude/Decimal.antt =====
-- Go's decimal printing: strconv.Itoa, and fmt's verb `%03d`.
use Prim.Native.Char.{code}
use text.Mathlib.TextLemmas.{nil-append, cons-append}
use aion_core.Prelude.{
  ℕ, zero, suc, ◌+◌, ◌-◌, ◌*◌, ◌/◌, ◌%◌, ◌<◌, String, ◌<>◌, ◌≡◌, refl, sym, ap, ◌∙◌, Bool, true,
  false, Bool-cases, inl, inr, ltb→lt, ltb, ◌==◌, if◌then◌else◌, arith,
}
use aion_core.Prelude.Int.{ℤ, pos, negsuc}

unfoldable pub digit : ℕ → String
digit zero = "0"
digit (suc zero) = "1"
digit (suc (suc zero)) = "2"
digit (suc (suc (suc zero))) = "3"
digit (suc (suc (suc (suc zero)))) = "4"
digit (suc (suc (suc (suc (suc zero))))) = "5"
digit (suc (suc (suc (suc (suc (suc zero)))))) = "6"
digit (suc (suc (suc (suc (suc (suc (suc zero))))))) = "7"
digit (suc (suc (suc (suc (suc (suc (suc (suc zero)))))))) = "8"
digit _ = "9"

-- Each digit takes a unit of fuel; `n + 1` units are enough for `n`.
unfoldable pub decimal : ℕ → ℕ → String
unfolding digit
decimal zero n = ""
decimal (suc fuel) n =
    let front = decimal fuel (n / 10) in if ltb n 10 then digit n else front <> digit (n % 10)

-- strconv.Itoa of a number that is not negative
unfoldable pub itoa : ℕ → String
unfolding decimal
itoa n = decimal (suc n) n

unfoldable pub itoa_ℤ : ℤ → String
unfolding itoa
itoa_ℤ (pos n) = itoa n
itoa_ℤ (negsuc n) = "-" <> itoa (suc n)

-- %03d: at least three characters, the sign included
unfoldable pub pad3 : ℤ → String
pad3 (pos n) = if ltb n 10 then "00" <> itoa n else if ltb n 100 then "0" <> itoa n else itoa n
pad3 (negsuc n) = if ltb n 9 then "-0" <> itoa (suc n) else "-" <> itoa (suc n)

-- What a reader of decimal text computes; a character that is no digit counts as a leading zero.
abbrev pub value : ℕ → String → ℕ
value acc String.[] = acc
value acc (String.◌∷◌ c s) = value (acc * 10 + (code c - 48)) s

value-append : (acc : ℕ) (s t : String) → value acc (s <> t) ≡ value (value acc s) t
value-append acc String.[] t = rw nil-append
value-append acc (String.◌∷◌ c s) t = rw cons-append (value-append (acc * 10 + (code c - 48)) s t)

value-digit : (acc n : ℕ) → n < 10 → value acc (digit n) ≡ acc * 10 + n
unfolding digit
value-digit acc zero h = omega arith
value-digit acc (suc zero) h = omega arith
value-digit acc (suc (suc zero)) h = omega arith
value-digit acc (suc (suc (suc zero))) h = omega arith
value-digit acc (suc (suc (suc (suc zero)))) h = omega arith
value-digit acc (suc (suc (suc (suc (suc zero))))) h = omega arith
value-digit acc (suc (suc (suc (suc (suc (suc zero)))))) h = omega arith
value-digit acc (suc (suc (suc (suc (suc (suc (suc zero))))))) h = omega arith
value-digit acc (suc (suc (suc (suc (suc (suc (suc (suc zero)))))))) h = omega arith
value-digit acc (suc (suc (suc (suc (suc (suc (suc (suc (suc zero))))))))) h = omega arith
value-digit acc (suc (suc (suc (suc (suc (suc (suc (suc (suc (suc n)))))))))) h =
    absurd (omega arith)

value-decimal : (fuel n : ℕ) → n < fuel → value 0 (decimal fuel n) ≡ n
unfolding decimal
value-decimal zero n h = elim h [ ]
value-decimal (suc fuel) n h = elim (Bool-cases (ltb n 10)) [
  | inl e ↦ rw e (omega (arith, value-digit 0 n (ltb→lt n 10 e)))
  | inr e ↦
      rw
        (
          e,
          value-append,
          value-decimal fuel (n / 10) (ground arith),
          value-digit (n / 10) (n % 10) (omega arith),
        )
        (omega arith)
]

-- Reading back what was printed gives the number, so the fuel is enough for every number.
pub value-itoa : (n : ℕ) → value 0 (itoa n) ≡ n
unfolding itoa
value-itoa n = value-decimal (suc n) n (omega arith)

-- Distinct numbers print differently.
pub itoa_inj : (m n : ℕ) → itoa m ≡ itoa n → m ≡ n
itoa_inj m n h = sym (value-itoa m) ∙ ap (value 0) h ∙ value-itoa n

abbrev is_negative : String → Bool
is_negative String.[] = false
is_negative (String.◌∷◌ c s) = code c == 45

abbrev magnitude : ℤ → ℕ
magnitude (pos n) = n
magnitude (negsuc n) = suc n

value-pad3 : (z : ℤ) → value 0 (pad3 z) ≡ magnitude z
unfolding pad3
value-pad3 (pos n) = elim (Bool-cases (ltb n 10)) [
  | inl e ↦ rw e (rw value-append (value-itoa n))
  | inr e ↦ elim (Bool-cases (ltb n 100)) [
    | inl f ↦ rw (e, f) (rw value-append (value-itoa n))
    | inr f ↦ rw (e, f) (value-itoa n)
  ]
]
value-pad3 (negsuc n) = elim (Bool-cases (ltb n 9)) [
  | inl e ↦ rw e (rw value-append (value-itoa (suc n)))
  | inr e ↦ rw e (rw value-append (value-itoa (suc n)))
]

is_negative-append :
    (s t : String) → is_negative s ≡ false → is_negative t ≡ false → is_negative (s <> t) ≡ false
is_negative-append String.[] t h k = rw nil-append k
is_negative-append (String.◌∷◌ c s) t h k = rw cons-append h

is_negative-digit : (n : ℕ) → is_negative (digit n) ≡ false
unfolding digit
is_negative-digit zero = refl
is_negative-digit (suc zero) = refl
is_negative-digit (suc (suc zero)) = refl
is_negative-digit (suc (suc (suc zero))) = refl
is_negative-digit (suc (suc (suc (suc zero)))) = refl
is_negative-digit (suc (suc (suc (suc (suc zero))))) = refl
is_negative-digit (suc (suc (suc (suc (suc (suc zero)))))) = refl
is_negative-digit (suc (suc (suc (suc (suc (suc (suc zero))))))) = refl
is_negative-digit (suc (suc (suc (suc (suc (suc (suc (suc zero)))))))) = refl
is_negative-digit (suc (suc (suc (suc (suc (suc (suc (suc (suc n))))))))) = refl

is_negative-decimal : (fuel n : ℕ) → is_negative (decimal fuel n) ≡ false
unfolding decimal
is_negative-decimal zero n = refl
is_negative-decimal (suc fuel) n = elim (Bool-cases (ltb n 10)) [
  | inl e ↦ rw e (is_negative-digit n)
  | inr e ↦ rw e (
      is_negative-append (decimal fuel (n / 10)) (digit (n % 10))
        (is_negative-decimal fuel (n / 10)) (is_negative-digit (n % 10)))
]

is_negative-itoa : (n : ℕ) → is_negative (itoa n) ≡ false
unfolding itoa
is_negative-itoa n = is_negative-decimal (suc n) n

abbrev sign : ℤ → Bool
sign (pos n) = false
sign (negsuc n) = true

is_negative-pad3 : (z : ℤ) → is_negative (pad3 z) ≡ sign z
unfolding pad3
is_negative-pad3 (pos n) = elim (Bool-cases (ltb n 10)) [
  | inl e ↦ rw e (rw cons-append)
  | inr e ↦ elim (Bool-cases (ltb n 100)) [
    | inl f ↦ rw (e, f) (rw cons-append)
    | inr f ↦ rw (e, f) (is_negative-itoa n)
  ]
]
is_negative-pad3 (negsuc n) = elim (Bool-cases (ltb n 9)) [
  | inl e ↦ rw e (rw cons-append)
  | inr e ↦ rw e (rw cons-append)
]

sign-magnitude : (a b : ℤ) → sign a ≡ sign b → magnitude a ≡ magnitude b → a ≡ b
sign-magnitude a b h k = ground arith

-- Distinct numbers, of either sign, print differently under `%03d`.
pub pad3_inj : (a b : ℤ) → pad3 a ≡ pad3 b → a ≡ b
pad3_inj a b h =
    sign-magnitude a b (sym (is_negative-pad3 a) ∙ ap is_negative h ∙ is_negative-pad3 b)
      (sym (value-pad3 a) ∙ ap (value 0) h ∙ value-pad3 b)

-- The printed text of a few numbers.
test_print :
    (pad3 (pos 7) ≡ "007")
    × (pad3 (pos 42) ≡ "042")
    × (pad3 (pos 1234) ≡ "1234")
    × (pad3 (negsuc 4) ≡ "-05")
    × (pad3 (negsuc 11) ≡ "-12")
    × (itoa_ℤ (negsuc 0) ≡ "-1")
unfolding pad3 itoa_ℤ
test_print = (refl, refl, refl, refl, refl, refl)
