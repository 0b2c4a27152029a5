-- ===== src/Kanban/KeyLaws.antt =====
-- The stream names of internal/kanban/interface.go tell services, numbers and directions apart.
use Prim.Native.Char.{code}
use text.Mathlib.TextLemmas.{nil-append, cons-append, append_cancel_left}
use aion_core.Prelude.{
  ℕ, zero, suc, ◌/◌, ◌%◌, String, ◌<>◌, ◌≡◌, ◌≢◌, refl, sym, ap, ◌∙◌, Option, none, some, ◌==◌,
  if◌then◌else◌, arith, Bool-cases, Option-cases, ltb, inl, inr,
}
use aion_core.Prelude.Int.{ℤ, pos, negsuc}
use aion_core.Prelude.Decimal.{digit, decimal, itoa, pad3, pad3_inj}
use aion_core.Kanban.Keys.{
  StatusType, before, after, static, get_before_stream_key, get_after_stream_key,
  get_static_stream_key, get_stream_key_by_status_type,
}

-- What stands before the last colon, and behind it.
split_last : String → Option (String × String)
split_last String.[] = none
split_last (String.◌∷◌ c s) = elim (split_last s) [
  | some (a, b) ↦ some (String.◌∷◌ c a, b)
  | none ↦ if code c == b':' then some ("", s) else none
]

split_last-colon : (d : String) → split_last d ≡ none → split_last (":" <> d) ≡ some ("", d)
unfolding split_last
split_last-colon d h = rw (cons-append, nil-append) (rw h refl)

split_last-append :
    (a d : String) → split_last d ≡ none → split_last (a <> (":" <> d)) ≡ some (a, d)
unfolding split_last
split_last-append String.[] d h = rw nil-append (split_last-colon d h)
split_last-append (String.◌∷◌ c a) d h =
    rw (cons-append c a (":" <> d)) (rw (split_last-append a d h, split_last) refl)

-- Text without a colon stays so when it is joined.
split_last-join :
    (s t : String) → split_last s ≡ none → split_last t ≡ none → split_last (s <> t) ≡ none
unfolding split_last
split_last-join String.[] t h k = rw nil-append k
split_last-join (String.◌∷◌ c s) t h k = elim (Option-cases (split_last s)) [
  | inl e ↦ rw cons-append (ground (arith, e, split_last-join s t e k))
  | inr (p, e) ↦ ground (arith, e)
]

split_last-digit : (n : ℕ) → split_last (digit n) ≡ none
unfolding split_last digit
split_last-digit zero = refl
split_last-digit (suc zero) = refl
split_last-digit (suc (suc zero)) = refl
split_last-digit (suc (suc (suc zero))) = refl
split_last-digit (suc (suc (suc (suc zero)))) = refl
split_last-digit (suc (suc (suc (suc (suc zero))))) = refl
split_last-digit (suc (suc (suc (suc (suc (suc zero)))))) = refl
split_last-digit (suc (suc (suc (suc (suc (suc (suc zero))))))) = refl
split_last-digit (suc (suc (suc (suc (suc (suc (suc (suc zero)))))))) = refl
split_last-digit _ = refl

split_last-decimal : (fuel n : ℕ) → split_last (decimal fuel n) ≡ none
unfolding decimal split_last
split_last-decimal zero n = refl
split_last-decimal (suc fuel) n = elim (Bool-cases (ltb n 10)) [
  | inl e ↦ rw e (split_last-digit n)
  | inr e ↦ rw e (
      split_last-join (decimal fuel (n / 10)) (digit (n % 10)) (split_last-decimal fuel (n / 10))
        (split_last-digit (n % 10)))
]

split_last-itoa : (n : ℕ) → split_last (itoa n) ≡ none
unfolding itoa
split_last-itoa n = split_last-decimal (suc n) n

split_last-pad3 : (z : ℤ) → split_last (pad3 z) ≡ none
unfolding pad3 split_last
split_last-pad3 (pos n) = elim (Bool-cases (ltb n 10)) [
  | inl e ↦ rw e (split_last-join "00" (itoa n) refl (split_last-itoa n))
  | inr e ↦ elim (Bool-cases (ltb n 100)) [
    | inl f ↦ rw (e, f) (split_last-join "0" (itoa n) refl (split_last-itoa n))
    | inr f ↦ rw (e, f) (split_last-itoa n)
  ]
]
split_last-pad3 (negsuc n) = elim (Bool-cases (ltb n 9)) [
  | inl e ↦ rw e (split_last-join "-0" (itoa (suc n)) refl (split_last-itoa (suc n)))
  | inr e ↦ rw e (split_last-join "-" (itoa (suc n)) refl (split_last-itoa (suc n)))
]

-- A name and a number can be read back from the text that joins them, whatever the name holds.
joined_inj :
    (a b : String) (m n : ℤ) → a <> (":" <> pad3 m) ≡ b <> (":" <> pad3 n) → (a ≡ b) × (m ≡ n)
joined_inj a b m n h =
    let p = split_last-append a (pad3 m) (split_last-pad3 m) in
    let q = split_last-append b (pad3 n) (split_last-pad3 n) in
    let e = sym p ∙ ap split_last h ∙ q in ground (arith, e, pad3_inj m n)

-- Two services, or two numbers of one service, never share a stream: a key determines the name
-- and the number, even if names hold colons or digits and numbers are negative.
pub get_before_stream_key_inj :
    (a b : String) (m n : ℤ)
    → get_before_stream_key a m ≡ get_before_stream_key b n
    → (a ≡ b) × (m ≡ n)
unfolding get_before_stream_key
get_before_stream_key_inj a b m n h = joined_inj a b m n (
    append_cancel_left ":" _ _ (
      append_cancel_left "before" _ _
        (append_cancel_left ":" _ _ (append_cancel_left "kanban" _ _ h))))

pub get_after_stream_key_inj :
    (a b : String) (m n : ℤ)
    → get_after_stream_key a m ≡ get_after_stream_key b n
    → (a ≡ b) × (m ≡ n)
unfolding get_after_stream_key
get_after_stream_key_inj a b m n h = joined_inj a b m n (
    append_cancel_left ":" _ _ (
      append_cancel_left "after" _ _
        (append_cancel_left ":" _ _ (append_cancel_left "kanban" _ _ h))))

abbrev head_code : String → ℕ
head_code String.[] = 0
head_code (String.◌∷◌ c s) = code c

-- The text behind `kanban:`, and the code of its first character.
kind-differs :
    (s t s' t' : String)
    → head_code (s <> s') ≢ head_code (t <> t')
    → "kanban" <> (":" <> (s <> s')) ≢ "kanban" <> (":" <> (t <> t'))
kind-differs s t s' t' d h =
    d (ap head_code (append_cancel_left ":" _ _ (append_cancel_left "kanban" _ _ h)))

head-before : (s : String) → head_code ("before" <> s) ≡ 98
head-before s = rw cons-append

head-after : (s : String) → head_code ("after" <> s) ≡ 97
head-after s = rw cons-append

head-static : (s : String) → head_code ("static" <> s) ≡ 115
head-static s = rw cons-append

-- The queues into a service, the queues out of a service and the topics are apart: no key is of
-- two kinds.
pub stream_kinds_differ :
    (x y z : String) (m n : ℤ)
    → (get_before_stream_key x m ≢ get_after_stream_key y n)
      × (get_before_stream_key x m ≢ get_static_stream_key z)
      × (get_after_stream_key y n ≢ get_static_stream_key z)
unfolding get_before_stream_key get_after_stream_key get_static_stream_key
stream_kinds_differ x y z m n = (
  kind-differs "before" "after" _ _ (λ h. omega (arith, h, head-before _, head-after _)),
  kind-differs "before" "static" _ _ (λ h. omega (arith, h, head-before _, head-static _)),
  kind-differs "after" "static" _ _ (λ h. omega (arith, h, head-after _, head-static _)),
)

-- A queue's key determines its service, its number and its direction.
pub get_stream_key_by_status_type_inj :
    (a b : String) (m n : ℤ) (s t : StatusType)
    → s ≢ static
    → t ≢ static
    → get_stream_key_by_status_type a m s ≡ get_stream_key_by_status_type b n t
    → (a ≡ b) × (m ≡ n) × (s ≡ t)
unfolding get_stream_key_by_status_type
get_stream_key_by_status_type_inj a b m n before before hs ht h =
    let (p, q) = get_before_stream_key_inj a b m n h in (p, q, refl)
get_stream_key_by_status_type_inj a b m n after after hs ht h =
    let (p, q) = get_after_stream_key_inj a b m n h in (p, q, refl)
get_stream_key_by_status_type_inj a b m n before after hs ht h =
    absurd ((stream_kinds_differ a b "" m n).0 h)
get_stream_key_by_status_type_inj a b m n after before hs ht h =
    absurd ((stream_kinds_differ b a "" n m).0 (sym h))
get_stream_key_by_status_type_inj a b m n static t hs ht h = absurd (hs refl)
get_stream_key_by_status_type_inj a b m n s static hs ht h = absurd (ht refl)
