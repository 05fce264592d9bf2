-- ===== src/Json/Enough.antt =====
-- Each half of a round of `_ignore_value` (src/macp_sdk/multi_round.py) leaves less text, or no more.
use macp_sdk_python.Json.{expect, string}
use macp_sdk_python.Json.Fuel.{string-shrinks}
use macp_sdk_python.Json.Skips.{
  expect-shrinks, length-tail, length-ws, literal_word-shrinks, number-shrinks, skip_key-shrinks,
}
use macp_sdk_python.Json.Values.{
  Turn, begin, close, ended, literal_word, next_member, number, open_container, opened, skip_key,
  starts, tail, ws,
}
use macp_sdk_python.Prelude.{
  Bool, Bool-cases, List, Option, [], ap, arith, eqb, false, if◌then◌else◌, inl, inr, leb, length,
  refl, some, suc, sym, true, ℕ, ◌&&◌, ◌<◌, ◌||◌, ◌∷◌, ◌≡◌, ◌≤◌,
}
use macp_sdk_python.Prelude.Options.{>>=-some, ◌>>=◌}
use macp_sdk_python.Text.{Text, behind}

abbrev pub turn_length : Turn → ℕ
turn_length (opened closers rest) = length rest
turn_length (ended closers rest) = length rest

turn_of : (t u : Turn) → some t ≡ some u → turn_length u ≡ turn_length t
turn_of t u h = ap turn_length (sym (unwrapped h))
  where
    unwrapped : some t ≡ some u → t ≡ u
    unwrapped k = cc k

-- A step that ends in one turn or the other.
stepped :
    (m : Option Text) (f : Text → Turn) (n : ℕ) (turn : Turn)
    → ((after : Text) → turn_length (f after) ≡ length after)
    → ((after : Text) → m ≡ some after → length after < n)
    → (m >>= λ after. some (f after)) ≡ some turn
    → turn_length turn < n
stepped m f n turn size shrinks h =
    let (after, e, k) = >>=-some m (λ after. some (f after)) turn h in
    omega (arith, turn_of (f after) turn k, size after, shrinks after e)

open_container-shrinks :
    (closer : ℕ) (closers : List ℕ) (rest : Text) (turn : Turn)
    → open_container closer closers rest ≡ some turn
    → turn_length turn < suc (length rest)
unfolding open_container
open_container-shrinks closer closers rest turn h = elim (Bool-cases (starts closer (ws rest))) [
  | inl y ↦ omega (
    arith,
    turn_of (ended closers (tail (ws rest))) turn (ground (arith, y, h)),
    length-tail (ws rest),
    length-ws rest,
  )
  | inr n ↦ elim (Bool-cases (eqb closer b'}')) [
    | inl y ↦
        stepped (skip_key (ws rest)) (opened (closer ∷ closers)) (suc (length rest)) turn
          (λ after. refl)
          (λ after e. omega (arith, skip_key-shrinks (ws rest) after e, length-ws rest))
          (ground (arith, n, y, h))
    | inr m ↦ omega (
      arith,
      turn_of (opened (closer ∷ closers) (ws rest)) turn (ground (arith, n, m, h)),
      length-ws rest,
    )
  ]
]

-- A choice by a test whose value is known.
chosen : {A : Type 0} (b : Bool) (x y z : A) → b ≡ true → (if b then x else y) ≡ z → x ≡ z
chosen true x y z e h = h
chosen false x y z e h = cc e

skipped : {A : Type 0} (b : Bool) (x y z : A) → b ≡ false → (if b then x else y) ≡ z → y ≡ z
skipped false x y z e h = h
skipped true x y z e h = cc e

pub begin-shrinks :
    (closers : List ℕ) (text : Text) (turn : Turn)
    → begin closers text ≡ some turn
    → turn_length turn < length text
unfolding begin
begin-shrinks closers [] turn h = cc h
begin-shrinks closers (c ∷ rest) turn h =
    let container = λ (closer : ℕ). open_container-shrinks closer closers rest turn in
    let quoted : (string false (c ∷ rest) >>= λ (_, after). some (ended closers after)) ≡ some turn
        → turn_length turn < suc (length rest) =
      λ k.
        let ((out, after), e, t) = >>=-some (string false (c ∷ rest)) _ turn k in
        omega (
          arith,
          turn_of (ended closers after) turn t,
          string-shrinks false (c ∷ rest) out after e,
        ) in
    let numeric =
      stepped (number (c ∷ rest)) (ended closers) (suc (length rest)) turn (λ after. refl)
        (number-shrinks (c ∷ rest)) in
    let word =
      stepped (literal_word (c ∷ rest)) (ended closers) (suc (length rest)) turn (λ after. refl)
        (literal_word-shrinks (c ∷ rest)) in
    elim (Bool-cases (eqb c b'[')) [
      | inl y ↦ container b']' (chosen _ _ _ _ y h)
      | inr n ↦ elim (Bool-cases (eqb c b'{')) [
        | inl y ↦ container b'}' (chosen _ _ _ _ y (skipped _ _ _ _ n h))
        | inr m ↦ elim (Bool-cases (eqb c b'"')) [
          | inl y ↦ quoted (chosen _ _ _ _ y (skipped _ _ _ _ m (skipped _ _ _ _ n h)))
          | inr k ↦ elim (Bool-cases (eqb c b'-' || (leb b'0' c && leb c b'9'))) [
            | inl y ↦
                numeric
                  (chosen _ _ _ _ y (skipped _ _ _ _ k (skipped _ _ _ _ m (skipped _ _ _ _ n h))))
            | inr l ↦
                word
                  (skipped _ _ _ _ l (skipped _ _ _ _ k (skipped _ _ _ _ m (skipped _ _ _ _ n h))))
          ]
        ]
      ]
    ]

next_member-shrinks :
    (closer : ℕ) (rest after : Text)
    → next_member closer rest ≡ some after
    → length after ≤ length rest
unfolding next_member
next_member-shrinks closer rest after h =
    let (behind, e, k) = >>=-some (expect b',' rest) _ after h in
    let comma = expect-shrinks b',' rest behind e in
    elim (Bool-cases (starts closer (ws behind))) [
      | inl y ↦ ground (arith, y, k)
      | inr n ↦ elim (Bool-cases (eqb closer b'}')) [
        | inl y ↦ omega (
          arith,
          skip_key-shrinks (ws behind) after (ground (arith, n, y, k)),
          length-ws behind,
          comma,
        )
        | inr m ↦
            let last : some (ws behind) ≡ some after = ground (arith, n, m, k) in
            ground (arith, last, length-ws behind, comma)
      ]
    ]

pub close-shrinks :
    (closers outer : List ℕ) (rest after : Text)
    → close closers rest ≡ some (outer, after)
    → length after ≤ length rest
unfolding close
close-shrinks [] outer rest after h = ground (arith, h)
close-shrinks (closer ∷ closers) outer rest after h = elim (Bool-cases (starts closer (ws rest))) [
  | inl y ↦ omega (
    arith,
    close-shrinks closers outer (tail (ws rest)) after (ground (arith, y, h)),
    length-tail (ws rest),
    length-ws rest,
  )
  | inr n ↦
      let (found, e, k) =
        >>=-some {B = List ℕ × Text} (next_member closer (ws rest))
          (λ t. some (closer ∷ closers, t)) (outer, after) (ground (arith, n, h)) in
      let same_text_behind : found ≡ after = cc k in
      omega (
        arith,
        next_member-shrinks closer (ws rest) found e,
        ap length same_text_behind,
        length-ws rest,
      )
]
