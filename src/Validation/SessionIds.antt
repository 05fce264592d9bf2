-- ===== src/Validation/SessionIds.antt =====
-- src/macp_sdk/validation.py: which texts `validate_session_id` accepts.
use Prim.Native.String.{◌++◌ as str_append}
use macp_sdk_python.Envelope.{StrMethods}
use macp_sdk_python.Prelude.{
  Bool, Bool-cases, List, String, [], all, ap, arith, eqb, false, if◌then◌else◌, inl, inr, length,
  not, refl, sym, true, ℕ, ◌&&◌, ◌++◌, ◌-◌, ◌||◌, ◌∙◌, ◌∷◌, ◌≡◌, ◌≤◌,
}
use macp_sdk_python.Prelude.Int.{ℤ}
use macp_sdk_python.Text.{codes, codes-append}
use macp_sdk_python.Validation.{passes, validate_session_id}
use macp_sdk_python.Validation.Patterns.{
  Test, at_end, base64url, in_range, is_hyphen, lower_hex, matches, matches_run, uuid_shape,
  uuid_v4v7, variant_nibble, version_nibble,
}

-- A text without the line feed at its end, if it has one.
abbrev pub chomp : List ℕ → List ℕ
chomp [] = []
chomp (c ∷ []) = if eqb c 10 then [] else c ∷ []
chomp (c ∷ d ∷ s) = c ∷ chomp (d ∷ s)

abbrev pub ends_in_line_feed : List ℕ → Bool
ends_in_line_feed [] = false
ends_in_line_feed (c ∷ []) = eqb c 10
ends_in_line_feed (c ∷ d ∷ s) = ends_in_line_feed (d ∷ s)

-- `test` accepts only what `property` holds of, and no line feed.
abbrev Fits : Test → Test → Type 0
Fits property test = (c : ℕ) → test c ≡ true → (property c ≡ true) × (eqb c 10 ≡ false)

abbrev AllFit : Test → List Test → Type 0
AllFit property [] = Unit
AllFit property (test ∷ tests) = Fits property test × AllFit property tests

chomp-cons : (c : ℕ) (s : List ℕ) → eqb c 10 ≡ false → chomp (c ∷ s) ≡ c ∷ chomp s
chomp-cons c [] h = rw h refl
chomp-cons c (d ∷ s) h = refl

chomp-at_end : (s : List ℕ) → at_end s ≡ true → chomp s ≡ []
chomp-at_end [] h = refl
chomp-at_end (c ∷ []) h = rw h refl
chomp-at_end (c ∷ d ∷ s) h = ground arith

matches-all :
    (property : Test) (tests : List Test) (s : List ℕ)
    → AllFit property tests
    → matches tests s ≡ true
    → (length (chomp s) ≡ length tests) × (all property (chomp s) ≡ true)
unfolding matches
matches-all property [] s f h = rw (chomp-at_end s h) (refl, refl)
matches-all property (test ∷ tests) [] f h = ground arith
matches-all property (test ∷ tests) (c ∷ s) (f, g) h =
    let here : test c ≡ true = ground arith in
    let rest = matches-all property tests s g (ground arith) in
    rw (chomp-cons c s (f c here).1) (ground (arith, rest, (f c here).0))

matches_run-all :
    (property test : Test) (lo hi : ℕ) (s : List ℕ)
    → Fits property test
    → matches_run test lo hi s ≡ true
    → (lo ≤ length (chomp s)) × (length (chomp s) ≤ hi) × (all property (chomp s) ≡ true)
unfolding matches_run
matches_run-all property test lo hi [] f h = ground arith
matches_run-all property test lo hi (c ∷ s) f h = elim (Bool-cases (eqb lo 0 && at_end (c ∷ s))) [
  | inl y ↦ rw (chomp-at_end (c ∷ s) (ground (arith, y))) (ground (arith, y))
  | inr n ↦
      let here : test c ≡ true = ground (arith, n, h) in
      let rest = matches_run-all property test (lo - 1) (hi - 1) s f (ground (arith, n, h)) in
      rw (chomp-cons c s (f c here).1) (ground (arith, rest, (f c here).0, n, h))
]

-- A character of base64url that is no upper-case letter.
abbrev pub lower_base64url : Test
lower_base64url c = base64url c && not (in_range b'A' b'Z' c)

base64url-Fits : Fits base64url base64url
base64url-Fits c h = ground arith

lower_hex-Fits : Fits lower_base64url lower_hex
lower_hex-Fits c h = ground arith

is_hyphen-Fits : Fits lower_base64url is_hyphen
is_hyphen-Fits c h = ground arith

version_nibble-Fits : Fits lower_base64url version_nibble
version_nibble-Fits c h = ground arith

variant_nibble-Fits : Fits lower_base64url variant_nibble
variant_nibble-Fits c h = ground arith

uuid_v4v7-AllFit : AllFit lower_base64url uuid_v4v7
uuid_v4v7-AllFit = search (lower_hex-Fits, is_hyphen-Fits, version_nibble-Fits, variant_nibble-Fits)

all_mono :
    (p q : Test) (s : List ℕ)
    → ((c : ℕ) → p c ≡ true → q c ≡ true)
    → all p s ≡ true
    → all q s ≡ true
all_mono p q [] h a = refl
all_mono p q (c ∷ s) h a = ground (arith, h c, all_mono p q s h)

-- An id that is accepted, less a line feed at its end, has 22 to 128 characters, all of the base64url
-- alphabet, and without upper-case letters if it has the shape of a UUID.
pub validate_session_id-Base64url :
    (py : StrMethods) (show : ℤ → String) (converts : ℤ → Bool) (sid : String)
    → passes (validate_session_id py show converts sid) ≡ true
    → (22 ≤ length (chomp (codes sid)))
      × (length (chomp (codes sid)) ≤ 128)
      × (all base64url (chomp (codes sid)) ≡ true)
      × ((not (matches uuid_shape (codes sid)) || all lower_base64url (chomp (codes sid))) ≡ true)
unfolding validate_session_id
validate_session_id-Base64url py show converts sid h =
    elim (Bool-cases (matches uuid_shape (codes sid))) [
      | inl y ↦
          let found =
            matches-all lower_base64url uuid_v4v7 (codes sid) uuid_v4v7-AllFit
              (ground (arith, h, y)) in
          (
            ground (arith, found.0),
            ground (arith, found.0),
            all_mono lower_base64url base64url (chomp (codes sid)) (λ c g. ground (arith, g))
                found.1,
            ground (arith, found.1),
          )
      | inr n ↦
          let found =
            matches_run-all base64url base64url 22 128 (codes sid) base64url-Fits
              (ground (arith, h, n)) in
          (found.0, found.1, found.2, ground (arith, n))
    ]

abbrev line_feed : List ℕ
line_feed = 10 ∷ []

ends-cons : (c : ℕ) (s : List ℕ) → ends_in_line_feed (c ∷ s) ≡ false → ends_in_line_feed s ≡ false
ends-cons c [] h = refl
ends-cons c (d ∷ s) h = h

at_end-line_feed : (s : List ℕ) → ends_in_line_feed s ≡ false → at_end (s ++ line_feed) ≡ at_end s
at_end-line_feed [] h = refl
at_end-line_feed (c ∷ []) h = sym h
at_end-line_feed (c ∷ d ∷ s) h = refl

-- No test accepts a line feed.
abbrev rejects : List Test → Bool
rejects [] = true
rejects (test ∷ tests) = not (test 10) && rejects tests

matches-line_feed :
    (tests : List Test) (s : List ℕ)
    → rejects tests ≡ true
    → ends_in_line_feed s ≡ false
    → matches tests (s ++ line_feed) ≡ matches tests s
unfolding matches
matches-line_feed [] s r h = at_end-line_feed s h
matches-line_feed (test ∷ tests) [] r h = ground (arith, r)
matches-line_feed (test ∷ tests) (c ∷ s) r h =
    ground (arith, matches-line_feed tests s (ground (arith, r)) (ends-cons c s h))

matches_run-line_feed :
    (test : Test) (lo hi : ℕ) (s : List ℕ)
    → test 10 ≡ false
    → ends_in_line_feed s ≡ false
    → matches_run test lo hi (s ++ line_feed) ≡ matches_run test lo hi s
unfolding matches_run
matches_run-line_feed test lo hi [] r h = ground (arith, r)
matches_run-line_feed test lo hi (c ∷ s) r h = ground (
  arith,
  at_end-line_feed (c ∷ s) h,
  matches_run-line_feed test (lo - 1) (hi - 1) s r (ends-cons c s h),
)

abbrev accepts : List ℕ → Bool
accepts s = if matches uuid_shape s then matches uuid_v4v7 s else matches_run base64url 22 128 s

validate_session_id-accepts :
    (py : StrMethods) (show : ℤ → String) (converts : ℤ → Bool) (sid : String)
    → passes (validate_session_id py show converts sid) ≡ accepts (codes sid)
unfolding validate_session_id
validate_session_id-accepts py show converts sid = ground arith

accepts-line_feed :
    (s : List ℕ) → ends_in_line_feed s ≡ false → accepts (s ++ line_feed) ≡ accepts s
accepts-line_feed s h =
    rw
      (
        matches-line_feed uuid_shape s refl h,
        matches-line_feed uuid_v4v7 s refl h,
        matches_run-line_feed base64url 22 128 s refl h,
      )
      refl

codes-line_feed : (sid : String) → codes (str_append sid "\n") ≡ codes sid ++ line_feed
unfolding codes
codes-line_feed sid = codes-append sid "\n"

-- A line feed at the end of an id that has none makes no difference to whether the id is accepted, so
-- an accepted id is accepted with a line feed behind it too.
pub validate_session_id-line_feed :
    (py : StrMethods) (show : ℤ → String) (converts : ℤ → Bool) (sid : String)
    → ends_in_line_feed (codes sid) ≡ false
    → passes (validate_session_id py show converts (str_append sid "\n"))
      ≡ passes (validate_session_id py show converts sid)
validate_session_id-line_feed py show converts sid h =
    validate_session_id-accepts py show converts (str_append sid "\n")
    ∙ ap accepts (codes-line_feed sid)
    ∙ accepts-line_feed (codes sid) h
    ∙ sym (validate_session_id-accepts py show converts sid)
