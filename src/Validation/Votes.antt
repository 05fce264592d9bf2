-- ===== src/Validation/Votes.antt =====
-- src/macp_sdk/validation.py and projections.py: the votes that `validate_vote` lets pass, and how the
-- Decision projection counts them.
use macp_sdk_python.Decision.Tally.{is_abstain, is_positive_vote}
use macp_sdk_python.Envelope.{StrMethods}
use macp_sdk_python.Prelude.{
  Bool, Bool-cases, List, String, [], arith, contains, eq_iff, inl, inr, refl, true, ◌==◌, ◌∷◌, ◌≡◌,
  ◌⊎◌,
}
use macp_sdk_python.Prelude.Int.{ℤ}
use macp_sdk_python.Validation.{passed, validate_vote}

abbrev pub vote_words : List String
vote_words = "APPROVE" ∷ "REJECT" ∷ "ABSTAIN" ∷ []

word-cases :
    (w : String) → contains w vote_words ≡ true → (w ≡ "APPROVE") ⊎ (w ≡ "REJECT") ⊎ (w ≡ "ABSTAIN")
word-cases w h = ground (arith, eq_iff "APPROVE" w, eq_iff "REJECT" w, eq_iff "ABSTAIN" w)

positive_word :
    (w : String)
    → contains w vote_words ≡ true
    → contains w ("APPROVE" ∷ "APPROVED" ∷ "YES" ∷ "ACCEPT" ∷ "ACCEPTED" ∷ []) ≡ (w == "APPROVE")
positive_word w h = elim (word-cases w h) [
  | inl a ↦ rw a refl
  | inr (inl a) ↦ rw a refl
  | inr (inr a) ↦ rw a refl
]

validate_vote-word :
    (py : StrMethods) (show : ℤ → String) (converts : ℤ → Bool) (value vote : String)
    → validate_vote py show converts value ≡ passed vote
    → contains vote vote_words ≡ true
unfolding validate_vote
validate_vote-word py show converts value vote h =
    elim (Bool-cases (contains (py.upper value) vote_words)) [
      | inl y ↦ ground (arith, h, y)
      | inr n ↦ ground (arith, h, n)
    ]

-- Where `upper` and `strip` leave the three words of a vote alone, a vote that `validate_vote` returns
-- is one of them, passes again as it is, is counted as positive exactly if it is APPROVE, and as an
-- abstention exactly if it is ABSTAIN.
pub validate_vote-counted :
    (py : StrMethods) (show : ℤ → String) (converts : ℤ → Bool) (value vote : String)
    → ((word : String)
        → contains word vote_words ≡ true
        → (py.upper word ≡ word) × (py.strip word ≡ word))
    → validate_vote py show converts value ≡ passed vote
    → (contains vote vote_words ≡ true)
      × (validate_vote py show converts vote ≡ passed vote)
      × (is_positive_vote py vote ≡ (vote == "APPROVE"))
      × (is_abstain py vote ≡ (vote == "ABSTAIN"))
unfolding validate_vote is_positive_vote is_abstain
validate_vote-counted py show converts value vote fixed h =
    let member = validate_vote-word py show converts value vote h in
    let same = fixed vote member in
    (
      member,
      rw (same.0, member, validate_vote) refl,
      rw (same.1, same.0, is_positive_vote) (positive_word vote member),
      rw (same.0, is_abstain) refl,
    )
