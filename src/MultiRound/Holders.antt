-- ===== src/MultiRound/Holders.antt =====
-- Who holds a value in a multi-round session, and what one more contribution changes.
use macp_sdk_python.Dict
use macp_sdk_python.Contribute.Decision.{same_text}
use macp_sdk_python.Contribute.Legacy.{same_text_refl}
use macp_sdk_python.Dict.{Dict, get, get-set, set}
use macp_sdk_python.MultiRound.{MultiRound, add_value, differs}
use macp_sdk_python.MultiRound.Consensus.{common_value, holds, same_text_sound}
use macp_sdk_python.Prelude.{
  Bool, Bool-cases, List, Option-cases, String, [], all, ap, arith, contains, eq_iff, false, inl,
  inr, is_empty, not, refl, some, subst, sym, true, ◌==◌, ◌||◌, ◌∙◌, ◌∷◌, ◌≡◌,
}
use macp_sdk_python.Text.{Text}

some-injective : {A : Type 0} {a b : A} → some a ≡ some b → a ≡ b
some-injective h = cc h

pub common_value-all :
    (ps : List String) (d : Dict.Dict Text) (w : Text)
    → common_value ps d ≡ some w
    → all (holds w d) ps ≡ true
unfolding common_value holds
common_value-all [] d w h = refl
common_value-all (p ∷ ps) d w h = elim (Option-cases (Dict.get p d)) [
  | inl n ↦ ground (arith, n, h)
  | inr (x, y) ↦ elim (Bool-cases (all (holds x d) ps)) [
    | inl everyone ↦
        let equal : x ≡ w = some-injective (ground (arith, y, everyone, h)) in
        subst (λ t. all (holds t d) (p ∷ ps) ≡ true) equal
          (ground (arith, y, everyone, same_text_refl x))
    | inr n ↦ ground (arith, y, n, h)
  ]
]

pub all-contains :
    (test : String → Bool) (ps : List String) (name : String)
    → all test ps ≡ true
    → contains name ps ≡ true
    → test name ≡ true
all-contains test [] name h k = cc k
all-contains test (p ∷ ps) name h k = elim (Bool-cases (p == name)) [
  | inl y ↦ subst (λ n. test n ≡ true) ((eq_iff p name).0 y) (ground (arith, h))
  | inr n ↦ all-contains test ps name (ground (arith, h)) (ground (arith, k, n))
]

pub holds_unique :
    (v w : Text) (d : Dict.Dict Text) (name : String)
    → holds v d name ≡ true
    → holds w d name ≡ true
    → v ≡ w
unfolding holds
holds_unique v w d name h k = elim (Option-cases (Dict.get name d)) [
  | inl n ↦ ground (arith, n, h)
  | inr (x, y) ↦
      same_text_sound v x (ground (arith, y, h)) ∙ sym (same_text_sound w x (ground (arith, y, k)))
]

-- All whose names are in `ps` hold the value, if they are among those that have contributed it.
abbrev pub hold_if : Text → Dict.Dict Text → List String → List String → Bool
hold_if v d seen ps = all (λ n. not (contains n seen) || holds v d n) ps

pub common_value_of_all :
    (ps : List String) (d : Dict.Dict Text) (v : Text)
    → is_empty ps ≡ false
    → all (holds v d) ps ≡ true
    → common_value ps d ≡ some v
unfolding common_value holds
common_value_of_all [] d v n h = cc
common_value_of_all (p ∷ ps) d v n h = elim (Option-cases (Dict.get p d)) [
  | inl u ↦ ground (arith, u, h)
  | inr (w, y) ↦
      let equal : v ≡ w = same_text_sound v w (ground (arith, y, h)) in
      let rest : all (holds w d) ps ≡ true =
        subst (λ t. all (holds t d) ps ≡ true) equal (ground (arith, h)) in
      ground (arith, y, rest, ap (λ t. some t) equal)
]

holds-set :
    (v : Text) (d : Dict.Dict Text) (sender n : String)
    → holds v (Dict.set sender v d) n ≡ (sender == n || holds v d n)
unfolding holds
holds-set v d sender n = ground (arith, Dict.get-set sender n v d, same_text_refl v)

held_at :
    (v prior : Text) (d : Dict.Dict Text) (sender : String)
    → Dict.get sender d ≡ some prior
    → prior ≡ v
    → holds v d sender ≡ true
unfolding holds
held_at v prior d sender y equal =
    subst (λ t. holds t d sender ≡ true) equal (ground (arith, y, same_text_refl prior))

already :
    (v prior : Text) (d : Dict.Dict Text) (sender n : String)
    → Dict.get sender d ≡ some prior
    → same_text prior v ≡ true
    → holds v d n ≡ (sender == n || holds v d n)
already v prior d sender n y e = elim (Bool-cases (sender == n)) [
  | inr u ↦ rw u refl
  | inl z ↦
      let equal : prior ≡ v = same_text_sound prior v e in
      let held : holds v d n ≡ true =
        subst (λ m. holds v d m ≡ true) ((eq_iff sender n).0 z)
          (held_at v prior d sender y equal) in
      rw z held
]

pub holds-add_value :
    (v : Text) (s : MultiRound) (sender n : String)
    → holds v (add_value sender v s).contributions n ≡ (sender == n || holds v s.contributions n)
unfolding add_value differs holds
holds-add_value v s sender n = elim (Option-cases (Dict.get sender s.contributions)) [
  | inl u ↦ rw u (holds-set v s.contributions sender n)
  | inr (prior, y) ↦ elim (Bool-cases (same_text prior v)) [
    | inl e ↦ rw (y, e) (already v prior s.contributions sender n y e)
    | inr u ↦ rw (y, u) (holds-set v s.contributions sender n)
  ]
]

pub hold_if-add_value :
    (v : Text) (s : MultiRound) (sender : String) (seen ps : List String)
    → hold_if v s.contributions seen ps ≡ true
    → hold_if v (add_value sender v s).contributions (sender ∷ seen) ps ≡ true
hold_if-add_value v s sender seen [] h = refl
hold_if-add_value v s sender seen (p ∷ ps) h = ground (
  arith,
  holds-add_value v s sender p,
  hold_if-add_value v s sender seen ps (ground (arith, h)),
  h,
)

pub hold_if-stranger :
    (v : Text) (d : Dict.Dict Text) (sender : String) (seen ps : List String)
    → contains sender ps ≡ false
    → hold_if v d seen ps ≡ true
    → hold_if v d (sender ∷ seen) ps ≡ true
hold_if-stranger v d sender seen [] n h = refl
hold_if-stranger v d sender seen (p ∷ ps) n h = ground (
  arith,
  hold_if-stranger v d sender seen ps (ground (arith, n)) (ground (arith, h)),
  n,
  h,
  eq_iff p sender,
  eq_iff sender p,
)
