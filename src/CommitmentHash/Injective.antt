-- ===== src/CommitmentHash/Injective.antt =====
-- src/macp_sdk/commitment_hash.py: the canonical projection determines the commitment.
use macp_sdk_python.CommitmentHash.{
  CommitmentRef, Payload, canonical_projection, hashed, insert_member, members_of, object,
  sort_members,
}
use macp_sdk_python.CommitmentHash.Members.{
  Value, object-injective, reference, render_value, render_value-injective, rendered, str, truth,
}
use macp_sdk_python.Envelope.{Bytes, CommitmentPayload}
use macp_sdk_python.Prelude.{
  List, Option, Option-cases, String, [], ap, arith, inl, inr, none, refl, some, sym, ◌++◌, ◌∙◌,
  ◌∷◌, ◌≡◌,
}
use macp_sdk_python.Text.{Text}

-- The members of the projection, before they are rendered.
abbrev base : CommitmentPayload → List (String × Value)
base c =
    ("action", str c.action)
    ∷ ("authority_scope", str c.authority_scope)
    ∷ ("commitment_id", str c.commitment_id)
    ∷ ("configuration_version", str c.configuration_version)
    ∷ ("mode_version", str c.mode_version)
    ∷ ("outcome_positive", truth c.outcome_positive)
    ∷ ("policy_version", str c.policy_version)
    ∷ ("reason", str c.reason)
    ∷ []

abbrev all : Option CommitmentRef → CommitmentPayload → List (String × Value)
all none c = base c
all (some ref) c = base c ++ ("supersedes", reference ref) ∷ []

-- The members are in the order of their keys already, so sorting them changes nothing.
members_of-rendered :
    (p : Payload)
    → members_of p ≡ rendered render_value render_value-injective (all p.supersedes p.fields)
unfolding members_of sort_members insert_member
members_of-rendered p = elim (Option-cases p.supersedes) [
  | inl n ↦ rw (n, members_of) refl
  | inr (ref, s) ↦ rw (s, members_of) refl
]

base-injective : (c d : CommitmentPayload) → base c ≡ base d → c ≡ d
base-injective c d h = cc h

all-injective :
    (s t : Option CommitmentRef) (c d : CommitmentPayload) → all s c ≡ all t d → (s ≡ t) × (c ≡ d)
all-injective none none c d h = (refl, base-injective c d h)
all-injective none (some b) c d h = cc h
all-injective (some a) none c d h = cc h
all-injective (some a) (some b) c d h = (cc h, cc h)

pub object_members-injective :
    (p q : Payload)
    → object (members_of p) ≡ object (members_of q)
    → (p.supersedes ≡ q.supersedes) × (p.fields ≡ q.fields)
object_members-injective p q h =
    let ends : object (members_of p) ++ [] ≡ object (members_of q) ++ [] = ap (λ t. t ++ []) h in
    let same =
      object-injective render_value render_value-injective (all p.supersedes p.fields)
        (all q.supersedes q.fields) [] []
        (ap (λ m. object m ++ []) (sym (members_of-rendered p))
          ∙ ends
          ∙ ap (λ m. object m ++ []) (members_of-rendered q)) in
    all-injective p.supersedes q.supersedes p.fields q.fields same.0

module _ (actual ref_actual : List String) (encode : Text → Bytes) (sha256_hex : Bytes → String)
    (parse : Bytes → Option Payload) where
  abbrev pub projected_bytes : Payload → Bytes
  projected_bytes p = encode (object (members_of p))

  pub projected :
      (p : Payload) (x : Bytes)
      → canonical_projection actual ref_actual encode sha256_hex parse p ≡ hashed x
      → x ≡ projected_bytes p
  unfolding canonical_projection
  projected p x h = ground (arith, h)

-- Where `encode` gives different texts different bytes, two commitments with one canonical projection
-- have the same fields and the same reference to the commitment that they supersede.
pub canonical_projection-injective :
    (actual ref_actual : List String) (encode : Text → Bytes) (sha256_hex : Bytes → String)
    (parse : Bytes → Option Payload) (p q : Payload) (x : Bytes)
    → ((a b : Text) → encode a ≡ encode b → a ≡ b)
    → canonical_projection actual ref_actual encode sha256_hex parse p ≡ hashed x
    → canonical_projection actual ref_actual encode sha256_hex parse q ≡ hashed x
    → (p.supersedes ≡ q.supersedes) × (p.fields ≡ q.fields)
canonical_projection-injective actual ref_actual encode sha256_hex parse p q x inj hp hq =
    object_members-injective p q (
      inj (object (members_of p)) (object (members_of q)) (
        sym (projected actual ref_actual encode sha256_hex parse p x hp)
        ∙ projected actual ref_actual encode sha256_hex parse q x hq))
