-- ===== src/CommitmentHash/Frozen.antt =====
-- src/macp_sdk/commitment_hash.py: what the four `_check_*` functions keep out of a hash.
use macp_sdk_python.CommitmentHash.{
  CommitmentRef, Payload, VerifyOutcome, cannot_verify, canonical_projection, commitment_hash,
  frozen_field_names, frozen_ref_field_names, is_hashable, verdict, verify_commitment_hash, within,
}
use macp_sdk_python.Envelope.{Bytes}
use macp_sdk_python.Prelude.{
  Bool-cases, List, Option, Option-cases, String, [], all, arith, contains, eq_iff, eq_refl, inl,
  inr, is_empty, none, refl, some, subst, sym, true, ◌==◌, ◌↔◌, ◌∙◌, ◌∷◌, ◌≡◌, ◌≢◌,
}
use macp_sdk_python.Text.{Text}

-- A payload with no field outside the frozen sets, neither in the schemas that are installed nor on the
-- wire; of `supersedes`, only if it is set.
pub record IsFrozen (actual ref_actual : List String) (p : Payload) : Type 0 where
  no_extra_field :
      (name : String) → contains name actual ≡ true → contains name frozen_field_names ≡ true
  no_unknown_field : p.unknown ≡ []
  no_extra_ref_field :
      (ref : CommitmentRef) (name : String)
      → p.supersedes ≡ some ref
      → contains name ref_actual ≡ true
      → contains name frozen_ref_field_names ≡ true
  no_unknown_ref_field : (ref : CommitmentRef) → p.supersedes ≡ some ref → p.ref_unknown ≡ []

within_sound :
    (frozen field_names : List String) (name : String)
    → within frozen field_names ≡ true
    → contains name field_names ≡ true
    → contains name frozen ≡ true
within_sound frozen [] name h m = cc m
within_sound frozen (x ∷ field_names) name h m = elim (Bool-cases (x == name)) [
  | inl y ↦ subst (λ n. contains n frozen ≡ true) ((eq_iff x name).0 y) (ground (arith, h))
  | inr n ↦ within_sound frozen field_names name (ground (arith, h)) (ground (arith, m, n))
]

within_complete :
    (frozen field_names : List String)
    → ((name : String) → contains name field_names ≡ true → contains name frozen ≡ true)
    → within frozen field_names ≡ true
within_complete frozen [] all = refl
within_complete frozen (x ∷ field_names) all =
    let first : contains x frozen ≡ true = all x (ground (arith, eq_refl x)) in
    let rest : within frozen field_names ≡ true =
      within_complete frozen field_names (λ name m. all name (ground (arith, m))) in
    ground (arith, first, rest)

is_empty-nil : {A : Type 0} (l : List A) → is_empty l ≡ true → l ≡ []
is_empty-nil [] h = refl
is_empty-nil (x ∷ l) h = cc h

module _ (actual ref_actual : List String) (encode : Text → Bytes) (sha256_hex : Bytes → String)
    (parse : Bytes → Option Payload) where
  is_hashable-IsFrozen :
      (p : Payload)
      → is_hashable actual ref_actual encode sha256_hex parse p ≡ true
      → IsFrozen actual ref_actual p
  unfolding is_hashable
  is_hashable-IsFrozen p h = elim (Option-cases p.supersedes) [
    | inl n ↦ record {
      no_extra_field = λ name m. within_sound frozen_field_names actual name (ground (arith, h)) m;
      no_unknown_field = is_empty-nil p.unknown (ground (arith, h));
      no_extra_ref_field = λ ref name s m. cc (sym n ∙ s);
      no_unknown_ref_field = λ ref s. cc (sym n ∙ s);
    }
    | inr (r, e) ↦ record {
      no_extra_field = λ name m. within_sound frozen_field_names actual name (ground (arith, h)) m;
      no_unknown_field = is_empty-nil p.unknown (ground (arith, h));
      no_extra_ref_field = λ ref name s m.
          within_sound frozen_ref_field_names ref_actual name (ground (arith, h, e)) m;
      no_unknown_ref_field = λ ref s. is_empty-nil p.ref_unknown (ground (arith, h, e));
    }
  ]

  IsFrozen-is_hashable :
      (p : Payload)
      → IsFrozen actual ref_actual p
      → is_hashable actual ref_actual encode sha256_hex parse p ≡ true
  unfolding is_hashable
  IsFrozen-is_hashable p f =
      let fields : within frozen_field_names actual ≡ true =
        within_complete frozen_field_names actual f.no_extra_field in
      elim (Option-cases p.supersedes) [
        | inl n ↦ rw (fields, f.no_unknown_field, n) refl
        | inr (r, e) ↦
            let ref_fields : within frozen_ref_field_names ref_actual ≡ true =
              within_complete frozen_ref_field_names ref_actual
                (λ name m. f.no_extra_ref_field r name e m) in
            rw (fields, f.no_unknown_field, e, ref_fields, f.no_unknown_ref_field r e) refl
      ]

  abbrev verified : Bytes → String → VerifyOutcome
  verified = verify_commitment_hash actual ref_actual encode sha256_hex parse

  decided :
      (wire : Bytes) (claimed_hash : String) (parsed : Option Payload)
      → parse wire ≡ parsed
      → verified wire claimed_hash ≢ cannot_verify
      → (p : Payload) × (parse wire ≡ some p)
        × (is_hashable actual ref_actual encode sha256_hex parse p ≡ true)
  unfolding verify_commitment_hash verdict commitment_hash canonical_projection
  decided wire claimed_hash none e h = absurd (h (rw (e, verify_commitment_hash) refl))
  decided wire claimed_hash (some p) e h =
      elim (Bool-cases (is_hashable actual ref_actual encode sha256_hex parse p)) [
        | inl y ↦ (p, e, y)
        | inr n ↦
            absurd (h (rw (e, verify_commitment_hash) (rw (n, verdict, commitment_hash) refl)))
      ]

  hashable_decides :
      (wire : Bytes) (claimed_hash : String) (p : Payload)
      → parse wire ≡ some p
      → is_hashable actual ref_actual encode sha256_hex parse p ≡ true
      → verified wire claimed_hash ≢ cannot_verify
  unfolding verify_commitment_hash verdict commitment_hash canonical_projection
  hashable_decides wire claimed_hash p e y h = ground (arith, h, e, y)

-- `verify_commitment_hash` decides about a claim, "match" or "mismatch", exactly if the wire bytes parse
-- as a commitment with no field outside the frozen sets: a field that the installed schemas add or that
-- only the wire carries, in the commitment or in its `supersedes`, is never silently left out of the hash.
pub verify_commitment_hash-IsFrozen :
    (actual ref_actual : List String) (encode : Text → Bytes) (sha256_hex : Bytes → String)
    (parse : Bytes → Option Payload) (wire : Bytes) (claimed_hash : String)
    → (verify_commitment_hash actual ref_actual encode sha256_hex parse wire claimed_hash
        ≢ cannot_verify)
      ↔ ((p : Payload) × (parse wire ≡ some p) × IsFrozen actual ref_actual p)
verify_commitment_hash-IsFrozen actual ref_actual encode sha256_hex parse wire claimed_hash = (
  λ h.
      let (p, e, y) =
        decided actual ref_actual encode sha256_hex parse wire claimed_hash (parse wire) refl h in
      (p, e, is_hashable-IsFrozen actual ref_actual encode sha256_hex parse p y),
  λ (p, e, f).
      hashable_decides actual ref_actual encode sha256_hex parse wire claimed_hash p e
        (IsFrozen-is_hashable actual ref_actual encode sha256_hex parse p f),
)
