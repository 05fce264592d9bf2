-- ===== src/CommitmentHash/Members.antt =====
-- src/macp_sdk/commitment_hash.py: the rendered members of an object determine the members.
use mathlib.Core.List.{append_assoc}
use macp_sdk_python.CommitmentHash.{
  CommitmentRef, join, json_bool, member, object, supersedes_member,
}
use macp_sdk_python.Json.{escape}
use macp_sdk_python.Json.RoundTrip.{escape-injective}
use macp_sdk_python.Prelude.{
  Bool, List, String, [], ap, false, refl, sym, true, ◌++◌, ◌∙◌, ◌∷◌, ◌≡◌,
}
use macp_sdk_python.Text.{Text, behind, codes, codes-injective, heads_apart}

str-injective :
    (s t : String) (r u : Text) → escape (codes s) ++ r ≡ escape (codes t) ++ u → (s ≡ t) × (r ≡ u)
str-injective s t r u h =
    let both = escape-injective (codes s) (codes t) r u h in (codes-injective s t both.0, both.1)

-- A member's key, and what follows its colon.
member-key :
    (k j : String) (v w r u : Text)
    → member k v ++ r ≡ member j w ++ u
    → (k ≡ j) × (v ++ r ≡ w ++ u)
member-key k j v w r u h =
    let split : escape (codes k) ++ (b':' ∷ v ++ r) ≡ escape (codes j) ++ (b':' ∷ w ++ u) =
      sym (append_assoc (escape (codes k)) (b':' ∷ v) r)
      ∙ h
      ∙ append_assoc (escape (codes j)) (b':' ∷ w) u in
    let both = str-injective k j (b':' ∷ v ++ r) (b':' ∷ w ++ u) split in (both.0, behind both.1)

-- Values whose rendered form is no beginning of another one.
module _ {V : Type 0} (render : V → Text)
    (inj : (v w : V) (r u : Text) → render v ++ r ≡ render w ++ u → (v ≡ w) × (r ≡ u)) where
  abbrev pub rendered : List (String × V) → List (String × Text)
  rendered [] = []
  rendered ((k, v) ∷ members) = (k, render v) ∷ rendered members

  member-injective :
      (k j : String) (v w : V) (r u : Text)
      → member k (render v) ++ r ≡ member j (render w) ++ u
      → (◌≡◌ {A = String × V} (k, v) (j, w)) × (r ≡ u)
  member-injective k j v w r u h =
      let key = member-key k j (render v) (render w) r u h in
      let value = inj v w r u key.1 in (cc (key.0, value.0), value.1)

  abbrev closed : List (String × V) → Text → Text
  closed members r = join (rendered members) ++ (b'}' ∷ r)

  closed-more :
      (k : String) (v : V) (m : String × V) (members : List (String × V)) (r : Text)
      → closed ((k, v) ∷ m ∷ members) r ≡ member k (render v) ++ (b',' ∷ closed (m ∷ members) r)
  unfolding join
  closed-more k v m members r =
      append_assoc (member k (render v)) (b',' ∷ join (rendered (m ∷ members))) (b'}' ∷ r)

  closed-injective :
      (ms ns : List (String × V)) (r u : Text) → closed ms r ≡ closed ns u → (ms ≡ ns) × (r ≡ u)
  unfolding join
  closed-injective [] [] r u h = (refl, behind h)
  closed-injective [] ((j, w) ∷ []) r u h = absurd (heads_apart h refl)
  closed-injective [] ((j, w) ∷ n ∷ ns) r u h = absurd (heads_apart h refl)
  closed-injective ((k, v) ∷ []) [] r u h = absurd (heads_apart h refl)
  closed-injective ((k, v) ∷ m ∷ ms) [] r u h = absurd (heads_apart h refl)
  closed-injective ((k, v) ∷ []) ((j, w) ∷ []) r u h =
      let one = member-injective k j v w (b'}' ∷ r) (b'}' ∷ u) h in
      (ap (λ m. m ∷ []) one.0, behind one.1)
  closed-injective ((k, v) ∷ []) ((j, w) ∷ n ∷ ns) r u h =
      let one =
        member-injective k j v w (b'}' ∷ r) (b',' ∷ closed (n ∷ ns) u)
          (h ∙ closed-more j w n ns u) in
      absurd (heads_apart one.1 refl)
  closed-injective ((k, v) ∷ m ∷ ms) ((j, w) ∷ []) r u h =
      let one =
        member-injective k j v w (b',' ∷ closed (m ∷ ms) r) (b'}' ∷ u)
          (sym (closed-more k v m ms r) ∙ h) in
      absurd (heads_apart one.1 refl)
  closed-injective ((k, v) ∷ m ∷ ms) ((j, w) ∷ n ∷ ns) r u h =
      let one =
        member-injective k j v w (b',' ∷ closed (m ∷ ms) r) (b',' ∷ closed (n ∷ ns) u)
          (sym (closed-more k v m ms r) ∙ h ∙ closed-more j w n ns u) in
      let rest = closed-injective (m ∷ ms) (n ∷ ns) r u (behind one.1) in
      (cc (one.0, rest.0), rest.1)

  object-closed :
      (ms : List (String × V)) (r : Text) → object (rendered ms) ++ r ≡ b'{' ∷ closed ms r
  unfolding object
  object-closed ms r = ap (λ t. b'{' ∷ t) (append_assoc (join (rendered ms)) (b'}' ∷ []) r)

  pub object-injective :
      (ms ns : List (String × V)) (r u : Text)
      → object (rendered ms) ++ r ≡ object (rendered ns) ++ u
      → (ms ≡ ns) × (r ≡ u)
  object-injective ms ns r u h =
      let inner : b'{' ∷ closed ms r ≡ b'{' ∷ closed ns u =
        sym (object-closed ms r) ∙ h ∙ object-closed ns u in
      closed-injective ms ns r u (behind inner)

-- The values that the projection renders: a text, a truth value, and a commitment reference.
pub data Value : Type 0 where
  str : String → Value
  truth : Bool → Value
  reference : CommitmentRef → Value

abbrev pub render_str : String → Text
render_str s = escape (codes s)

abbrev pub render_value : Value → Text
render_value (str s) = render_str s
render_value (truth b) = json_bool b
render_value (reference r) = supersedes_member r

truth-injective :
    (b c : Bool) (r u : Text) → json_bool b ++ r ≡ json_bool c ++ u → (b ≡ c) × (r ≡ u)
unfolding codes
truth-injective true true r u h = (refl, behind (behind (behind (behind h))))
truth-injective true false r u h = absurd (heads_apart h refl)
truth-injective false true r u h = absurd (heads_apart h refl)
truth-injective false false r u h = (refl, behind (behind (behind (behind (behind h)))))

reference-injective :
    (a b : CommitmentRef) (r u : Text)
    → supersedes_member a ++ r ≡ supersedes_member b ++ u
    → (a ≡ b) × (r ≡ u)
unfolding supersedes_member
reference-injective a b r u h =
    let both =
      object-injective render_str str-injective
        (("commitment_hash", a.commitment_hash) ∷ ("session_id", a.session_id) ∷ [])
        (("commitment_hash", b.commitment_hash) ∷ ("session_id", b.session_id) ∷ []) r u h in
    (cc both.0, both.1)

pub render_value-injective :
    (v w : Value) (r u : Text) → render_value v ++ r ≡ render_value w ++ u → (v ≡ w) × (r ≡ u)
unfolding codes supersedes_member object
render_value-injective (str s) (str t) r u h =
    let both = str-injective s t r u h in (cc both.0, both.1)
render_value-injective (truth b) (truth c) r u h =
    let both = truth-injective b c r u h in (cc both.0, both.1)
render_value-injective (reference a) (reference b) r u h =
    let both = reference-injective a b r u h in (cc both.0, both.1)
render_value-injective (str s) (truth true) r u h = absurd (heads_apart h refl)
render_value-injective (str s) (truth false) r u h = absurd (heads_apart h refl)
render_value-injective (str s) (reference b) r u h = absurd (heads_apart h refl)
render_value-injective (truth true) (str t) r u h = absurd (heads_apart h refl)
render_value-injective (truth false) (str t) r u h = absurd (heads_apart h refl)
render_value-injective (truth true) (reference b) r u h = absurd (heads_apart h refl)
render_value-injective (truth false) (reference b) r u h = absurd (heads_apart h refl)
render_value-injective (reference a) (str t) r u h = absurd (heads_apart h refl)
render_value-injective (reference a) (truth true) r u h = absurd (heads_apart h refl)
render_value-injective (reference a) (truth false) r u h = absurd (heads_apart h refl)
