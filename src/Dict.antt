-- ===== src/Dict.antt =====
-- Python's `dict` with text keys: in insertion order, where a new value for a key that is there
-- keeps the key's place.
pub mod Keys
use mathlib.Core.Option.{Option}
use macp_sdk_python.Prelude.{
  Bool, List, Option-cases, String, [], arith, eq_iff, eq_refl, false, if◌then◌else◌, inl, inr,
  none, refl, some, true, ◌==◌, ◌∷◌, ◌≡◌,
}

abbrev pub Dict {ℓ} : Type ℓ → Type ℓ
Dict V = List (String × V)

module _ {ℓ} {V : Type ℓ} where
  -- `d.get(k)`
  unfoldable pub get : String → Dict V → Option V
  get k [] = none
  get k ((j, v) ∷ d) = if j == k then some v else get k d

  -- `d[k] = v`
  unfoldable pub set : String → V → Dict V → Dict V
  set k v [] = (k, v) ∷ []
  set k v ((j, w) ∷ d) = let rest = set k v d in if j == k then (j, v) ∷ d else (j, w) ∷ rest

  -- `k in d`
  abbrev pub has : String → Dict V → Bool
  has k d = elim (get k d) [ none ↦ false | some _ ↦ true ]

  abbrev pub keys : Dict V → List String
  keys [] = []
  keys ((k, v) ∷ d) = k ∷ keys d

  abbrev pub values : Dict V → List V
  values [] = []
  values ((k, v) ∷ d) = v ∷ values d

  -- Changes the object that `d` holds at `k`, if there is one.
  unfoldable pub modify : String → (V → V) → Dict V → Dict V
  modify k f [] = []
  modify k f ((j, w) ∷ d) =
      let rest = modify k f d in if j == k then (j, f w) ∷ d else (j, w) ∷ rest

  pub get-set :
      (k j : String) (v : V) (d : Dict V) → get j (set k v d) ≡ (if k == j then some v else get j d)
  unfolding get set
  get-set k j v [] = refl
  get-set k j v ((i, w) ∷ d) = ground (arith, eq_iff k j, eq_iff i k, eq_iff i j, get-set k j v d)

  pub get-modify :
      (k j : String) (f : V → V) (d : Dict V)
      → get j (modify k f d)
        ≡ (if k == j then elim (get j d) [ none ↦ none | some v ↦ some (f v) ] else get j d)
  unfolding get modify
  get-modify k j f [] = ground arith
  get-modify k j f ((i, w) ∷ d) =
      ground (arith, eq_iff k j, eq_iff i k, eq_iff i j, get-modify k j f d)

  pub set-set : (k : String) (v w : V) (d : Dict V) → set k v (set k w d) ≡ set k v d
  unfolding set
  set-set k v w [] = rw (eq_refl k)
  set-set k v w ((j, u) ∷ d) = ground (arith, eq_iff j k, set-set k v w d)

  pub has-some : (k : String) (d : Dict V) → has k d ≡ true → (v : V) × (get k d ≡ some v)
  has-some k d h = elim (Option-cases (get k d)) [ inl n ↦ cc (n, h) | inr found ↦ found ]
