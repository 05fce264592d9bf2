-- ===== src/Dict/Keys.antt =====
-- The keys of a dict are distinct, and `set` and `modify` keep them so.
use macp_sdk_python.Dict.{Dict, get, has, keys, set, values}
use macp_sdk_python.Prelude.{
  Bool, Bool-cases, String, [], ap, arith, contains, count_if, eq_iff, false, if◌then◌else◌, inl,
  inr, length, none, refl, suc, ◌+◌, ◌==◌, ◌||◌, ◌∷◌, ◌≡◌, ◌≤◌,
}

abbrev pub UniqueKeys {ℓ} : {V : Type ℓ} → Dict V → Type 0
UniqueKeys [] = Unit
UniqueKeys ((k, v) ∷ d) = (contains k (keys d) ≡ false) × UniqueKeys d

module _ {ℓ} {V : Type ℓ} where
  contains-keys-set :
      (j k : String) (v : V) (d : Dict V)
      → contains j (keys (set k v d)) ≡ (contains j (keys d) || k == j)
  unfolding set
  contains-keys-set j k v [] = ground arith
  contains-keys-set j k v ((i, w) ∷ d) =
      ground (arith, contains-keys-set j k v d, eq_iff i k, eq_iff k j, eq_iff i j)

  pub UniqueKeys-set : (k : String) (v : V) (d : Dict V) → UniqueKeys d → UniqueKeys (set k v d)
  unfolding set
  UniqueKeys-set k v [] u = (refl, tt)
  UniqueKeys-set k v ((j, w) ∷ d) u = elim (Bool-cases (j == k)) [
    | inl y ↦ rw y u
    | inr n ↦ rw n (
      (ground (arith, contains-keys-set j k v d, u.0, n, eq_iff k j, eq_iff j k)),
      UniqueKeys-set k v d u.1,
    )
  ]

  pub has-keys : (k : String) (d : Dict V) → has k d ≡ contains k (keys d)
  unfolding get
  has-keys k [] = refl
  has-keys k ((j, w) ∷ d) = ground (arith, has-keys k d)

  -- The number of values that pass a test grows by one when a new key is set.
  pub count_if-values-set :
      (test : V → Bool) (k : String) (v : V) (d : Dict V)
      → get k d ≡ none
      → count_if test (values (set k v d)) ≡ count_if test (values d) + (if test v then 1 else 0)
  unfolding get set
  count_if-values-set test k v [] h = ground arith
  count_if-values-set test k v ((j, w) ∷ d) h = ground (arith, count_if-values-set test k v d)

  pub length-values-keys : (d : Dict V) → length (values d) ≡ length (keys d)
  length-values-keys [] = refl
  length-values-keys ((k, v) ∷ d) = ap suc (length-values-keys d)

  pub length-keys-set :
      (k : String) (v : V) (d : Dict V)
      → get k d ≡ none
      → length (keys (set k v d)) ≡ length (keys d) + 1
  unfolding get set
  length-keys-set k v [] h = omega arith
  length-keys-set k v ((j, w) ∷ d) h = ground (arith, length-keys-set k v d)

  pub length-keys-set-bound :
      (k : String) (v : V) (d : Dict V) → length (keys (set k v d)) ≤ length (keys d) + 1
  unfolding set
  length-keys-set-bound k v [] = omega arith
  length-keys-set-bound k v ((j, w) ∷ d) = ground (arith, length-keys-set-bound k v d)
