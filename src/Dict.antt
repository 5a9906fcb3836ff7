-- ===== src/Dict.antt =====
-- Go's `map[string]V`, as an association list behind its laws. The program ranges over its maps in
-- an order that Go leaves open: `keys` lists each key once, in the order of the representation.
pub mod Assoc
use Assoc.{
  lookup, without, domain, lookup-without, contains, contains-domain, Distinct, Distinct-domain,
}
use rune_admin.Prelude.{
  String, ◌≡◌, refl, Bool, Option, none, some, List, [], ◌∷◌, arith, ◌==◌, if◌then◌else◌, eq_iff,
}

pub record Dict {ℓ} (V : Type ℓ) : Type ℓ where
  pub entries : Assoc.Assoc V

-- make(map[string]V)
unfoldable pub empty {ℓ} : {V : Type ℓ} → Dict V
empty = record { entries = [] }

module _ {ℓ} {V : Type ℓ} (m : Dict V) where
  -- the keys that `range m` visits
  unfoldable pub keys : List String
  unfolding domain
  keys = domain m.entries

  -- v, ok := m[key]
  unfoldable pub get : String → Option V
  unfolding lookup
  get key = lookup key m.entries

  -- m[key] = v
  unfoldable pub put : String → V → Dict V
  unfolding without
  put key v = record { entries = (key, v) ∷ without key m.entries }

  -- delete(m, key)
  unfoldable pub remove : String → Dict V
  unfolding without
  remove key = record { entries = without key m.entries }

  pub Distinct-keys : Distinct keys
  unfolding keys
  Distinct-keys = Distinct-domain m.entries

  pub contains-keys : (key : String) → contains keys key ≡ Assoc.is_some (get key)
  unfolding keys get
  contains-keys key = contains-domain m.entries key

module _ {ℓ} {V : Type ℓ} (m : Dict V) (key other : String) where
  pub get-put : (v : V) → get (put m key v) other ≡ (if key == other then some v else get m other)
  unfolding get put lookup
  get-put v = ground (arith, lookup-without key other m.entries)

  pub get-remove : get (remove m key) other ≡ (if key == other then none else get m other)
  unfolding get remove
  get-remove = lookup-without key other m.entries

pub get-empty {ℓ} : {V : Type ℓ} (key : String) → get (empty {V = V}) key ≡ none
unfolding empty get lookup
get-empty _ = refl
