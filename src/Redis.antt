-- ===== src/Redis.antt =====
-- What the code asks of Redis: commands on texts and on sets of texts, over an unknown state, and
-- what the code relies on. A key holds a text or a set, so the laws that mix both are for two keys.
pub mod Memory
pub mod Streams
pub mod Results
pub mod Codec
use fleet_llm_inference.Common.{
  ℕ, String, ◌≡◌, Bool, true, false, Option, none, some, List, ◌==◌, ◌&&◌, elem, Distinct,
  if◌then◌else◌, is_some,
}
use fleet_llm_inference.Common.Raises.{Result, ok}

pub record KeyStore : Type 1 where
  pub State : Type 0
  pub get : State → String → Option String
  pub set : State → String → String → State
  pub delete : State → String → State
  pub sadd : State → String → String → State
  pub srem : State → String → String → State
  pub smembers : State → String → List String

-- Whether a key holds a value: what DELETE counts.
abbrev pub holds : (K : KeyStore) → K.State → String → Bool
holds K s k = is_some (K.get s k)

pub record IsKeyStore (K : KeyStore) : Type 0 where
  pub get-set :
      (s : K.State) (k v j : String)
      → K.get (K.set s k v) j ≡ (if k == j then some v else K.get s j)
  pub get-delete :
      (s : K.State) (k j : String) → K.get (K.delete s k) j ≡ (if k == j then none else K.get s j)
  pub get-sadd :
      (s : K.State) (k x j : String) → (j == k) ≡ false → K.get (K.sadd s k x) j ≡ K.get s j
  pub get-srem :
      (s : K.State) (k x j : String) → (j == k) ≡ false → K.get (K.srem s k x) j ≡ K.get s j
  pub smembers-sadd :
      (s : K.State) (k x y : String)
      → elem y (K.smembers (K.sadd s k x) k) ≡ (if x == y then true else elem y (K.smembers s k))
  pub smembers-srem :
      (s : K.State) (k x y : String)
      → elem y (K.smembers (K.srem s k x) k) ≡ (if x == y then false else elem y (K.smembers s k))
  pub smembers-set :
      (s : K.State) (k v j : String)
      → (k == j) ≡ false
      → K.smembers (K.set s k v) j ≡ K.smembers s j
  pub smembers-delete :
      (s : K.State) (k j : String) → (k == j) ≡ false → K.smembers (K.delete s k) j ≡ K.smembers s j
  pub smembers-Distinct : (s : K.State) (k : String) → Distinct (K.smembers s k)

-- `json.dumps` of a value's dictionary and `json.loads`, which raises for a text that is none.
pub record Json (A : Type 0) : Type 0 where
  pub dumps : A → String
  pub loads : String → Result A

pub record IsJson {A : Type 0} (json : Json A) : Type 0 where
  pub loads-dumps : (a : A) → json.loads (json.dumps a) ≡ ok a
