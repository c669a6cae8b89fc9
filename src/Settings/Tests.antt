-- ===== src/Settings/Tests.antt =====
-- The settings over the backend in memory, and their theorems there.
use shopify_gmc.Base.{
  ℕ, ◌≡◌, inr, refl, String, false, Option, none, some, List, [], ◌∷◌, string_eq, nat_eq, arith,
  ==_iff,
}
use shopify_gmc.Base.Table.{Table, lookup, insert, remove}
use shopify_gmc.Settings.{
  Definition, Config, State, begin_get, finish_get, get, set, load, preview_display,
}
use shopify_gmc.Settings.Cipher.{Aead, IsAead, encrypt}
use shopify_gmc.Settings.Storage.{mem_backend, mem_backend-IsBackend}
use shopify_gmc.Settings.Cache.{fresh, IsRegistered, get-set}

-- A cipher for the tests, with a nonce and a tag of one byte.
abbrev untag : List ℕ → Option (List ℕ)
untag [] = none
untag (tag ∷ plain) = some plain

abbrev toy : Aead
toy = record {
  nonce_size = 1;
  overhead = 1;
  seal_with = λ nonce plain. 7 ∷ plain;
  open_with = λ nonce sealed. untag sealed;
}

toy-IsAead : IsAead toy
toy-IsAead = record { opens = λ nonce plain. refl; grows = λ nonce plain. omega arith }

abbrev model_key : Definition
model_key = record { key = "ai_model"; env_var = "AI_MODEL"; secret = false; description = "" }

abbrev config : Config
config = record {
  registry = ("ai_model", model_key) ∷ [];
  aead = toy;
  env = λ name. [];
  auditor = none;
  cache_ttl = 300;
}

config-IsRegistered : IsRegistered mem_backend config
unfolding lookup
config-IsRegistered = record { its_key = λ key def known. ground (arith, ==_iff "ai_model" key) }

abbrev Stored : Type 0
Stored = Table String (List ℕ)

abbrev empty : State Stored
empty = record { backend = []; cache = []; audited = [] }

abbrev gpt : List ℕ
gpt = b'g' ∷ b'p' ∷ b't' ∷ []

known : lookup "ai_model" config.registry ≡ some model_key
unfolding lookup
known = refl

stored :
    mem_backend.set "ai_model" (encrypt toy (1 ∷ []) gpt) [] ≡ some (("ai_model", 1 ∷ 7 ∷ gpt) ∷ [])
unfolding mem_backend encrypt insert
stored = refl

get-set_example :
    (get mem_backend config "ai_model" 40
      (set mem_backend config (1 ∷ []) "ai_model" gpt empty).0).1
    ≡ inr gpt
get-set_example =
    get-set mem_backend config mem_backend-IsBackend config-IsRegistered []
      (("ai_model", 1 ∷ 7 ∷ gpt) ∷ []) empty model_key "ai_model" (1 ∷ []) gpt 40 fresh toy-IsAead
      refl known stored

-- A key that is not set in the backend comes from the environment.
from_environment_test :
    (get mem_backend (record config { env = λ name. gpt }) "ai_model" 40 empty).1 ≡ inr gpt
unfolding get begin_get lookup load mem_backend
from_environment_test = refl

-- A Set between the two steps of a Get: what the Get has loaded hides the new value.
stale :
    let env = record config { env = λ name. gpt } in
    let begun = begin_get mem_backend env "ai_model" 40 empty in
    let changed = (set mem_backend env (1 ∷ []) "ai_model" (b'x' ∷ []) empty).0 in
    (get mem_backend env "ai_model" 41 (finish_get mem_backend env "ai_model" 40 begun changed).0).1
    ≡ inr gpt
unfolding begin_get set get lookup load mem_backend encrypt insert remove preview_display
stale = refl
