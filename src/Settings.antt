-- ===== src/Settings.antt =====
-- The platform settings, internal/settings: service.go, cipher.go, memdb.go and registry.go. A value
-- is a list of bytes. AES-GCM, the environment and the auditor are parameters; the clock does not
-- move within a call. `Get` is two steps, since it loads without the mutex: the look into the cache
-- with the load, and the write to the cache; `get` is both with no other step between them.
pub mod Cipher
pub mod Storage
pub mod Cache
mod Tests
use shopify_gmc.Base.{
  ℕ, ◌+◌, ◌-◌, String, Bool, true, false, not, Option, none, some, List, [], ◌∷◌, ◌++◌, ◌==◌,
  nat_eq, string_eq, if◌then◌else◌, ltb, length, take, default, ◌⊎◌, inl, inr, map, ◌||◌,
}
use shopify_gmc.Base.Table.{Table, lookup, insert, remove}
use shopify_gmc.Settings.Cipher.{Aead, encrypt, decrypt}
use shopify_gmc.Settings.Storage.{Backend, Fetched, found, missing, broken}

pub record Definition : Type 0 where
  pub key : String
  pub env_var : String
  pub secret : Bool
  pub description : String

abbrev define : String → String → Bool → String → Definition
define key env_var secret description = record {
  key = key;
  env_var = env_var;
  secret = secret;
  description = description;
}

pub default_registry : List Definition
default_registry =
    define "ai_base_url" "AI_BASE_URL" false "Base URL for the AI provider"
    ∷ define "ai_api_key" "AI_API_KEY" true "API key for the AI provider"
    ∷ define "ai_model" "AI_MODEL" false "Default AI model identifier"
    ∷ define "ai_model_summary" "AI_MODEL_SUMMARY" false "Model used for short summaries"
    ∷ define "ai_max_calls_per_audit" "AI_MAX_CALLS_PER_AUDIT" false
        "Maximum AI calls allowed per audit"
    ∷ []

pub registry_of : List Definition → Table String Definition → Table String Definition
registry_of [] m = m
registry_of (d ∷ ds) m = registry_of ds (insert d.key d m)

pub data SettingsError : Type 0 where
  not_registered unset invalid_ciphertext backend_failed audit_failed : SettingsError

pub data Source : Type 0 where
  from_db from_env not_set : Source

pub record CacheEntry : Type 0 where
  pub value : List ℕ
  pub stored_at : ℕ

-- What does not change: the registry, the cipher, the environment, the auditor (does it accept a
-- change) and the time to live.
pub record Config : Type 0 where
  pub registry : Table String Definition
  pub aead : Aead
  pub env : String → List ℕ
  pub auditor : Option (String → List ℕ → Bool)
  pub cache_ttl : ℕ

-- The state: the backend's, the cache, and what was told to the auditor.
pub record State (S : Type 0) : Type 0 where
  pub backend : S
  pub cache : Table String CacheEntry
  pub audited : List (String × List ℕ)

abbrev pub is_empty : List ℕ → Bool
is_empty [] = true
is_empty (b ∷ bs) = false

abbrev mask : List ℕ
mask = 226 ∷ 128 ∷ 162 ∷ 226 ∷ 128 ∷ 162 ∷ 226 ∷ 128 ∷ 162 ∷ []

abbrev unset_display : List ℕ
unset_display = b'(' ∷ b'u' ∷ b'n' ∷ b's' ∷ b'e' ∷ b't' ∷ b')' ∷ []

-- A value that is shown is at most 80 bytes long.
unfoldable pub preview_display : Definition → List ℕ → Bool → List ℕ
preview_display def value set =
    if not set || is_empty value
    then unset_display
    else if def.secret
    then mask
    else if ltb 80 (length value)
    then take 77 value ++ b'.' ∷ b'.' ∷ b'.' ∷ []
    else value

abbrev from_environment : (String → List ℕ) → Definition → SettingsError ⊎ (List ℕ × Source)
from_environment env def =
    if def.env_var == "" || is_empty (env def.env_var)
    then inl unset
    else inr (env def.env_var, from_env)

abbrev decrypted : Option (List ℕ) → SettingsError ⊎ (List ℕ × Source)
decrypted none = inl invalid_ciphertext
decrypted (some plain) = inr (plain, from_db)

abbrev pub value_of : SettingsError ⊎ (List ℕ × Source) → SettingsError ⊎ List ℕ
value_of (inl error) = inl error
value_of (inr (value, source)) = inr value

-- `Get` after its first step: it has its answer, or what it has loaded.
pub data Begun : Type 0 where
  answered loading : SettingsError ⊎ List ℕ → Begun

pub record Preview : Type 0 where
  pub key : String
  pub source : Source
  pub set : Bool
  pub secret : Bool
  pub description : String
  pub display : List ℕ

abbrev preview_of : Definition → SettingsError ⊎ (List ℕ × Source) → Preview
preview_of def (inl error) = record {
  key = def.key;
  source = not_set;
  set = false;
  secret = def.secret;
  description = def.description;
  display = unset_display;
}
preview_of def (inr (value, source)) = record {
  key = def.key;
  source = source;
  set = true;
  secret = def.secret;
  description = def.description;
  display = preview_display def value true;
}

module _ {S : Type 0} (b : Backend S) (c : Config) where
  abbrev load_from : Definition → Fetched → SettingsError ⊎ (List ℕ × Source)
  load_from def (found blob) = decrypted (decrypt c.aead blob)
  load_from def missing = from_environment c.env def
  load_from def broken = inl backend_failed

  unfoldable pub load : Definition → S → SettingsError ⊎ (List ℕ × Source)
  load def s = load_from def (b.get def.key s)

  -- The result of a load, kept in the cache where it is a value.
  abbrev pub keep :
      String → ℕ → SettingsError ⊎ List ℕ → State S → State S × (SettingsError ⊎ List ℕ)
  keep key now (inl error) st = (st, inl error)
  keep key now (inr value) st = (
    record st { cache = insert key (record { value = value; stored_at = now }) st.cache },
    inr value,
  )

  abbrev begin_load : Definition → State S → Begun
  begin_load def st = loading (value_of (load def st.backend))

  abbrev pub begin_cached : Option CacheEntry → Definition → ℕ → State S → Begun
  begin_cached none def now st = begin_load def st
  begin_cached (some e) def now st =
      if ltb now (e.stored_at + c.cache_ttl) then answered (inr e.value) else begin_load def st

  abbrev pub begin_defined : Option Definition → String → ℕ → State S → Begun
  begin_defined none key now st = answered (inl not_registered)
  begin_defined (some def) key now st = begin_cached (lookup key st.cache) def now st

  -- The first step of `Service.Get`.
  unfoldable pub begin_get : String → ℕ → State S → Begun
  begin_get key now st = begin_defined (lookup key c.registry) key now st

  -- The second one, in a state that other calls may have left since.
  abbrev pub finish_get : String → ℕ → Begun → State S → State S × (SettingsError ⊎ List ℕ)
  finish_get key now (answered r) st = (st, r)
  finish_get key now (loading r) st = keep key now r st

  -- `Service.Get`, undisturbed.
  unfoldable pub get : String → ℕ → State S → State S × (SettingsError ⊎ List ℕ)
  get key now st = finish_get key now (begin_get key now st) st

  -- The end of `Set`, after the write: the cache forgets the key, and the auditor is told.
  abbrev pub tell :
      Option (String → List ℕ → Bool) → String → List ℕ → State S → State S × Option SettingsError
  tell none key shown st = (st, none)
  tell (some accepts) key shown st = (
    record st { audited = (key, shown) ∷ st.audited },
    if accepts key shown then none else some audit_failed,
  )

  abbrev pub tell_auditor : Definition → String → List ℕ → State S → State S × Option SettingsError
  tell_auditor def key value st = tell c.auditor key (preview_display def value true) st

  abbrev pub written :
      Definition → String → List ℕ → Option S → State S → State S × Option SettingsError
  written def key value none st = (st, some backend_failed)
  written def key value (some s) st =
      tell_auditor def key value (record st { backend = s; cache = remove key st.cache })

  abbrev pub set_defined :
      Option Definition → List ℕ → String → List ℕ → State S → State S × Option SettingsError
  set_defined none nonce key value st = (st, some not_registered)
  set_defined (some def) nonce key value st =
      written def key value (b.set key (encrypt c.aead nonce value) st.backend) st

  -- `Service.Set`, with the nonce that is drawn.
  unfoldable pub set : List ℕ → String → List ℕ → State S → State S × Option SettingsError
  set nonce key value st = set_defined (lookup key c.registry) nonce key value st

  unfoldable pub invalidate_cache : State S → State S
  invalidate_cache st = record st { cache = [] }

  unfoldable pub preview_for : Definition → State S → Preview
  preview_for def st = preview_of def (load def st.backend)

  pub preview : String → State S → SettingsError ⊎ Preview
  preview key st = elim (lookup key c.registry) [
    | none ↦ inl not_registered
    | some def ↦ inr (preview_for def st)
  ]
