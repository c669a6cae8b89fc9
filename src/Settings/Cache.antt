-- ===== src/Settings/Cache.antt =====
-- The cache of `Service` in internal/settings/service.go, in one process.
use shopify_gmc.Base.{
  ℕ, ◌+◌, ◌≡◌, ◌≢◌, ◌⊎◌, inl, inr, refl, sym, ap, ◌∙◌, String, Bool, true, false, Option, none,
  some, List, [], ◌∷◌, ◌++◌, All, ◌==◌, nat_eq, string_eq, ==_iff, ltb, length, arith, Bool-cases,
}
use shopify_gmc.Base.Table.{lookup, insert, remove, lookup-insert, lookup-remove}
use shopify_gmc.Settings.{
  Definition, SettingsError, not_registered, CacheEntry, Config, State, value_of, load, keep, Begun,
  answered, loading, begin_cached, begin_defined, begin_get, finish_get, get, tell, preview_display,
  written, set_defined, set, invalidate_cache,
}
use shopify_gmc.Settings.Cipher.{IsAead, encrypt, decrypt-encrypt}
use shopify_gmc.Settings.Storage.{Backend, IsBackend}

module _ {S : Type 0} (b : Backend S) (c : Config) where
  -- What `Get` is without a cache.
  abbrev pub uncached_of : Option Definition → S → SettingsError ⊎ List ℕ
  uncached_of none s = inl not_registered
  uncached_of (some def) s = value_of (load b c def s)

  abbrev pub uncached : String → S → SettingsError ⊎ List ℕ
  uncached key s = uncached_of (lookup key c.registry) s

  -- Every entry of the cache is what its key loads.
  pub record IsCoherent (st : State S) : Type 0 where
    pub fits :
        (key : String) (e : CacheEntry)
        → lookup key st.cache ≡ some e
        → uncached key st.backend ≡ inr e.value

  -- The loads that are to be written to the cache: the key, the time, and what was loaded.
  abbrev pub Flights : Type 0
  Flights = List (String × ℕ × (SettingsError ⊎ List ℕ))

  abbrev begun_flights : String → ℕ → Begun → Flights → Flights
  begun_flights key now (answered r) flights = flights
  begun_flights key now (loading r) flights = (key, now, r) ∷ flights

  -- A step of the service; the times and the nonce are any. Any `Get` may come to its end, and `Set`
  -- finds none between its two steps.
  pub data Step : State S → Flights → State S → Flights → Type 0 where
    begins :
        (key : String) (now : ℕ) (st : State S) (flights : Flights)
        → Step st flights st (begun_flights key now (begin_get b c key now st) flights)
    ends :
        (key : String) (now : ℕ) (r : SettingsError ⊎ List ℕ) (st : State S)
        (before later : Flights)
        → Step st
            (before ++ (key, now, r) ∷ later)
            (finish_get b c key now (loading r) st).0
            (before ++ later)
    sets :
        (nonce : List ℕ) (key : String) (value : List ℕ) (st : State S)
        → Step st [] (set b c nonce key value st).0 []
    invalidates :
        (st : State S) (flights : Flights) → Step st flights (invalidate_cache b c st) flights

  -- The states that the steps of any calls reach from an empty cache.
  pub data Reach (start : S) : State S → Flights → Type 0 where
    fresh : Reach start (record { backend = start; cache = []; audited = [] }) []
    after :
        {st later : State S} {flights left : Flights}
        → Reach start st flights
        → Step st flights later left
        → Reach start later left

  -- What a flight has loaded is what its key loads.
  abbrev Fits : S → String × ℕ × (SettingsError ⊎ List ℕ) → Type 0
  Fits s (key, now, r) = uncached key s ≡ r

  All-rest :
      (s : S) (before later : Flights) (f : String × ℕ × (SettingsError ⊎ List ℕ))
      → All (Fits s) (before ++ f ∷ later)
      → Fits s f × All (Fits s) (before ++ later)
  All-rest s [] later f h = h
  All-rest s (g ∷ before) later f h =
      let rest = All-rest s before later f h.1 in (rest.0, (h.0, rest.1))

  keep-IsCoherent :
      (key : String) (now : ℕ) (r : SettingsError ⊎ List ℕ) (st : State S)
      → uncached key st.backend ≡ r
      → IsCoherent st
      → IsCoherent (keep b c key now r st).0
  keep-IsCoherent key now (inl error) st loads is = is
  keep-IsCoherent key now (inr value) st loads is = record {
    fits = λ other e held. elim (Bool-cases (key == other)) [
      | inl same ↦ its other e same held
      | inr different ↦ is.fits other e (another other e different held)
    ];
  }
    where
      new : CacheEntry
      new = record { value = value; stored_at = now }

      its :
          (other : String) (e : CacheEntry)
          → (key == other) ≡ true
          → lookup other (insert key new st.cache) ≡ some e
          → uncached other st.backend ≡ inr e.value
      its other e same held =
          rw (← (==_iff key other).0 same)
            (loads ∙ ground (arith, lookup-insert key other new st.cache))

      another :
          (other : String) (e : CacheEntry)
          → (key == other) ≡ false
          → lookup other (insert key new st.cache) ≡ some e
          → lookup other st.cache ≡ some e
      another other e different held = ground (arith, lookup-insert key other new st.cache)

  keep-result :
      (key : String) (now : ℕ) (r : SettingsError ⊎ List ℕ) (st : State S)
      → (keep b c key now r st).1 ≡ r
  keep-result key now (inl error) st = refl
  keep-result key now (inr value) st = refl

  IsGot : String → State S → State S × (SettingsError ⊎ List ℕ) → Type 0
  IsGot key st r = IsCoherent r.0 × (r.1 ≡ uncached key st.backend)

  -- The first step answers with what is loaded, or has loaded it.
  IsBegun : String → S → Begun → Type 0
  IsBegun key s (answered r) = r ≡ uncached key s
  IsBegun key s (loading r) = uncached key s ≡ r

  begin_cached-IsBegun :
      (o : Option CacheEntry) (key : String) (now : ℕ) (def : Definition) (st : State S)
      → lookup key st.cache ≡ o
      → uncached key st.backend ≡ value_of (load b c def st.backend)
      → IsCoherent st
      → IsBegun key st.backend (begin_cached b c o def now st)
  begin_cached-IsBegun none key now def st cached loads is = unfold IsBegun in loads
  begin_cached-IsBegun (some e) key now def st cached loads is =
      elim (Bool-cases (ltb now (e.stored_at + c.cache_ttl))) [
        | inl young ↦ rw young (unfold IsBegun in sym (is.fits key e cached))
        | inr old ↦ rw old (unfold IsBegun in loads)
      ]

  begin_defined-IsBegun :
      (o : Option Definition) (key : String) (now : ℕ) (st : State S)
      → lookup key c.registry ≡ o
      → IsCoherent st
      → IsBegun key st.backend (begin_defined b c o key now st)
  begin_defined-IsBegun none key now st known is = unfold IsBegun in rw known refl
  begin_defined-IsBegun (some def) key now st known is =
      begin_cached-IsBegun (lookup key st.cache) key now def st refl (rw known refl) is

  begin_get-IsBegun :
      (key : String) (now : ℕ) (st : State S)
      → IsCoherent st
      → IsBegun key st.backend (begin_get b c key now st)
  unfolding begin_get
  begin_get-IsBegun key now st is = begin_defined-IsBegun (lookup key c.registry) key now st refl is

  finish_get-IsGot :
      (key : String) (now : ℕ) (g : Begun) (st : State S)
      → IsBegun key st.backend g
      → IsCoherent st
      → IsGot key st (finish_get b c key now g st)
  unfolding IsGot IsBegun
  finish_get-IsGot key now (answered r) st begun is = (is, begun)
  finish_get-IsGot key now (loading r) st begun is =
      (keep-IsCoherent key now r st begun is, keep-result key now r st ∙ sym begun)

  keep-backend :
      (key : String) (now : ℕ) (r : SettingsError ⊎ List ℕ) (st : State S)
      → (keep b c key now r st).0.backend ≡ st.backend
  keep-backend key now (inl error) st = refl
  keep-backend key now (inr value) st = refl

  begun-Fits :
      (key : String) (now : ℕ) (g : Begun) (s : S) (flights : Flights)
      → IsBegun key s g
      → All (Fits s) flights
      → All (Fits s) (begun_flights key now g flights)
  unfolding IsBegun
  begun-Fits key now (answered r) s flights begun h = h
  begun-Fits key now (loading r) s flights begun h = (begun, h)

  get-IsGot :
      (key : String) (now : ℕ) (st : State S) → IsCoherent st → IsGot key st (get b c key now st)
  unfolding get
  get-IsGot key now st is =
      finish_get-IsGot key now (begin_get b c key now st) st (begin_get-IsBegun key now st is) is

  -- A key is registered for itself.
  pub record IsRegistered : Type 0 where
    pub its_key :
        (key : String) (def : Definition) → lookup key c.registry ≡ some def → def.key ≡ key

  module _ (lawful : IsBackend b) (registered : IsRegistered) where
    uncached_other :
        (key other : String) (blob : List ℕ) (s t : S) (o : Option Definition)
        → lookup other c.registry ≡ o
        → b.set key blob s ≡ some t
        → key ≢ other
        → uncached_of o t ≡ uncached_of o s
    unfolding load
    uncached_other key other blob s t none known stored ne = refl
    uncached_other key other blob s t (some def) known stored ne =
        rw (registered.its_key other def known, lawful.get-set_other key other blob s t stored ne)
          refl

    written-IsCoherent :
        (def : Definition) (key : String) (value blob : List ℕ) (o : Option S) (st : State S)
        → b.set key blob st.backend ≡ o
        → IsCoherent st
        → IsCoherent (written b c def key value o st).0
    written-IsCoherent def key value blob none st stored is = is
    written-IsCoherent def key value blob (some t) st stored is =
        told c.auditor (preview_display def value true)
      where
        left : State S
        left = record st { backend = t; cache = remove key st.cache }

        fits_left :
            (other : String) (e : CacheEntry)
            → lookup other (remove key st.cache) ≡ some e
            → uncached other t ≡ inr e.value
        fits_left other e held = elim (Bool-cases (key == other)) [
          | inl same ↦ absurd (forgotten same)
          | inr different ↦
              uncached_other key other blob st.backend t (lookup other c.registry) refl stored
                (λ eq. not_same different eq)
              ∙ is.fits other e (as_before different)
        ]
          where
            forgotten : (key == other) ≡ true → ⊥
            forgotten same = ground (arith, lookup-remove key other st.cache)

            not_same : (key == other) ≡ false → key ≡ other → ⊥
            not_same different eq = ground (arith, ==_iff key other)

            as_before : (key == other) ≡ false → lookup other st.cache ≡ some e
            as_before different = ground (arith, lookup-remove key other st.cache)

        told :
            (o : Option (String → List ℕ → Bool)) (shown : List ℕ)
            → IsCoherent (tell b c o key shown left).0
        told none shown = record { fits = fits_left }
        told (some accepts) shown = record { fits = fits_left }

    set-IsCoherent :
        (nonce : List ℕ) (key : String) (value : List ℕ) (st : State S)
        → IsCoherent st
        → IsCoherent (set b c nonce key value st).0
    unfolding set
    set-IsCoherent nonce key value st is = defined (lookup key c.registry)
      where
        defined : (o : Option Definition) → IsCoherent (set_defined b c o nonce key value st).0
        defined none = is
        defined (some def) =
            written-IsCoherent def key value (encrypt c.aead nonce value)
              (b.set key (encrypt c.aead nonce value) st.backend) st refl is

    IsSound : State S → Flights → Type 0
    IsSound st flights = IsCoherent st × All (Fits st.backend) flights

    Step-IsSound :
        {st later : State S} {flights left : Flights}
        → Step st flights later left
        → IsSound st flights
        → IsSound later left
    unfolding IsSound
    Step-IsSound (begins key now st flights) is = (
      is.0,
      begun-Fits key now (begin_get b c key now st) st.backend flights
          (begin_get-IsBegun key now st is.0) is.1,
    )
    Step-IsSound (ends key now r st before later) is =
        let rest = All-rest st.backend before later (key, now, r) is.1 in
        (keep-IsCoherent key now r st rest.0 is.0, rw (keep-backend key now r st) rest.1)
    Step-IsSound (sets nonce key value st) is = (set-IsCoherent nonce key value st is.0, tt)
    Step-IsSound (invalidates st flights) is = (
      unfold invalidate_cache lookup in record { fits = λ key e held. absurd cc },
      unfold invalidate_cache in is.1,
    )

    Reach-IsSound :
        {start : S} {st : State S} {flights : Flights} → Reach start st flights → IsSound st flights
    unfolding IsSound
    Reach-IsSound fresh = (unfold lookup in record { fits = λ key e held. absurd cc }, tt)
    Reach-IsSound (after r step) = Step-IsSound step (Reach-IsSound r)

    pub get-uncached :
        (start : S) (st : State S) (flights : Flights) (key : String) (now : ℕ)
        → Reach start st flights
        → (get b c key now st).1 ≡ uncached key st.backend
    get-uncached start st flights key now r =
        unfold IsGot IsSound in (get-IsGot key now st (Reach-IsSound r).0).1

    written-backend :
        (def : Definition) (key : String) (value : List ℕ) (t : S) (st : State S)
        → (written b c def key value (some t) st).0.backend ≡ t
    written-backend def key value t st = told c.auditor (preview_display def value true)
      where
        told :
            (o : Option (String → List ℕ → Bool)) (shown : List ℕ)
            → (tell b c o key shown
                (record st { backend = t; cache = remove key st.cache })).0.backend
              ≡ t
        told none shown = refl
        told (some accepts) shown = refl

    -- After a `Set` of a registered key that the backend accepts, in a state that such calls reach and
    -- with no `Get` between its two steps, an undisturbed `Get` answers the value that was set, at any
    -- time and whatever the cache held before, by way of the cipher, with a nonce of its size.
    pub get-set :
        (start t : S) (st : State S) (def : Definition) (key : String) (nonce value : List ℕ)
        (now : ℕ)
        → Reach start st []
        → IsAead c.aead
        → length nonce ≡ c.aead.nonce_size
        → lookup key c.registry ≡ some def
        → b.set key (encrypt c.aead nonce value) st.backend ≡ some t
        → (get b c key now (set b c nonce key value st).0).1 ≡ inr value
    get-set start t st def key nonce value now r aead size known stored =
        get-uncached start (set b c nonce key value st).0 [] key now
          (after r (sets nonce key value st))
        ∙ ap (uncached key) left
        ∙ ap (λ o. uncached_of o t) known
        ∙ loads
      where
        left : (set b c nonce key value st).0.backend ≡ t
        left =
            unfold set in
            ap (λ o. (set_defined b c o nonce key value st).0.backend) known
            ∙ ap (λ o. (written b c def key value o st).0.backend) stored
            ∙ written-backend def key value t st

        loads : value_of (load b c def t) ≡ inr value
        loads =
            unfold load in
            rw
              (
                registered.its_key key def known,
                lawful.get-set key (encrypt c.aead nonce value) st.backend t stored,
                decrypt-encrypt c.aead nonce value aead size,
              )
              refl
