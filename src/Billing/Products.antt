-- ===== src/Billing/Products.antt =====
-- The products that can be bought, internal/billing/products.go.
use shopify_gmc.Base.{
  ℕ, ◌≡◌, ◌⊎◌, inl, inr, refl, sym, ◌∙◌, String, Bool, true, false, some, List, [], ◌∷◌, ◌==◌,
  string_eq, ==_iff, if◌then◌else◌, default, ◌&&◌, not, Option-cases, Bool-cases, All,
}
use mathlib.Core.Path.{subst}
use shopify_gmc.Base.Table.{Table, lookup, insert, lookup-insert}
use shopify_gmc.Base.Text.{append_text}

pub data ProductKind : Type 0 where
  starter growth agency rescue unknown : ProductKind

pub record Product : Type 0 where
  pub kind : ProductKind
  pub gumroad_id : String
  pub title : String
  pub plan_tier : String
  pub is_recurring : Bool
  pub price_cents : ℕ
  pub overlay_url : String

pub record Catalog : Type 0 where
  pub by_kind : List (ProductKind × Product)
  pub by_gumroad_id : Table String Product

abbrev product : ProductKind → String → String → Bool → ℕ → Product
product kind title tier recurring price = record {
  kind = kind;
  gumroad_id = "";
  title = title;
  plan_tier = tier;
  is_recurring = recurring;
  price_cents = price;
  overlay_url = "";
}

abbrev defaults : List Product
defaults =
    product starter "Starter" "pro" true 1200
    ∷ product growth "Growth" "growth" true 3900
    ∷ product agency "Agency" "agency" true 19900
    ∷ product rescue "Rescue Audit" "" false 2900
    ∷ []

abbrev pub env_key : ProductKind → String
env_key starter = "GUMROAD_PRODUCT_STARTER"
env_key growth = "GUMROAD_PRODUCT_GROWTH"
env_key agency = "GUMROAD_PRODUCT_AGENCY"
env_key rescue = "GUMROAD_PRODUCT_RESCUE"
env_key unknown = ""

-- `env` gives the trimmed value of an environment variable.
configured : (String → String) → Product → Product
configured env p =
    let id = env (env_key p.kind) in
    let url = env (append_text (env_key p.kind) "_URL") in
    record p {
      gumroad_id = id;
      overlay_url =
          if (url == "") && not (id == "") then append_text "https://gumroad.com/l/" id else url;
    }

-- One round of the loop over the defaults.
load_one : (String → String) → Product → Catalog → Catalog
load_one env d c =
    let p = configured env d in
    record {
      by_kind = (p.kind, p) ∷ c.by_kind;
      by_gumroad_id =
          if p.gumroad_id == "" then c.by_gumroad_id else insert p.gumroad_id p c.by_gumroad_id;
    }

load_from : (String → String) → List Product → Catalog → Catalog
unfolding load_one configured
load_from env [] c = c
load_from env (d ∷ ds) c = load_from env ds (load_one env d c)

pub load_catalog : (String → String) → Catalog
unfolding load_from
load_catalog env = load_from env defaults (record { by_kind = []; by_gumroad_id = [] })

abbrev pub unknown_product : String → Product
unknown_product id = record {
  kind = unknown;
  gumroad_id = id;
  title = "";
  plan_tier = "";
  is_recurring = false;
  price_cents = 0;
  overlay_url = "";
}

unfoldable pub lookup_by_gumroad_id : Catalog → String → Product
lookup_by_gumroad_id c id = default (lookup id c.by_gumroad_id) (unknown_product id)

-- The plan of each kind.
abbrev pub tier_of : ProductKind → String
tier_of starter = "pro"
tier_of growth = "growth"
tier_of agency = "agency"
tier_of rescue = ""
tier_of unknown = ""

abbrev pub recurs : ProductKind → Bool
recurs starter = true
recurs growth = true
recurs agency = true
recurs rescue = false
recurs unknown = false

-- A product has the plan of its kind, and recurs if it has one.
pub record IsProduct (id : String) (p : Product) : Type 0 where
  pub its_id : p.gumroad_id ≡ id
  pub its_tier : p.plan_tier ≡ tier_of p.kind
  pub its_recurrence : p.is_recurring ≡ recurs p.kind

abbrev Holds : (String → String) → Catalog → Type 0
Holds env c =
    (id : String) (p : Product)
    → lookup id c.by_gumroad_id ≡ some p
    → IsProduct id p × (env (env_key p.kind) ≡ id)

some_inj : {p q : Product} → some p ≡ some q → p ≡ q
some_inj e = cc

abbrev IsDefault : Product → Type 0
IsDefault d = (d.plan_tier ≡ tier_of d.kind) × (d.is_recurring ≡ recurs d.kind)

configured-IsProduct :
    (env : String → String) (d : Product)
    → IsDefault d
    → IsProduct (env (env_key d.kind)) (configured env d)
unfolding configured
configured-IsProduct env d h = record { its_id = refl; its_tier = h.0; its_recurrence = h.1 }

module _ (env : String → String) (d : Product) (c : Catalog) where
  load_one-unset :
      ((configured env d).gumroad_id == "") ≡ true
      → (load_one env d c).by_gumroad_id ≡ c.by_gumroad_id
  unfolding load_one
  load_one-unset e = rw e refl

  load_one-set :
      ((configured env d).gumroad_id == "") ≡ false
      → (load_one env d c).by_gumroad_id
        ≡ insert (configured env d).gumroad_id (configured env d) c.by_gumroad_id
  unfolding load_one
  load_one-set e = rw e refl

  configured-is :
      IsDefault d
      → IsProduct (configured env d).gumroad_id (configured env d)
        × (env (env_key (configured env d).kind) ≡ (configured env d).gumroad_id)
  unfolding configured
  configured-is f = (configured-IsProduct env d f, refl)

  load_one-Holds : IsDefault d → Holds env c → Holds env (load_one env d c)
  load_one-Holds f h id p e = elim (Bool-cases ((configured env d).gumroad_id == "")) [
    | inl unset ↦ h id p (rw (load_one-unset unset) at e)
    | inr set ↦ go set (Bool-cases ((configured env d).gumroad_id == id))
  ]
    where
      found_in :
          ((configured env d).gumroad_id == "") ≡ false
          → (if (configured env d).gumroad_id == id
              then some (configured env d)
              else lookup id c.by_gumroad_id)
            ≡ some p
      found_in set =
          sym (lookup-insert (configured env d).gumroad_id id (configured env d) c.by_gumroad_id)
          ∙ rw (load_one-set set) at e

      go :
          ((configured env d).gumroad_id == "") ≡ false
          → (((configured env d).gumroad_id == id) ≡ true)
            ⊎ (((configured env d).gumroad_id == id) ≡ false)
          → IsProduct id p × (env (env_key p.kind) ≡ id)
      go set (inl same) =
          let is = (==_iff (configured env d).gumroad_id id).0 same in
          let eq : configured env d ≡ p = some_inj (rw same at found_in set) in
          subst (λ q. IsProduct id q × (env (env_key q.kind) ≡ id)) eq
            (subst
              (λ i. IsProduct i (configured env d) × (env (env_key (configured env d).kind) ≡ i)) is
              (configured-is f))
      go set (inr other) = h id p (rw other at found_in set)

load_from-Holds :
    (env : String → String) (ds : List Product) (c : Catalog)
    → All IsDefault ds
    → Holds env c
    → Holds env (load_from env ds c)
unfolding load_from
load_from-Holds env [] c f h = h
load_from-Holds env (d ∷ ds) c f h =
    load_from-Holds env ds (load_one env d c) f.1 (load_one-Holds env d c f.0 h)

abbrev no_products : Catalog
no_products = record { by_kind = []; by_gumroad_id = [] }

load_catalog-Holds : (env : String → String) → Holds env (load_catalog env)
unfolding load_catalog
load_catalog-Holds env =
    load_from-Holds env defaults no_products
      ((refl, refl), ((refl, refl), ((refl, refl), ((refl, refl), tt))))
      (λ id p e. absurd (lookup_none id e))
  where
    lookup_none : (id : String) {p : Product} → lookup id [] ≡ some p → ⊥
    lookup_none id e = unfold lookup in cc

-- What is found under an identifier is a product with the plan and the recurrence of its kind, and
-- with the identifier itself: either one that the environment configures with that identifier, or
-- the unknown product, which has no plan and does not recur.
pub lookup_by_gumroad_id_lem :
    (env : String → String) (id : String)
    → let p = lookup_by_gumroad_id (load_catalog env) id in
      IsProduct id p × ((p.kind ≡ unknown) ⊎ (env (env_key p.kind) ≡ id))
unfolding lookup_by_gumroad_id
lookup_by_gumroad_id_lem env id = elim (Option-cases (lookup id (load_catalog env).by_gumroad_id)) [
  | inl missing ↦
      rw missing (record { its_id = refl; its_tier = refl; its_recurrence = refl }, inl refl)
  | inr (p, found) ↦ let held = load_catalog-Holds env id p found in rw found (held.0, inr held.1)
]
