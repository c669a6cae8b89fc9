-- ===== src/Billing/Event.antt =====
-- The parsed webhook payload, internal/billing/event.go. `form` is `url.Values.Get`, "" for a field
-- that is missing. A time is a number of seconds.
use shopify_gmc.Base.{
  ℕ, String, Bool, Option, none, some, List, [], ◌∷◌, ◌==◌, string_eq, if◌then◌else◌, default, ◌&&◌,
  ◌||◌, not,
}
use shopify_gmc.Base.Int.{ℤ, pos}

pub record Event : Type 0 where
  pub type : String
  pub sale_id : String
  pub product_id : String
  pub license_key : String
  pub email : String
  pub price_cents : ℤ
  pub currency : String
  pub subscription_id : String
  -- `uuid.Nil` is 0.
  pub tenant_id : ℕ
  pub user_email : String
  pub is_subscription : Bool
  pub recurrence : String
  pub ends_at : Option ℕ
  pub refunded : Bool
  pub refunded_at : Option ℕ
  pub purchased_at : ℕ

-- The parsers that event.go calls: `time.Parse` at its two layouts, `strconv.ParseInt` as seconds,
-- `strconv.Atoi` and `uuid.Parse`, `none` where they fail.
pub record Parsers : Type 0 where
  pub rfc3339 : String → Option ℕ
  pub utc_layout : String → Option ℕ
  pub unix_seconds : String → Option ℕ
  pub atoi : String → Option ℤ
  pub uuid : String → Option ℕ

pub first_non_empty : List String → String
first_non_empty [] = ""
first_non_empty (v ∷ vs) = if v == "" then first_non_empty vs else v

abbrev or_else {ℓ} : {A : Type ℓ} → Option A → Option A → Option A
or_else none o = o
or_else (some a) o = some a

module _ (p : Parsers) (now : ℕ) where
  abbrev parse_one : String → Option ℕ
  parse_one v = or_else (p.rfc3339 v) (or_else (p.utc_layout v) (p.unix_seconds v))

  pub parse_time : List String → ℕ
  parse_time [] = now
  parse_time (v ∷ vs) =
      let rest = parse_time vs in if v == "" then rest else default (parse_one v) rest

  abbrev inferred_type : String → String → String
  inferred_type resource sale = if (resource == "") && not (sale == "") then "sale" else resource

  pub parse_form : (String → String) → Event
  unfolding first_non_empty parse_time
  parse_form form =
      let refunded = (form "refunded" == "true") || (form "refunded" == "1") in
      record {
        type = inferred_type (form "resource_name") (form "sale_id");
        sale_id = form "sale_id";
        product_id =
            first_non_empty (form "product_permalink" ∷ form "product_id" ∷ form "permalink" ∷ []);
        license_key = form "license_key";
        email = form "email";
        price_cents =
            if form "price_cents" == ""
            then pos 0
            else default (p.atoi (form "price_cents")) (pos 0);
        currency = form "currency";
        subscription_id = form "subscription_id";
        tenant_id =
            default
              (p.uuid (first_non_empty (form "tenant_id" ∷ form "url_params[tenant_id]" ∷ []))) 0;
        user_email =
            first_non_empty (form "user_email" ∷ form "url_params[user_email]" ∷ form "email" ∷ []);
        is_subscription = not (form "recurrence" == "");
        recurrence = form "recurrence";
        ends_at = if form "ends_at" == "" then none else some (parse_time (form "ends_at" ∷ []));
        refunded = refunded;
        refunded_at = if refunded then some (parse_time (form "refunded_at" ∷ [])) else none;
        purchased_at = parse_time (form "sale_timestamp" ∷ form "created_at" ∷ []);
      }
