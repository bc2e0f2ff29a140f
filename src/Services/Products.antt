-- ===== src/Services/Products.antt =====
-- backend/app/services/product_service.py. `ProductUpdate` holds what the client set, None being unset.
use pack_verse.Base.{
  ℕ, String, Bool, false, ◌||◌, Option, none, some, List, [], ◌∷◌, ◌++◌, ok, err, min, max,
  if◌then◌else◌, ◌==◌, string_eq, take, drop, length,
}
use mathlib.Core.List.{reverse}
use pack_verse.Base.Table
use pack_verse.Base.Dict.{or_else}
use pack_verse.Base.Int.{ℤ, pos_part}
use pack_verse.Json.{Fields}
use pack_verse.Enums.{ProductStatus, ProductType}
use pack_verse.Errors.{domain, other, duplicate_slug, product_not_found}
use pack_verse.Effects.{Act, gets, or_raise, ◌>>=◌}
use pack_verse.Services.Row.{Product}
use pack_verse.Services.Store.{Store, fresh_id}

pub record ProductCreate : Type 0 where
  pub slug : String
  pub title : String
  pub description : Option String
  pub product_type : ProductType
  pub price_cents : ℤ
  pub currency : String
  pub metadata_json : Fields

-- a field that is not set, or is set, to None or to a value
abbrev pub Change : Type 0 → Type 0
Change A = Option (Option A)

pub record ProductUpdate : Type 0 where
  pub title : Change String
  pub description : Change String
  pub status : Change ProductStatus
  pub price_cents : Change ℤ
  pub currency : Change String
  pub metadata_json : Option Fields

-- what a column that may not be NULL is set to, None if to NULL
abbrev pub required : {A : Type 0} → A → Change A → Option A
required old none = some old
required old (some value) = value

-- what a column that may be NULL is set to
abbrev pub nullable : {A : Type 0} → Option A → Change A → Option A
nullable old none = old
nullable old (some value) = value

-- the row that the changes make, None if a column would be NULL that may not
abbrev pub changed_to :
    Product
    → ProductUpdate
    → Option String
    → Option ProductStatus
    → Option ℤ
    → Option String
    → Option Product
changed_to product update (some title) (some status) (some price_cents) (some currency) =
    some (record product {
      title = title;
      description = nullable product.description update.description;
      status = status;
      price_cents = price_cents;
      currency = currency;
      metadata_json = or_else update.metadata_json product.metadata_json;
    })
changed_to product update _ _ _ _ = none

abbrev pub changed : Product → ProductUpdate → Option Product
changed product update =
    changed_to product update (required product.title update.title)
      (required product.status update.status) (required product.price_cents update.price_cents)
      (required product.currency update.currency)

abbrev pub slug_taken : String → List Product → Bool
slug_taken slug [] = false
slug_taken slug (p ∷ products) = p.slug == slug || slug_taken slug products

abbrev pub new_product : ProductCreate → ℕ → Product
new_product data_in id = record {
  id = id;
  slug = data_in.slug;
  title = data_in.title;
  description = data_in.description;
  product_type = data_in.product_type;
  status = ProductStatus.draft;
  version = "v1.0";
  price_cents = data_in.price_cents;
  currency = data_in.currency;
  metadata_json = data_in.metadata_json;
}

module _ {O Vector : Type 0} where
  -- the INSERT, with the unique index on the slug
  abbrev pub insert_product : Product → Act (Store O Vector) Product
  insert_product product s =
      if slug_taken product.slug s.products
      then (err (domain (duplicate_slug product.slug)), s)
      else (ok product, record s { products = s.products ++ (product ∷ []) })

  unfoldable pub create_product : (ℕ → ℕ) → ProductCreate → Act (Store O Vector) Product
  create_product new_id data_in = do id ← fresh_id new_id; insert_product (new_product data_in id)

  unfoldable pub get_product : ℕ → Act (Store O Vector) Product
  get_product product_id = do
    found ← gets (λ s. Table.find (λ p. p.id) product_id s.products)
    or_raise found (domain (product_not_found product_id))

  unfoldable pub list_products : ℤ → ℤ → Store O Vector → List Product × ℕ
  list_products limit offset s = (
    take (min (max (pos_part limit) 1) 100) (drop (pos_part offset) (reverse s.products)),
    length s.products,
  )

  -- the UPDATE, with the columns' refusal of NULL
  abbrev pub write_product : Option Product → Act (Store O Vector) Product
  write_product none s = (err (other "IntegrityError"), s)
  write_product (some product) s =
      (ok product, record s { products = Table.save (λ p. p.id) product s.products })

  unfoldable pub update_product : ℕ → ProductUpdate → Act (Store O Vector) Product
  unfolding get_product
  update_product product_id update = do
    product ← get_product product_id
    write_product (changed product update)
