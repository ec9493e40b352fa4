-- ===== src/Products/Owners.antt =====
-- Who can change a product by src/modules/products/products.service.ts, and what stays.
use secondhand_api.Prelude.{
  String, true, false, some, ◌≡◌, refl, inl, inr, ◌==◌, arith, eq_iff, Bool-cases, Option-cases,
}
use secondhand_api.Schema.{Product, deleted, same_product_status}
use secondhand_api.World.{Backend, World, order_at, product_at}
use secondhand_api.Products.ProductsService
use secondhand_api.Products.ProductsService.{UpdateProductDto, half_given, update_data}

module _ ⦃b : Backend⦄ where
  -- Every product of somebody else is as it was, and so is every order.
  pub record KeepsOthers (user_id : String) (w w' : World) : Type 0 where
    pub products :
        (k : String) (p : Product)
        → product_at w k ≡ some p
        → (p.seller_id == user_id) ≡ false
        → product_at w' k ≡ some p
    pub orders : (k : String) → order_at w' k ≡ order_at w k

  kept : (user_id : String) (w : World) → KeepsOthers user_id w w
  kept user_id w = record { products = λ k p found _. found; orders = λ k. refl }

  -- A change of a product of the caller.
  changed :
      (user_id id : String) (p : Product) (f : Product → Product) (w : World)
      → product_at w id ≡ some p
      → (p.seller_id == user_id) ≡ true
      → ((q : Product) → (f q).id ≡ q.id)
      → KeepsOthers user_id w (record w { products = (b.product.update id f w.products).1 })
  changed user_id id p f w found own keeps = record {
    products = λ k q there other.
        ground (arith, b.product.find-update id k f w.products keeps, eq_iff id k, found, there);
    orders = λ k. refl;
  }

  update-KeepsOthers :
      (id user_id : String) (dto : UpdateProductDto) (w : World)
      → KeepsOthers user_id w (ProductsService.update id user_id dto w).1
  unfolding ProductsService.update
  update-KeepsOthers id user_id dto w = elim (Option-cases (product_at w id)) [
    | inl gone ↦ rw gone (kept user_id w)
    | inr (p, found) ↦ elim (Bool-cases (p.seller_id == user_id)) [
      | inr other ↦ rw (found, other) (kept user_id w)
      | inl own ↦ elim (Bool-cases (same_product_status p.status deleted)) [
        | inl ended ↦ rw (found, own, ended) (kept user_id w)
        | inr live ↦ elim (Bool-cases (half_given dto.latitude dto.longitude)) [
          | inl half ↦ rw (found, own, live, half) (kept user_id w)
          | inr fine ↦
              rw (found, own, live, fine)
                (changed user_id id p (update_data dto) w found own (λ q. refl))
        ]
      ]
    ]
  ]

  remove-KeepsOthers :
      (id user_id : String) (w : World)
      → KeepsOthers user_id w (ProductsService.remove id user_id w).1
  unfolding ProductsService.remove
  remove-KeepsOthers id user_id w = elim (Option-cases (product_at w id)) [
    | inl gone ↦ rw gone (kept user_id w)
    | inr (p, found) ↦ elim (Bool-cases (p.seller_id == user_id)) [
      | inr other ↦ rw (found, other) (kept user_id w)
      | inl own ↦ elim (Bool-cases (same_product_status p.status deleted)) [
        | inl ended ↦ rw (found, own, ended) (kept user_id w)
        | inr live ↦
            rw (found, own, live)
              (changed user_id id p (λ q. record q { status = deleted }) w found own (λ q. refl))
      ]
    ]
  ]

  -- Whatever the arguments and however they end, `update` and `remove` change products of the caller
  -- only, and no order.
  pub product_writes-KeepsOthers :
      (id user_id : String) (dto : UpdateProductDto) (w : World)
      → KeepsOthers user_id w (ProductsService.update id user_id dto w).1
        × KeepsOthers user_id w (ProductsService.remove id user_id w).1
  product_writes-KeepsOthers id user_id dto w =
      (update-KeepsOthers id user_id dto w, remove-KeepsOthers id user_id w)
