-- ===== src/Products/Reopening.antt =====
-- What `update` of src/modules/products/products.service.ts lets a seller do to a product that is
-- reserved for a buyer.
use secondhand_api.World.{World}
use secondhand_api.Products.ProductsService
