-- ===== src/Tests/ProductRuns.antt =====
-- The theorems on src/modules/products, applied to the market of the fixture.
use Prim.Native.Nat.{◌≤◌}
use secondhand_api.Prelude.{◌≡◌, refl, some, arith, length, any, Bool, true, ◌==◌}
use secondhand_api.Http.{ok}
use secondhand_api.Schema.{Product, paid}
use secondhand_api.World.{World, product_at}
use secondhand_api.Tests.Fixture.{example_backend, market, set_active, query}
use secondhand_api.Products.ProductsService
use secondhand_api.Products.ProductsService.{ProductPage, SearchProductDto}
use secondhand_api.Products.Owners.{KeepsOthers, product_writes-KeepsOthers}
use secondhand_api.Products.Matching.{IsMatch}
use secondhand_api.Products.Search.{is_newest_first, collect, search_complete, search-located_total}

product_writes-KeepsOthers_example :
    KeepsOthers "a" (market paid) (ProductsService.update "p1" "a" set_active (market paid)).1
    × KeepsOthers "a" (market paid) (ProductsService.remove "p1" "a" (market paid)).1
product_writes-KeepsOthers_example = product_writes-KeepsOthers "p1" "a" set_active (market paid)

search_complete_example :
    (r : ProductPage) × (ProductsService.search query (market paid) ≡ (ok r, market paid))
    × (r.total ≡ length (collect query (market paid) r.total_pages))
    × (is_newest_first (collect query (market paid) r.total_pages) ≡ true)
    × ((p : Product)
        → product_at (market paid) p.id ≡ some p
        → IsMatch query p
        → any (λ x. x.id == p.id) (collect query (market paid) r.total_pages) ≡ true)
    × ((q : Product → Bool)
        → any q (collect query (market paid) r.total_pages) ≡ true
        → (p : Product) × (product_at (market paid) p.id ≡ some p) × IsMatch query p × (q p ≡ true))
search_complete_example = search_complete query (market paid) refl (omega arith)

abbrev nearby : SearchProductDto
nearby = record query { latitude = some 37; longitude = some 127 }

search-located_total_example :
    (r : ProductPage) × (ProductsService.search nearby (market paid) ≡ (ok r, market paid))
    × (r.total ≡ length r.items)
    × (r.total_pages ≤ 1)
search-located_total_example = search-located_total nearby (market paid) refl (omega arith)
