-- ===== src/Tests/PageRuns.antt =====
-- The theorems on src/common/utils/pagination.util.ts and on trust scores, at small inputs.
use Prim.Native.Nat.{◌≤◌}
use secondhand_api.Prelude.{ℕ, ◌+◌, true, List, [], ◌∷◌, ◌≡◌, arith, length}
use secondhand_api.Pagination.{get_total_pages, get_page_range}
use secondhand_api.Pagination.Pages.{pages, pages_complete}
use secondhand_api.Pagination.Ranges.{shows, Ascending, get_page_range_lem}
use secondhand_api.Reviews.TrustScore.{trust_score_of, sum_from}
use secondhand_api.Reviews.Scores.{count_all, weigh_all, trust_score_of_bounds}

abbrev seven : List ℕ
seven = 1 ∷ 2 ∷ 3 ∷ 4 ∷ 5 ∷ 6 ∷ 7 ∷ []

pages_complete_example : pages seven 3 (get_total_pages (length seven) 3) ≡ seven
pages_complete_example = pages_complete seven 3 (omega arith)

get_page_range_lem_example :
    Ascending 1 20 (get_page_range 9 20 2)
    × (shows (get_page_range 9 20 2) 1 ≡ true)
    × (shows (get_page_range 9 20 2) 20 ≡ true)
    × ((n : ℕ) → 1 ≤ n → n ≤ 20 → 9 ≤ n + 2 → n ≤ 9 + 2 → shows (get_page_range 9 20 2) n ≡ true)
get_page_range_lem_example = get_page_range_lem 9 20 2 (omega arith) (omega arith)

trust_score_of_bounds_example :
    let t = trust_score_of (5 ∷ 3 ∷ []) in
    (164 ≤ t.trust_score)
    × (t.trust_score ≤ 1000)
    × (10 ≤ t.average_rating)
    × (t.average_rating ≤ 50)
    × (t.total_reviews ≡ 2)
    × (count_all t.rating_distribution ≡ t.total_reviews)
    × (weigh_all t.rating_distribution ≡ sum_from 0 (5 ∷ 3 ∷ []))
trust_score_of_bounds_example =
    trust_score_of_bounds 5 (3 ∷ []) (omega arith, omega arith, (omega arith, omega arith, tt))
