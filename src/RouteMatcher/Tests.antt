-- ===== src/RouteMatcher/Tests.antt =====
-- Runs of the pattern functions, and the theorems about them at these inputs.
use lopata.Common.{◌≡◌, refl, ◌↔◌, true, false, codes}
use lopata.RouteMatcher.{
  plain, zoned, extract_path_pattern, match_route, extract_hostname, match_host, segment_count,
}
use lopata.RouteMatcher.Patterns.{Matches, match_route_iff}

extract_runs :
    (extract_path_pattern (plain (codes "https://example.com/api/*?q#h")) ≡ codes "/api/*")
    × (extract_path_pattern (plain (codes "example.com")) ≡ codes "/*")
    × (extract_path_pattern (zoned (codes "/users") false) ≡ codes "/users")
unfolding extract_path_pattern
extract_runs = (refl, refl, refl)

match_runs :
    (match_route (codes "/api/foo") (codes "/api/*") ≡ true)
    × (match_route (codes "/api") (codes "/api/*") ≡ false)
    × (match_route (codes "/apix") (codes "/api*") ≡ true)
    × (match_host (codes "a.localhost") (codes "*.localhost") ≡ true)
    × (match_host (codes ".localhost") (codes "*.localhost") ≡ false)
    × (extract_hostname (codes "a.localhost:8787") ≡ codes "a.localhost")
    × (segment_count (codes "/api/v1/*") ≡ 2)
unfolding match_route match_host extract_hostname segment_count
match_runs = (refl, refl, refl, refl, refl, refl, refl)

match_route_iff_example :
    (match_route (codes "/api/foo") (codes "/api/*") ≡ true)
    ↔ Matches (codes "/api/foo") (codes "/api/*")
match_route_iff_example = match_route_iff (codes "/api/foo") (codes "/api/*")
