-- ===== src/Crawler/Tests.antt =====
-- A crawl of a small store, and an index that names itself.
use shopify_gmc.Base.{
  String, ℕ, ◌≡◌, refl, ◌≤◌, ◌+◌, ◌*◌, not, Option, none, some, List, [], ◌∷◌, ◌==◌, string_eq,
  if◌then◌else◌, length, arith,
}
use shopify_gmc.Base.Text.{codes, occurs_in, starts_with, lower_code}
use shopify_gmc.Base.Bytes.{bytes_equal}
use shopify_gmc.Crawler.{
  fetch_raw, follow, max_body, Net, Response, robots_of, candidates, crawl, fetch_sitemap_urls,
  fetch_page, allowed, looks_like_shopify, run_tasks, tasks_of, discover, discover_from, absolute,
  visit_all, crawl_sitemap, policy_slug, seen_in, codes_eq,
}
use shopify_gmc.Crawler.Budget.{IsOrder}
use shopify_gmc.Crawler.Fetches.{IsWithin, untraced, crawl-IsWithin}
use shopify_gmc.Crawler.Sitemap.{IsSparse, fetch_sitemap_urls-ends, tree}

abbrev reply : List ℕ → Option Response
reply body = some (record { status = 200; body = body; location = none })

-- Addresses are kept short: "/" the homepage, "/products/a" a product and "/products/b" a blocked one.
abbrev first_entry : List ℕ → List String
first_entry [] = []
first_entry (c ∷ body) = "sitemap" ∷ []

abbrev net : Net
net = record {
  store_url = "/";
  store_host = "shop";
  robots_url = "robots";
  sitemap_url = "sitemap";
  answer = λ u.
      if u == "sitemap"
      then reply (codes "index")
      else if u == "robots"
      then reply (codes "robots")
      else if u == "/products/a"
      then some (record { status = 302; body = []; location = some "/private/a" })
      else reply (codes "<script src=cdn.shopify.com>");
  Group = List ℕ;
  Parsed = List ℕ;
  parse_robots = λ body. some (codes "/products/b");
  find_group = λ parsed agent. if agent == "*" then some parsed else none;
  sitemaps = λ parsed. [];
  test = λ g path. not (bytes_equal g path);
  path = λ u. some (codes u);
  resolve = λ u. some u;
  host = λ u. if u == "/away" then "other" else "shop";
  links = λ html. "/products/a" ∷ "/products/b" ∷ "/products/a" ∷ "/away" ∷ "/policies/refund" ∷ [];
  sitemap_index = first_entry;
  urlset = λ body. [];
}

same-IsOrder : IsOrder (λ ts. ts)
same-IsOrder = record { same = λ p ts. refl }

-- The blocked product and the link to another host are not fetched.
crawls : (crawl net (λ ts. ts)).1.pages ≡ "/policies/refund" ∷ "/products/a" ∷ "/" ∷ []
unfolding crawl fetch_page allowed looks_like_shopify run_tasks tasks_of discover discover_from
    absolute visit_all fetch_sitemap_urls crawl_sitemap policy_slug seen_in bytes_equal follow
    occurs_in starts_with lower_code
crawls = refl

-- The index that names itself is read four times.
reads_index : length (crawl net (λ ts. ts)).1.raws ≡ 5
unfolding crawl fetch_page allowed looks_like_shopify run_tasks tasks_of discover discover_from
    absolute visit_all fetch_sitemap_urls crawl_sitemap policy_slug seen_in bytes_equal follow
    occurs_in starts_with lower_code
reads_index = refl

-- A redirect is followed without a question to robots.txt.
redirected : (crawl net (λ ts. ts)).1.followed ≡ "/private/a" ∷ []
unfolding crawl fetch_page allowed looks_like_shopify run_tasks tasks_of discover discover_from
    absolute visit_all fetch_sitemap_urls crawl_sitemap policy_slug seen_in bytes_equal follow
    occurs_in starts_with lower_code
redirected = refl

crawl-IsWithin_example :
    IsWithin net
      (robots_of net (fetch_raw net net.robots_url untraced).0).group
      37
      (crawl net (λ ts. ts)).1
crawl-IsWithin_example = crawl-IsWithin net (λ ts. ts) same-IsOrder

first_entry-IsSparse : IsSparse net
first_entry-IsSparse [] = omega arith
first_entry-IsSparse (c ∷ body) = omega arith

fetch_sitemap_urls-ends_example :
    length (fetch_sitemap_urls net [] untraced).1.raws
    ≤ length untraced.raws + length (candidates net []) * tree max_body 4
fetch_sitemap_urls-ends_example = fetch_sitemap_urls-ends net [] untraced first_entry-IsSparse
