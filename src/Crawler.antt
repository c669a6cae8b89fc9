-- ===== src/Crawler.antt =====
-- The crawler of a store, internal/crawler/crawler.go. What the network answers to a request, with
-- the address that it redirects to, and what net/url, robotstxt, goquery and encoding/xml make of a
-- text are parameters; the traces record what is requested. The rate limits only delay. The fetches
-- of the fan-out run at once and soft-fail, so they are a list of tasks in the order in which they
-- end. The crawl is not cancelled.
pub mod Discover
pub mod Budget
pub mod Sitemap
pub mod Fetches
mod Tests
use shopify_gmc.Base.{
  ℕ, zero, suc, ◌≡◌, ◌*◌, ◌-◌, String, Bool, true, false, not, Option, none, some, List, [], ◌∷◌,
  ◌++◌, ◌==◌, string_eq, Eq, if◌then◌else◌, map, take, length, select, ◌&&◌, ◌||◌, leb, ◌⊎◌, inl,
  inr,
}
use shopify_gmc.Base.Table.{Table, insert}
use shopify_gmc.Base.Text.{codes, lower_code, starts_with, occurs_in, trim, is_space, split_on}
use shopify_gmc.Base.Bytes.{bytes_equal, bytes_equal_iff}

instance abbrev pub codes_eq : Eq (List ℕ)
codes_eq = record { same = bytes_equal; same_iff = bytes_equal_iff }

pub record Page : Type 0 where
  pub url : String
  pub status : ℕ
  pub html : List ℕ

pub record Response : Type 0 where
  pub status : ℕ
  pub body : List ℕ
  pub location : Option String

-- The store that is crawled, and the libraries' part.
pub record Net : Type 1 where
  pub store_url : String
  pub store_host : String
  pub robots_url : String
  pub sitemap_url : String
  pub answer : String → Option Response
  pub Group : Type 0
  pub Parsed : Type 0
  pub parse_robots : List ℕ → Option Parsed
  pub find_group : Parsed → String → Option Group
  pub sitemaps : Parsed → List String
  pub test : Group → List ℕ → Bool
  pub path : String → Option (List ℕ)
  pub resolve : String → Option String
  pub host : String → String
  pub links : List ℕ → List String
  pub sitemap_index : List ℕ → List String
  pub urlset : List ℕ → List String

-- `CheckContext`, as far as the crawler fills it in.
pub record Crawled : Type 0 where
  pub robots_txt : List ℕ
  pub homepage : Page
  pub product_pages : List Page
  pub collection_pages : List Page
  pub policy_pages : Table (List ℕ) Page
  pub sitemap_urls : List String

pub data CrawlError : Type 0 where
  no_homepage not_shopify : CrawlError

-- The addresses requested so far: the pages, robots.txt with the sitemaps, and the redirects of both.
pub record Trace : Type 0 where
  pub pages : List String
  pub raws : List String
  pub followed : List String

pub data Task : Type 0 where
  product collection policy : String → Task

abbrev pub task_url : Task → String
task_url (product u) = u
task_url (collection u) = u
task_url (policy u) = u

abbrev user_agent : String
user_agent = "ShopifyGMCBot/1.0 (+https://shopifygmc.com/bot)"

abbrev pub budget_products : ℕ
budget_products = 25

abbrev pub budget_collections : ℕ
budget_collections = 5

abbrev pub budget_policies : ℕ
budget_policies = 6

abbrev max_redirects : ℕ
max_redirects = 3

-- The requests made before count, and the first one is among them.
abbrev pub redirects : ℕ
redirects = max_redirects - 1

abbrev pub max_body : ℕ
max_body = 5 * (1024 * 1024)

-- The lists of `discover`, each in the order of the page, and what was seen.
pub record Found : Type 0 where
  pub products : List String
  pub collections : List String
  pub policies : List String
  pub seen : List String

pub seen_in : String → List String → Bool
seen_in u [] = false
seen_in u (v ∷ vs) = v == u || seen_in u vs

-- `looksLikeShopify`.
unfoldable pub looks_like_shopify : Page → Bool
looks_like_shopify p =
    occurs_in (codes "cdn.shopify.com") (map lower_code p.html)
    || occurs_in (codes "shopify.theme") (map lower_code p.html)

abbrev slug_of_parts : List ℕ → List (List ℕ) → List ℕ
slug_of_parts path (first ∷ second ∷ rest) =
    if bytes_equal first (codes "policies") || bytes_equal first (codes "pages")
    then second
    else path
slug_of_parts path _ = path

abbrev is_slash : ℕ → Bool
is_slash c = bytes_equal (c ∷ []) (b'/' ∷ [])

module _ (n : Net) where
  -- `policySlug`.
  unfoldable pub policy_slug : String → List ℕ
  policy_slug u = elim (n.path u) [
    | none ↦ codes u
    | some path ↦ slug_of_parts path (split_on b'/' (trim is_slash path))
  ]

  -- `absolute`: off-domain links are ignored.
  unfoldable pub absolute : String → Option String
  absolute href = if href == "" then none else elim (n.resolve href) [
    | none ↦ none
    | some abs ↦ if n.host abs == n.store_host then some abs else none
  ]

  abbrev pub push : (String → Found → Found) → String → Found → Found
  push add abs f = if seen_in abs f.seen then f else add abs (record f { seen = abs ∷ f.seen })

  abbrev pub add_product : String → Found → Found
  add_product u f = record f { products = f.products ++ u ∷ [] }

  abbrev pub add_collection : String → Found → Found
  add_collection u f = record f { collections = f.collections ++ u ∷ [] }

  abbrev pub add_policy : String → Found → Found
  add_policy u f = record f { policies = f.policies ++ u ∷ [] }

  -- An address that has no path counts as the empty one.
  abbrev pub lower_path : String → List ℕ
  lower_path abs = elim (n.path abs) [ none ↦ [] | some path ↦ map lower_code path ]

  abbrev pub file_under : String → List ℕ → Found → Found
  file_under abs path f =
      if starts_with (codes "/products/") path
      then push add_product abs f
      else if starts_with (codes "/collections/") path
      then push add_collection abs f
      else if starts_with (codes "/policies/") path
          || starts_with (codes "/pages/about") path
          || starts_with (codes "/pages/contact") path
      then push add_policy abs f
      else f

  abbrev pub file_link : Option String → Found → Found
  file_link none f = f
  file_link (some abs) f = file_under abs (lower_path abs) f

  unfoldable pub discover_from : List String → Found → Found
  discover_from [] f = f
  discover_from (href ∷ hrefs) f = discover_from hrefs (file_link (absolute href) f)

  abbrev pub nothing_found : Found
  nothing_found = record { products = []; collections = []; policies = []; seen = [] }

  -- `discover`.
  unfoldable pub discover : Page → Found
  discover home = discover_from (n.links home.html) nothing_found

  -- `allowed`, by the group of robots.txt for the bot.
  unfoldable pub allowed : Option n.Group → String → Bool
  allowed none u = true
  allowed (some g) u = elim (n.path u) [ none ↦ true | some path ↦ n.test g path ]

  -- The redirects of `httpClient.Do`, with those left: robots.txt and the host are not asked again.
  -- `CheckRedirect` stops at the third one, and its response is the answer then.
  unfoldable pub follow : ℕ → Option Response → Trace → Option Response × Trace
  follow zero o t = (o, t)
  follow (suc left) none t = (none, t)
  follow (suc left) (some r) t = elim r.location [
    | none ↦ (some r, t)
    | some u ↦ follow left (n.answer u) (record t { followed = u ∷ t.followed })
  ]

  -- A response from 400 on is an error, and a body is read up to 5 MiB.
  abbrev pub accepted : Option Response → Option Response
  accepted none = none
  accepted (some r) =
      if leb 400 r.status then none else some (record r { body = take max_body r.body })

  -- `fetchRaw`, of robots.txt and of sitemaps.
  abbrev pub fetch_raw : String → Trace → Option Response × Trace
  fetch_raw u t =
      let (r, after) = follow redirects (n.answer u) (record t { raws = u ∷ t.raws }) in
      (accepted r, after)

  abbrev page_of : String → Option Response → Option Page
  page_of u none = none
  page_of u (some r) = some (record { url = u; status = r.status; html = r.body })

  abbrev fetched : String → Option Response × Trace → Option Page × Trace
  fetched u (r, t) = (page_of u (accepted r), t)

  -- `fetchPage`: an address that robots.txt blocks is not fetched.
  unfoldable pub fetch_page : Option n.Group → String → Trace → Option Page × Trace
  fetch_page g u t =
      if allowed g u
      then fetched u (follow redirects (n.answer u) (record t { pages = u ∷ t.pages }))
      else (none, t)

  pub record Robots : Type 0 where
    pub group : Option n.Group
    pub raw : List ℕ
    pub hits : List String

  abbrev or_else : Option n.Group → Option n.Group → Option n.Group
  or_else none o = o
  or_else (some g) o = some g

  -- `loadRobots`.
  abbrev pub robots_of : Option Response → Robots
  robots_of none = record { group = none; raw = []; hits = [] }
  robots_of (some r) = elim (n.parse_robots r.body) [
    | none ↦ record { group = none; raw = r.body; hits = [] }
    | some parsed ↦ record {
      group = or_else (n.find_group parsed user_agent) (n.find_group parsed "*");
      raw = r.body;
      hits = n.sitemaps parsed;
    }
  ]

  -- The sitemaps one after the other, with what each of them gives.
  unfoldable pub visit_all :
      (String → Trace → List String × Trace) → List String → Trace → List String × Trace
  visit_all visit [] t = ([], t)
  visit_all visit (u ∷ us) t =
      let (urls, after) = visit u t in
      let (more, end) = visit_all visit us after in (urls ++ more, end)

  abbrev has_text : String → Bool
  has_text u = not (bytes_equal (trim is_space (codes u)) [])

  -- An index first, and else a list of addresses.
  abbrev pub read_index :
      (String → Trace → List String × Trace) → List String → Response → Trace → List String × Trace
  read_index visit [] r t = (select has_text (n.urlset r.body), t)
  read_index visit (u ∷ us) r t = visit_all visit (u ∷ us) t

  abbrev pub read_sitemap :
      (String → Trace → List String × Trace) → Option Response → Trace → List String × Trace
  read_sitemap visit none t = ([], t)
  read_sitemap visit (some r) t = read_index visit (n.sitemap_index r.body) r t

  -- `crawlSitemap`, with 4 less the depth as fuel: beyond depth 3 nothing is fetched.
  unfoldable pub crawl_sitemap : ℕ → String → Trace → List String × Trace
  crawl_sitemap zero u t = ([], t)
  crawl_sitemap (suc fuel) u t =
      let (r, after) = fetch_raw u t in read_sitemap (crawl_sitemap fuel) r after

  abbrev pub candidates : List String → List String
  candidates [] = n.sitemap_url ∷ []
  candidates (u ∷ us) = u ∷ us

  unfoldable pub fetch_sitemap_urls : List String → Trace → List String × Trace
  fetch_sitemap_urls hits t = visit_all (crawl_sitemap 4) (candidates hits) t

  -- The fetches of the fan-out, within the budgets.
  unfoldable pub tasks_of : Found → List Task
  tasks_of f =
      map product (take budget_products f.products)
      ++ (map collection (take budget_collections f.collections)
          ++ map policy (take budget_policies f.policies))

  abbrev store_page : Task → Option Page → Crawled → Crawled
  store_page task none cx = cx
  store_page (product u) (some p) cx = record cx { product_pages = cx.product_pages ++ p ∷ [] }
  store_page (collection u) (some p) cx = record cx {
    collection_pages = cx.collection_pages ++ p ∷ [];
  }
  store_page (policy u) (some p) cx = record cx {
    policy_pages = insert (policy_slug u) p cx.policy_pages;
  }

  unfoldable pub run_tasks : Option n.Group → List Task → Crawled → Trace → Crawled × Trace
  run_tasks g [] cx t = (cx, t)
  run_tasks g (task ∷ tasks) cx t =
      let (p, after) = fetch_page g (task_url task) t in
      run_tasks g tasks (store_page task p cx) after

  -- The rest of `Crawl` after the homepage; `order` puts the tasks in the order in which they end.
  abbrev pub crawl_from :
      (List Task → List Task) → Robots → Option Page → Trace → (CrawlError ⊎ Crawled) × Trace
  crawl_from order robots none t = (inl no_homepage, t)
  crawl_from order robots (some home) t =
      if not (looks_like_shopify home)
      then (inl not_shopify, t)
      else let (urls, after) = fetch_sitemap_urls robots.hits t in
        let (cx, end) =
          run_tasks robots.group (order (tasks_of (discover home)))
            (record {
              robots_txt = robots.raw;
              homepage = home;
              product_pages = [];
              collection_pages = [];
              policy_pages = [];
              sitemap_urls = urls;
            })
            after in
        (inr cx, end)

  abbrev pub fetch_home :
      (List Task → List Task) → Option Response × Trace → (CrawlError ⊎ Crawled) × Trace
  fetch_home order (r, t) =
      let robots = robots_of r in
      let (home, after) = fetch_page robots.group n.store_url t in
      crawl_from order robots home after

  -- `Crawl`.
  unfoldable pub crawl : (List Task → List Task) → (CrawlError ⊎ Crawled) × Trace
  crawl order =
      fetch_home order (fetch_raw n.robots_url (record { pages = []; raws = []; followed = [] }))
