-- ===== src/Crawler/Fetches.antt =====
-- All pages that a crawl of internal/crawler/crawler.go fetches.
use shopify_gmc.Base.{
  ap, ◌*◌, Option-cases, ℕ, zero, suc, ◌+◌, ◌≤◌, ◌≡◌, refl, ◌∙◌, ◌⊎◌, inl, inr, String, true,
  Option, none, some, List, [], ◌∷◌, string_eq, All, arith, Bool-cases, length,
}
use shopify_gmc.Crawler.{
  redirects, follow, fetch_raw, Net, Page, Task, task_url, Trace, Response, Crawled, allowed,
  fetch_page, visit_all, read_index, read_sitemap, crawl_sitemap, fetch_sitemap_urls, candidates,
  tasks_of, run_tasks, store_page, crawl_from, crawl, robots_of, Robots, discover,
  looks_like_shopify,
}
use shopify_gmc.Crawler.Discover.{IsOwn, discover-own}
use shopify_gmc.Crawler.Budget.{
  IsOrder, OwnTask, order-own, length-order, tasks_of-own, length-tasks_of,
}

abbrev pub untraced : Trace
untraced = record { pages = []; raws = []; followed = [] }

module _ (n : Net) where
  -- At most two redirects for each request.
  abbrev pub HasLinks : Trace → Type 0
  HasLinks t = length t.followed ≤ 2 * (length t.pages + length t.raws)

  follow-links :
      (left : ℕ) (o : Option Response) (t : Trace)
      → ((follow n left o t).1.pages ≡ t.pages)
        × ((follow n left o t).1.raws ≡ t.raws)
        × (length (follow n left o t).1.followed ≤ length t.followed + left)
  unfolding follow
  follow-links zero o t = (refl, refl, omega arith)
  follow-links (suc left) none t = (refl, refl, omega arith)
  follow-links (suc left) (some r) t = elim (Option-cases r.location) [
    | inl arrived ↦ rw (follow, arrived) (refl, refl, omega arith)
    | inr (u, moved) ↦
        let rest = follow-links left (n.answer u) (record t { followed = u ∷ t.followed }) in
        rw (follow, moved) (rest.0, rest.1, omega (arith, rest.2))
  ]

  -- No page is requested, and the redirects stay within their bound.
  abbrev Keeps : Trace → Trace → Type 0
  Keeps t after = (after.pages ≡ t.pages) × (HasLinks t → HasLinks after)

  fetch_raw-Keeps : (u : String) (t : Trace) → Keeps t (fetch_raw n u t).1
  fetch_raw-Keeps u t =
      let links = follow-links redirects (n.answer u) (record t { raws = u ∷ t.raws }) in
      (links.0, λ h. omega (arith, links.2, ap length links.0, ap length links.1, h))

  visit_all-Keeps :
      (visit : String → Trace → List String × Trace)
      → ((u : String) (t : Trace) → Keeps t (visit u t).1)
      → (us : List String) (t : Trace) → Keeps t (visit_all n visit us t).1
  unfolding visit_all
  visit_all-Keeps visit h [] t = (refl, λ l. l)
  visit_all-Keeps visit h (u ∷ us) t =
      let rest = visit_all-Keeps visit h us (visit u t).1 in
      let one = h u t in (rest.0 ∙ one.0, λ l. rest.1 (one.1 l))

  read_index-Keeps :
      (visit : String → Trace → List String × Trace) (us : List String) (r : Response) (t : Trace)
      → ((u : String) (t : Trace) → Keeps t (visit u t).1)
      → Keeps t (read_index n visit us r t).1
  read_index-Keeps visit [] r t h = (refl, λ l. l)
  read_index-Keeps visit (u ∷ us) r t h = visit_all-Keeps visit h (u ∷ us) t

  read_sitemap-Keeps :
      (visit : String → Trace → List String × Trace) (r : Option Response) (t : Trace)
      → ((u : String) (t : Trace) → Keeps t (visit u t).1)
      → Keeps t (read_sitemap n visit r t).1
  read_sitemap-Keeps visit none t h = (refl, λ l. l)
  read_sitemap-Keeps visit (some r) t h = read_index-Keeps visit (n.sitemap_index r.body) r t h

  crawl_sitemap-Keeps : (fuel : ℕ) (u : String) (t : Trace) → Keeps t (crawl_sitemap n fuel u t).1
  unfolding crawl_sitemap
  crawl_sitemap-Keeps zero u t = (refl, λ l. l)
  crawl_sitemap-Keeps (suc fuel) u t =
      let fetched = fetch_raw-Keeps u t in
      let rest =
        read_sitemap-Keeps (crawl_sitemap n fuel) (fetch_raw n u t).0 (fetch_raw n u t).1
          (crawl_sitemap-Keeps fuel) in
      (rest.0 ∙ fetched.0, λ l. rest.1 (fetched.1 l))

  module _ (g : Option n.Group) where
    -- The address is allowed by robots.txt, and is the store's or on the store's host.
    abbrev pub IsPolite : String → Type 0
    IsPolite u = (allowed n g u ≡ true) × ((u ≡ n.store_url) ⊎ IsOwn n u)

    -- The pages requested are polite, and `bound` at most; and the redirects.
    pub record IsWithin (bound : ℕ) (t : Trace) : Type 0 where
      pub polite : All IsPolite t.pages
      pub few : length t.pages ≤ bound
      pub links : HasLinks t

    fetch_page-IsWithin :
        (u : String) (bound : ℕ) (t : Trace)
        → (u ≡ n.store_url) ⊎ IsOwn n u
        → IsWithin bound t
        → IsWithin (suc bound) (fetch_page n g u t).1
    unfolding fetch_page
    fetch_page-IsWithin u bound t own h = elim (Bool-cases (allowed n g u)) [
      | inl ok ↦
          let links = follow-links redirects (n.answer u) (record t { pages = u ∷ t.pages }) in
          rw ok (record {
            polite = rw links.0 ((ok, own), h.polite);
            few = omega (arith, h.few, ap length links.0);
            links = omega (arith, h.links, links.2, ap length links.0, ap length links.1);
          })
      | inr blocked ↦
          rw blocked (record { polite = h.polite; few = omega (arith, h.few); links = h.links })
    ]

    run_tasks-IsWithin :
        (tasks : List Task) (bound : ℕ) (cx : Crawled) (t : Trace)
        → All (OwnTask n) tasks
        → IsWithin bound t
        → IsWithin (length tasks + bound) (run_tasks n g tasks cx t).1
    unfolding run_tasks
    run_tasks-IsWithin [] bound cx t own h = record {
      polite = h.polite;
      few = omega (arith, h.few);
      links = h.links;
    }
    run_tasks-IsWithin (task ∷ tasks) bound cx t own h = widen (
        run_tasks-IsWithin tasks (suc bound)
          (store_page n task (fetch_page n g (task_url task) t).0 cx)
          (fetch_page n g (task_url task) t).1 own.1
          (fetch_page-IsWithin (task_url task) bound t (inr own.0) h))
      where
        widen :
            {after : Trace}
            → IsWithin (length tasks + suc bound) after
            → IsWithin (suc (length tasks) + bound) after
        widen w = record { polite = w.polite; few = omega (arith, w.few); links = w.links }

    crawl_from-IsWithin :
        (order : List Task → List Task) (robots : Robots n) (home : Option Page) (t : Trace)
        → robots.group ≡ g
        → IsOrder order
        → IsWithin 1 t
        → IsWithin 37 (crawl_from n order robots home t).1
    crawl_from-IsWithin order robots none t same is h = record {
      polite = h.polite;
      few = omega (arith, h.few);
      links = h.links;
    }
    crawl_from-IsWithin order robots (some home) t same is h =
        elim (Bool-cases (looks_like_shopify home)) [
          | inr other ↦
              rw (crawl_from, other)
                (record { polite = h.polite; few = omega (arith, h.few); links = h.links })
          | inl shopify ↦
              rw (crawl_from, shopify, same)
                (finished (
                  run_tasks-IsWithin (order (tasks_of n (discover n home))) 1 _
                    (fetch_sitemap_urls n robots.hits t).1
                    (order-own n order (tasks_of n (discover n home)) is
                      (tasks_of-own n (discover n home) (discover-own n home)))
                    after_sitemaps))
        ]
      where
        kept : Keeps t (fetch_sitemap_urls n robots.hits t).1
        kept =
            unfold fetch_sitemap_urls in
            visit_all-Keeps (crawl_sitemap n 4) (crawl_sitemap-Keeps 4) (candidates n robots.hits) t

        after_sitemaps : IsWithin 1 (fetch_sitemap_urls n robots.hits t).1
        after_sitemaps = record {
          polite = rw kept.0 h.polite;
          few = rw kept.0 h.few;
          links = kept.1 h.links;
        }

        finished :
            {end : Trace}
            → IsWithin (length (order (tasks_of n (discover n home))) + 1) end
            → IsWithin 37 end
        finished w = record {
          polite = w.polite;
          few = omega (
            arith,
            w.few,
            length-order n order (tasks_of n (discover n home)) is,
            length-tasks_of n (discover n home),
          );
          links = w.links;
        }

-- A crawl asks for at most 37 pages, the homepage and the budgets of 25 products, 5 collections and 6
-- policies, in whatever order the fan-out ends; each of these addresses is allowed by the group of
-- robots.txt for the bot, and is the store's or on the store's host. The redirects that are followed,
-- wherever they lead, are at most two for each page, sitemap and robots.txt.
pub crawl-IsWithin :
    (n : Net) (order : List Task → List Task)
    → IsOrder order
    → IsWithin n (robots_of n (fetch_raw n n.robots_url untraced).0).group 37 (crawl n order).1
unfolding crawl
crawl-IsWithin n order is =
    crawl_from-IsWithin n group order (robots_of n (fetch_raw n n.robots_url untraced).0)
      (fetch_page n group n.store_url start).0 (fetch_page n group n.store_url start).1 refl is
      (fetch_page-IsWithin n group n.store_url 0 start (inl refl) (record {
        polite = rw kept.0 tt;
        few = rw kept.0 (omega arith);
        links = kept.1 (omega arith);
      }))
  where
    group : Option n.Group
    group = (robots_of n (fetch_raw n n.robots_url untraced).0).group

    start : Trace
    start = (fetch_raw n n.robots_url untraced).1

    kept : Keeps n untraced start
    kept = fetch_raw-Keeps n n.robots_url untraced
