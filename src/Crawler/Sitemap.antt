-- ===== src/Crawler/Sitemap.antt =====
-- The sitemaps of internal/crawler/crawler.go: indexes that name each other, or themselves, end.
use shopify_gmc.Base.{
  ap, ◌≡◌, refl, take, leb, Bool-cases, Option-cases, inl, inr, ℕ, zero, suc, ◌+◌, ◌*◌, ◌≤◌, String,
  Option, none, some, List, [], ◌∷◌, length, arith,
}
use native.Mathlib.Nat.{mul-le-mul_right}
use shopify_gmc.Crawler.{
  max_body, redirects, follow, fetch_raw, Net, Trace, Response, accepted, visit_all, read_index,
  read_sitemap, crawl_sitemap, fetch_sitemap_urls, candidates,
}

-- The fetches for a tree of indexes that name `width` sitemaps each, `levels` deep.
pub tree : ℕ → ℕ → ℕ
tree width zero = 0
tree width (suc levels) = suc (width * tree width levels)

length-take : {A : Type 0} (m : ℕ) (xs : List A) → length (take m xs) ≤ m
length-take zero xs = omega arith
length-take (suc m) [] = omega arith
length-take (suc m) (x ∷ xs) = omega (arith, length-take m xs)

module _ (n : Net) where
  -- An index has no more entries than its text has bytes.
  abbrev pub IsSparse : Type 0
  IsSparse = (body : List ℕ) → length (n.sitemap_index body) ≤ length body

  -- The index in a response names at most `width` sitemaps.
  abbrev IsWide : ℕ → Option Response → Type 0
  IsWide width none = Unit
  IsWide width (some r) = length (n.sitemap_index r.body) ≤ width

  accepted-IsWide : IsSparse → (o : Option Response) → IsWide max_body (accepted n o)
  accepted-IsWide sparse none = tt
  accepted-IsWide sparse (some r) = elim (Bool-cases (leb 400 r.status)) [
    | inl refused ↦ rw refused tt
    | inr taken ↦
        rw taken (omega (arith, sparse (take max_body r.body), length-take max_body r.body))
  ]

  follow-raws : (left : ℕ) (o : Option Response) (t : Trace) → (follow n left o t).1.raws ≡ t.raws
  unfolding follow
  follow-raws zero o t = refl
  follow-raws (suc left) none t = refl
  follow-raws (suc left) (some r) t = elim (Option-cases r.location) [
    | inl arrived ↦ rw (follow, arrived) refl
    | inr (u, moved) ↦
        rw (follow, moved) (follow-raws left (n.answer u) (record t { followed = u ∷ t.followed }))
  ]

  -- The visits of a sitemap make at most `bound` fetches.
  abbrev IsBounded : (String → Trace → List String × Trace) → ℕ → Type 0
  IsBounded visit bound =
      (u : String) (t : Trace) → length (visit u t).1.raws ≤ length t.raws + bound

  visit_all-bounded :
      (visit : String → Trace → List String × Trace) (bound : ℕ)
      → IsBounded visit bound
      → (us : List String) (t : Trace)
      → length (visit_all n visit us t).1.raws ≤ length t.raws + length us * bound
  unfolding visit_all
  visit_all-bounded visit bound h [] t = omega arith
  visit_all-bounded visit bound h (u ∷ us) t =
      omega (arith, h u t, visit_all-bounded visit bound h us (visit u t).1)

  read_index-bounded :
      (width bound : ℕ) (visit : String → Trace → List String × Trace) (us : List String)
      (r : Response) (t : Trace)
      → IsBounded visit bound
      → length us ≤ width
      → length (read_index n visit us r t).1.raws ≤ length t.raws + width * bound
  read_index-bounded width bound visit [] r t h few = omega arith
  read_index-bounded width bound visit (u ∷ us) r t h few =
      omega (arith, visit_all-bounded visit bound h (u ∷ us) t, mul-le-mul_right bound few)

  read_sitemap-bounded :
      (width bound : ℕ) (visit : String → Trace → List String × Trace) (r : Option Response)
      (t : Trace)
      → IsWide width r
      → IsBounded visit bound
      → length (read_sitemap n visit r t).1.raws ≤ length t.raws + width * bound
  read_sitemap-bounded width bound visit none t wide h = omega arith
  read_sitemap-bounded width bound visit (some r) t wide h =
      read_index-bounded width bound visit (n.sitemap_index r.body) r t h wide

  crawl_sitemap-IsBounded :
      (fuel : ℕ) → IsSparse → IsBounded (crawl_sitemap n fuel) (tree max_body fuel)
  unfolding crawl_sitemap tree
  crawl_sitemap-IsBounded zero sparse u t = omega arith
  crawl_sitemap-IsBounded (suc fuel) sparse u t =
      step max_body (accepted-IsWide sparse (follow n redirects (n.answer u) begun).0)
        (crawl_sitemap-IsBounded fuel sparse)
    where
      begun : Trace
      begun = record t { raws = u ∷ t.raws }

      step :
          (width : ℕ)
          → IsWide width (fetch_raw n u t).0
          → IsBounded (crawl_sitemap n fuel) (tree width fuel)
          → length
              (read_sitemap n (crawl_sitemap n fuel) (fetch_raw n u t).0 (fetch_raw n u t).1).1.raws
            ≤ length t.raws + suc (width * tree width fuel)
      step width wide rest =
          let h =
            read_sitemap-bounded width (tree width fuel) (crawl_sitemap n fuel) (fetch_raw n u t).0
              (fetch_raw n u t).1 wide rest in
          let same = ap length (follow-raws redirects (n.answer u) begun) in omega (arith, h, same)

  -- The sitemaps end, also where indexes name themselves or each other: where an index has no more
  -- entries than bytes, of which 5 MiB are read, the sitemaps of robots.txt, or /sitemap.xml where it
  -- names none, take no more fetches, redirects apart, than as many trees of four levels that branch
  -- by 5 MiB.
  pub fetch_sitemap_urls-ends :
      (hits : List String) (t : Trace)
      → IsSparse
      → length (fetch_sitemap_urls n hits t).1.raws
        ≤ length t.raws + length (candidates n hits) * tree max_body 4
  unfolding fetch_sitemap_urls
  fetch_sitemap_urls-ends hits t sparse =
      visit_all-bounded (crawl_sitemap n 4) (tree max_body 4) (crawl_sitemap-IsBounded 4 sparse)
        (candidates n hits) t
