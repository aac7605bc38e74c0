-- ===== src/Carta/Pages.antt =====
-- The pages of the listings: LIMIT and OFFSET, and their metadata. The ORDER BY of a listing, with
-- the order of the rows that it leaves open, is an argument.
pub mod Cover
use app_catalogo.Common.{
  ℕ, zero, suc, ◌+◌, ◌-◌, ◌*◌, ◌/◌, Bool, List, take, drop, keep_if, length, ltb, leb,
  if◌then◌else◌,
}
use app_catalogo.Common.Int.{ℤ, pos, negsuc, ltb_ℤ}

abbrev pub carta_max_page : ℕ
carta_max_page = 1000

-- The value of an integer that the guards before left at one or more.
abbrev natural : ℤ → ℕ
natural (pos n) = n
natural (negsuc n) = 0

-- `ClampCartaPage`
unfoldable pub clamp_carta_page : ℤ → ℤ → ℕ × ℕ
clamp_carta_page page per_page = (
  (if ltb_ℤ page (pos 1)
      then 1
      else if ltb carta_max_page (natural page)
      then carta_max_page
      else natural page),
  (if ltb_ℤ per_page (pos 1)
      then 100
      else if ltb 100 (natural per_page)
      then 100
      else natural per_page),
)

pub record CartaMeta : Type 0 where
  pub page : ℕ
  pub per_page : ℕ
  pub total : ℕ
  pub total_pages : ℕ

-- `cartaMeta`; math.Ceil of a quotient of numbers that float64 holds exactly.
unfoldable pub carta_meta : ℕ → ℕ → ℕ → CartaMeta
carta_meta page per_page total = record {
  page = page;
  per_page = per_page;
  total = total;
  total_pages = if ltb 0 total then (total + per_page - 1) / per_page else 0;
}

-- A listing: the rows of its condition, counted, ordered, and one page of them.
unfoldable pub select_page {ℓ} :
    {A : Type ℓ} → (List A → List A) → (A → Bool) → ℤ → ℤ → List A → List A × CartaMeta
select_page order p page per_page rows =
    let (k, n) = clamp_carta_page page per_page in
    let found = keep_if p rows in
    (take n (drop ((k - 1) * n) (order found)), carta_meta k n (length found))
