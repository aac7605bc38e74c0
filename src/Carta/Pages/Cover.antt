-- ===== src/Carta/Pages/Cover.antt =====
-- The pages of a listing, one after the other, are the listing.
use app_catalogo.Common.{ℕ, zero, suc, ◌*◌, Bool, List, [], ◌++◌, take, drop}
use app_catalogo.Common.Int.{ℤ, pos}
use app_catalogo.Carta.Pages.{CartaMeta, select_page}

module _ {ℓ} {A : Type ℓ} where
  -- So many pages of n items from a page on.
  pages_from : ℕ → ℕ → ℕ → List A → List A
  pages_from n zero k xs = []
  pages_from n (suc more) k xs = take n (drop (k * n) xs) ++ pages_from n more (suc k) xs

-- The pages of a listing that a client asks for, from a page on.
abbrev pub listed_pages {ℓ} : {A : Type ℓ} → (ℤ → List A × CartaMeta) → ℕ → ℕ → List A
listed_pages list zero k = []
listed_pages list (suc more) k = (list (pos k)).0 ++ listed_pages list more (suc k)

module _ {A : Type 0} (order : List A → List A) (p : A → Bool) (per_page : ℤ) (rows : List A) where
  -- The metadata of every page has the number of pages of the first.
  abbrev pub page_count : ℕ
  page_count = (select_page order p (pos 1) per_page rows).1.total_pages
