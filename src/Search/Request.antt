-- ===== src/Search/Request.antt =====
-- `SearchRequest` and its `Normalize` of internal/models/search.go. The types and the filters are
-- handed on as they are: their type is a parameter.
use app_catalogo.Common.{String, ◌≡◌, ap, ◌∙◌, if◌then◌else◌, arith}
use app_catalogo.Common.Int.{ℤ, pos, ltb_ℤ, ◌≤ℤ◌}

pub record SearchRequest (F : Type 0) : Type 0 where
  pub q : String
  pub filters : F
  pub page : ℤ
  pub per_page : ℤ

abbrev pub search_default_per_page : ℤ
search_default_per_page = pos 10

abbrev pub search_max_per_page : ℤ
search_max_per_page = pos 100

abbrev page_of : ℤ → ℤ
page_of page = if ltb_ℤ page (pos 1) then pos 1 else page

abbrev default_per_page : ℤ → ℤ
default_per_page per_page = if ltb_ℤ per_page (pos 1) then search_default_per_page else per_page

abbrev cut_per_page : ℤ → ℤ
cut_per_page per_page = if ltb_ℤ search_max_per_page per_page then search_max_per_page else per_page

page_of_kept : (x : ℤ) → pos 1 ≤ℤ x → page_of x ≡ x
page_of_kept x h = ground arith

per_page_kept :
    (x : ℤ) → pos 1 ≤ℤ x → x ≤ℤ search_max_per_page → cut_per_page (default_per_page x) ≡ x
per_page_kept x h k = ground arith

module _ {F : Type 0} where
  unfoldable pub normalize : SearchRequest F → SearchRequest F
  normalize r = record r {
    page = page_of r.page;
    per_page = cut_per_page (default_per_page r.per_page);
  }

  pub record IsNormal (r : SearchRequest F) : Type 0 where
    pub page : pos 1 ≤ℤ r.page
    pub some_items : pos 1 ≤ℤ r.per_page
    pub few_items : r.per_page ≤ℤ search_max_per_page

  normalize_normal : (r : SearchRequest F) → IsNormal r → normalize r ≡ r
  unfolding normalize
  normalize_normal r n =
      ap (λ x. record r { page = x; per_page = cut_per_page (default_per_page r.per_page) })
        (page_of_kept r.page n.page)
      ∙ ap (λ x. record r { per_page = x }) (per_page_kept r.per_page n.some_items n.few_items)

  normalize-IsNormal : (r : SearchRequest F) → IsNormal (normalize r)
  unfolding normalize
  normalize-IsNormal r = record {
    page = ground arith;
    some_items = ground arith;
    few_items = ground arith;
  }

  -- A normalised request asks for a page from 1 on and for 1 to 100 items, and normalising it again
  -- changes nothing.
  pub request_normalize :
      (r : SearchRequest F) → IsNormal (normalize r) × (normalize (normalize r) ≡ normalize r)
  request_normalize r =
      (normalize-IsNormal r, normalize_normal (normalize r) (normalize-IsNormal r))
