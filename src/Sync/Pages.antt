-- ===== src/Sync/Pages.antt =====
-- `ListAllThemes`, `ListAllSubthemes` and `ListAllServicesBySubtheme` of
-- internal/clients/carta_servicos_client.go: one loop over the pages of a listing.
use app_catalogo.Common.{
  ℕ, zero, suc, ◌+◌, ◌≤◌, ◌<◌, String, ◌≡◌, refl, ap, ◌∙◌, true, false, ◌||◌, Option, none, some,
  List, [], ◌∷◌, ◌++◌, append-nil, append_assoc, length, leb, arith, if◌then◌else◌,
}
use app_catalogo.Common.Int.{ℤ, pos, leb_ℤ}
use app_catalogo.Common.Go.{Result, ok, err, Error, message}
use app_catalogo.Common.Text.{is_empty, trim_space}

-- One page of a listing: its items, and how many pages there are.
abbrev pub Page {ℓ} : Type ℓ → Type ℓ
Page A = List A × ℤ

-- `ListSubthemes` and `ListServicesBySubtheme`; the request is an argument.
unfoldable pub list_under {ℓ} :
    {A : Type ℓ} → (String → ℕ → Result Error (Page A)) → String → ℕ → Result Error (Page A)
list_under get raw page =
    if is_empty (trim_space raw)
    then err (message "carta-servicos: slug vazio")
    else get (trim_space raw) page

-- What the loop does with an answer, where `next` is the rest of the loop.
unfoldable pub list_round {ℓ} :
    {A : Type ℓ}
    → Result Error (Page A)
    → ℕ
    → List A
    → (List A → Option (Result Error (List A)))
    → Option (Result Error (List A))
list_round (err e) page all next = some (err e)
list_round (ok (items, total_pages)) page all next =
    let rest = next (all ++ items) in
    if leb_ℤ total_pages (pos page) || leb (length items) 0 then some (ok (all ++ items)) else rest

-- The loop, from a page on, with the items so far. `none` is fuel that ran out.
unfoldable pub list_from {ℓ} :
    {A : Type ℓ} → (ℕ → Result Error (Page A)) → ℕ → ℕ → List A → Option (Result Error (List A))
unfolding list_round
list_from get zero page all = none
list_from get (suc more) page all = list_round (get page) page all (list_from get more (page + 1))

unfoldable pub list_all {ℓ} :
    {A : Type ℓ} → ℕ → (ℕ → Result Error (Page A)) → Option (Result Error (List A))
unfolding list_from
list_all fuel get = list_from get fuel 1 []

leb_none : {A : Type 0} (xs : List A) → 0 < length xs → leb (length xs) 0 ≡ false
leb_none [] h = absurd (omega arith)
leb_none (x ∷ xs) h = ground arith

module _ {A : Type 0} (get : ℕ → Result Error (Page A)) (chunk : ℕ → List A) (count : ℕ) where
  -- So many pages from a page on, one after the other.
  abbrev pub chunks : ℕ → ℕ → List A
  chunks zero page = []
  chunks (suc more) page = chunk page ++ chunks more (suc page)

  -- The listing has so many pages: each but the last has items, and says so.
  abbrev pub Serves : Type 0
  Serves =
      (page : ℕ)
      → 1 ≤ page
      → page ≤ count
      → (get page ≡ ok (chunk page, pos count)) × (page < count → 0 < length (chunk page))

  list_from-chunks :
      (more page : ℕ) (all : List A)
      → Serves
      → 1 ≤ page
      → page + more ≡ count
      → list_from get (suc more) page all ≡ some (ok (all ++ chunks (suc more) page))
  unfolding list_from list_round
  list_from-chunks zero page all serves first last =
      let (answer, some_items) = serves page first (omega arith) in
      let ends : leb_ℤ (pos count) (pos page) ≡ true = ground arith in
      rw (answer, list_round, ends, append-nil (chunk page)) refl
  list_from-chunks (suc more) page all serves first last =
      let (answer, some_items) = serves page first (omega arith) in
      let goes_on : leb_ℤ (pos count) (pos page) ≡ false = ground arith in
      let full : leb (length (chunk page)) 0 ≡ false =
        leb_none (chunk page) (some_items (omega arith)) in
      let next : page + 1 ≡ suc page = omega arith in
      rw (answer, list_round, goes_on, full, next)
        (list_from-chunks more (suc page) (all ++ chunk page) serves (omega arith) (omega arith)
          ∙ ap (λ l. some (ok l)) (append_assoc all (chunk page) (chunks (suc more) (suc page))))

  -- A listing that has a page or more, each of which but the last has items and each of which says
  -- how many pages there are, is read to its end: as many rounds as there are pages are enough, and
  -- give the items of every page in order.
  pub list_all_collects : Serves → 1 ≤ count → list_all count get ≡ some (ok (chunks count 1))
  unfolding list_all
  list_all_collects serves some_pages = all_of count refl some_pages
    where
      all_of : (n : ℕ) → n ≡ count → 1 ≤ n → list_from get n 1 [] ≡ some (ok (chunks n 1))
      all_of zero e h = absurd (omega arith)
      all_of (suc n) e h = list_from-chunks n 1 [] serves (omega arith) (omega arith)
