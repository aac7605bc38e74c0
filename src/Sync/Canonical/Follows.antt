-- ===== src/Sync/Canonical/Follows.antt =====
-- What following the redirects of a service finds.
use mathlib.Core.Path.{subst}
use app_catalogo.Common.{
  ℕ, zero, suc, ◌+◌, ◌<◌, ◌≡◌, ◌↔◌, refl, sym, ap, ◌∙◌, inl, inr, String, false, List, [], ◌∷◌, any,
  any_sound, str_eq, arith, IsIn, Bool-cases,
}
use app_catalogo.Common.Go.{Result, ok, Error}
use app_catalogo.Common.Text.{is_empty, trim_space}
use app_catalogo.Sync.Mapping.{CartaServiceDetail}
use app_catalogo.Sync.Canonical.{
  Answer, found, moved, failed, follow, get_service_canonical, max_carta_service_redirect_hops,
}

module _ (get : String → Answer) where
  -- The slug leads to another by so many redirects.
  abbrev pub Leads : ℕ → String → String → Type 0
  Leads zero a b = a ≡ b
  Leads (suc n) a b = (to : String) × (get a ≡ moved to) × Leads n (trim_space to) b

  -- So many redirects lead from the slug to the service, over slugs that are not empty.
  abbrev pub Finds : ℕ → String → CartaServiceDetail → Type 0
  Finds zero a d = (is_empty a ≡ false) × (get a ≡ found d)
  Finds (suc n) a d =
      (is_empty a ≡ false) × ((to : String) × (get a ≡ moved to) × Finds n (trim_space to) d)

  Leads-append : (n m : ℕ) (a b c : String) → Leads n a b → Leads m b c → Leads (n + m) a c
  Leads-append zero m a b c h k =
      let same_length : m ≡ 0 + m = omega arith in
      subst (λ l. Leads l a c) same_length (subst (λ s. Leads m s c) (sym h) k)
  Leads-append (suc n) m a b c (to, e, h) k =
      let longer : suc (n + m) ≡ suc n + m = omega arith in
      subst (λ l. Leads l a c) longer (to, e, Leads-append n m (trim_space to) b c h k)

  Leads-unique :
      (n m : ℕ) (a b c : String) (d e : CartaServiceDetail)
      → Leads n a b
      → get b ≡ found d
      → Leads m a c
      → get c ≡ found e
      → n ≡ m
  Leads-unique zero zero a b c d e h p k q = refl
  Leads-unique zero (suc m) a b c d e h p (to, moves, k) q = absurd cc
  Leads-unique (suc n) zero a b c d e (to, moves, h) p k q = absurd cc
  Leads-unique (suc n) (suc m) a b c d e (to, moves, h) p (to2, moves2, k) q =
      let same : to ≡ to2 = cc in
      ap suc (
        Leads-unique n m (trim_space to) b c d e h p
          (subst (λ s. Leads m (trim_space s) c) (sym same) k) q)

  Finds-Leads :
      (n : ℕ) (a : String) (d : CartaServiceDetail)
      → Finds n a d
      → (b : String) × Leads n a b × (get b ≡ found d)
  Finds-Leads zero a d (text, e) = (a, refl, e)
  Finds-Leads (suc n) a d (text, (to, e, h)) =
      let (b, leads, p) = Finds-Leads n (trim_space to) d h in (b, (to, e, leads), p)

  -- A slug from which a service is found does not lead back to itself.
  no_cycle : (k n : ℕ) (a : String) (d : CartaServiceDetail) → Leads (suc k) a a → ¬ Finds n a d
  no_cycle k n a d loop h =
      let (b, leads, p) = Finds-Leads n a d h in
      let same : n ≡ suc k + n =
        Leads-unique n (suc k + n) a b b d d leads p (Leads-append (suc k) n a a b loop leads) p in
      absurd (omega (arith, same))

  -- Each slug that was asked for led here.
  abbrev Behind : List String → String → Type 0
  Behind seen a = (s : String) → IsIn s seen → (k : ℕ) × Leads (suc k) s a

  Behind-step :
      (seen : List String) (a to : String)
      → get a ≡ moved to
      → Behind seen a
      → Behind (a ∷ seen) (trim_space to)
  Behind-step seen a to e behind s (inl same) =
      (zero, subst (λ x. Leads 1 x (trim_space to)) (sym same) (to, e, refl))
  Behind-step seen a to e behind s (inr earlier) =
      let (k, leads) = behind s earlier in
      let longer : suc k + 1 ≡ suc (suc k) = omega arith in
      (
        suc k,
        subst (λ l. Leads l s (trim_space to)) longer
            (Leads-append (suc k) 1 s a (trim_space to) leads (to, e, refl)),
      )

  fresh :
      (seen : List String) (n : ℕ) (a : String) (d : CartaServiceDetail)
      → Behind seen a
      → Finds n a d
      → any (str_eq a) seen ≡ false
  fresh seen n a d behind h = elim (Bool-cases (any (str_eq a) seen)) [
    | inr new ↦ new
    | inl asked ↦
        let (k, loop) = behind a (any_sound a seen asked) in absurd (no_cycle k n a d loop h)
  ]

  follow-Finds :
      (n hops : ℕ) (seen : List String) (a : String) (d : CartaServiceDetail)
      → n < hops
      → Behind seen a
      → Finds n a d
      → follow get hops seen a ≡ ok (d, d.slug)
  unfolding follow
  follow-Finds n zero seen a d few behind h = absurd (omega arith)
  follow-Finds zero (suc hops) seen a d few behind (text, e) =
      rw (text, follow, fresh seen 0 a d behind (text, e), e) refl
  follow-Finds (suc n) (suc hops) seen a d few behind (text, (to, e, h)) =
      rw (text, follow, fresh seen (suc n) a d behind (text, (to, e, h)), e)
        (follow-Finds n hops (a ∷ seen) (trim_space to) d (omega arith)
          (Behind-step seen a to e behind) h)

  follow_sound :
      (hops : ℕ) (seen : List String) (a : String) (d : CartaServiceDetail) (c : String)
      → follow get hops seen a ≡ ok (d, c)
      → (c ≡ d.slug) × ((n : ℕ) × (n < hops) × Finds n a d)
  unfolding follow
  follow_sound zero seen a d c h = absurd (cc h)
  follow_sound (suc hops) seen a d c h = elim (Bool-cases (is_empty a)) [
    | inl empty ↦ absurd (cc (rw (empty, follow) at h))
    | inr text ↦ elim (Bool-cases (any (str_eq a) seen)) [
      | inl asked ↦ absurd (cc (rw (text, follow, asked) at h))
      | inr new ↦
          answered text new (λ to k. follow_sound hops (a ∷ seen) (trim_space to) d c k) (get a)
            refl
    ]
  ]
    where
      answered :
          is_empty a ≡ false
          → any (str_eq a) seen ≡ false
          → ((to : String)
              → follow get hops (a ∷ seen) (trim_space to) ≡ ok (d, c)
              → (c ≡ d.slug) × ((n : ℕ) × (n < hops) × Finds n (trim_space to) d))
          → (o : Answer) → get a ≡ o
          → (c ≡ d.slug) × ((n : ℕ) × (n < suc hops) × Finds n a d)
      answered text new next (found x) e =
          let got : ◌≡◌ {A = Result Error (CartaServiceDetail × String)} (ok (x, x.slug))
              (ok (d, c)) =
            rw (text, follow, new, e) at h in
          let service : x ≡ d = cc in (cc, (zero, omega arith, (text, cc)))
      answered text new next (failed x) e = absurd (cc (rw (text, follow, new, e) at h))
      answered text new next (moved to) e =
          let (slug, (n, few, finds)) = next to (rw (text, follow, new, e) at h) in
          (slug, (suc n, omega arith, (text, (to, e, finds))))

-- `GetServiceCanonical` returns a service exactly if fewer redirects than the bound lead to it from
-- the trimmed slug, over slugs that are not empty, and the slug it returns is that of the service:
-- its test for a cycle refuses no service that the redirects lead to.
pub get_service_canonical_iff :
    (get : String → Answer) (slug : String) (d : CartaServiceDetail) (c : String)
    → (get_service_canonical get slug ≡ ok (d, c)) ↔ (
        (c ≡ d.slug)
        × ((n : ℕ) × (n < max_carta_service_redirect_hops) × Finds get n (trim_space slug) d))
unfolding get_service_canonical
get_service_canonical_iff get slug d c = (
  λ h. follow_sound get max_carta_service_redirect_hops [] (trim_space slug) d c h,
  λ (same, (n, few, h)).
      follow-Finds get n max_carta_service_redirect_hops [] (trim_space slug) d few
        (λ s none. absurd none) h
      ∙ ap (λ x. ok (d, x)) (sym same),
)
