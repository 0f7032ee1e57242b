-- ===== src/Egress/Extraction.antt =====
-- What `extract_allowed_domains` of runner_api/src/sandbox/network_policy.py returns.
use gigaevo_platform.Prelude.{
  ◌≡◌, refl, sym, ap, ◌∙◌, ◌↔◌, ◌⊎◌, inl, inr, true, false, Option, none, some, List, [], ◌∷◌, ◌++◌,
  arith, Bool-cases, Any,
}
use gigaevo_platform.Prelude.Eq.{string_eq, nat_eq, contains}
use gigaevo_platform.Prelude.Text.{Text, strip, text_beq_iff, text_eq}
use gigaevo_platform.Prelude.Iff.{iff_trans, iff_sum, iff_refl, iff_rotate}
use gigaevo_platform.Egress.Domains.{
  web_fetch, is_valid_host, add_domain, add_match, extract, extract_allowed_domains,
}

-- No element twice.
abbrev pub Distinct : List Text → Type 0
Distinct [] = Unit
Distinct (x ∷ xs) = (contains x xs ≡ false) × Distinct xs

contains-append :
    (h x : Text) (xs : List Text)
    → (contains h (xs ++ (x ∷ [])) ≡ true) ↔ ((x ≡ h) ⊎ (contains h xs ≡ true))
contains-append h x [] = ground (arith, text_beq_iff x h)
contains-append h x (y ∷ xs) = ground (arith, text_beq_iff x h, contains-append h x xs)

Distinct-append :
    (x : Text) (xs : List Text) → contains x xs ≡ false → Distinct xs → Distinct (xs ++ (x ∷ []))
Distinct-append x [] h d = (refl, tt)
Distinct-append x (y ∷ xs) h d = (absent x y xs h d.0, Distinct-append x xs (ground (arith, h)) d.1)
  where
    absent :
        (x y : Text) (xs : List Text)
        → contains x (y ∷ xs) ≡ false
        → contains y xs ≡ false
        → contains y (xs ++ (x ∷ [])) ≡ false
    absent x y xs h k = ground (arith, contains-append y x xs, text_beq_iff y x)

add_domain-Distinct :
    (host : Text) (seen : List Text) → Distinct seen → Distinct (add_domain host seen)
unfolding add_domain
add_domain-Distinct host seen d = ground (arith, Distinct-append host seen)

add_domain_iff :
    (host : Text) (seen : List Text) (h : Text)
    → (contains h (add_domain host seen) ≡ true)
      ↔ (((host ≡ h) × (is_valid_host h ≡ true)) ⊎ (contains h seen ≡ true))
unfolding add_domain
add_domain_iff host seen h = elim (Bool-cases (is_valid_host host)) [
  | inr bad ↦ rw bad (λ k. inr k, elim [ inl p ↦ absurd (clash h p.0 p.1 bad) | inr k ↦ k ])
  | inl good ↦ elim (Bool-cases (contains host seen)) [
    | inl known ↦
        rw (good, known)
          (λ k. inr k, elim [ inl p ↦ ap (λ g. contains g seen) (sym p.0) ∙ known | inr k ↦ k ])
    | inr new ↦
        rw (good, new)
          (iff_trans (contains-append h host seen)
            (iff_sum (λ e. (e, ap is_valid_host (sym e) ∙ good), λ p. p.0) iff_refl))
  ]
]
  where
    clash : (h : Text) → host ≡ h → is_valid_host h ≡ true → is_valid_host host ≡ false → ⊥
    clash h e v bad = cc

module _ (lower : Text → Text) where
  -- An entry that names the host, written as the list has it.
  abbrev pub Asks : Text → Text → Type 0
  Asks h entry =
      (raw : Text) × (web_fetch (strip entry) ≡ some raw)
      × (lower (strip raw) ≡ h)
      × (is_valid_host h ≡ true)

  add_match_iff :
      (found : Option Text) (seen : List Text) (h entry : Text)
      → web_fetch (strip entry) ≡ found
      → (contains h (add_match lower found seen) ≡ true) ↔ (Asks h entry ⊎ (contains h seen ≡ true))
  add_match_iff none seen h entry e = (
    λ k. inr k,
    elim [ inl (raw, f, low, valid) ↦ absurd (none_some raw (sym e ∙ f)) | inr k ↦ k ],
  )
    where
      none_some : (raw : Text) → none ≡ some raw → ⊥
      none_some raw e = cc
  add_match_iff (some raw) seen h entry e =
      iff_trans (add_domain_iff (lower (strip raw)) seen h)
        (iff_sum (λ p. (raw, e, p.0, p.1), back) iff_refl)
    where
      back : Asks h entry → (lower (strip raw) ≡ h) × (is_valid_host h ≡ true)
      back (raw', f, same, valid) =
          let both : raw' ≡ raw = cc in (ap (λ r. lower (strip r)) (sym both) ∙ same, valid)

  extract_iff :
      (tools seen : List Text) (h : Text)
      → (contains h (extract lower tools seen) ≡ true)
        ↔ (Any (Asks h) tools ⊎ (contains h seen ≡ true))
  unfolding extract
  extract_iff [] seen h = (λ k. inr k, elim [ inl x ↦ absurd x | inr k ↦ k ])
  extract_iff (entry ∷ tools) seen h =
      let found = web_fetch (strip entry) in
      iff_trans (extract_iff tools (add_match lower found seen) h)
        (iff_trans (iff_sum iff_refl (add_match_iff found seen h entry refl)) iff_rotate)

  add_match-Distinct :
      (found : Option Text) (seen : List Text)
      → Distinct seen
      → Distinct (add_match lower found seen)
  add_match-Distinct none seen d = d
  add_match-Distinct (some raw) seen d = add_domain-Distinct (lower (strip raw)) seen d

  extract-Distinct : (tools seen : List Text) → Distinct seen → Distinct (extract lower tools seen)
  unfolding extract
  extract-Distinct [] seen d = d
  extract-Distinct (entry ∷ tools) seen d =
      extract-Distinct tools (add_match lower (web_fetch (strip entry)) seen)
        (add_match-Distinct (web_fetch (strip entry)) seen d)

  -- The domains of a skill are distinct, and a host is among them exactly when it is a valid host
  -- and some entry, stripped, matches the WebFetch expression with a group that is this host once
  -- stripped and in lower case.
  pub extract_allowed_domains_iff :
      (tools : List Text)
      → Distinct (extract_allowed_domains lower tools)
        × ((h : Text)
            → (contains h (extract_allowed_domains lower tools) ≡ true) ↔ Any (Asks h) tools)
  unfolding extract_allowed_domains
  extract_allowed_domains_iff tools = (
    extract-Distinct tools [] tt,
    λ h.
        iff_trans (extract_iff tools [] h)
          (elim [ inl x ↦ x | inr k ↦ absurd (false-true k) ], λ x. inl x),
  )
    where
      false-true : false ≡ true → ⊥
      false-true e = cc
