-- ===== src/Egress/Matching.antt =====
-- Which hosts an allowlist lets through, in terms of the entries that it was made from.
use gigaevo_platform.Prelude.{
  ℕ, ◌+◌, ◌≡◌, refl, sym, ap, ◌∙◌, ◌≢◌, ◌↔◌, ◌⊎◌, inl, inr, Bool, true, false, ◌&&◌, ◌||◌, List, [],
  ◌∷◌, ◌++◌, arith, ltb, if◌then◌else◌, length, drop,
}
use gigaevo_platform.Prelude.Eq.{◌==◌, string_eq, nat_eq, contains}
use gigaevo_platform.Prelude.{Any, and_left, and_right, ltb→lt, length-append}
use gigaevo_platform.Prelude.Text.{
  Text, codes, text_eq, text_beq_iff, starts_with, ends_with, ends_with-append, ends_with-prefix,
}
use gigaevo_platform.Prelude.Iff.{iff_trans, iff_sym, iff_sum, iff_refl, iff_rotate}
use gigaevo_platform.Prelude.Result.{bind-ok, ok, err}
use gigaevo_platform.Egress.AllowList.{
  no_port, AllowList, Entry, literal, suffix, classify, add_entry, normalise, add_hosts, allow_list,
  some_suffix, host_matches, is_empty,
}

-- What one normalised entry permits: itself, or, for a wildcard, its base behind at least one more
-- character and a dot.
pub data Permits (entry host : Text) : Type 0 where
  exact : starts_with entry (codes "*.") ≡ false → entry ≡ host → Permits entry host
  subdomain :
      (label base : Text)
      → label ≢ []
      → entry ≡ codes "*." ++ base
      → host ≡ label ++ (b'.' ∷ base)
      → Permits entry host

-- What the built list lets through, for a normalised host.
abbrev lets : AllowList → Text → Bool
lets a host = contains host a.literals || some_suffix a.suffixes host

under : Text → Text → Bool
under host base = ends_with host (b'.' ∷ base) && ltb (length base + 1) (length host)

under_sound :
    (host base : Text)
    → under host base ≡ true
    → (label : Text) × (label ≢ []) × (host ≡ label ++ (b'.' ∷ base))
unfolding under
under_sound host base h =
    let (p, e) = ends_with-prefix host (b'.' ∷ base) (and_left _ _ h) in
    (
      p,
      λ empty. absurd (
          omega (
            arith,
            ap length (e ∙ ap (λ r. r ++ b'.' ∷ base) empty),
            ltb→lt (length base + 1) (length host) (and_right (ends_with host (b'.' ∷ base)) _ h),
          )),
      e,
    )

under_complete : (label base : Text) → label ≢ [] → under (label ++ (b'.' ∷ base)) base ≡ true
unfolding under
under_complete [] base h = absurd (h refl)
under_complete (c ∷ label) base h =
    rw (ends_with-append (c ∷ label) (b'.' ∷ base))
      (ground (arith, length-append label (b'.' ∷ base)))

starts_with-drop : (s : Text) → starts_with s (codes "*.") ≡ true → s ≡ codes "*." ++ drop 2 s
starts_with-drop [] h = cc
starts_with-drop (a ∷ []) h = ground arith
starts_with-drop (a ∷ b ∷ s) h = ground arith

classify-literal :
    (entry host : Text)
    → classify entry ≡ ok (literal host)
    → (entry ≡ host) × (starts_with entry (codes "*.") ≡ false)
unfolding classify
classify-literal entry host h = ground (arith)

classify-suffix :
    (entry base : Text) → classify entry ≡ ok (suffix base) → entry ≡ codes "*." ++ base
unfolding classify
classify-suffix entry base h = ground (arith, starts_with-drop entry)

or_iff : (a b : Bool) → ((a || b) ≡ true) ↔ ((a ≡ true) ⊎ (b ≡ true))
or_iff true b = (λ h. inl refl, λ h. refl)
or_iff false b = (λ h. inr h, λ h. ground arith)

-- One entry more: what it permits, and what was let through before.
lets-add_literal :
    (a : AllowList) (entry host : Text)
    → (lets (add_entry (literal entry) a) host ≡ true) ↔ ((entry ≡ host) ⊎ (lets a host ≡ true))
lets-add_literal a entry host = ground (arith, text_beq_iff entry host)

lets-add_suffix :
    (a : AllowList) (base host : Text)
    → (lets (add_entry (suffix base) a) host ≡ true)
      ↔ ((under host base ≡ true) ⊎ (lets a host ≡ true))
unfolding some_suffix under
lets-add_suffix a base host = ground arith

-- A wildcard is told by its start.
not_wildcard :
    (entry base : Text) → entry ≡ codes "*." ++ base → starts_with entry (codes "*.") ≡ false → ⊥
not_wildcard entry base e f = cc

Permits-literal :
    (entry l host : Text) → classify entry ≡ ok (literal l) → Permits entry host ↔ (l ≡ host)
Permits-literal entry l host h =
    (only, λ e. exact (classify-literal entry l h).1 ((classify-literal entry l h).0 ∙ e))
  where
    only : Permits entry host → l ≡ host
    only (exact f e) = sym (classify-literal entry l h).0 ∙ e
    only (subdomain label base ne e f) =
        absurd (not_wildcard entry base e (classify-literal entry l h).1)

Permits-suffix :
    (entry base host : Text)
    → classify entry ≡ ok (suffix base)
    → Permits entry host ↔ (under host base ≡ true)
Permits-suffix entry base host h = (
  only,
  λ u.
      let (label, ne, e) = under_sound host base u in
      subdomain label base ne (classify-suffix entry base h) e,
)
  where
    only : Permits entry host → under host base ≡ true
    only (exact f e) = absurd (not_wildcard entry base (classify-suffix entry base h) f)
    only (subdomain label base' ne e f) =
        let same : base' ≡ base = ap (drop 2) (sym e ∙ classify-suffix entry base h) in
        rw (f, same) (under_complete label base ne)

lets-add_entry :
    (a : AllowList) (entry host : Text) (e : Entry)
    → classify entry ≡ ok e
    → (lets (add_entry e a) host ≡ true) ↔ (Permits entry host ⊎ (lets a host ≡ true))
lets-add_entry a entry host (literal l) h =
    iff_trans (lets-add_literal a l host)
      (iff_sum (iff_sym (Permits-literal entry l host h)) iff_refl)
lets-add_entry a entry host (suffix base) h =
    iff_trans (lets-add_suffix a base host)
      (iff_sum (iff_sym (Permits-suffix entry base host h)) iff_refl)

guarded :
    {Q : Type 0} (a : AllowList) (host : Text)
    → (lets a host ≡ true) ↔ Q
    → ((if host == [] then false else lets a host) ≡ true) ↔ ((host ≢ []) × Q)
guarded a [] f = (λ h. cc, λ p. absurd (p.0 refl))
guarded a (c ∷ host) f = (λ h. (λ e. cc, f.0 h), λ p. f.1 p.1)

nothing_let :
    (host : Text) (ports : List ℕ)
    → ¬ (lets (record { literals = []; suffixes = []; ports = ports }) host ≡ true)
unfolding some_suffix
nothing_let host ports h = cc

module _ (lower : Text → Text) where
  lets-add_hosts :
      (hosts : List Text) (a b : AllowList) (host : Text)
      → add_hosts lower hosts a ≡ ok b
      → (lets b host ≡ true)
        ↔ (Any (λ raw. Permits (normalise lower raw) host) hosts ⊎ (lets a host ≡ true))
  unfolding add_hosts
  lets-add_hosts [] a b host h =
      let e : b ≡ a = cc in rw e (λ x. inr x, elim [ inl x ↦ absurd x | inr x ↦ x ])
  lets-add_hosts (raw ∷ hosts) a b host h =
      let (e, parsed, rest) = bind-ok (classify (normalise lower raw)) _ h in
      iff_trans (lets-add_hosts hosts (add_entry e a) b host rest) (
        iff_trans (iff_sum iff_refl (lets-add_entry a (normalise lower raw) host e parsed))
          iff_rotate)

  allow_list-add_hosts :
      (hosts : List Text) (ports : List ℕ) (a : AllowList)
      → allow_list lower hosts ports ≡ ok a
      → add_hosts lower hosts (record { literals = []; suffixes = []; ports = ports }) ≡ ok a
  unfolding allow_list
  allow_list-add_hosts hosts ports a h =
      let (b, built, ends) = bind-ok (add_hosts lower hosts _) _ h in
      let same : b ≡ a = ends_same b a ends in rw (← same) built
    where
      ends_same :
          (b c : AllowList) → (if is_empty b.ports then err no_port else ok b) ≡ ok c → b ≡ c
      ends_same b c e = ground arith

  -- A list made from some entries lets a host through exactly when the host, normalised, is not
  -- empty and one of the entries, normalised, permits it.
  pub host_matches_iff :
      (hosts : List Text) (ports : List ℕ) (a : AllowList) (host : Text)
      → allow_list lower hosts ports ≡ ok a
      → (host_matches lower a host ≡ true) ↔ (
          (normalise lower host ≢ [])
          × Any (λ raw. Permits (normalise lower raw) (normalise lower host)) hosts)
  unfolding allow_list host_matches
  host_matches_iff hosts ports a host h = guarded a (normalise lower host) (
      iff_trans
        (lets-add_hosts hosts _ a (normalise lower host) (allow_list-add_hosts hosts ports a h))
        (elim [ inl x ↦ x | inr x ↦ absurd (nothing_let (normalise lower host) ports x) ], inl))

  add_hosts-ports :
      (hosts : List Text) (a b : AllowList) → add_hosts lower hosts a ≡ ok b → b.ports ≡ a.ports
  unfolding add_hosts
  add_hosts-ports [] a b h = cc
  add_hosts-ports (raw ∷ hosts) a b h =
      let (e, parsed, rest) = bind-ok (classify (normalise lower raw)) _ h in
      add_hosts-ports hosts (add_entry e a) b rest ∙ same e
    where
      same : (e : Entry) → (add_entry e a).ports ≡ a.ports
      same (literal l) = refl
      same (suffix base) = refl

  pub allow_list-ports :
      (hosts : List Text) (ports : List ℕ) (a : AllowList)
      → allow_list lower hosts ports ≡ ok a
      → a.ports ≡ ports
  allow_list-ports hosts ports a h =
      add_hosts-ports hosts _ a (allow_list-add_hosts hosts ports a h)
