-- ===== src/Config/Roots/Cover.antt =====
-- The roots that are kept cover all that were given.
use ooth.Prelude.{
  ◌≡◌, ◌≢◌, ◌↔◌, ◌⊎◌, some, some_inj, Option-cases, arith, inl, inr, refl, sym, ◌∙◌, Bool, true,
  Bool-cases, List, [], ◌∷◌, ◌++◌, any, In,
}
use mathlib.Core.Bool.{false≢true}
use mathlib.Core.List.{append_assoc, append-nil}
use mathlib.Core.Path.{subst}
use ooth.Config.Validation.Refusals.{any-false_iff, false_iff, ||-false_iff, starts_with_iff}
use ooth.Prelude.Texts.{Text, codes, starts_with, text_eq, text_eq_iff}
use ooth.Config.Roots.{
  Files, covers, keep_roots, before, insert_sorted, sort, compact_after, compact, watched_roots,
}

-- The path from one root to the other does not lead out of the first: it neither is `..` nor starts
-- with `../`.
abbrev pub IsBelow : Files → Text → Text → Type 0
IsBelow files parent root =
    (relative : Text) × (files.rel parent root ≡ some relative)
    × ((relative ≢ codes "..") × ¬ ((rest : Text) × (relative ≡ codes "../" ++ rest)))

covers_iff :
    (files : Files) (parent root : Text)
    → (covers files parent root ≡ true) ↔ IsBelow files parent root
unfolding covers
covers_iff files parent root = elim (Option-cases (files.rel parent root)) [
  | inl none_of ↦ rw (covers, none_of) (λ h. absurd (false≢true h), λ (relative, e, inside). cc)
  | inr (relative, known) ↦
      let inside =
        ||-false_iff (text_eq relative (codes "..")) (starts_with (codes "../") relative)
          (false_iff _ (text_eq_iff relative (codes "..")))
          (false_iff _ (starts_with_iff (codes "../") relative)) in
      rw (covers, known)
        (
          λ h. (relative, refl, inside.0 (ground arith)),
          λ (other, e, words).
              let same = inside.1 (subst Inside (sym (some_inj e)) words) in ground arith,
        )
]
  where
    Inside : Text → Type 0
    Inside relative = (relative ≢ codes "..") × ¬ ((rest : Text) × (relative ≡ codes "../" ++ rest))

-- A root is kept, or lies below one that is.
abbrev pub Covered : Files → List Text → Text → Type 0
Covered files kept root =
    In root kept ⊎ ((parent : Text) × In parent kept × IsBelow files parent root)

any-In :
    (test : Text → Bool) (l : List Text) → any test l ≡ true → (s : Text) × In s l × (test s ≡ true)
any-In test [] h = absurd (false≢true h)
any-In test (s ∷ l) h = elim (Bool-cases (test s)) [
  | inl met ↦ (s, inl refl, met)
  | inr unmet ↦ let (t, i, met) = any-In test l (rw unmet at h) in (t, inr i, met)
]

In-append_left : (s : Text) (l m : List Text) → In s l → In s (l ++ m)
In-append_left s [] m i = absurd i
In-append_left s (t ∷ l) m (inl e) = inl e
In-append_left s (t ∷ l) m (inr i) = inr (In-append_left s l m i)

In-append_right : (s : Text) (l m : List Text) → In s m → In s (l ++ m)
In-append_right s [] m i = i
In-append_right s (t ∷ l) m i = inr (In-append_right s l m i)

In-append : (s : Text) (l m : List Text) → In s (l ++ m) → In s l ⊎ In s m
In-append s [] m i = inr i
In-append s (t ∷ l) m (inl e) = inl (inl e)
In-append s (t ∷ l) m (inr i) = elim (In-append s l m i) [ inl j ↦ inl (inr j) | inr j ↦ inr j ]

-- Sorting and compacting keep the elements.
In-insert_sorted_head : (s : Text) (l : List Text) → In s (insert_sorted s l)
unfolding insert_sorted
In-insert_sorted_head s [] = inl refl
In-insert_sorted_head s (t ∷ l) = elim (Bool-cases (before t s)) [
  | inl later ↦ rw later (inr (In-insert_sorted_head s l))
  | inr here ↦ rw here (inl refl)
]

In-insert_sorted : (s r : Text) (l : List Text) → In r l → In r (insert_sorted s l)
unfolding insert_sorted
In-insert_sorted s r [] i = absurd i
In-insert_sorted s r (t ∷ l) i = elim (Bool-cases (before t s)) [
  | inl later ↦ rw later (elim i [ inl e ↦ inl e | inr j ↦ inr (In-insert_sorted s r l j) ])
  | inr here ↦ rw here (inr i)
]

In-sort : (r : Text) (l : List Text) → In r l → In r (sort l)
unfolding sort
In-sort r [] i = absurd i
In-sort r (s ∷ l) (inl e) =
    subst (λ t. In r (insert_sorted t (sort l))) e (In-insert_sorted_head r (sort l))
In-sort r (s ∷ l) (inr i) = In-insert_sorted s r (sort l) (In-sort r l i)

In-compact_after : (s r : Text) (l : List Text) → In r l → (r ≡ s) ⊎ In r (compact_after s l)
unfolding compact_after
In-compact_after s r [] i = absurd i
In-compact_after s r (t ∷ l) i = elim (Bool-cases (text_eq t s)) [
  | inl same ↦
      let again : t ≡ s = (text_eq_iff t s).0 same in
      rw same (elim i [ inl e ↦ inl (e ∙ again) | inr j ↦ In-compact_after s r l j ])
  | inr new ↦ rw new (elim i [ inl e ↦ inr (inl e) | inr j ↦ inr (In-compact_after t r l j) ])
]

In-compact : (r : Text) (l : List Text) → In r l → In r (compact l)
unfolding compact
In-compact r [] i = absurd i
In-compact r (s ∷ l) (inl e) = inl e
In-compact r (s ∷ l) (inr i) = In-compact_after s r l i

module _ (files : Files) where
  kept_In : (kept l : List Text) (r : Text) → In r kept → In r (keep_roots files kept l)
  unfolding keep_roots
  kept_In kept [] r i = i
  kept_In kept (s ∷ l) r i = elim (Bool-cases (any (λ parent. covers files parent s) kept)) [
    | inl old ↦ rw old (kept_In kept l r i)
    | inr new ↦ rw new (kept_In (kept ++ s ∷ []) l r (In-append_left r kept (s ∷ []) i))
  ]

  Covered-kept :
      (kept l : List Text) (r : Text)
      → Covered files kept r
      → Covered files (keep_roots files kept l) r
  Covered-kept kept l r (inl i) = inl (kept_In kept l r i)
  Covered-kept kept l r (inr (parent, i, c)) = inr (parent, kept_In kept l parent i, c)

  keep_roots-Covered :
      (kept l : List Text) (r : Text) → In r l → Covered files (keep_roots files kept l) r
  unfolding keep_roots
  keep_roots-Covered kept [] r i = absurd i
  keep_roots-Covered kept (s ∷ l) r i =
      elim (Bool-cases (any (λ parent. covers files parent s) kept)) [
        | inl old ↦ rw old (elim i [
          | inl e ↦
              let (parent, j, c) = any-In (λ p. covers files p s) kept old in
              Covered-kept kept l r (
                inr (
                  parent,
                  j,
                  (covers_iff files parent r).0
                      (subst (λ t. covers files parent t ≡ true) (sym e) c),
                ))
          | inr j ↦ keep_roots-Covered kept l r j
        ])
        | inr new ↦ rw new (elim i [
          | inl e ↦
              Covered-kept (kept ++ s ∷ []) l r (inl (In-append_right r kept (s ∷ []) (inl e)))
          | inr j ↦ keep_roots-Covered (kept ++ s ∷ []) l r j
        ])
      ]

  -- None of these roots lies below one that stands before it.
  abbrev pub AreApart : List Text → List Text → Type 0
  AreApart earlier [] = Unit {0}
  AreApart earlier (root ∷ rest) =
      ((parent : Text) → In parent earlier → ¬ IsBelow files parent root)
      × AreApart (earlier ++ root ∷ []) rest

  keep_roots-AreApart :
      (kept l : List Text)
      → (added : List Text) × (keep_roots files kept l ≡ kept ++ added) × AreApart kept added
  unfolding keep_roots
  keep_roots-AreApart kept [] = ([], sym (append-nil kept), tt)
  keep_roots-AreApart kept (s ∷ l) =
      elim (Bool-cases (any (λ parent. covers files parent s) kept)) [
        | inl old ↦ rw old (keep_roots-AreApart kept l)
        | inr new ↦
            let (added, same, apart) = keep_roots-AreApart (kept ++ s ∷ []) l in
            let alone =
              (any-false_iff (λ parent. covers files parent s) kept
                  (λ parent. false_iff _ (covers_iff files parent s))).0
                new in
            rw new (s ∷ added, same ∙ append_assoc kept (s ∷ []) added, (alone, apart))
      ]

  -- Each root of a snapshot is watched itself or lies below one that is, and none of the roots that are
  -- watched lies below one that stands before it. To lie below a root is to have a path from it that
  -- does not lead out of it: one that neither is `..` nor starts with `../`.
  pub watched_roots-Covered :
      (roots : List Text) (root : Text)
      → In root roots
      → Covered files (watched_roots files roots) root × AreApart [] (watched_roots files roots)
  unfolding watched_roots
  watched_roots-Covered roots root i =
      let (added, same, apart) = keep_roots-AreApart [] (compact (sort roots)) in
      (
        keep_roots-Covered [] (compact (sort roots)) root
            (In-compact root (sort roots) (In-sort root roots i)),
        subst (AreApart []) (sym same) apart,
      )
