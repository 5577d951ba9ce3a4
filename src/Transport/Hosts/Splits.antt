-- ===== src/Transport/Hosts/Splits.antt =====
-- `str::split_once` at one character: where it splits.
use dravr_tronc.Common.{
  ℕ, ◌≡◌, ◌≢◌, refl, ap, none, some, [], ◌∷◌, ◌++◌, ◌==◌, nat_eq, arith, Bool-cases, Option-cases,
  inl, inr, sym,
}
use dravr_tronc.Common.Lists.{All}
use dravr_tronc.Guard.Text.{Text, split_once}

abbrev pub Lacks : ℕ → Text → Type 0
Lacks c text = All (λ d. d ≢ c) text

pub split_once_there :
    (c : ℕ) (before after : Text)
    → Lacks c before
    → split_once c (before ++ c ∷ after) ≡ some (before, after)
unfolding split_once
split_once_there c [] after l = ground (arith, nat_eq.same_iff c c)
split_once_there c (d ∷ ds) after (apart, l) =
    ground (arith, apart, split_once_there c ds after l, nat_eq.same_iff d c)

pub split_once_missing : (c : ℕ) (text : Text) → Lacks c text → split_once c text ≡ none
unfolding split_once
split_once_missing c [] l = refl
split_once_missing c (d ∷ ds) (apart, l) =
    ground (arith, apart, split_once_missing c ds l, nat_eq.same_iff d c)

pub split_once-none : (c : ℕ) (text : Text) → split_once c text ≡ none → Lacks c text
unfolding split_once
split_once-none c [] e = tt
split_once-none c (d ∷ ds) e = elim (Bool-cases (d == c)) [
  | inl here ↦ absurd (ground (arith, e, here))
  | inr later ↦ elim (Option-cases (split_once c ds)) [
    | inl missing ↦
        (λ same. ground (arith, later, same, nat_eq.same_iff d c), split_once-none c ds missing)
    | inr ((x, y), there) ↦ absurd (ground (arith, e, later, there))
  ]
]

pub split_once-some :
    (c : ℕ) (text before after : Text)
    → split_once c text ≡ some (before, after)
    → (text ≡ before ++ c ∷ after) × Lacks c before
unfolding split_once
split_once-some c [] before after e = absurd (ground (arith, e))
split_once-some c (d ∷ ds) before after e = elim (Bool-cases (d == c)) [
  | inl here ↦
      let b : [] ≡ before = ground (arith, e, here) in
      let a : ds ≡ after = ground (arith, e, here) in
      let same : d ≡ c = ground (arith, here, nat_eq.same_iff d c) in
      rw (sym b, sym a, same) (refl, tt)
  | inr later ↦ elim (Option-cases (split_once c ds)) [
    | inl missing ↦ absurd (ground (arith, e, later, missing))
    | inr ((x, y), there) ↦
        let b : d ∷ x ≡ before = ground (arith, e, later, there) in
        let a : y ≡ after = ground (arith, e, later, there) in
        let (t, l) = split_once-some c ds x y there in
        rw (sym b, sym a)
          (ap (◌∷◌ d) t, ((λ same. ground (arith, later, same, nat_eq.same_iff d c)), l))
  ]
]
