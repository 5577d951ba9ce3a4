-- ===== src/Guard/Policy/Paths.antt =====
-- http_client/guard/policy.rs: a path under a prefix, segment by segment.
use dravr_tronc.Common.{
  Bool, ◌||◌, ◌==◌, ℕ, ◌≡◌, ◌≢◌, ◌↔◌, refl, ap, sym, ◌∙◌, inl, inr, true, false, Option, some, List,
  [], ◌∷◌, ◌++◌, nat_eq, list_eq, arith, Option-cases, leb, ltb,
}
use dravr_tronc.Common.Lists.{length, any, All}
use dravr_tronc.Guard.Text.{Text, is_control, text_eq_iff, strip_prefix, split}
use dravr_tronc.Guard.Policy.{
  PathPrefix, escapes, pop_empty, agrees, decode_all, is_under, admits_path,
}

agrees-append : (es rest : List Text) → agrees es (es ++ rest) ≡ true
unfolding agrees
agrees-append [] rest = refl
agrees-append (e ∷ es) rest = ground (arith, agrees-append es rest, text_eq_iff e e)

-- A longer list that agrees starts with the shorter one.
agrees-rest :
    (es ds : List Text)
    → agrees es ds ≡ true
    → leb (length es) (length ds) ≡ true
    → (rest : List Text) × (ds ≡ es ++ rest)
unfolding agrees
agrees-rest [] ds a l = (ds, refl)
agrees-rest (e ∷ es) [] a l = absurd (ground (arith, l))
agrees-rest (e ∷ es) (d ∷ ds) a l =
    let (rest, same) = agrees-rest es ds (ground (arith, a)) (ground (arith, l)) in
    let here : e ≡ d = ground (arith, a, text_eq_iff e d) in
    (rest, ap (λ (x : Text). x ∷ ds) (sym here) ∙ ap (◌∷◌ e) same)

length-prefix :
    (es rest : List Text)
    → (leb (length es) (length (es ++ rest)) ≡ true)
      × (rest ≢ [] → ltb (length es) (length (es ++ rest)) ≡ true)
      × (rest ≡ [] → ltb (length es) (length (es ++ rest)) ≡ false)
length-prefix [] [] = ground arith
length-prefix [] (r ∷ rs) = ground arith
length-prefix (e ∷ es) rest = ground (arith, length-prefix es rest)

-- A text that stays where it stands in a path.
abbrev pub IsPlain : Text → Type 0
IsPlain d =
    (d ≢ b'.' ∷ [])
    × (d ≢ b'.' ∷ b'.' ∷ [])
    × All (λ c. (c ≢ b'/') × (c ≢ b'\\') × (c ≢ b'%') × (is_control c ≡ false)) d

any-none :
    (p : ℕ → Bool) (P : ℕ → Type 0) (d : Text)
    → ((c : ℕ) → p c ≡ false → P c)
    → any p d ≡ false
    → All P d
any-none p P [] f n = tt
any-none p P (c ∷ cs) f n = (f c (ground (arith, n)), any-none p P cs f (ground (arith, n)))

escapes-IsPlain : (d : Text) → escapes d ≡ false → IsPlain d
unfolding escapes
escapes-IsPlain d e = (
  (λ h. ground (arith, e, h, text_eq_iff d (b'.' ∷ []))),
  (λ h. ground (arith, e, h, text_eq_iff d (b'.' ∷ b'.' ∷ []))),
  any-none (λ c. any (λ d. c == d) (b'/' ∷ b'\\' ∷ b'%' ∷ []) || is_control c)
      (λ c. (c ≢ b'/') × (c ≢ b'\\') × (c ≢ b'%') × (is_control c ≡ false)) d
      (λ c h. (ground (arith, h), ground (arith, h), ground (arith, h), ground (arith, h)))
      (ground (arith, e)),
)

module _ (decode : Text → Option Text) where
  -- Each segment, decoded, and none that leaves its place.
  abbrev pub Decodes : List Text → List Text → Type 0
  Decodes [] [] = Unit
  Decodes (s ∷ ss) (d ∷ ds) = (decode s ≡ some d) × IsPlain d × Decodes ss ds
  Decodes _ _ = ⊥

  decode_all-cons :
      (s d : Text) (ss ds : List Text)
      → decode_all decode (s ∷ ss) ≡ some (d ∷ ds)
      → (decode s ≡ some d) × (escapes d ≡ false) × (decode_all decode ss ≡ some ds)
  unfolding decode_all
  decode_all-cons s d ss ds e = (ground (arith, e), ground (arith, e), ground (arith, e))

  decode_all-Decodes : (ss ds : List Text) → decode_all decode ss ≡ some ds → Decodes ss ds
  unfolding decode_all
  decode_all-Decodes [] [] e = tt
  decode_all-Decodes [] (d ∷ ds) e = absurd (ground (arith, e))
  decode_all-Decodes (s ∷ ss) [] e = absurd (ground (arith, e))
  decode_all-Decodes (s ∷ ss) (d ∷ ds) e =
      let (read, plain, later) = decode_all-cons s d ss ds e in
      (read, escapes-IsPlain d plain, decode_all-Decodes ss ds later)

  pub is_under_iff :
      (p : PathPrefix) (ds : List Text)
      → (is_under decode p ds ≡ true)
        ↔ ((rest : List Text) × (ds ≡ p.segments ++ rest) × (p.directory ≡ true → rest ≢ []))
  unfolding is_under
  is_under_iff p ds = (to, from)
    where
      to :
          is_under decode p ds ≡ true
          → (rest : List Text) × (ds ≡ p.segments ++ rest) × (p.directory ≡ true → rest ≢ [])
      to e =
          let (rest, same) = agrees-rest p.segments ds (ground (arith, e)) (ground (arith, e)) in
          let lengths = length-prefix p.segments rest in
          (rest, same, (λ d n. ground (arith, e, d, n, lengths, ap length same)))

      from :
          ((rest : List Text) × (ds ≡ p.segments ++ rest) × (p.directory ≡ true → rest ≢ []))
          → is_under decode p ds ≡ true
      from (rest, same, strict) =
          let lengths = length-prefix p.segments rest in
          rw same (ground (arith, strict, lengths, agrees-append p.segments rest))

  unstripped : (c : ℕ) (t inner : Text) → strip_prefix c t ≡ some inner → t ≡ c ∷ inner
  unfolding strip_prefix
  unstripped c [] inner e = absurd (ground (arith, e))
  unstripped c (d ∷ ds) inner e = ground (arith, e)

  -- A path that a prefix admits is `/` and segments that all decode. None of them, decoded, is `.` or
  -- `..` or holds a separator, an escape or a control character; and, but for an empty last one,
  -- they are those of the prefix and then further ones, at least one where the prefix ends in `/`.
  pub admits_path_sound :
      (p : PathPrefix) (path : Text)
      → admits_path decode p path ≡ true
      → (inner : Text) × (decoded : List Text) × (rest : List Text) × (path ≡ b'/' ∷ inner)
        × Decodes (split b'/' inner) decoded
        × (pop_empty decoded ≡ p.segments ++ rest)
        × (p.directory ≡ true → rest ≢ [])
  unfolding admits_path
  admits_path_sound p path e = elim (Option-cases (strip_prefix b'/' path)) [
    | inl relative ↦ absurd (ground (arith, e, relative))
    | inr (inner, stripped) ↦ elim (Option-cases (decode_all decode (split b'/' inner))) [
      | inl undecoded ↦ absurd (ground (arith, e, stripped, undecoded))
      | inr (decoded, all) ↦
          let (rest, same, strict) =
            (is_under_iff p (pop_empty decoded)).0 (ground (arith, e, stripped, all)) in
          (
            inner,
            decoded,
            rest,
            unstripped b'/' path inner stripped,
            decode_all-Decodes (split b'/' inner) decoded all,
            same,
            strict,
          )
    ]
  ]
