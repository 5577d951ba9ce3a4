-- ===== src/Trace/Header.antt =====
-- server/trace_context.rs: the headers that are valid, by their parts.
use dravr_tronc.Common.{
  ℕ, suc, zero, ◌+◌, ◌≡◌, ◌≢◌, refl, ap, sym, ◌∙◌, Bool, true, false, ◌&&◌, [], ◌∷◌, ◌++◌, nat_eq,
  list_eq, list_beq_iff, arith,
}
use dravr_tronc.Common.Lists.{
  take-append-drop, length-take, length-drop, length, take, drop, all, get_elem?,
}
use dravr_tronc.Common.Bytes.{Bytes}
use dravr_tronc.Trace.{
  slice, is_lower_hex, is_dash, not_zero, is_long, is_version, is_valid_traceparent,
}

-- The parts of a header, and what is left of it.
pub record Parts (bytes : Bytes) : Type 0 where
  pub version : Bytes
  pub trace : Bytes
  pub parent : Bytes
  pub flags : Bytes
  pub rest : Bytes
  pub whole : bytes ≡ version ++ b'-' ∷ (trace ++ b'-' ∷ (parent ++ b'-' ∷ (flags ++ rest)))
  pub version_hex :
      (length version ≡ 2) × (all is_lower_hex version ≡ true) × (version ≢ b'f' ∷ b'f' ∷ [])
  pub trace_hex : (length trace ≡ 32) × (all is_lower_hex trace ≡ true) × (not_zero trace ≡ true)
  pub parent_hex :
      (length parent ≡ 16) × (all is_lower_hex parent ≡ true) × (not_zero parent ≡ true)
  pub flags_hex : (length flags ≡ 2) × (all is_lower_hex flags ≡ true)

-- A list cut at a byte.
cut_at :
    (n : ℕ) (bytes : Bytes)
    → is_dash (get_elem? bytes n) ≡ true
    → (bytes ≡ take n bytes ++ b'-' ∷ drop (suc n) bytes) × (length (take n bytes) ≡ n)
unfolding is_dash
cut_at n [] d = absurd (ground (arith, d))
cut_at zero (b ∷ bs) d = (ap (λ (x : ℕ). x ∷ bs) (ground (arith, d, nat_eq.same_iff b b'-')), refl)
cut_at (suc n) (b ∷ bs) d =
    let (whole, size) = cut_at n bs d in (ap (◌∷◌ b) whole, omega (arith, size))

get_elem?-drop : (n m : ℕ) (bytes : Bytes) → get_elem? (drop n bytes) m ≡ get_elem? bytes (m + n)
get_elem?-drop zero m bytes = ap (get_elem? bytes) (omega arith)
get_elem?-drop (suc n) m [] = refl
get_elem?-drop (suc n) m (b ∷ bs) =
    get_elem?-drop n m bs ∙ ap (get_elem? (b ∷ bs)) {x = suc (m + n)} (omega arith)

both : (a b : Bool) → (a && b) ≡ true → (a ≡ true) × (b ≡ true)
both true b e = (refl, e)
both false b e = absurd (ground (arith, e))

apart : (v : Bytes) → is_version v ≡ true → v ≢ b'f' ∷ b'f' ∷ []
unfolding is_version
apart v e h = ground (arith, e, h, list_beq_iff v (b'f' ∷ b'f' ∷ []))

two_flags : (bytes : Bytes) → is_long bytes ≡ true → length (take 2 (drop 53 bytes)) ≡ 2
unfolding is_long
two_flags bytes long = ground (arith, long, length-take 2 (drop 53 bytes), length-drop 53 bytes)

drop_nil : (m : ℕ) → drop {A = ℕ} m [] ≡ []
drop_nil zero = refl
drop_nil (suc m) = refl

drop-drop : (m n : ℕ) (bytes : Bytes) → drop m (drop n bytes) ≡ drop (m + n) bytes
drop-drop m zero bytes = let same : m ≡ m + 0 = omega arith in ap (λ (k : ℕ). drop k bytes) same
drop-drop m (suc n) [] = drop_nil m ∙ sym (drop_nil (m + suc n))
drop-drop m (suc n) (b ∷ bs) =
    let same : suc (m + n) ≡ m + suc n = omega arith in
    drop-drop m n bs ∙ ap (λ (k : ℕ). drop k (b ∷ bs)) same

-- A header that is valid is made of a version, a trace id, a parent id and flags, in lower-case
-- hexadecimal digits of the right number, neither id all zeros and the version not `ff`.
pub is_valid_traceparent-Parts : (bytes : Bytes) → is_valid_traceparent bytes ≡ true → Parts bytes
unfolding is_valid_traceparent slice
is_valid_traceparent-Parts bytes v =
    let (v10, flags_hex) = both _ _ v in
    let (v9, parent_zero) = both _ _ v10 in
    let (v8, parent_hex) = both _ _ v9 in
    let (v7, trace_zero) = both _ _ v8 in
    let (v6, trace_hex) = both _ _ v7 in
    let (v5, not_ff) = both _ _ v6 in
    let (v4, version_hex) = both _ _ v5 in
    let (v3, tail) = both _ _ v4 in
    let (v2, dash3) = both _ _ v3 in
    let (v1, dash2) = both _ _ v2 in
    let (long, dash1) = both _ _ v1 in
    let first = cut_at 2 bytes dash1 in
    let second = cut_at 32 (drop 3 bytes) (ap is_dash (get_elem?-drop 3 32 bytes) ∙ dash2) in
    let third = cut_at 16 (drop 36 bytes) (ap is_dash (get_elem?-drop 36 16 bytes) ∙ dash3) in
    let after2 : drop 33 (drop 3 bytes) ≡ drop 36 bytes = drop-drop 33 3 bytes in
    let after3 : drop 17 (drop 36 bytes) ≡ drop 53 bytes = drop-drop 17 36 bytes in
    let flagged = take-append-drop 2 (drop 53 bytes) in
    let third_on =
      third.0 ∙ ap (λ (l : Bytes). take 16 (drop 36 bytes) ++ b'-' ∷ l) (after3 ∙ sym flagged) in
    let second_on =
      second.0 ∙ ap (λ (l : Bytes). take 32 (drop 3 bytes) ++ b'-' ∷ l) (after2 ∙ third_on) in
    let two = two_flags bytes long in
    record {
      version = take 2 bytes;
      trace = take 32 (drop 3 bytes);
      parent = take 16 (drop 36 bytes);
      flags = take 2 (drop 53 bytes);
      rest = drop 2 (drop 53 bytes);
      whole = first.0 ∙ ap (λ (l : Bytes). take 2 bytes ++ b'-' ∷ l) second_on;
      version_hex = (first.1, version_hex, apart (take 2 bytes) not_ff);
      trace_hex = (second.1, trace_hex, trace_zero);
      parent_hex = (third.1, parent_hex, parent_zero);
      flags_hex = (two, flags_hex);
    }
