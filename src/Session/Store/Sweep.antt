-- ===== src/Session/Store/Sweep.antt =====
-- mcp/session.rs: what the sweep and the removal of one entry do to the entries and the tokens.
use dravr_tronc.Common.{
  ℕ, ◌-◌, ◌/◌, ltb, ◌≡◌, refl, ◌⊎◌, inl, inr, Bool, true, false, none, some, String, [], ◌∷◌, arith,
  ◌==◌, nat_eq, string_eq, nat_beq_iff, Bool-cases, Option-cases,
}
use dravr_tronc.Common.Assoc.{lookup, IsMap, lookup-retain, retain-IsMap}
use dravr_tronc.Session.{is_expired}
use dravr_tronc.Session.Store.{
  World, Entries, Heap, is_live, end_expired, drop_expired, mark_swept, sweep_if_due,
}

end_expired_mono :
    (ttl now : ℕ) (heap : Heap) (m : Entries) (fired : ℕ → Bool) (x : ℕ)
    → fired x ≡ true
    → end_expired ttl now heap m fired x ≡ true
unfolding end_expired
end_expired_mono ttl now heap [] fired x h = h
end_expired_mono ttl now heap ((k, r) ∷ m) fired x h =
    end_expired_mono ttl now heap m _ x (ground (arith, h))

end_expired_fires :
    (ttl now : ℕ) (heap : Heap) (m : Entries) (fired : ℕ → Bool) (k : String) (x : ℕ)
    → lookup k m ≡ some x
    → is_expired ttl now (heap x) ≡ true
    → end_expired ttl now heap m fired x ≡ true
unfolding end_expired lookup
end_expired_fires ttl now heap [] fired k x h e = ground arith
end_expired_fires ttl now heap ((j, r) ∷ m) fired k x h e = elim (Bool-cases (j == k)) [
  | inl hit ↦ end_expired_mono ttl now heap m _ x (ground (arith, nat_beq_iff x r))
  | inr miss ↦ end_expired_fires ttl now heap m _ k x (ground arith) e
]

-- `w'` is `w` less some expired entries, whose tokens fired.
pub record Drops (now : ℕ) (w w' : World) : Type 0 where
  pub heap : w'.heap ≡ w.heap
  pub ttl : w'.ttl ≡ w.ttl
  pub total : w'.total ≡ w.total
  pub per_caller : w'.per_caller ≡ w.per_caller
  pub is_map : IsMap w'.sessions
  pub entry :
      (k : String) (x : ℕ)
      → lookup k w.sessions ≡ some x
      → (lookup k w'.sessions ≡ some x)
        ⊎ ((is_expired w.ttl now (w.heap x) ≡ true)
            × (w'.fired x ≡ true)
            × (lookup k w'.sessions ≡ none))
  pub sound : (k : String) → lookup k w.sessions ≡ none → lookup k w'.sessions ≡ none
  pub mono : (x : ℕ) → w.fired x ≡ true → w'.fired x ≡ true

Drops-refl : (now : ℕ) (w : World) → IsMap w.sessions → Drops now w w
Drops-refl now w m = record {
  heap = refl;
  ttl = refl;
  total = refl;
  per_caller = refl;
  is_map = m;
  entry = λ k x h. inl h;
  sound = λ k h. h;
  mono = λ x h. h;
}

pub drop_expired-Drops : (now : ℕ) (w : World) → IsMap w.sessions → Drops now w (drop_expired now w)
unfolding drop_expired is_live
drop_expired-Drops now w m = record {
  heap = refl;
  ttl = refl;
  total = refl;
  per_caller = refl;
  is_map = retain-IsMap (is_live w.ttl now w.heap) w.sessions m;
  entry = λ k x h. elim (Bool-cases (is_expired w.ttl now (w.heap x))) [
    | inl e ↦ inr (
      e,
      end_expired_fires w.ttl now w.heap w.sessions w.fired k x h e,
      rw (lookup-retain (is_live w.ttl now w.heap) k w.sessions m, h, e),
    )
    | inr e ↦ inl (rw (lookup-retain (is_live w.ttl now w.heap) k w.sessions m, h, e))
  ];
  sound = λ k h. rw (lookup-retain (is_live w.ttl now w.heap) k w.sessions m, h);
  mono = λ x h. end_expired_mono w.ttl now w.heap w.sessions w.fired x h;
}

pub sweep_if_due-Drops : (now : ℕ) (w : World) → IsMap w.sessions → Drops now w (sweep_if_due now w)
unfolding sweep_if_due
sweep_if_due-Drops now w m =
    let d = drop_expired-Drops now (mark_swept now w) m in
    elim (Bool-cases (ltb (now - w.last_sweep) (w.ttl / 2))) [
      | inl early ↦ rw early (Drops-refl now w m)
      | inr due ↦ rw due (record {
        heap = d.heap;
        ttl = d.ttl;
        total = d.total;
        per_caller = d.per_caller;
        is_map = d.is_map;
        entry = d.entry;
        sound = d.sound;
        mono = d.mono;
      })
    ]

module _ {now : ℕ} {w w' : World} (d : Drops now w w') (k : String) where
  pub lookup-Drops_some : (x : ℕ) → lookup k w'.sessions ≡ some x → lookup k w.sessions ≡ some x
  lookup-Drops_some x h = elim (Option-cases (lookup k w.sessions)) [
    | inl e ↦ ground (arith, d.sound k e)
    | inr (y, e) ↦ ground (arith, d.entry k y e)
  ]

  -- Dropping expired entries hides no live one.
  pub lookup-Drops_live :
      (x : ℕ)
      → lookup k w.sessions ≡ some x
      → is_expired w.ttl now (w.heap x) ≡ false
      → lookup k w'.sessions ≡ some x
  lookup-Drops_live x h e = ground (arith, d.entry k x h)

  pub is_expired-Drops :
      (x : ℕ) → is_expired w'.ttl now (w'.heap x) ≡ is_expired w.ttl now (w.heap x)
  is_expired-Drops x = cc (d.heap, d.ttl)
