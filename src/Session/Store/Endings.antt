-- ===== src/Session/Store/Endings.antt =====
-- mcp/session.rs: a session that leaves the store has been ended, whichever operation took it out.
use dravr_tronc.Common.{
  ℕ, ◌≡◌, ◌≢◌, ap, sym, ◌∙◌, ◌⊎◌, inl, inr, true, Option, none, some, String, arith, string_eq,
  nat_eq, Bool-cases, Option-cases, leb,
}
use dravr_tronc.Common.Lists.{length}
use dravr_tronc.Common.Assoc.{lookup, insert as put, IsMap, lookup-insert}
use dravr_tronc.Session.{ToolContext, is_expired, is_owned_by}
use dravr_tronc.Session.Store.{
  World, Heap, Census, place, make_room, insert_swept, insert, drop_expired, sweep_if_due, keep,
  remove_and_end, find, find_swept, enter, enter_swept, end,
}
use dravr_tronc.Session.Store.Sweep.{Drops, drop_expired-Drops, sweep_if_due-Drops}
use dravr_tronc.Session.Store.Eviction.{
  remove_and_end_keeps, remove_and_end_fires, remove_and_end-IsMap,
}

-- From `w` to `w'` every listed session stays listed or was ended, but for an entry under the id
-- `id`, which a new session may take; and no token that fired is reset.
pub record Ends (id : Option String) (w w' : World) : Type 0 where
  pub entry :
      (k : String) (x : ℕ)
      → id ≢ some k
      → lookup k w.sessions ≡ some x
      → (lookup k w'.sessions ≡ some x) ⊎ (w'.fired x ≡ true)
  pub mono : (x : ℕ) → w.fired x ≡ true → w'.fired x ≡ true

Ends-refl : (id : Option String) (w : World) → Ends id w w
Ends-refl id w = record { entry = λ k x n l. inl l; mono = λ x h. h }

Ends-trans : {id : Option String} {u v w : World} → Ends id u v → Ends id v w → Ends id u w
Ends-trans a b = record {
  entry = λ k x n l. elim (a.entry k x n l) [
    | inl kept ↦ b.entry k x n kept
    | inr fired ↦ inr (b.mono x fired)
  ];
  mono = λ x h. b.mono x (a.mono x h);
}

Drops-Ends : {now : ℕ} {w w' : World} (id : Option String) → Drops now w w' → Ends id w w'
Drops-Ends id d = record {
  entry = λ k x n l. elim (d.entry k x l) [ inl kept ↦ inl kept | inr gone ↦ inr gone.1 ];
  mono = d.mono;
}

remove_and_end_mono :
    (k : String) (w : World) (x : ℕ) → w.fired x ≡ true → (remove_and_end k w).fired x ≡ true
unfolding remove_and_end
remove_and_end_mono k w x h = ground arith

remove_and_end-Ends :
    (id : Option String) (key : String) (w : World) → Ends id w (remove_and_end key w)
remove_and_end-Ends id key w = record {
  entry = λ k x n l. elim (Bool-cases (string_eq.same key k)) [
    | inl hit ↦ inr (rw ((string_eq.same_iff key k).0 hit) (remove_and_end_fires k w x l))
    | inr miss ↦
        inl (remove_and_end_keeps key w k x l (λ same. ground (arith, string_eq.same_iff key k)))
  ];
  mono = remove_and_end_mono key w;
}

put-Ends : (id : String) (r : ℕ) (w : World) → Ends (some id) w (keep w (put id r w.sessions))
put-Ends id r w = record {
  entry = λ k x n l. inl (ground (arith, lookup-insert id k r w.sessions, string_eq.same_iff id k));
  mono = λ x h. h;
}

place-Ends :
    (id : String) (now r : ℕ) (w : World) → IsMap w.sessions → Ends (some id) w (place id now r w).0
unfolding place
place-Ends id now r w m =
    let w' = drop_expired now w in
    let dropped = Drops-Ends (some id) (drop_expired-Drops now w m) in
    elim (Bool-cases (leb w.total (length w.sessions))) [
      | inr room ↦ rw room (put-Ends id r w)
      | inl full ↦ rw full (elim (Bool-cases (leb w.total (length w'.sessions))) [
        | inl still ↦ rw still dropped
        | inr room ↦ rw room (Ends-trans dropped (put-Ends id r w'))
      ])
    ]

make_room-Ends :
    (id : String) (now r : ℕ) (w : World) (c : Census)
    → IsMap w.sessions
    → Ends (some id) w (make_room id now r w c).0
unfolding make_room
make_room-Ends id now r w c m = elim (Bool-cases (leb w.per_caller c.theirs)) [
  | inr room ↦ rw room (place-Ends id now r w m)
  | inl full ↦ rw full (elim (Option-cases c.least_recent) [
    | inl busy ↦ rw busy (Ends-refl _ w)
    | inr ((seen, key), named) ↦ rw named (
        Ends-trans (remove_and_end-Ends (some id) key w)
          (place-Ends id now r (remove_and_end key w) (remove_and_end-IsMap key w m)))
  ])
]

-- Every session that an insert takes out of the store was ended.
pub insert-Ends :
    (now r : ℕ) (w : World) → IsMap w.sessions → Ends (w.heap r).id w (insert now r w).0
unfolding insert insert_swept
insert-Ends now r w m =
    let v = sweep_if_due now w in
    let d = sweep_if_due-Drops now w m in
    elim (Option-cases (v.heap r).id) [
      | inl anonymous ↦ rw (anonymous, insert_swept) (Drops-Ends _ d)
      | inr (id, named) ↦ rw (ap (λ (f : Heap). (f r).id) (sym d.heap) ∙ named) (
          rw (named, insert_swept)
            (Ends-trans (Drops-Ends _ d) (make_room-Ends id now r v _ d.is_map)))
    ]

-- Every session that `find` takes out of the store was ended.
pub find-Ends :
    (now : ℕ) (id : String) (w : World) → IsMap w.sessions → Ends none w (find now id w).0
unfolding find find_swept
find-Ends now id w m =
    let v = sweep_if_due now w in
    let dropped = Drops-Ends none (sweep_if_due-Drops now w m) in
    elim (Option-cases (lookup id v.sessions)) [
      | inl missing ↦ rw (missing, find_swept) dropped
      | inr (x, found) ↦ elim (Bool-cases (is_expired v.ttl now (v.heap x))) [
        | inl old ↦ rw (found, find_swept, old) (Ends-trans dropped (remove_and_end-Ends none id v))
        | inr live ↦ rw (found, find_swept, live) dropped
      ]
    ]

-- Every session that `enter` takes out of the store was ended.
pub enter-Ends :
    (now : ℕ) (id : String) (ctx : ToolContext) (w : World)
    → IsMap w.sessions
    → Ends none w (enter now id ctx w).0
unfolding enter enter_swept
enter-Ends now id ctx w m =
    let v = sweep_if_due now w in
    let dropped = Drops-Ends none (sweep_if_due-Drops now w m) in
    elim (Option-cases (lookup id v.sessions)) [
      | inl missing ↦ rw (missing, enter_swept) dropped
      | inr (x, found) ↦ elim (Bool-cases (is_expired v.ttl now (v.heap x))) [
        | inl old ↦
            rw (found, enter_swept, old) (Ends-trans dropped (remove_and_end-Ends none id v))
        | inr live ↦ elim (Bool-cases (is_owned_by ctx (v.heap x))) [
          | inl own ↦
              rw (found, enter_swept, live, own)
                (record { entry = dropped.entry; mono = dropped.mono })
          | inr other ↦ rw (found, enter_swept, live, other) dropped
        ]
      ]
    ]

-- Every session that a client's `end` takes out of the store was ended.
pub end-Ends : (id : String) (w : World) → Ends none w (end id w).0
unfolding end
end-Ends id w = elim (Option-cases (lookup id w.sessions)) [
  | inl missing ↦ rw (missing, end) (Ends-refl none w)
  | inr (x, found) ↦ rw (found, end) (remove_and_end-Ends none id w)
]
