-- ===== src/Session/Store/Frames.antt =====
-- mcp/session.rs: what the operations leave alone: the sessions themselves, and the other entries.
use dravr_tronc.Common.{
  ℕ, ◌≡◌, ap, ◌∙◌, ◌⊎◌, inl, inr, false, Option, none, some, String, arith, string_eq, nat_eq,
  if◌then◌else◌, Bool-cases, Option-cases, leb, ◌==◌,
}
use dravr_tronc.Common.Assoc.{lookup, IsMap, lookup-insert, lookup-without}
use dravr_tronc.Session.{ToolContext, begin_use, is_expired, is_owned_by}
use dravr_tronc.Session.Store.{
  World, Heap, Census, place, make_room, insert_swept, insert, drop_expired, sweep_if_due,
  remove_and_end, find, find_swept, enter, enter_swept, end,
}
use dravr_tronc.Session.Store.Sweep.{
  drop_expired-Drops, sweep_if_due-Drops, lookup-Drops_some, lookup-Drops_live, is_expired-Drops,
}
use dravr_tronc.Session.Store.Eviction.{remove_and_end_keeps, remove_and_end-IsMap}

heap-remove_and_end : (k : String) (w : World) → (remove_and_end k w).heap ≡ w.heap
unfolding remove_and_end
heap-remove_and_end k w = ground arith

heap-place : (id : String) (now r : ℕ) (w : World) → (place id now r w).0.heap ≡ w.heap
unfolding place drop_expired
heap-place id now r w = ground arith

heap-make_room :
    (id : String) (now r : ℕ) (w : World) (c : Census) → (make_room id now r w c).0.heap ≡ w.heap
unfolding make_room
heap-make_room id now r w c = elim (Option-cases c.least_recent) [
  | inl busy ↦ rw (busy, make_room) (ground (arith, heap-place id now r w))
  | inr ((seen, key), named) ↦
      rw (named, make_room)
        (ground (
          arith,
          heap-place id now r w,
          heap-place id now r (remove_and_end key w),
          heap-remove_and_end key w,
        ))
]

pub heap-insert : (now r : ℕ) (w : World) → IsMap w.sessions → (insert now r w).0.heap ≡ w.heap
unfolding insert insert_swept
heap-insert now r w m =
    let v = sweep_if_due now w in
    let same = (sweep_if_due-Drops now w m).heap in
    elim (Option-cases (v.heap r).id) [
      | inl anonymous ↦ rw (anonymous, insert_swept) same
      | inr (id, named) ↦ rw (named, insert_swept) (heap-make_room id now r v _ ∙ same)
    ]

pub heap-find :
    (now : ℕ) (id : String) (w : World) → IsMap w.sessions → (find now id w).0.heap ≡ w.heap
unfolding find find_swept
heap-find now id w m =
    ground (arith, (sweep_if_due-Drops now w m).heap, heap-remove_and_end id (sweep_if_due now w))

pub find_keeps :
    (now : ℕ) (id : String) (w : World) (k : String) (x : ℕ)
    → IsMap w.sessions
    → lookup k w.sessions ≡ some x
    → is_expired w.ttl now (w.heap x) ≡ false
    → lookup k (find now id w).0.sessions ≡ some x
unfolding find find_swept
find_keeps now id w k x m l e =
    let v = sweep_if_due now w in
    let d = sweep_if_due-Drops now w m in
    ground (
      arith,
      lookup-Drops_live d k x l e,
      is_expired-Drops d k x,
      remove_and_end_keeps id v k x,
      string_eq.same_iff id k,
    )

pub enter_keeps :
    (now : ℕ) (id : String) (ctx : ToolContext) (w : World) (k : String) (x : ℕ)
    → IsMap w.sessions
    → lookup k w.sessions ≡ some x
    → is_expired w.ttl now (w.heap x) ≡ false
    → lookup k (enter now id ctx w).0.sessions ≡ some x
unfolding enter enter_swept
enter_keeps now id ctx w k x m l e =
    let v = sweep_if_due now w in
    let d = sweep_if_due-Drops now w m in
    ground (
      arith,
      lookup-Drops_live d k x l e,
      is_expired-Drops d k x,
      remove_and_end_keeps id v k x,
      string_eq.same_iff id k,
    )

-- What an entry is after an operation it was before, but for the inserted one.
remove_and_end_sound :
    (key : String) (w : World) (k : String) (x : ℕ)
    → lookup k (remove_and_end key w).sessions ≡ some x
    → lookup k w.sessions ≡ some x
unfolding remove_and_end
remove_and_end_sound key w k x l = ground (arith, lookup-without key k w.sessions)

place_listed :
    (id : String) (now r : ℕ) (w : World) (k : String) (x : ℕ)
    → IsMap w.sessions
    → lookup k (place id now r w).0.sessions ≡ some x
    → (lookup k w.sessions ≡ some x) ⊎ (x ≡ r)
unfolding place
place_listed id now r w k x m l = ground (
  arith,
  lookup-Drops_some (drop_expired-Drops now w m) k x,
  lookup-insert id k r w.sessions,
  lookup-insert id k r (drop_expired now w).sessions,
)

make_room_listed :
    (id : String) (now r : ℕ) (w : World) (c : Census) (k : String) (x : ℕ)
    → IsMap w.sessions
    → lookup k (make_room id now r w c).0.sessions ≡ some x
    → (lookup k w.sessions ≡ some x) ⊎ (x ≡ r)
unfolding make_room
make_room_listed id now r w c k x m l = elim (Bool-cases (leb w.per_caller c.theirs)) [
  | inr room ↦ place_listed id now r w k x m (rw room at l)
  | inl full ↦ elim (Option-cases c.least_recent) [
    | inl busy ↦ inl (rw busy at (rw full at l))
    | inr ((seen, key), named) ↦
        let v = remove_and_end key w in
        elim (place_listed id now r v k x (remove_and_end-IsMap key w m)
          (rw named at (rw full at l))) [
            | inl before ↦ inl (remove_and_end_sound key w k x before)
            | inr new ↦ inr new
          ]
  ]
]

pub insert_listed :
    (now r : ℕ) (w : World) (k : String) (x : ℕ)
    → IsMap w.sessions
    → lookup k (insert now r w).0.sessions ≡ some x
    → (lookup k w.sessions ≡ some x) ⊎ (x ≡ r)
unfolding insert insert_swept
insert_listed now r w k x m l =
    let v = sweep_if_due now w in
    let d = sweep_if_due-Drops now w m in
    elim (Option-cases (v.heap r).id) [
      | inl anonymous ↦ inl (lookup-Drops_some d k x (rw (anonymous, insert_swept) at l))
      | inr (id, named) ↦
          elim (make_room_listed id now r v _ k x d.is_map (rw (named, insert_swept) at l)) [
            | inl before ↦ inl (lookup-Drops_some d k x before)
            | inr new ↦ inr new
          ]
    ]

pub find_sound :
    (now : ℕ) (id : String) (w : World) (k : String) (x : ℕ)
    → IsMap w.sessions
    → lookup k (find now id w).0.sessions ≡ some x
    → lookup k w.sessions ≡ some x
unfolding find find_swept
find_sound now id w k x m l =
    let v = sweep_if_due now w in
    ground
      (arith, lookup-Drops_some (sweep_if_due-Drops now w m) k x, remove_and_end_sound id v k x)

pub enter_sound :
    (now : ℕ) (id : String) (ctx : ToolContext) (w : World) (k : String) (x : ℕ)
    → IsMap w.sessions
    → lookup k (enter now id ctx w).0.sessions ≡ some x
    → lookup k w.sessions ≡ some x
unfolding enter enter_swept
enter_sound now id ctx w k x m l =
    let v = sweep_if_due now w in
    ground
      (arith, lookup-Drops_some (sweep_if_due-Drops now w m) k x, remove_and_end_sound id v k x)

pub end_sound :
    (id : String) (w : World) (k : String) (x : ℕ)
    → lookup k (end id w).0.sessions ≡ some x
    → lookup k w.sessions ≡ some x
unfolding end
end_sound id w k x l = ground (arith, remove_and_end_sound id w k x)

pub heap-end : (id : String) (w : World) → (end id w).0.heap ≡ w.heap
unfolding end
heap-end id w = ground (arith, heap-remove_and_end id w)

-- `enter` counts one more request in the session that it returns.
abbrev pub entered : Option ℕ → Heap → Heap
entered none heap = heap
entered (some r) heap = λ x. if x == r then begin_use (heap r) else heap x

pub heap-enter :
    (now : ℕ) (id : String) (ctx : ToolContext) (w : World)
    → IsMap w.sessions
    → (enter now id ctx w).0.heap ≡ entered (enter now id ctx w).1 w.heap
unfolding enter enter_swept
heap-enter now id ctx w m =
    let v = sweep_if_due now w in
    let same = (sweep_if_due-Drops now w m).heap in
    elim (Option-cases (lookup id v.sessions)) [
      | inl missing ↦ rw (missing, enter_swept) same
      | inr (x, found) ↦ elim (Bool-cases (is_expired v.ttl now (v.heap x))) [
        | inl old ↦ rw (found, enter_swept, old) (heap-remove_and_end id v ∙ same)
        | inr live ↦ elim (Bool-cases (is_owned_by ctx (v.heap x))) [
          | inl own ↦ rw (found, enter_swept, live, own) (ap (entered (some x)) same)
          | inr other ↦ rw (found, enter_swept, live, other) same
        ]
      ]
    ]
