-- ===== src/Sched/Dispatch.antt =====
-- One round of the inner loop of `scheduler_run` in src/scheduler.c against the list of tasks.
use psw_afdx.Base.{
  ℕ, ◌<◌, ◌≡◌, ◌≢◌, ◌∙◌, true, false, none, some, [], ◌∷◌, length, Bool-cases, inl, inr, ap, sym,
}
use psw_afdx.Sched.Time.{Timespec, tm_ge}
use psw_afdx.Sched.Heap.{
  Ptr, null, Node, Memory, Sched, write, write_self, write_ne, load_lem, modify_lem,
}
use psw_afdx.Sched.{reschedule, pick, dispatch, following}
use psw_afdx.Sched.Links.{
  Entry, node_of, Items, first_or, Chain, IsQueue, SameOutside, Chain-write, not_null, is_null,
  ne_of_not_has, not_has-cons,
}
use psw_afdx.Sched.Order.{insert, insert-nil, insert-later, insert-sooner}
use psw_afdx.Sched.Insert.{insert_node_lem}
use psw_afdx.Sched.Remove.{pop-cons}

-- A task as it goes back into the queue.
abbrev pub again : Timespec → Entry → Entry
again now e = record e { next_time = following now e.next_time e.interval }

insert_at :
    (h : Memory) (before after p : Ptr) (e : Entry) (xs : Items)
    → Chain h before after (insert (p, e) xs)
    → (b : Ptr) × (a : Ptr) × (h p ≡ some (node_of e b a))
insert_at h before after p e [] c = (before, after, (rw insert-nil at c).2)
insert_at h before after p e ((q, f) ∷ xs) c = elim (Bool-cases (tm_ge e.next_time f.next_time)) [
  | inl later ↦ insert_at h q after p e xs (rw (insert-later p q e f xs later) at c).3
  | inr sooner ↦ (before, q, (rw (insert-sooner p q e f xs sooner) at c).2)
]

reschedule_lem :
    (fuel : ℕ) (now : Timespec) (s : Sched) (p : Ptr) (e : Entry) (xs : Items)
    → IsQueue s ((p, e) ∷ xs)
    → length xs < fuel
    → (t : Sched) × (reschedule fuel now s ≡ some (p, t))
      × IsQueue t (insert (p, again now e) xs)
      × SameOutside ((p, e) ∷ xs) s.memory t.memory
unfolding reschedule
reschedule_lem fuel now s p e xs v enough =
    let (ne, out, at, chain) = v.chain in
    let (t, et, is_t, same_t) = pop-cons s p e xs v in
    let n : Node = node_of e null (first_or xs null) in
    let at_t = same_t p out ∙ at in
    let e' = again now e in
    let n' : Node = node_of e' null (first_or xs null) in
    let u : Sched = record t { memory = write t.memory p (some n') } in
    let is_u : IsQueue u xs = record {
      first = is_t.first;
      last = is_t.last;
      chain = Chain-write t.memory p (some n') null null xs is_t.chain out;
    } in
    let (w, ew, is, same) =
      insert_node_lem fuel u xs p e' null (first_or xs null) is_u ne (write_self t.memory p _) out
        enough in
    (
      w,
      rw (et, load_lem t p n ne at_t, modify_lem t p n _ ne at_t, ew),
      is,
      λ c o.
          let ne_c = ne_of_not_has c p xs o in
          same c o ∙ write_ne t.memory p c _ ne_c ∙ same_t c (not_has-cons c p xs o),
    )

-- The loop ends on an empty queue, which stays as it is.
pub pick-nil :
    (fuel : ℕ) (now : Timespec) (s : Sched) → IsQueue s [] → pick fuel now s ≡ some (none, s)
unfolding pick
pick-nil fuel now s v = rw (is_null s.first v.first)

pub dispatch-nil :
    (fuel : ℕ) (now : Timespec) (s : Sched) → IsQueue s [] → dispatch fuel now s ≡ some (none, s)
unfolding dispatch
dispatch-nil fuel now s v = rw (pick-nil fuel now s v)

module _ (fuel : ℕ) (now : Timespec) (s : Sched) (p : Ptr) (e : Entry) (xs : Items)
    (v : IsQueue s ((p, e) ∷ xs)) where
  first_is : (s.first ≢ null) × (s.memory s.first ≡ some (node_of e null (first_or xs null)))
  first_is = (λ h. v.chain.0 (sym v.first ∙ h), ap s.memory v.first ∙ v.chain.2)

  -- It ends if the first task is not due, and changes nothing then.
  pub pick-early : tm_ge now e.next_time ≡ false → pick fuel now s ≡ some (none, s)
  unfolding pick
  pick-early early =
      let (ne, at) = first_is in
      rw (not_null s.first ne, load_lem s s.first (node_of e null (first_or xs null)) ne at, early)

  pub dispatch-early : tm_ge now e.next_time ≡ false → dispatch fuel now s ≡ some (none, s)
  unfolding dispatch
  dispatch-early early = rw (pick-early early)

  -- If the first task is due, one round puts it back at its next time; only nodes of the queue are
  -- written.
  pub pick-due :
      tm_ge now e.next_time ≡ true
      → length xs < fuel
      → (t : Sched) × (pick fuel now s ≡ some (some p, t))
        × IsQueue t (insert (p, again now e) xs)
        × SameOutside ((p, e) ∷ xs) s.memory t.memory
  unfolding pick
  pick-due due enough =
      let (ne, at) = first_is in
      let (t, et, is, same) = reschedule_lem fuel now s p e xs v enough in
      (
        t,
        rw (
          not_null s.first ne,
          load_lem s s.first (node_of e null (first_or xs null)) ne at,
          due,
          et,
        ),
        is,
        same,
      )

  -- Without another thread in between, the call is the one of that task.
  pub dispatch-due :
      tm_ge now e.next_time ≡ true
      → length xs < fuel
      → (t : Sched) × (dispatch fuel now s ≡ some (some (e.action, e.arg), t))
        × IsQueue t (insert (p, again now e) xs)
        × SameOutside ((p, e) ∷ xs) s.memory t.memory
  unfolding dispatch
  dispatch-due due enough =
      let (t, et, is, same) = pick-due due enough in
      let (b, a, at) = insert_at t.memory null null p (again now e) xs is.chain in
      (t, rw et (rw (load_lem t p (node_of (again now e) b a) v.chain.0 at)), is, same)
