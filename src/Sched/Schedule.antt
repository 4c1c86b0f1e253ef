-- ===== src/Sched/Schedule.antt =====
-- `schedule_ts` and `schedule` of src/scheduler.c.
use psw_afdx.Base.{
  ℕ, ◌<◌, ◌≡◌, ◌≢◌, refl, ◌∙◌, ◌↔◌, ◌⊎◌, Bool, true, false, not, none, some, [], ◌∷◌, ◌==◌, arith,
  length, Bool-cases, inl, inr,
}
use psw_afdx.Sched.Time.{Timespec, tm_ge, tm_incr}
use psw_afdx.Sched.Heap.{Ptr, null, Node, Sched, write, write_self, write_ne, malloc}
use psw_afdx.Sched.{schedule_ts}
use psw_afdx.Sched.Links.{
  Entry, node_of, Items, has, first_or, IsQueue, SameOutside, Chain-write, not_null, ne_of_not_has,
  not_has_of_none,
}
use psw_afdx.Sched.Order.{insert}
use psw_afdx.Sched.Insert.{insert_node_lem}

-- The task that `schedule_ts` makes.
abbrev pub new_entry : (now : Timespec) → (action arg : ℕ) → (interval : Timespec) → Entry
new_entry now action arg interval = record {
  interval = interval;
  next_time = tm_incr now interval;
  action = action;
  arg = arg;
}

-- With no memory, `schedule_ts` changes nothing, and the process exits.
pub schedule_ts-null :
    (fuel : ℕ) (junk : Node) (now : Timespec) (action arg : ℕ) (interval : Timespec) (s : Sched)
    → schedule_ts fuel null junk now action arg interval s ≡ some (none, s)
unfolding schedule_ts
schedule_ts-null fuel junk now action arg interval s = refl

first_or-insert :
    (p : Ptr) (e : Entry) (xs : Items)
    → (first_or (insert (p, e) xs) null ≡ p) ⊎ (first_or (insert (p, e) xs) null ≡ first_or xs null)
unfolding insert
first_or-insert p e [] = inl refl
first_or-insert p e ((q, f) ∷ xs) = elim (Bool-cases (tm_ge e.next_time f.next_time)) [
  | inl later ↦ inr (rw later)
  | inr sooner ↦ inl (rw sooner)
]

ne-first_or : (p : Ptr) (xs : Items) → p ≢ null → has p xs ≡ false → p ≢ first_or xs null
ne-first_or p [] ne out = ne
ne-first_or p ((q, f) ∷ xs) ne out = ground arith

signal_lem :
    (p old new a b : Ptr)
    → a ≡ new
    → b ≡ old
    → p ≢ old
    → (new ≡ p) ⊎ (new ≡ old)
    → (not (a == b) ≡ true) ↔ (new ≡ p)
signal_lem p old new a b ea eb ne (inl e) = (λ h. e, λ h. ground arith)
signal_lem p old new a b ea eb ne (inr e) = (λ h. ground arith, λ h. ground arith)

-- With memory, `schedule_ts` ends, given more rounds than there are tasks: the task that is due one
-- interval from now is in the queue, the handler is its node, the condition is signalled exactly
-- if it is now the first, and nothing but the nodes of the queue and the new one is written.
pub schedule_ts_lem :
    (fuel : ℕ) (fresh : Ptr) (junk : Node) (now : Timespec) (action arg : ℕ) (interval : Timespec)
    (s : Sched) (xs : Items)
    → IsQueue s xs
    → fresh ≢ null
    → s.memory fresh ≡ none
    → length xs < fuel
    → let e = new_entry now action arg interval in
      (t : Sched) × (signalled : Bool) × (schedule_ts fuel fresh junk now action arg interval s
        ≡ some (some (fresh, signalled), t))
      × ((signalled ≡ true) ↔ (first_or (insert (fresh, e) xs) null ≡ fresh))
      × IsQueue t (insert (fresh, e) xs)
      × SameOutside ((fresh, e) ∷ xs) s.memory t.memory
unfolding schedule_ts malloc
schedule_ts_lem fuel fresh junk now action arg interval s xs v ne unused enough =
    let e = new_entry now action arg interval in
    let n : Node = node_of e junk.prev junk.next in
    let s' : Sched = record s { memory = write s.memory fresh (some n) } in
    let out = not_has_of_none s.memory null null xs fresh v.chain unused in
    let v' : IsQueue s' xs = record {
      first = v.first;
      last = v.last;
      chain = Chain-write s.memory fresh (some n) null null xs v.chain out;
    } in
    let (t, et, is, same) =
      insert_node_lem fuel s' xs fresh e junk.prev junk.next v' ne (write_self s.memory fresh _) out
        enough in
    (
      t,
      not (t.first == s.first),
      rw (not_null fresh ne, et),
      signal_lem fresh _ _ t.first s.first is.first v.first (ne-first_or fresh xs ne out)
          (first_or-insert fresh e xs),
      is,
      λ a o. same a o ∙ write_ne s.memory fresh a _ (ne_of_not_has a fresh xs o),
    )
